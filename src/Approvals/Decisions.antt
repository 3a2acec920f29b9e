-- ===== src/Approvals/Decisions.antt =====
-- How often a revision is decided on, and a proposal published.
use e_commerec_operations.Approvals.Actions.{
  Call, Library, Written, has_terminal, in_state, perform_action,
}
use e_commerec_operations.Approvals.Approved.{Approved, approval_action}
use e_commerec_operations.Approvals.Changes.{approve-Change}
use e_commerec_operations.Approvals.Context.{Context}
use e_commerec_operations.Approvals.Output.{OptimizationOutput}
use e_commerec_operations.Approvals.Publish.{
  Approval, Published, approve_proposal, is_publication_for, new_publication, publish,
}
use e_commerec_operations.Approvals.Steps.{
  ApprovalReach, ApprovalReach_induction, ApprovalStep, approved, delivered, elsewhere, performed,
}
use e_commerec_operations.Approvals.Tables.{
  ApprovalAction, ApprovalActionType, ApprovalDb, Publication, is_terminal,
}
use e_commerec_operations.Approvals.Trail.{is_terminal_on}
use e_commerec_operations.Approvals.Written.{
  Performed, Performed-Kept, Performed-actions, perform-Change, written_action,
}
use e_commerec_operations.Base.{
  ==_iff, All, All-map, Bool, Bool-cases, IsKeyed, List, [], ap, arith, exists_where, false,
  false≢true, find?-missing, inl, inr, length, ok, refl, select_where, subst, sym, true, ℕ, ◌∙◌,
  ◌∷◌, ◌≡◌, ◌≢◌, ◌≤◌,
}

abbrev pub decisions : ℕ → ℕ → ApprovalDb → List ApprovalAction
decisions p r db = select_where (is_terminal_on p r) db.actions

abbrev publication_proposal : Publication → ℕ
publication_proposal p = p.proposal_id

-- Each revision has at most one action that ends its review, each proposal at most one publication.
pub record IsDecidedOnce (db : ApprovalDb) : Type 0 where
  pub once : (p r : ℕ) → length (decisions p r db) ≤ 1
  pub published_once : IsKeyed publication_proposal db.publications

pub none-selected :
    {A : Type 0} (p : A → Bool) (xs : List A) → exists_where p xs ≡ false → select_where p xs ≡ []
unfolding exists_where select_where
none-selected p [] e = refl
none-selected p (x ∷ xs) e = elim (Bool-cases (p x)) [
  | inl t ↦ absurd (false≢true (sym e ∙ rw t))
  | inr f ↦ rw f (none-selected p xs (rw f at e))
]

-- An action is added, that ends a review only when none has.
add-once :
    (a : ApprovalAction) (actions : List ApprovalAction)
    → (is_terminal a.action ≡ true
        → exists_where (is_terminal_on a.proposal_id a.proposal_revision_id) actions ≡ false)
    → ((p r : ℕ) → length (select_where (is_terminal_on p r) actions) ≤ 1)
    → (p r : ℕ) → length (select_where (is_terminal_on p r) (a ∷ actions)) ≤ 1
unfolding select_where
add-once a actions first h p r = elim (Bool-cases (is_terminal_on p r a)) [
  | inr f ↦ rw f (h p r)
  | inl t ↦
      let at_p : a.proposal_id ≡ p = ground arith in
      let at_r : a.proposal_revision_id ≡ r = ground arith in
      let ends : is_terminal a.action ≡ true = ground arith in
      let nothing_yet : select_where (is_terminal_on p r) actions ≡ [] =
        none-selected (is_terminal_on p r) actions (rw (at_p, at_r) at first ends) in
      rw (t, nothing_yet) (omega arith)
]

pub terminal-first :
    (type : ApprovalActionType) (c : Context) (db : ApprovalDb)
    → in_state type c db ≡ ok tt
    → is_terminal type ≡ true
    → has_terminal c db ≡ false
unfolding in_state
terminal-first ApprovalActionType.submit c db e t = absurd (false≢true t)
terminal-first ApprovalActionType.approve c db e t = ground arith
terminal-first ApprovalActionType.reject c db e t = ground arith
terminal-first ApprovalActionType.request_changes c db e t = ground arith

module _ (lib : Library) where
  Kept-once :
      (db db' : ApprovalDb)
      → db'.actions ≡ db.actions
      → db'.publications ≡ db.publications
      → IsDecidedOnce db
      → IsDecidedOnce db'
  Kept-once db db' actions publications h = record {
    once = λ p r.
        subst (λ (l : List ApprovalAction). length (select_where (is_terminal_on p r) l) ≤ 1)
          (sym actions) (h.once p r);
    published_once = rw publications h.published_once;
  }

  Performed-once :
      (type : ApprovalActionType) (call : Call) (db : ApprovalDb) (result : Written)
      (db' : ApprovalDb)
      → Performed lib type call db result db'
      → IsDecidedOnce db
      → IsDecidedOnce db'
  Performed-once type call db result db' m h =
      let a = written_action lib type call m.context m.key_hash in
      let kept = Performed-Kept lib type call db result db' m in
      let first = terminal-first type m.context db m.checked.state in
      record {
        once = λ p r.
            subst (λ (l : List ApprovalAction). length (select_where (is_terminal_on p r) l) ≤ 1)
              (sym (Performed-actions lib type call db result db' m))
              (add-once a db.actions first h.once p r);
        published_once = rw kept.publications h.published_once;
      }

  Approved-parts :
      (call : Approval) (db : ApprovalDb) (result : Published) (db' : ApprovalDb)
      (m : Approved lib call db result db')
      → (db'.actions ≡ approval_action lib call m.context m.key_hash ∷ db.actions)
        × (db'.publications
            ≡ new_publication lib call m.context
                (approval_action lib call m.context m.key_hash)
                m.output
              ∷ db.publications)
  unfolding publish
  Approved-parts call db result db' m = (
    ap (λ (x : ApprovalDb). x.actions) m.checked.written,
    ap (λ (x : ApprovalDb). x.publications) m.checked.written,
  )

  publication-proposal :
      (call : Approval) (c : Context) (a : ApprovalAction) (o : OptimizationOutput)
      → (new_publication lib call c a o).proposal_id ≡ c.proposal.id
  unfolding new_publication
  publication-proposal call c a o = refl

  Approved-once :
      (call : Approval) (db : ApprovalDb) (result : Published) (db' : ApprovalDb)
      → Approved lib call db result db'
      → IsDecidedOnce db
      → IsDecidedOnce db'
  Approved-once call db result db' m h =
      let a = approval_action lib call m.context m.key_hash in
      let p = new_publication lib call m.context a m.output in
      let (actions, publications) = Approved-parts call db result db' m in
      let at_proposal = publication-proposal call m.context a m.output in
      let fresh : All (λ q. publication_proposal q ≢ publication_proposal p) db.publications =
        All-map (λ q. is_publication_for m.context.proposal.id q ≡ false)
          (λ q. publication_proposal q ≢ publication_proposal p)
          (λ q f same. absurd (
            false≢true
              (sym f ∙ (==_iff q.proposal_id m.context.proposal.id).1 (same ∙ at_proposal))))
          db.publications
          (find?-missing (is_publication_for m.context.proposal.id) db.publications
            m.unpublished) in
      record {
        once = λ q r.
            subst (λ (l : List ApprovalAction). length (select_where (is_terminal_on q r) l) ≤ 1)
              (sym actions) (add-once a db.actions (λ t. m.checked.first) h.once q r);
        published_once = rw publications (fresh, h.published_once);
      }

  step-once : (db db' : ApprovalDb) → ApprovalStep lib db db' → IsDecidedOnce db → IsDecidedOnce db'
  step-once db db' (performed type call) h =
      let db₁ = (perform_action lib type call db).1 in
      elim (perform-Change lib type call db) [
        | inl same ↦ Kept-once db db₁ same.actions same.kept.publications h
        | inr (result, m) ↦ Performed-once type call db result db₁ m h
      ]
  step-once db db' (approved call fresh) h =
      let db₁ = (approve_proposal lib call db).1 in
      elim (approve-Change lib call db) [
        | inl same ↦ Kept-once db db₁ same.actions same.kept.publications h
        | inr (result, m) ↦ Approved-once call db result db₁ m h
      ]
  step-once db db' (delivered queue st records) h =
      Kept-once db (record db { queue = queue }) refl refl h
  step-once db db' (elsewhere queue products actions publications) h =
      Kept-once db db' actions publications h

  -- In every run from empty tables of actions and publications, whatever the other modules do to the
  -- proposals and their runs, each revision has at most one action that approves, rejects or returns it,
  -- and each proposal at most one publication.
  pub ApprovalReach-IsDecidedOnce :
      (start db : ApprovalDb)
      → start.actions ≡ []
      → start.publications ≡ []
      → ApprovalReach lib start db
      → IsDecidedOnce db
  unfolding select_where
  ApprovalReach-IsDecidedOnce start db no_actions no_publications r =
      ApprovalReach_induction lib IsDecidedOnce start
        (record {
          once = λ p q.
              subst (λ (l : List ApprovalAction). length (select_where (is_terminal_on p q) l) ≤ 1)
                (sym no_actions) (omega arith);
          published_once = rw no_publications tt;
        })
        step-once r
