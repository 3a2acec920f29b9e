-- ===== src/Approvals/Replays.antt =====
-- A call that is sent again with its key, after it has written its action.
use e_commerec_operations.Accounts.{same_role}
use e_commerec_operations.Approvals.Actions.{Call, Library, moved_run, new_event, write}
use e_commerec_operations.Approvals.Context.{Context}
use e_commerec_operations.Approvals.Restored.{after_action, moved_proposal-parts}
use e_commerec_operations.Approvals.Tables.{
  ApprovalAction, ApprovalActionType, ApprovalDb, ProposalEvent, is_key_of, is_submit, is_terminal,
  same_action, same_comment,
}
use e_commerec_operations.Approvals.Trail.{
  action_details, event_matches, event_type_of, is_event_of, is_submit_on, is_terminal_on,
  matching_audit, same_details, submits, terminals, the_only, valid_stored_action,
}
use e_commerec_operations.Approvals.Written.{written_action}
use e_commerec_operations.Base.{
  All, All-map, Bool, Bool-cases, List, Option, String, [], ap, arith, false, if◌then◌else◌, inl,
  inr, none, refl, select_where, some, str_eq_refl, subst, sym, true, ℕ, ◌++◌, ◌==◌, ◌∙◌, ◌∷◌, ◌≡◌,
}
use e_commerec_operations.Common.{UserRole}

select-append :
    {A : Type 0} (p : A → Bool) (xs : List A) (x : A)
    → select_where p (xs ++ x ∷ [])
      ≡ (if p x then select_where p xs ++ x ∷ [] else select_where p xs)
unfolding select_where
select-append p [] x = elim (Bool-cases (p x)) [ inl t ↦ rw t refl | inr f ↦ rw f refl ]
select-append p (y ∷ ys) x =
    let tail = select-append p ys x in
    elim (Bool-cases (p x)) [
      | inl t ↦ elim (Bool-cases (p y)) [
        | inl u ↦ rw (t, u) (ap (λ l. y ∷ l) (rw t at tail))
        | inr g ↦ rw (t, g) (rw t at tail)
      ]
      | inr f ↦ elim (Bool-cases (p y)) [
        | inl u ↦ rw (f, u) (ap (λ l. y ∷ l) (rw f at tail))
        | inr g ↦ rw (f, g) (rw f at tail)
      ]
    ]

select-none :
    {A : Type 0} (p : A → Bool) (xs : List A) → All (λ x. p x ≡ false) xs → select_where p xs ≡ []
unfolding select_where
select-none p [] h = refl
select-none p (x ∷ xs) (f, h) = rw f (select-none p xs h)

pub same_role_refl : (r : UserRole) → same_role r r ≡ true
same_role_refl UserRole.operator = refl
same_role_refl UserRole.supervisor = refl
same_role_refl UserRole.admin = refl

pub same_action_refl : (a : ApprovalActionType) → same_action a a ≡ true
same_action_refl ApprovalActionType.submit = refl
same_action_refl ApprovalActionType.approve = refl
same_action_refl ApprovalActionType.reject = refl
same_action_refl ApprovalActionType.request_changes = refl

pub same_comment_refl : (o : Option String) → same_comment o o ≡ true
same_comment_refl none = refl
same_comment_refl (some s) = str_eq_refl s

pub same_details_refl :
    (type : ApprovalActionType) → same_details (action_details type) (action_details type) ≡ true
same_details_refl ApprovalActionType.submit = refl
same_details_refl ApprovalActionType.approve = refl
same_details_refl ApprovalActionType.reject = refl
same_details_refl ApprovalActionType.request_changes = refl

event_type-own :
    (type : ApprovalActionType) (i : ℕ) (e : ProposalEvent)
    → e.event_type ≡ event_type_of type
    → e.approval_action_id ≡ some i
    → is_event_of (event_type_of type) i e ≡ true
event_type-own ApprovalActionType.submit i e t k = ground arith
event_type-own ApprovalActionType.approve i e t k = ground arith
event_type-own ApprovalActionType.reject i e t k = ground arith
event_type-own ApprovalActionType.request_changes i e t k = ground arith

module _ (lib : Library) (type : ApprovalActionType) (call : Call) (c : Context) (key_hash : String)
    (db : ApprovalDb) where
  unfoldable pub stored_action : ApprovalAction
  stored_action = written_action lib type call c key_hash

  own_event : ProposalEvent
  unfolding stored_action
  own_event = new_event c stored_action (event_type_of type) none (action_details type)

  own-matches :
      event_matches
        (after_action type c)
        stored_action
        stored_action.proposal_revision_id
        none
        (action_details stored_action.action)
        own_event
      ≡ true
  unfolding stored_action own_event
  own-matches =
      let (same_id, same_store, same_product, same_run, same_base) =
        moved_proposal-parts type c.revision.id c.proposal in
      let role = same_role_refl c.actor.role in
      let details = same_details_refl type in
      let store : (c.store.id == c.store.id) ≡ true = ground arith in
      let proposal : (c.proposal.id == c.proposal.id) ≡ true = ground arith in
      let revision : (c.revision.id == c.revision.id) ≡ true = ground arith in
      let run : (c.run.id == c.run.id) ≡ true = ground arith in
      let actor : (c.actor.id == c.actor.id) ≡ true = ground arith in
      rw (same_id, store, proposal, revision, run, actor, role, details) refl

  pub own-audit :
      All (λ e. is_key_of call.action_id e.approval_action_id ≡ false) db.events
      → matching_audit (after_action type c) stored_action none (write type c stored_action db)
        ≡ true
  unfolding stored_action own_event matching_audit write the_only
  own-audit fresh =
      let p = is_event_of (event_type_of type) call.action_id in
      let others = select-none p db.events (
        All-map (λ e. is_key_of call.action_id e.approval_action_id ≡ false) (λ e. p e ≡ false)
          (λ e f. ground arith) db.events fresh) in
      let found = event_type-own type call.action_id own_event refl refl in
      let all = select-append p db.events own_event in
      let one : select_where p (db.events ++ own_event ∷ []) ≡ own_event ∷ [] =
        all ∙ rw (found, others) refl in
      rw one own-matches

  pub kept-stored :
      (s : ApprovalAction)
      → (call.action_id == s.id) ≡ false
      → valid_stored_action c s none db ≡ true
      → valid_stored_action (after_action type c) s none (write type c stored_action db) ≡ true
  unfolding valid_stored_action matching_audit write own_event stored_action
  kept-stored s other h =
      let (same_id, same_store, same_product, same_run, same_base) =
        moved_proposal-parts type c.revision.id c.proposal in
      let p = is_event_of (event_type_of s.action) s.id in
      let off : p own_event ≡ false = ground arith in
      let same : select_where p (db.events ++ own_event ∷ []) ≡ select_where p db.events =
        select-append p db.events own_event ∙ rw off refl in
      let with_id : ℕ → Context =
        λ n. record c { run = moved_run type c.run; proposal = record c.proposal { id = n } } in
      subst (λ n. valid_stored_action (with_id n) s none (write type c stored_action db) ≡ true)
        (sym same_id) (rw same h)

  pub own-submit :
      is_submit type ≡ true
      → submits c db ≡ []
      → submits (after_action type c) (write type c stored_action db) ≡ stored_action ∷ []
  unfolding write stored_action select_where
  own-submit k none_before =
      let (same_id, same_store, same_product, same_run, same_base) =
        moved_proposal-parts type c.revision.id c.proposal in
      let proposal : (c.proposal.id == c.proposal.id) ≡ true = ground arith in
      let revision : (c.revision.id == c.revision.id) ≡ true = ground arith in
      subst
        (λ n.
          select_where (is_submit_on n c.revision.id) (stored_action ∷ db.actions)
          ≡ stored_action ∷ [])
        (sym same_id) (rw (proposal, revision, k) (ap (λ l. stored_action ∷ l) none_before))

  pub kept-submits :
      is_submit type ≡ false
      → submits (after_action type c) (write type c stored_action db) ≡ submits c db
  unfolding write stored_action select_where
  kept-submits k =
      let (same_id, same_store, same_product, same_run, same_base) =
        moved_proposal-parts type c.revision.id c.proposal in
      let proposal : (c.proposal.id == c.proposal.id) ≡ true = ground arith in
      let revision : (c.revision.id == c.revision.id) ≡ true = ground arith in
      subst
        (λ n.
          select_where (is_submit_on n c.revision.id) (stored_action ∷ db.actions)
          ≡ select_where (is_submit_on c.proposal.id c.revision.id) db.actions)
        (sym same_id) (rw (proposal, revision, k) refl)

  pub own-terminal :
      is_terminal type ≡ true
      → terminals c db ≡ []
      → terminals (after_action type c) (write type c stored_action db) ≡ stored_action ∷ []
  unfolding write stored_action select_where
  own-terminal k none_before =
      let (same_id, same_store, same_product, same_run, same_base) =
        moved_proposal-parts type c.revision.id c.proposal in
      let proposal : (c.proposal.id == c.proposal.id) ≡ true = ground arith in
      let revision : (c.revision.id == c.revision.id) ≡ true = ground arith in
      subst
        (λ n.
          select_where (is_terminal_on n c.revision.id) (stored_action ∷ db.actions)
          ≡ stored_action ∷ [])
        (sym same_id) (rw (proposal, revision, k) (ap (λ l. stored_action ∷ l) none_before))

  pub kept-terminals :
      is_terminal type ≡ false
      → terminals (after_action type c) (write type c stored_action db) ≡ terminals c db
  unfolding write stored_action select_where
  kept-terminals k =
      let (same_id, same_store, same_product, same_run, same_base) =
        moved_proposal-parts type c.revision.id c.proposal in
      let proposal : (c.proposal.id == c.proposal.id) ≡ true = ground arith in
      let revision : (c.revision.id == c.revision.id) ≡ true = ground arith in
      subst
        (λ n.
          select_where (is_terminal_on n c.revision.id) (stored_action ∷ db.actions)
          ≡ select_where (is_terminal_on c.proposal.id c.revision.id) db.actions)
        (sym same_id) (rw (proposal, revision, k) refl)
