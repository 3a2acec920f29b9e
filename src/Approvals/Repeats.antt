-- ===== src/Approvals/Repeats.antt =====
-- A submission, a rejection or a request for changes that is sent again is answered with its action.
use e_commerec_operations.Approvals.Actions.{
  Call, Library, Written, act, hashed_key, in_state, is_keyed, perform_action, replay_or_write,
  replayable, write,
}
use e_commerec_operations.Approvals.Chain.{ended_by, legal_replay_state}
use e_commerec_operations.Approvals.Context.{Context, authorized_context}
use e_commerec_operations.Approvals.Decisions.{none-selected, terminal-first}
use e_commerec_operations.Approvals.Replays.{
  kept-stored, kept-submits, kept-terminals, own-audit, own-submit, own-terminal, same_action_refl,
  same_comment_refl, stored_action,
}
use e_commerec_operations.Approvals.Restored.{
  Authorized-authorized_context, after_action, moved_proposal-parts, write-Authorized,
}
use e_commerec_operations.Approvals.Tables.{
  ApprovalAction, ApprovalActionType, ApprovalDb, is_approver, is_key_of, is_terminal,
}
use e_commerec_operations.Approvals.Trail.{
  is_submitted, is_terminal_on, legal_terminal, state_valid, submits, terminals, the_only,
  valid_stored_action,
}
use e_commerec_operations.Approvals.Written.{perform-cases}
use e_commerec_operations.Base.{
  ==_iff, All, String, [], ap, arith, false, false≢true, find?, inl, inr, none, not, ok, refl, some,
  str_eq, str_eq_refl, subst, sym, true, ℕ, ◌&&◌, ◌==◌, ◌||◌, ◌∙◌, ◌∷◌, ◌≡◌,
}

module _ (lib : Library) (call : Call) (c : Context) (key_hash : String) (db : ApprovalDb) where
  submit-again :
      submits c db ≡ []
      → terminals c db ≡ []
      → (let a = stored_action lib ApprovalActionType.submit call c key_hash db in
          legal_replay_state lib.publish_hash lib.parse_output
            (after_action ApprovalActionType.submit c)
            a
            (write ApprovalActionType.submit c a db)
          ≡ true)
  unfolding legal_replay_state state_valid ended_by the_only stored_action
  submit-again no_submits no_terminals =
      let one = own-submit lib ApprovalActionType.submit call c key_hash db refl no_submits in
      let still =
        kept-terminals lib ApprovalActionType.submit call c key_hash db refl ∙ no_terminals in
      let revision : (c.revision.id == c.revision.id) ≡ true = ground arith in
      let own : (call.action_id == call.action_id) ≡ true =
        (==_iff call.action_id call.action_id).1 refl in
      rw (revision, one, own, still) refl

  reject-again :
      (s : ApprovalAction)
      → submits c db ≡ s ∷ []
      → terminals c db ≡ []
      → (call.action_id == s.id) ≡ false
      → valid_stored_action c s none db ≡ true
      → is_submitted c ≡ true
      → (let a = stored_action lib ApprovalActionType.reject call c key_hash db in
          legal_replay_state lib.publish_hash lib.parse_output
            (after_action ApprovalActionType.reject c)
            a
            (write ApprovalActionType.reject c a db)
          ≡ true)
  unfolding legal_replay_state legal_terminal state_valid the_only stored_action
  reject-again s one_submit no_terminals other valid submitted =
      let one = own-terminal lib ApprovalActionType.reject call c key_hash db refl no_terminals in
      let still = kept-submits lib ApprovalActionType.reject call c key_hash db refl ∙ one_submit in
      let stored = kept-stored lib ApprovalActionType.reject call c key_hash db s other valid in
      let own : (call.action_id == call.action_id) ≡ true =
        (==_iff call.action_id call.action_id).1 refl in
      rw (submitted, still, stored, one, own) refl

  changes-again :
      (s : ApprovalAction)
      → submits c db ≡ s ∷ []
      → terminals c db ≡ []
      → (call.action_id == s.id) ≡ false
      → valid_stored_action c s none db ≡ true
      → (let a = stored_action lib ApprovalActionType.request_changes call c key_hash db in
          legal_replay_state lib.publish_hash lib.parse_output
            (after_action ApprovalActionType.request_changes c)
            a
            (write ApprovalActionType.request_changes c a db)
          ≡ true)
  unfolding legal_replay_state legal_terminal state_valid the_only stored_action
  changes-again s one_submit no_terminals other valid =
      let one =
        own-terminal lib ApprovalActionType.request_changes call c key_hash db refl no_terminals in
      let still =
        kept-submits lib ApprovalActionType.request_changes call c key_hash db refl ∙ one_submit in
      let stored =
        kept-stored lib ApprovalActionType.request_changes call c key_hash db s other valid in
      let own : (call.action_id == call.action_id) ≡ true =
        (==_iff call.action_id call.action_id).1 refl in
      rw (still, stored, one, own) refl

-- What the tables have of the revision before the action: nothing, or one valid submission.
abbrev pub History : ApprovalActionType → ℕ → Context → ApprovalDb → Type 0
History ApprovalActionType.submit i c db = (submits c db ≡ []) × (terminals c db ≡ [])
History ApprovalActionType.approve i c db = ⊥
History _ i c db =
    (s : ApprovalAction) × (submits c db ≡ s ∷ [])
    × ((i == s.id) ≡ false)
    × (valid_stored_action c s none db ≡ true)

state-submitted :
    (c : Context) (db : ApprovalDb)
    → in_state ApprovalActionType.reject c db ≡ ok tt
    → is_submitted c ≡ true
unfolding in_state
state-submitted c db e = ground arith

legal-again :
    (lib : Library) (type : ApprovalActionType) (call : Call) (c : Context) (key_hash : String)
    (db : ApprovalDb)
    → History type call.action_id c db
    → in_state type c db ≡ ok tt
    → (let a = stored_action lib type call c key_hash db in
        legal_replay_state lib.publish_hash lib.parse_output
          (after_action type c)
          a
          (write type c a db)
        ≡ true)
legal-again lib ApprovalActionType.submit call c key_hash db (no_submits, no_terminals) e =
    submit-again lib call c key_hash db no_submits no_terminals
legal-again lib ApprovalActionType.approve call c key_hash db h e = elim h [ ]
legal-again lib ApprovalActionType.reject call c key_hash db (s, one, other, valid) e =
    let first = terminal-first ApprovalActionType.reject c db e refl in
    reject-again lib call c key_hash db s one
      (none-selected (is_terminal_on c.proposal.id c.revision.id) db.actions first) other valid
      (state-submitted c db e)
legal-again lib ApprovalActionType.request_changes call c key_hash db (s, one, other, valid) e =
    let first = terminal-first ApprovalActionType.request_changes c db e refl in
    changes-again lib call c key_hash db s one
      (none-selected (is_terminal_on c.proposal.id c.revision.id) db.actions first) other valid

module _ (lib : Library) (type : ApprovalActionType) (call : Call) (n : ℕ) where
  again : Call
  again = record call { action_id = n }

  replay-again :
      (c : Context) (key_hash : String) (db : ApprovalDb)
      → History type call.action_id c db
      → in_state type c db ≡ ok tt
      → (not (is_terminal type) || is_approver c.actor.role) ≡ true
      → All (λ e. is_key_of call.action_id e.approval_action_id ≡ false) db.events
      → (let a = stored_action lib type call c key_hash db in
          replayable lib type again (after_action type c) a (write type c a db) ≡ true)
  unfolding replayable again stored_action
  replay-again c key_hash db h state allowed fresh =
      let legal = legal-again lib type call c key_hash db h state in
      let audited = own-audit lib type call c key_hash db fresh in
      let comment = same_comment_refl call.request.comment in
      let revision : (c.revision.id == c.revision.id) ≡ true =
        (==_iff c.revision.id c.revision.id).1 refl in
      let store : (c.store.id == c.store.id) ≡ true = (==_iff c.store.id c.store.id).1 refl in
      let actor : (c.actor.id == c.actor.id) ≡ true = (==_iff c.actor.id c.actor.id).1 refl in
      rw (revision, store, actor, allowed, comment, legal, audited) refl

  stored-found :
      (c : Context) (key_hash : String) (db : ApprovalDb)
      → (let a = stored_action lib type call c key_hash db in
          find?
            (is_keyed (after_action type c).proposal.id c.actor.id type key_hash)
            (a ∷ db.actions)
          ≡ some a)
  unfolding find? stored_action
  stored-found c key_hash db =
      let (same_id, same_store, same_product, same_run, same_base) =
        moved_proposal-parts type c.revision.id c.proposal in
      let a = stored_action lib type call c key_hash db in
      let proposal : (c.proposal.id == c.proposal.id) ≡ true =
        (==_iff c.proposal.id c.proposal.id).1 refl in
      let actor : (c.actor.id == c.actor.id) ≡ true = (==_iff c.actor.id c.actor.id).1 refl in
      let same_type = same_action_refl type in
      let key = str_eq_refl key_hash in
      subst (λ i. find? (is_keyed i c.actor.id type key_hash) (a ∷ db.actions) ≡ some a)
        (sym same_id) (rw (proposal, actor, same_type, key) refl)

  replay-answer :
      (c : Context) (key_hash : String) (db : ApprovalDb)
      → (let a = stored_action lib type call c key_hash db in
          let db' = write type c a db in
          replayable lib type again (after_action type c) a db' ≡ true
          → replay_or_write lib type again (after_action type c) key_hash db' (some a)
            ≡ ok ((a, false), db'))
  unfolding replay_or_write stored_action again
  replay-answer c key_hash db valid =
      let (same_id, same_store, same_product, same_run, same_base) =
        moved_proposal-parts type c.revision.id c.proposal in
      let hash =
        lib.request_hash type call.actor_id call.proposal_id call.request
          c.proposal.base_product_version in
      let same_hash : str_eq hash (
            lib.request_hash type call.actor_id call.proposal_id call.request
              (after_action type c).proposal.base_product_version)
          ≡ true =
        rw same_base (str_eq_refl hash) in
      rw (same_hash, valid) refl

  answered-again :
      (c : Context) (key_hash : String) (db : ApprovalDb)
      → (let a = stored_action lib type call c key_hash db in
          let db' = write type c a db in
          hashed_key lib call.idempotency_key ≡ ok key_hash
          → authorized_context call.actor_id call.proposal_id call.request.revision_id db'
            ≡ ok (after_action type c)
          → (not (is_terminal type) || is_approver c.actor.role) ≡ true
          → replayable lib type again (after_action type c) a db' ≡ true
          → perform_action lib type again db' ≡ (ok (a, false), db'))
  unfolding perform_action act again write
  answered-again c key_hash db hashed loaded allowed valid =
      let guard : (is_terminal type && not (is_approver c.actor.role)) ≡ false = ground arith in
      let found = stored-found c key_hash db in
      let answered = replay-answer c key_hash db valid in
      rw (hashed, perform_action, loaded, guard, act, found, answered) refl

  -- A submission, a rejection or a request for changes that wrote its action is answered with that action
  -- when it is sent again with its key, and then changes nothing. Before, no row of the audit log has the
  -- key of the action, and the revision has no action if it is a submission, and else one valid submission.
  pub perform-repeated :
      (db : ApprovalDb) (a : ApprovalAction) (db' : ApprovalDb)
      → perform_action lib type call db ≡ (ok (a, true), db')
      → All (λ e. is_key_of call.action_id e.approval_action_id ≡ false) db.events
      → ((c : Context)
          → authorized_context call.actor_id call.proposal_id call.request.revision_id db ≡ ok c
          → History type call.action_id c db)
      → perform_action lib type (record call { action_id = n }) db' ≡ (ok (a, false), db')
  unfolding again stored_action
  perform-repeated db a db' e fresh history =
      elim (perform-cases lib type call db (a, true) db' e) [
        | inl (old, same) ↦ absurd (false≢true (sym old))
        | inr m ↦
            let c = m.context in
            let key_hash = m.key_hash in
            let b = stored_action lib type call c key_hash db in
            let db₁ = write type c b db in
            let h = history c (
              Authorized-authorized_context call.actor_id call.proposal_id call.request.revision_id
                db c m.authorized) in
            let loaded =
              Authorized-authorized_context call.actor_id call.proposal_id call.request.revision_id
                db₁ (after_action type c)
                (write-Authorized type c b call.actor_id call.proposal_id call.request.revision_id
                  db m.authorized) in
            let valid = replay-again c key_hash db h m.checked.state m.allowed fresh in
            let done = answered-again c key_hash db m.hashed loaded m.allowed valid in
            let same_action_row : a ≡ b = ap (λ (x : Written). x.0) m.checked.action in
            let same_db : db' ≡ db₁ = m.checked.written in
            subst (λ x. perform_action lib type again x ≡ (ok (a, false), x)) (sym same_db)
              (subst (λ x. perform_action lib type again db₁ ≡ (ok (x, false), db₁))
                (sym same_action_row) done)
      ]
