-- ===== src/Approvals/Chain.antt =====
-- `_valid_publish_chain` and the rest of `_legal_replay_state` of backend/approvals.py. `publish_hash`
-- is the SHA-256 of a JSON text, and the validator of the output is pydantic's: both are parameters.
use e_commerec_operations.Approvals.Context.{Context}
use e_commerec_operations.Approvals.Output.{
  OptimizationOutput, listing, product_snapshot, same_snapshot,
}
use e_commerec_operations.Approvals.Tables.{
  ApprovalAction, ApprovalActionType, ApprovalDb, Publication, is_key_of, is_normal, is_submit,
  same_action, same_status,
}
use e_commerec_operations.Approvals.Trail.{
  is_empty, legal_terminal, matching_publish_audit, state_valid, submits, terminals, the_only,
  valid_stored_action,
}
use e_commerec_operations.Base.{
  Bool, Option, String, holds, if◌then◌else◌, is_none, none, select_where, some, str_eq, ℕ, ◌&&◌,
  ◌+◌, ◌==◌,
}
use e_commerec_operations.Common.{WorkflowStatus}

module _ (publish_hash : ℕ → ℕ → String) (parse_output : String → Option OptimizationOutput) where
  -- the conditions of `_valid_publish_chain` on the record
  abbrev record_valid : Context → ApprovalAction → Publication → OptimizationOutput → Bool
  unfolding listing same_snapshot
  record_valid c a p o =
      p.proposal_id == c.proposal.id
      && p.proposal_revision_id == c.revision.id
      && p.row.product_id == c.product.id
      && p.row.store_id == c.store.id
      && p.row.approved_by == a.actor_id
      && p.approval_action_id == a.id
      && str_eq p.publish_idempotency_hash (publish_hash c.proposal.id c.revision.id)
      && p.base_product_version == c.proposal.base_product_version
      && c.proposal.base_product_version == c.revision.base_product_version
      && p.row.published_product_version == p.base_product_version + 1
      && p.before_snapshot.current_version == p.base_product_version
      && same_snapshot p.after_snapshot
          (listing o p.before_snapshot.attributes p.row.published_product_version)
      && same_snapshot p.after_snapshot (product_snapshot c.product)

  -- and on the proposal and its run
  abbrev run_valid : Context → Bool
  run_valid c =
      is_key_of c.revision.id c.proposal.current_revision_id
      && is_key_of c.revision.id c.proposal.submitted_revision_id
      && is_none c.proposal.active_manual_review_run_id
      && same_status c.run.status WorkflowStatus.completed
      && is_normal c.run.quality_status
      && holds (λ s. str_eq s "simulated_published") c.run.current_step
      && is_none c.run.error_code

  unfoldable pub valid_publish_chain : Context → ApprovalAction → Publication → ApprovalDb → Bool
  unfolding record_valid valid_stored_action legal_terminal matching_publish_audit
  valid_publish_chain c a p db =
      same_action a.action ApprovalActionType.approve
      && valid_stored_action c a (some p.row.id) db
      && legal_terminal c a db
      && holds (record_valid c a p) (parse_output c.revision.proposal_output)
      && run_valid c
      && matching_publish_audit c a p db

  abbrev is_publication_of : ℕ → ℕ → Publication → Bool
  is_publication_of proposal revision p =
      p.proposal_id == proposal && p.proposal_revision_id == revision

  -- what ended the review of a submission, by the status of the run
  unfoldable pub ended_by : Context → ApprovalDb → WorkflowStatus → Bool
  unfolding valid_publish_chain
  ended_by c db WorkflowStatus.rejected =
      holds
        (λ (t : ApprovalAction).
          same_action t.action ApprovalActionType.reject && valid_stored_action c t none db)
        (the_only (terminals c db))
  ended_by c db WorkflowStatus.pending_manual =
      holds
        (λ (t : ApprovalAction).
          same_action t.action ApprovalActionType.request_changes
          && valid_stored_action c t none db)
        (the_only (terminals c db))
  ended_by c db WorkflowStatus.completed =
      holds
        (λ (t : ApprovalAction).
          same_action t.action ApprovalActionType.approve
          && holds (λ p. valid_publish_chain c t p db)
              (the_only
                (select_where (is_publication_of c.proposal.id c.revision.id) db.publications)))
        (the_only (terminals c db))
  ended_by c db _ = is_empty (terminals c db)

  -- `_legal_replay_state`
  unfoldable pub legal_replay_state : Context → ApprovalAction → ApprovalDb → Bool
  unfolding ended_by legal_terminal state_valid
  legal_replay_state c a db =
      if is_submit a.action
      then state_valid a.action c
        && holds (λ (s : ApprovalAction). s.id == a.id) (the_only (submits c db))
        && ended_by c db c.run.status
      else legal_terminal c a db
