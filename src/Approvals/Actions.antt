-- ===== src/Approvals/Actions.antt =====
-- `submit_proposal`, `reject_proposal` and `request_proposal_changes` of backend/approvals.py. The row
-- locks keep the calls on one proposal apart, so that no flush fails on a key, and the second pass of
-- the source after such a failure is left out.
use e_commerec_operations.Approvals.Chain.{legal_replay_state}
use e_commerec_operations.Approvals.Context.{
  Context, authorized_context, proposal_key, refuse_if, run_key,
}
use e_commerec_operations.Approvals.Output.{OptimizationOutput}
use e_commerec_operations.Approvals.Review.{RuleCitation, current_review}
use e_commerec_operations.Approvals.Tables.{
  ApprovalAction, ApprovalActionType, ApprovalDb, ApprovalError, Details, ProductProposal,
  ProposalEvent, WorkflowRun, approval_action_conflict, approval_state_conflict,
  idempotency_key_invalid, idempotency_replay_conflict, is_approver, is_key_of, is_submit,
  is_terminal, nothing, product_version_conflict, proposal_action_forbidden,
  proposal_data_inconsistent, proposal_not_submittable, same_action, same_comment, same_status,
}
use e_commerec_operations.Approvals.Text.{fits}
use e_commerec_operations.Approvals.Trail.{
  action_details, event_type_of, is_submit_on, is_submitted, is_terminal_on, matching_audit,
  status_after, step_after,
}
use e_commerec_operations.Base.{
  Bool, List, Option, Result, String, [], err, exists_where, false, find?, holds, if◌then◌else◌,
  is_none, none, not, ok, some, str_eq, true, update_where, ℕ, ◌&&◌, ◌++◌, ◌==◌, ◌>>◌, ◌||◌, ◌∷◌,
}
use e_commerec_operations.Common.{AuditEventType, AuditOutcome, WorkflowQuality, WorkflowStatus}

pub record ActionRequest : Type 0 where
  pub revision_id : ℕ
  pub comment : Option String

-- What the source takes from libraries: SHA-256 of a key, of a request and of a publication, as JSON,
-- and the validators of two JSON columns.
pub record Library : Type 0 where
  pub key_hash : String → String
  pub request_hash : ApprovalActionType → ℕ → ℕ → ActionRequest → ℕ → String
  pub publish_hash : ℕ → ℕ → String
  pub parse_citations : String → Option (List RuleCitation)
  pub parse_output : String → Option OptimizationOutput

-- The arguments of a call, with the key that `uuid4` makes.
pub record Call : Type 0 where
  pub action_id : ℕ
  pub actor_id : ℕ
  pub proposal_id : ℕ
  pub request : ActionRequest
  pub idempotency_key : Option String

abbrev pub new_event :
    Context → ApprovalAction → AuditEventType → Option ℕ → Details → ProposalEvent
new_event c a type record_id details = record {
  event_type = type;
  outcome = AuditOutcome.success;
  store_id = c.store.id;
  actor_id = c.actor.id;
  actor_role = c.actor.role;
  proposal_id = c.proposal.id;
  proposal_revision_id = c.revision.id;
  workflow_run_id = c.run.id;
  approval_action_id = some a.id;
  publish_record_id = record_id;
  error_code = none;
  details = details;
}

-- `_deny_role`: the refusal is written down before it is raised
abbrev pub denied_event : Context → ProposalEvent
denied_event c = record {
  event_type = AuditEventType.authorization_denied;
  outcome = AuditOutcome.denied;
  store_id = c.store.id;
  actor_id = c.actor.id;
  actor_role = c.actor.role;
  proposal_id = c.proposal.id;
  proposal_revision_id = c.revision.id;
  workflow_run_id = c.run.id;
  approval_action_id = none;
  publish_record_id = none;
  error_code = some "PROPOSAL_ACTION_FORBIDDEN";
  details = nothing;
}

abbrev pub deny_role : Context → ApprovalDb → ApprovalDb
deny_role c db = record db { events = db.events ++ denied_event c ∷ [] }

abbrev pub new_action :
    Call → Context → ApprovalActionType → Option String → String → String → ApprovalAction
new_action call c type comment key_hash request_hash = record {
  id = call.action_id;
  proposal_id = c.proposal.id;
  proposal_revision_id = c.revision.id;
  store_id = c.store.id;
  actor_id = c.actor.id;
  actor_role = c.actor.role;
  action = type;
  comment = comment;
  idempotency_key_hash = key_hash;
  request_hash = request_hash;
}

abbrev pub moved_run : ApprovalActionType → WorkflowRun → WorkflowRun
moved_run type r = record r {
  status = status_after type;
  quality_status = WorkflowQuality.normal;
  current_step = some (step_after type);
  error_code = none;
}

abbrev pub moved_proposal : ApprovalActionType → ℕ → ProductProposal → ProductProposal
moved_proposal ApprovalActionType.submit revision p = record p {
  submitted_revision_id = some revision;
}
moved_proposal ApprovalActionType.request_changes revision p = record p {
  submitted_revision_id = none;
}
moved_proposal _ revision p = p

-- the last statements of `_first_write`
unfoldable pub write : ApprovalActionType → Context → ApprovalAction → ApprovalDb → ApprovalDb
write type c a db = record db {
  actions = a ∷ db.actions;
  events = db.events ++ new_event c a (event_type_of type) none (action_details type) ∷ [];
  runs = update_where (λ r. run_key r == c.run.id) (moved_run type) db.runs;
  proposals =
      update_where (λ p. proposal_key p == c.proposal.id) (moved_proposal type c.revision.id)
        db.proposals;
}

abbrev pub is_current : Context → Bool
is_current c =
    is_key_of c.revision.id c.proposal.current_revision_id
    && is_none c.proposal.active_manual_review_run_id

-- `_conflicting_terminal_action`
abbrev pub has_terminal : Context → ApprovalDb → Bool
has_terminal c db = exists_where (is_terminal_on c.proposal.id c.revision.id) db.actions

abbrev pub versions_agree : Context → Bool
versions_agree c =
    c.product.current_version == c.proposal.base_product_version
    && c.revision.base_product_version == c.proposal.base_product_version

-- The first tests of `_first_write`, for a submission and for the end of a review.
unfoldable pub in_state :
    ApprovalActionType → Context → ApprovalDb → Result ApprovalError (Unit {0})
in_state ApprovalActionType.submit c db =
    refuse_if (not (same_status c.run.status WorkflowStatus.draft_ready && is_current c))
      proposal_not_submittable
in_state _ c db =
    refuse_if (has_terminal c db) approval_action_conflict
    >> refuse_if
        (not (
          same_status c.run.status WorkflowStatus.pending_approval
          && is_submitted c
          && is_current c))
        approval_state_conflict

-- the submission that the end of a review needs
unfoldable pub submission_audited : ApprovalActionType → Context → ApprovalDb → Bool
unfolding matching_audit
submission_audited ApprovalActionType.submit c db = true
submission_audited _ c db =
    holds (λ s. matching_audit c s none db)
      (find? (is_submit_on c.proposal.id c.revision.id) db.actions)

abbrev pub is_keyed : ℕ → ℕ → ApprovalActionType → String → ApprovalAction → Bool
is_keyed p actor type key_hash a =
    a.proposal_id == p
    && a.actor_id == actor
    && same_action a.action type
    && str_eq a.idempotency_key_hash key_hash

-- What a call returns: the action, and whether it is new.
abbrev pub Written : Type 0
Written = ApprovalAction × Bool

abbrev pub Answer : Type 0 → Type 0
Answer A = Result ApprovalError A × ApprovalDb

-- An exception rolls the transaction back.
abbrev pub concluded : {A : Type 0} → ApprovalDb → Result ApprovalError (A × ApprovalDb) → Answer A
concluded db (ok (a, db')) = (ok a, db')
concluded db (err e) = (err e, db)

module _ (lib : Library) where
  -- `_key_hash`
  unfoldable pub hashed_key : Option String → Result ApprovalError String
  hashed_key none = err idempotency_key_invalid
  hashed_key (some key) =
      if fits 128 key then ok (lib.key_hash key) else err idempotency_key_invalid

  abbrev pub request_hash_of : ApprovalActionType → Call → Context → String
  request_hash_of type call c =
      lib.request_hash type call.actor_id call.proposal_id call.request
        c.proposal.base_product_version

  -- the last test of `_replay`
  unfoldable pub replayable :
      ApprovalActionType → Call → Context → ApprovalAction → ApprovalDb → Bool
  unfolding legal_replay_state matching_audit
  replayable type call c a db =
      a.proposal_revision_id == c.revision.id
      && a.store_id == c.store.id
      && a.actor_id == c.actor.id
      && (not (is_terminal type) || is_approver a.actor_role)
      && same_comment a.comment call.request.comment
      && legal_replay_state lib.publish_hash lib.parse_output c a db
      && matching_audit c a none db

  -- `_first_write`
  unfoldable pub first_write :
      ApprovalActionType
      → Call
      → Context
      → String
      → ApprovalDb
      → Result ApprovalError (Written × ApprovalDb)
  unfolding in_state current_review submission_audited write
  first_write type call c key_hash db =
      let a = new_action call c type call.request.comment key_hash (request_hash_of type call c) in
      in_state type c db
      >> (refuse_if (not (versions_agree c)) product_version_conflict
          >> (current_review lib.parse_citations c (is_submit type) db
              >> (refuse_if (not (submission_audited type c db)) proposal_data_inconsistent
                  >> ok ((a, true), write type c a db))))

  -- `_replay`, or else `_first_write`
  unfoldable pub replay_or_write :
      ApprovalActionType
      → Call
      → Context
      → String
      → ApprovalDb
      → Option ApprovalAction
      → Result ApprovalError (Written × ApprovalDb)
  unfolding first_write replayable
  replay_or_write type call c key_hash db none = first_write type call c key_hash db
  replay_or_write type call c key_hash db (some a) =
      refuse_if (not (str_eq a.request_hash (request_hash_of type call c)))
        idempotency_replay_conflict
      >> (refuse_if (not (replayable type call c a db)) proposal_data_inconsistent
          >> ok ((a, false), db))

  unfoldable pub act : ApprovalActionType → Call → Context → String → ApprovalDb → Answer Written
  unfolding replay_or_write
  act type call c key_hash db =
      let stored = find? (is_keyed c.proposal.id c.actor.id type key_hash) db.actions in
      if is_terminal type && not (is_approver c.actor.role)
      then (err proposal_action_forbidden, deny_role c db)
      else concluded db (replay_or_write type call c key_hash db stored)

  -- `_perform_action`
  unfoldable pub perform_action : ApprovalActionType → Call → ApprovalDb → Answer Written
  unfolding hashed_key act
  perform_action type call db = elim (hashed_key call.idempotency_key) [
    | err e ↦ (err e, db)
    | ok key_hash ↦
        elim (authorized_context call.actor_id call.proposal_id call.request.revision_id db) [
          | err e ↦ (err e, db)
          | ok c ↦ act type call c key_hash db
        ]
  ]
