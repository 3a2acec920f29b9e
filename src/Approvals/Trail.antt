-- ===== src/Approvals/Trail.antt =====
-- The rows that a stored action has to have beside it: `_action_spec`, `_matching_audit`,
-- `_valid_stored_action`, `_legal_replay_state` and `_valid_publish_chain` of backend/approvals.py.
use e_commerec_operations.Accounts.{same_role}
use e_commerec_operations.Approvals.Context.{Context}
use e_commerec_operations.Approvals.Tables.{
  ApprovalAction, ApprovalActionType, ApprovalDb, Details, ProposalEvent, Publication, is_approver,
  is_key_of, is_normal, is_submit, is_terminal, moved, nothing, published, same_key, same_status,
}
use e_commerec_operations.Approvals.Text.{fits}
use e_commerec_operations.Base.{
  Bool, List, Option, String, [], false, holds, if◌then◌else◌, is_none, none, not, select_where,
  some, str_eq, true, ℕ, ◌&&◌, ◌==◌, ◌||◌, ◌∷◌,
}
use e_commerec_operations.Common.{AuditEventType, AuditOutcome, WorkflowQuality, WorkflowStatus}

-- The types of events that belong to an action; the others are 0.
abbrev event_index : AuditEventType → ℕ
event_index AuditEventType.proposal_submitted = 1
event_index AuditEventType.proposal_approved = 2
event_index AuditEventType.proposal_rejected = 3
event_index AuditEventType.proposal_changes_requested = 4
event_index AuditEventType.simulated_publish_completed = 5
event_index _ = 0

abbrev pub is_event_of : AuditEventType → ℕ → ProposalEvent → Bool
is_event_of type i e =
    event_index e.event_type == event_index type && is_key_of i e.approval_action_id

unfoldable pub the_only {ℓ} : {A : Type ℓ} → List A → Option A
the_only (x ∷ []) = some x
the_only _ = none

abbrev pub is_empty {ℓ} : {A : Type ℓ} → List A → Bool
is_empty [] = true
is_empty (x ∷ xs) = false

abbrev pub event_type_of : ApprovalActionType → AuditEventType
event_type_of ApprovalActionType.submit = AuditEventType.proposal_submitted
event_type_of ApprovalActionType.reject = AuditEventType.proposal_rejected
event_type_of ApprovalActionType.approve = AuditEventType.proposal_approved
event_type_of ApprovalActionType.request_changes = AuditEventType.proposal_changes_requested

abbrev pub status_after : ApprovalActionType → WorkflowStatus
status_after ApprovalActionType.submit = WorkflowStatus.pending_approval
status_after ApprovalActionType.reject = WorkflowStatus.rejected
status_after ApprovalActionType.approve = WorkflowStatus.completed
status_after ApprovalActionType.request_changes = WorkflowStatus.pending_manual

abbrev pub step_after : ApprovalActionType → String
step_after ApprovalActionType.submit = "pending_approval"
step_after ApprovalActionType.reject = "rejected"
step_after ApprovalActionType.approve = "simulated_published"
step_after ApprovalActionType.request_changes = "approval_changes_requested"

abbrev pub status_before : ApprovalActionType → WorkflowStatus
status_before ApprovalActionType.submit = WorkflowStatus.draft_ready
status_before _ = WorkflowStatus.pending_approval

abbrev pub action_details : ApprovalActionType → Details
action_details a = moved (status_before a) (status_after a) WorkflowQuality.normal (step_after a)

abbrev pub same_details : Details → Details → Bool
same_details nothing nothing = true
same_details (moved a b q s) (moved c d r t) =
    same_status a c && same_status b d && (is_normal q && is_normal r) && str_eq s t
same_details (published a b) (published c d) = a == c && b == d
same_details _ _ = false

abbrev is_success : AuditOutcome → Bool
is_success AuditOutcome.success = true
is_success _ = false

abbrev pub event_matches : Context → ApprovalAction → ℕ → Option ℕ → Details → ProposalEvent → Bool
event_matches c a revision_id record_id details e =
    is_success e.outcome
    && e.store_id == c.store.id
    && e.proposal_id == c.proposal.id
    && e.proposal_revision_id == revision_id
    && e.workflow_run_id == c.run.id
    && e.actor_id == a.actor_id
    && same_role e.actor_role a.actor_role
    && same_key e.publish_record_id record_id
    && is_none e.error_code
    && same_details e.details details

unfoldable pub matching_audit : Context → ApprovalAction → Option ℕ → ApprovalDb → Bool
unfolding the_only
matching_audit c a record_id db =
    holds (event_matches c a a.proposal_revision_id record_id (action_details a.action))
      (the_only (select_where (is_event_of (event_type_of a.action) a.id) db.events))

abbrev comment_valid : ApprovalActionType → Option String → Bool
comment_valid ApprovalActionType.submit comment = is_none comment
comment_valid ApprovalActionType.approve comment = is_none comment
comment_valid _ comment = holds (fits 500) comment

unfoldable pub valid_stored_action : Context → ApprovalAction → Option ℕ → ApprovalDb → Bool
unfolding matching_audit
valid_stored_action c a record_id db =
    a.proposal_id == c.proposal.id
    && a.proposal_revision_id == c.revision.id
    && a.store_id == c.store.id
    && (not (is_terminal a.action) || is_approver a.actor_role)
    && comment_valid a.action a.comment
    && matching_audit c a record_id db

abbrev pub is_submit_on : ℕ → ℕ → ApprovalAction → Bool
is_submit_on p r a = a.proposal_id == p && a.proposal_revision_id == r && is_submit a.action

abbrev pub is_terminal_on : ℕ → ℕ → ApprovalAction → Bool
is_terminal_on p r a = a.proposal_id == p && a.proposal_revision_id == r && is_terminal a.action

abbrev pub submits : Context → ApprovalDb → List ApprovalAction
submits c db = select_where (is_submit_on c.proposal.id c.revision.id) db.actions

abbrev pub terminals : Context → ApprovalDb → List ApprovalAction
terminals c db = select_where (is_terminal_on c.proposal.id c.revision.id) db.actions

abbrev pub is_submitted : Context → Bool
is_submitted c = is_key_of c.revision.id c.proposal.submitted_revision_id

-- the first test of `_legal_replay_state`
unfoldable pub state_valid : ApprovalActionType → Context → Bool
state_valid ApprovalActionType.reject c =
    same_status c.run.status WorkflowStatus.rejected && is_submitted c
state_valid ApprovalActionType.request_changes c =
    same_status c.run.status WorkflowStatus.pending_manual
    && is_none c.proposal.submitted_revision_id
state_valid ApprovalActionType.approve c =
    same_status c.run.status WorkflowStatus.completed && is_submitted c
state_valid ApprovalActionType.submit c =
    if same_status c.run.status WorkflowStatus.pending_manual
    then is_none c.proposal.submitted_revision_id
    else (same_status c.run.status WorkflowStatus.pending_approval
        || same_status c.run.status WorkflowStatus.rejected
        || same_status c.run.status WorkflowStatus.completed)
      && is_submitted c

-- `_legal_replay_state` of an action that ends a review
unfoldable pub legal_terminal : Context → ApprovalAction → ApprovalDb → Bool
unfolding state_valid valid_stored_action the_only
legal_terminal c a db =
    state_valid a.action c
    && holds (λ s. valid_stored_action c s none db) (the_only (submits c db))
    && holds (λ (t : ApprovalAction). t.id == a.id) (the_only (terminals c db))

abbrev is_publish_event : Context → ApprovalAction → Publication → ProposalEvent → Bool
is_publish_event c a p e =
    event_matches c a c.revision.id (some p.row.id)
      (published p.base_product_version p.row.published_product_version) e

unfoldable pub matching_publish_audit : Context → ApprovalAction → Publication → ApprovalDb → Bool
unfolding the_only
matching_publish_audit c a p db = holds (is_publish_event c a p) (
    the_only (select_where (is_event_of AuditEventType.simulated_publish_completed a.id) db.events))
