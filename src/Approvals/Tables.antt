-- ===== src/Approvals/Tables.antt =====
-- The tables of proposals, reviews and approvals of backend/models.py, as far as backend/approvals.py
-- reads or writes them. A JSON column that is parsed or compared as a whole is its canonical text.
use e_commerec_operations.Base.{
  Bool, List, Option, String, false, holds, none, some, str_eq, true, ℕ, ◌==◌,
}
use e_commerec_operations.Common.{
  AuditEventType, AuditOutcome, UserRole, WorkflowQuality, WorkflowStatus, WorkflowType,
}
use e_commerec_operations.Delivery.Tables.{Db, PublishRecord}
use e_commerec_operations.Knowledge.Tables.{KnowledgeDb}

pub data ApprovalActionType : Type 0 where
  submit approve reject request_changes : ApprovalActionType

-- A dict of texts, in the order of insertion.
abbrev pub Attributes : Type 0
Attributes = List (String × String)

pub record Product : Type 0 where
  pub id : ℕ
  pub store_id : ℕ
  pub title : String
  pub category : String
  pub selling_points : List String
  pub description : String
  pub search_keywords : List String
  pub attributes : Attributes
  pub current_version : ℕ

-- The price is in cents.
pub record ProductSku : Type 0 where
  pub id : ℕ
  pub product_id : ℕ
  pub code : String
  pub spec : Attributes
  pub price : ℕ

-- `workflow_runs`, with the three keys of its input, if it has them
pub record WorkflowRun : Type 0 where
  pub id : ℕ
  pub workflow_type : WorkflowType
  pub store_id : ℕ
  pub input_proposal_id : Option ℕ
  pub input_product_id : Option ℕ
  pub input_store_id : Option ℕ
  pub status : WorkflowStatus
  pub quality_status : WorkflowQuality
  pub current_step : Option String
  pub error_code : Option String

pub record ProductProposal : Type 0 where
  pub id : ℕ
  pub store_id : ℕ
  pub product_id : ℕ
  pub optimization_run_id : ℕ
  pub base_product_version : ℕ
  pub current_revision_id : Option ℕ
  pub submitted_revision_id : Option ℕ
  pub active_manual_review_run_id : Option ℕ

pub record ProposalRevision : Type 0 where
  pub id : ℕ
  pub proposal_id : ℕ
  pub iteration : Option ℕ
  pub base_product_version : ℕ
  pub citations : String
  pub proposal_output : String

pub record ComplianceReview : Type 0 where
  pub proposal_revision_id : ℕ
  pub proposal_id : ℕ
  pub iteration : Option ℕ
  pub citations : String
  pub passed : Bool
  pub quality_status : WorkflowQuality
  pub error_code : Option String

pub record ApprovalAction : Type 0 where
  pub id : ℕ
  pub proposal_id : ℕ
  pub proposal_revision_id : ℕ
  pub store_id : ℕ
  pub actor_id : ℕ
  pub actor_role : UserRole
  pub action : ApprovalActionType
  pub comment : Option String
  pub idempotency_key_hash : String
  pub request_hash : String

-- the dict of `_product_snapshot`
pub record Snapshot : Type 0 where
  pub title : String
  pub selling_points : List String
  pub description : String
  pub search_keywords : List String
  pub attributes : Attributes
  pub current_version : ℕ

-- `publish_records`: the columns that the delivery queue reads, and the others
pub record Publication : Type 0 where
  pub row : PublishRecord
  pub proposal_id : ℕ
  pub proposal_revision_id : ℕ
  pub approval_action_id : ℕ
  pub publish_idempotency_hash : String
  pub before_snapshot : Snapshot
  pub after_snapshot : Snapshot
  pub base_product_version : ℕ

pub data Details : Type 0 where
  nothing : Details
  moved : WorkflowStatus → WorkflowStatus → WorkflowQuality → String → Details
  published : ℕ → ℕ → Details

-- the rows of `audit_events` on proposals
pub record ProposalEvent : Type 0 where
  pub event_type : AuditEventType
  pub outcome : AuditOutcome
  pub store_id : ℕ
  pub actor_id : ℕ
  pub actor_role : UserRole
  pub proposal_id : ℕ
  pub proposal_revision_id : ℕ
  pub workflow_run_id : ℕ
  pub approval_action_id : Option ℕ
  pub publish_record_id : Option ℕ
  pub error_code : Option String
  pub details : Details

-- `publications` has the rows of `queue.records`, with all their columns.
pub record ApprovalDb : Type 0 where
  pub queue : Db
  pub knowledge : KnowledgeDb
  pub products : List Product
  pub skus : List ProductSku
  pub runs : List WorkflowRun
  pub proposals : List ProductProposal
  pub revisions : List ProposalRevision
  pub reviews : List ComplianceReview
  pub actions : List ApprovalAction
  pub publications : List Publication
  pub events : List ProposalEvent

-- `ApprovalDomainError`, by its code
pub data ApprovalError : Type 0 where
  proposal_not_found proposal_action_forbidden proposal_not_submittable proposal_data_inconsistent
        trusted_evidence_invalid approval_action_conflict approval_state_conflict
        product_version_conflict idempotency_key_invalid idempotency_replay_conflict
        publish_replay_conflict :
      ApprovalError

-- Tests on enumerations, and on columns that may be NULL.
abbrev pub is_terminal : ApprovalActionType → Bool
is_terminal ApprovalActionType.submit = false
is_terminal _ = true

abbrev pub same_action : ApprovalActionType → ApprovalActionType → Bool
same_action ApprovalActionType.submit ApprovalActionType.submit = true
same_action ApprovalActionType.approve ApprovalActionType.approve = true
same_action ApprovalActionType.reject ApprovalActionType.reject = true
same_action ApprovalActionType.request_changes ApprovalActionType.request_changes = true
same_action _ _ = false

abbrev pub is_submit : ApprovalActionType → Bool
is_submit a = same_action a ApprovalActionType.submit

abbrev pub is_approver : UserRole → Bool
is_approver UserRole.supervisor = true
is_approver UserRole.admin = true
is_approver _ = false

abbrev pub is_key_of : ℕ → Option ℕ → Bool
is_key_of i key = holds (λ j. j == i) key

abbrev pub same_key : Option ℕ → Option ℕ → Bool
same_key none none = true
same_key (some i) (some j) = i == j
same_key _ _ = false

abbrev pub same_comment : Option String → Option String → Bool
same_comment none none = true
same_comment (some s) (some t) = str_eq s t
same_comment _ _ = false

abbrev status_index : WorkflowStatus → ℕ
status_index WorkflowStatus.accepted = 0
status_index WorkflowStatus.processing = 1
status_index WorkflowStatus.awaiting_selection = 2
status_index WorkflowStatus.completed = 3
status_index WorkflowStatus.draft_ready = 4
status_index WorkflowStatus.pending_manual = 5
status_index WorkflowStatus.pending_approval = 6
status_index WorkflowStatus.rejected = 7
status_index WorkflowStatus.failed = 8

abbrev pub same_status : WorkflowStatus → WorkflowStatus → Bool
same_status a b = status_index a == status_index b

abbrev pub is_normal : WorkflowQuality → Bool
is_normal WorkflowQuality.normal = true
is_normal _ = false

abbrev pub is_optimization : WorkflowType → Bool
is_optimization WorkflowType.optimization = true
is_optimization _ = false
