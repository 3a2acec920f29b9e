-- ===== src/Common.antt =====
-- backend/common.py: the enumerations that the other parts share.
use e_commerec_operations.Base.{Bool, true, false}

pub data UserRole : Type 0 where
  operator supervisor admin : UserRole

pub data UserDepartment : Type 0 where
  operations logistics : UserDepartment

pub data UserStatus : Type 0 where
  active disabled : UserStatus

pub data OrderStatus : Type 0 where
  paid shipped completed cancelled : OrderStatus

pub data WorkflowStatus : Type 0 where
  accepted processing awaiting_selection completed draft_ready pending_manual pending_approval
        rejected failed :
      WorkflowStatus

pub data WorkflowType : Type 0 where
  analysis optimization manual_review : WorkflowType

pub data WorkflowQuality : Type 0 where
  normal partial degraded : WorkflowQuality

pub data KnowledgeVersionStatus : Type 0 where
  accepted processing active failed disabled : KnowledgeVersionStatus

pub data PlatformDeliveryStatus : Type 0 where
  pending processing succeeded failed : PlatformDeliveryStatus

pub data AuditEventType : Type 0 where
  manual_revision_created manual_review_claimed manual_review_completed manual_review_failed
        proposal_submitted proposal_approved proposal_rejected proposal_changes_requested
        simulated_publish_completed authorization_denied knowledge_document_created
        knowledge_version_created knowledge_document_disabled evaluation_run_persisted
        admin_user_updated admin_user_scopes_replaced admin_store_updated platform_delivery_enqueued
        platform_delivery_completed platform_delivery_failed platform_webhook_received :
      AuditEventType

pub data AuditOutcome : Type 0 where
  success failed denied : AuditOutcome

-- The comparisons `is` of the source, one for each member that it compares with.
abbrev pub is_admin : UserRole → Bool
is_admin UserRole.admin = true
is_admin _ = false

abbrev pub is_active : UserStatus → Bool
is_active UserStatus.active = true
is_active _ = false

abbrev pub same_department : UserDepartment → UserDepartment → Bool
same_department UserDepartment.operations UserDepartment.operations = true
same_department UserDepartment.logistics UserDepartment.logistics = true
same_department _ _ = false
