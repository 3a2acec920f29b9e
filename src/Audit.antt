-- ===== src/Audit.antt =====
-- The rows that `add_audit_event` of backend/audit_events.py appends to the audit log. The JSON of
-- `details` repeats values of the row that the event is about, and is left out.
use e_commerec_operations.Base.{ℕ, Option, String}
use e_commerec_operations.Common.{AuditEventType, AuditOutcome, UserRole}

pub record AuditEvent : Type 0 where
  pub event_type : AuditEventType
  pub outcome : AuditOutcome
  pub store_id : Option ℕ
  pub actor_id : Option ℕ
  pub actor_role : Option UserRole
  pub resource_type : String
  pub resource_id : ℕ
  pub error_code : Option String
