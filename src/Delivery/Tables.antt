-- ===== src/Delivery/Tables.antt =====
-- backend/platform_delivery_runs.py: the tables `publish_records` and `platform_deliveries` of
-- backend/models.py, and the helpers that every transaction of the file uses.
use e_commerec_operations.Base.{
  contains, ℕ, String, count, Bool, true, false, ◌&&◌, not, Option, none, some, List, [], ◌∷◌, ◌++◌,
  ◌==◌, str_eq, ltb, leb, holds, is_none, if◌then◌else◌, find?, update_where,
}
use e_commerec_operations.Common.{
  UserRole, UserDepartment, PlatformDeliveryStatus, AuditEventType, AuditOutcome,
}
use e_commerec_operations.Accounts.{
  User, Directory, get_user, in_scope, enabled_store, has_department_access,
}
use e_commerec_operations.Audit.{AuditEvent}

pub record PublishRecord : Type 0 where
  pub id : ℕ
  pub product_id : ℕ
  pub store_id : ℕ
  pub approved_by : ℕ
  pub published_product_version : ℕ

pub record PlatformDelivery : Type 0 where
  pub id : ℕ
  pub publish_record_id : ℕ
  pub store_id : ℕ
  pub status : PlatformDeliveryStatus
  pub attempt_count : ℕ
  pub next_attempt_at : Option ℕ
  pub lease_owner : Option String
  pub lease_expires_at : Option ℕ
  pub external_operation_id : Option String
  pub error_code : Option String
  pub created_at : ℕ
  pub completed_at : Option ℕ

pub record Db : Type 0 where
  pub directory : Directory
  pub records : List PublishRecord
  pub deliveries : List PlatformDelivery
  pub audit : List AuditEvent

-- The messages of the `ValueError`s.
pub data ValueError : Type 0 where
  invalid_lease_owner invalid_lease_seconds invalid_external_operation_id invalid_error_code
        invalid_retry_delay :
      ValueError

abbrev error_codes : List String
error_codes =
    "PLATFORM_AUTH_FAILED" ∷ "PLATFORM_FORBIDDEN" ∷ "PLATFORM_IDEMPOTENCY_CONFLICT"
    ∷ "PLATFORM_RATE_LIMITED" ∷ "PLATFORM_TIMEOUT" ∷ "PLATFORM_CONNECTION_FAILED"
    ∷ "PLATFORM_SERVER_ERROR" ∷ "PLATFORM_REQUEST_REJECTED" ∷ "PLATFORM_REQUEST_INVALID"
    ∷ "PLATFORM_RESPONSE_INVALID" ∷ "PLATFORM_SIGNATURE_INVALID" ∷ "PLATFORM_DELIVERY_FAILED" ∷ []

-- `error_code in _ERROR_CODES`
unfoldable pub is_error_code : String → Bool
is_error_code error_code = contains error_code error_codes

abbrev pub is_pending : PlatformDeliveryStatus → Bool
is_pending PlatformDeliveryStatus.pending = true
is_pending _ = false

abbrev pub is_processing : PlatformDeliveryStatus → Bool
is_processing PlatformDeliveryStatus.processing = true
is_processing _ = false

-- `role in {SUPERVISOR, ADMIN}`
abbrev pub may_publish : UserRole → Bool
may_publish UserRole.operator = false
may_publish _ = true

unfoldable pub publisher_in_scope : Option User → PublishRecord → Directory → Bool
publisher_in_scope none record_ dir = false
publisher_in_scope (some actor) record_ dir =
    may_publish actor.role
    && not (is_none (enabled_store record_.store_id dir))
    && in_scope actor.id record_.store_id dir

unfoldable pub publish_authorized : Directory → PublishRecord → Bool
unfolding publisher_in_scope
publish_authorized dir record_ =
    let actor = get_user record_.approved_by dir in
    has_department_access actor UserDepartment.operations && publisher_in_scope actor record_ dir

unfoldable pub valid_owner : String → Bool
valid_owner lease_owner = leb 1 (count lease_owner) && leb (count lease_owner) 128

-- The session writes a changed object back to the row of its key.
abbrev pub same_delivery : PlatformDelivery → PlatformDelivery → Bool
same_delivery d row = row.id == d.id

unfoldable pub save : PlatformDelivery → List PlatformDelivery → List PlatformDelivery
save d = update_where (same_delivery d) (λ _. d)

-- `_add_terminal_audit`
abbrev pub terminal_audit : PlatformDelivery → Bool → AuditEvent
terminal_audit d succeeded = record {
  event_type =
      if succeeded
      then AuditEventType.platform_delivery_completed
      else AuditEventType.platform_delivery_failed;
  outcome = if succeeded then AuditOutcome.success else AuditOutcome.failed;
  store_id = some d.store_id;
  actor_id = none;
  actor_role = none;
  resource_type = "platform_delivery";
  resource_id = d.id;
  error_code = d.error_code;
}

abbrev pub failed_delivery : ℕ → String → PlatformDelivery → PlatformDelivery
failed_delivery now error_code d = record d {
  status = PlatformDeliveryStatus.failed;
  next_attempt_at = none;
  lease_owner = none;
  lease_expires_at = none;
  external_operation_id = none;
  error_code = some error_code;
  completed_at = some now;
}

-- A change of one delivery, with its terminal audit row if it ends.
unfoldable pub store_delivery : PlatformDelivery → List AuditEvent → Db → Db
unfolding save
store_delivery d events db = record db {
  deliveries = save d db.deliveries;
  audit = db.audit ++ events;
}

-- `_mark_failed`
unfoldable pub mark_failed : ℕ → String → PlatformDelivery → Db → Db
unfolding store_delivery
mark_failed now error_code d db =
    let d' = failed_delivery now error_code d in store_delivery d' (terminal_audit d' false ∷ []) db

-- `_owned_delivery`
abbrev pub is_owned : ℕ → ℕ → String → PlatformDelivery → Bool
is_owned now delivery_id owner d =
    d.id == delivery_id
    && is_processing d.status
    && holds (λ o. str_eq o owner) d.lease_owner
    && holds (λ t. ltb now t) d.lease_expires_at

unfoldable pub owned_delivery : ℕ → ℕ → String → Db → Option PlatformDelivery
owned_delivery now delivery_id owner db = find? (is_owned now delivery_id owner) db.deliveries

abbrev pub is_record : ℕ → PublishRecord → Bool
is_record record_id r = r.id == record_id

-- the publish record that a delivery joins with
unfoldable pub publish_record : List PublishRecord → PlatformDelivery → Option PublishRecord
publish_record records d = find? (is_record d.publish_record_id) records
