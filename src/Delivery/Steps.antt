-- ===== src/Delivery/Steps.antt =====
-- The runs of the delivery queue: any transactions of backend/platform_delivery_runs.py in any order,
-- with the insertions of backend/approvals.py among them.
use e_commerec_operations.Base.{
  ℕ, String, ◌≡◌, none, some, Option, Bool, [], ◌∷◌, ◌++◌, ok, All, ◌<◌, ◌≢◌,
}
use mathlib.Core.Option
use e_commerec_operations.Common.{UserRole, PlatformDeliveryStatus, AuditEventType, AuditOutcome}
use e_commerec_operations.Accounts.{Directory, get_user}
use e_commerec_operations.Delivery.Tables.{PublishRecord, PlatformDelivery, Db}
use e_commerec_operations.Delivery.Claim.{claim_next_platform_delivery}
use e_commerec_operations.Delivery.Finish.{
  complete_platform_delivery, return_platform_delivery_for_retry, fail_platform_delivery,
}

abbrev pub new_delivery : ℕ → ℕ → PublishRecord → PlatformDelivery
new_delivery now delivery_id r = record {
  id = delivery_id;
  publish_record_id = r.id;
  store_id = r.store_id;
  status = PlatformDeliveryStatus.pending;
  attempt_count = 0;
  next_attempt_at = none;
  lease_owner = none;
  lease_expires_at = none;
  external_operation_id = none;
  error_code = none;
  created_at = now;
  completed_at = none;
}

role_of : ℕ → Directory → Option UserRole
role_of user_id dir = Option.map (λ u. u.role) (get_user user_id dir)

-- the end of `_first_publish`: the record of an approved publication and its delivery
unfoldable pub enqueue : ℕ → ℕ → PublishRecord → Db → Db
unfolding role_of
enqueue now delivery_id r db = record db {
  records = r ∷ db.records;
  deliveries = new_delivery now delivery_id r ∷ db.deliveries;
  audit =
      db.audit
      ++ record {
        event_type = AuditEventType.platform_delivery_enqueued;
        outcome = AuditOutcome.success;
        store_id = some r.store_id;
        actor_id = some r.approved_by;
        actor_role = role_of r.approved_by db.directory;
        resource_type = "platform_delivery";
        resource_id = delivery_id;
        error_code = none;
      }
        ∷ [];
}

-- What an approval adds: keys that are new, and a version of the product above the published ones,
-- since `_first_publish` raises the product's version by one each time.
pub record IsNext (delivery_id : ℕ) (r : PublishRecord) (db : Db) : Type 0 where
  pub new_record : All (λ s. s.id ≢ r.id) db.records
  pub new_id : All (λ d. (d.id ≢ delivery_id) × (d.publish_record_id ≢ r.id)) db.deliveries
  pub newest :
      All
        (λ s.
          s.product_id ≡ r.product_id → s.published_product_version < r.published_product_version)
        db.records

pub data Step (db : Db) : Db → Type 0 where
  enqueued :
      (now delivery_id : ℕ) (r : PublishRecord)
      → IsNext delivery_id r db
      → Step db (enqueue now delivery_id r db)
  claimed :
      (now : ℕ) (locked : ℕ → Bool) (owner : String) (seconds : ℕ) (found : Option PlatformDelivery)
      {db' : Db}
      → claim_next_platform_delivery now locked owner seconds db ≡ ok (found, db')
      → Step db db'
  completed :
      (now delivery_id : ℕ) (owner operation : String) (done : Bool) {db' : Db}
      → complete_platform_delivery now delivery_id owner operation db ≡ ok (done, db')
      → Step db db'
  returned :
      (now delivery_id : ℕ) (owner code : String) (after : Option ℕ) (done : Bool) {db' : Db}
      → return_platform_delivery_for_retry now delivery_id owner code after db ≡ ok (done, db')
      → Step db db'
  gave_up :
      (now delivery_id : ℕ) (owner code : String) (done : Bool) {db' : Db}
      → fail_platform_delivery now delivery_id owner code db ≡ ok (done, db')
      → Step db db'
  -- other parts of the system change the users, stores and scopes
  reassigned : (dir : Directory) → Step db (record db { directory = dir })

pub data Reach (start : Db) : Db → Type 0 where
  here : Reach start start
  next : {db db' : Db} → Reach start db → Step db db' → Reach start db'

abbrev pub empty_db : Directory → Db
empty_db dir = record { directory = dir; records = []; deliveries = []; audit = [] }

pub Reach_induction :
    (P : Db → Type 0) (start : Db)
    → P start
    → ((db db' : Db) → Step db db' → P db → P db')
    → {db : Db} → Reach start db
    → P db
Reach_induction P start h keep here = h
Reach_induction P start h keep (next {db} {db'} r st) =
    keep db db' st (Reach_induction P start h keep r)
