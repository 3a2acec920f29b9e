-- ===== src/Worker/Loop.antt =====
-- `run_once` of backend/platform_delivery_worker.py. Each of its transactions has a session of its own,
-- and other transactions come between them: `load_db` and `settle_db` are the tables that they leave.
use e_commerec_operations.Base.{
  Bool, Option, Result, String, err, false, if◌then◌else◌, ltb, none, not, ok, some, true, ℕ, ◌&&◌,
  ◌==◌, ◌>>=◌,
}
use e_commerec_operations.Delivery.Claim.{claim_next_platform_delivery}
use e_commerec_operations.Delivery.Finish.{
  complete_platform_delivery, fail_platform_delivery, return_platform_delivery_for_retry,
}
use e_commerec_operations.Delivery.Tables.{
  Db, PlatformDelivery, PublishRecord, ValueError, publish_authorized, publish_record,
}
use e_commerec_operations.Worker.Client.{Reply, Session, client_error}
use e_commerec_operations.Worker.Publish.{PublishError, client, publish_listing, unexpected}

unfoldable pub linked :
    PlatformDelivery → Option PublishRecord → Db → Bool → Result PublishError (Unit {0})
linked d none db snapshot_ok = err unexpected
linked d (some r) db snapshot_ok =
    if not (r.store_id == d.store_id)
    then err unexpected
    else if not (publish_authorized db.directory r)
    then err (client (client_error "PLATFORM_FORBIDDEN" false))
    else if not snapshot_ok
    then err unexpected
    else ok tt

-- `_load_publish_request`; `snapshot_ok` tells whether the snapshot has its fields
unfoldable pub load_publish_request : PlatformDelivery → Db → Bool → Result PublishError (Unit {0})
unfolding linked
load_publish_request d db snapshot_ok = linked d (publish_record db.records d) db snapshot_ok

-- The transaction that settles a delivery after its publication.
unfoldable pub settle :
    ℕ → String → PlatformDelivery → Db → Result PublishError String → Result ValueError (Bool × Db)
settle now owner d db (ok operation) = complete_platform_delivery now d.id owner operation db
settle now owner d db (err unexpected) =
    fail_platform_delivery now d.id owner "PLATFORM_DELIVERY_FAILED" db
settle now owner d db (err (client e)) =
    if e.retryable && ltb d.attempt_count 3
    then return_platform_delivery_for_retry now d.id owner e.code e.retry_after_seconds db
    else fail_platform_delivery now d.id owner e.code db

-- `PlatformDeliveryWorkerError`
pub data WorkerError : Type 0 where
  delivery_failed : WorkerError

-- What the publication of a delivery depends on besides its row: the parsers, the settings, the
-- transport, the tables before each attempt of the client, and the client's state.
module _ (parse_token : String → Option String) (parse_operation : String → Option String)
    (configured : Bool) (send : ℕ → Reply) (attempt_db : ℕ → Db) (snapshot_ok well_formed : Bool)
    (s : Session) where
  unfoldable pub authorize_publish : PlatformDelivery → ℕ → Result PublishError Bool
  unfolding load_publish_request
  authorize_publish d n = load_publish_request d (attempt_db n) snapshot_ok >>= λ loaded. ok true

  -- The request is loaded, and loaded again before each attempt of the client.
  unfoldable pub publish : PlatformDelivery → Db → Result PublishError String
  unfolding load_publish_request authorize_publish
  publish d load_db = load_publish_request d load_db snapshot_ok >>= λ loaded.
      publish_listing parse_token parse_operation configured send (authorize_publish d) well_formed
        s
      >>= λ result. ok result.0

  -- `load_db` and `settle_db` are the tables after the other transactions that came between.
  unfoldable pub run_once :
      ℕ
      → ℕ
      → (ℕ → Bool)
      → String
      → ℕ
      → (Db → Db)
      → (Db → Db)
      → Db
      → Result WorkerError (Option ℕ × Db)
  unfolding publish settle
  run_once now later locked owner seconds load_db settle_db db =
      elim (claim_next_platform_delivery now locked owner seconds db) [
        | err e ↦ err delivery_failed
        | ok (none, db') ↦ ok (none, db')
        | ok (some d, db') ↦
            elim (settle later owner d (settle_db (load_db db')) (publish d (load_db db'))) [
              | err e ↦ err delivery_failed
              | ok (done, db'') ↦ ok (some d.id, db'')
            ]
      ]
