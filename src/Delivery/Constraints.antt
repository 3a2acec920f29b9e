-- ===== src/Delivery/Constraints.antt =====
-- The CHECK constraints of `platform_deliveries` (backend/models.py): no transaction of the queue
-- writes a row that the database would refuse.
use e_commerec_operations.Accounts.{Directory}
use e_commerec_operations.Base.{
  All, All-map, Bool, Rows-All, Rows-IsKeyed, String, arith, holds, if◌then◌else◌, inl, inr,
  is_none, leb, not, refl, true, ℕ, ◌&&◌, ◌<◌, ◌||◌, ◌∷◌, ◌≡◌, ◌≢◌,
}
use e_commerec_operations.Common.{PlatformDeliveryStatus}
use e_commerec_operations.Delivery.Claim.{claimed_delivery, is_open}
use e_commerec_operations.Delivery.Finish.{retried_delivery, succeeded_delivery}
use e_commerec_operations.Delivery.Moves.{Allows, Keyed, delivery_id}
use e_commerec_operations.Delivery.Respects.{Always, SameId, SameId-Allows, Step-Rows}
use e_commerec_operations.Delivery.Steps.{
  Reach, Reach_induction, Step, empty_db, enqueue, new_delivery,
}
use e_commerec_operations.Delivery.Tables.{
  Db, PlatformDelivery, PublishRecord, failed_delivery, is_error_code, is_processing,
}

-- `ck_platform_deliveries_lease`
abbrev lease_constraint : PlatformDelivery → Bool
lease_constraint d =
    if is_processing d.status
    then not (is_none d.lease_owner) && not (is_none d.lease_expires_at)
    else is_none d.lease_owner && is_none d.lease_expires_at

terminal_constraint : PlatformDeliveryStatus → PlatformDelivery → Bool
terminal_constraint PlatformDeliveryStatus.succeeded d =
    not (is_none d.external_operation_id) && not (is_none d.completed_at) && is_none d.error_code
terminal_constraint PlatformDeliveryStatus.failed d =
    is_none d.external_operation_id && not (is_none d.completed_at) && not (is_none d.error_code)
terminal_constraint _ d = is_none d.external_operation_id && is_none d.completed_at

-- `ck_platform_deliveries_error_code`
abbrev error_constraint : PlatformDelivery → Bool
error_constraint d = is_none d.error_code || holds is_error_code d.error_code

-- The conjunction, with `ck_platform_deliveries_attempt_count` and `ck_platform_deliveries_terminal`.
unfoldable pub constraints : PlatformDelivery → Bool
unfolding terminal_constraint
constraints d =
    leb d.attempt_count 3
    && lease_constraint d
    && terminal_constraint d.status d
    && error_constraint d

abbrev pub Conforms : PlatformDelivery → Type 0
Conforms d = constraints d ≡ true

abbrev KeepsConstraints : PlatformDelivery → PlatformDelivery → Type 0
KeepsConstraints d d' = Conforms d → Conforms d'

failed-Conforms :
    (now : ℕ) (code : String) (d : PlatformDelivery)
    → is_error_code code ≡ true
    → Conforms d
    → Conforms (failed_delivery now code d)
unfolding constraints
failed-Conforms now code d c h = ground arith

claimed-Conforms :
    (now : ℕ) (owner : String) (seconds : ℕ) (d : PlatformDelivery)
    → is_open d ≡ true
    → d.attempt_count < 3
    → Conforms d
    → Conforms (claimed_delivery now owner seconds d)
unfolding constraints
claimed-Conforms now owner seconds d o few h = ground arith

succeeded-Conforms :
    (now : ℕ) (operation : String) (d : PlatformDelivery)
    → Conforms d
    → Conforms (succeeded_delivery now operation d)
unfolding constraints
succeeded-Conforms now operation d h = ground arith

retried-Conforms :
    (now delay : ℕ) (code : String) (d : PlatformDelivery)
    → is_error_code code ≡ true
    → is_processing d.status ≡ true
    → Conforms d
    → Conforms (retried_delivery now delay code d)
unfolding constraints
retried-Conforms now delay code d c p h = ground arith

constraints-Allows : Allows Always KeepsConstraints
constraints-Allows = record {
  stay = λ d h. h;
  compose = λ a b c p q h. q (p h);
  failing = λ now code d c p. failed-Conforms now code d c;
  claiming = λ now owner seconds d o few t. claimed-Conforms now owner seconds d o few;
  succeeding = λ now operation d p. succeeded-Conforms now operation d;
  retrying = λ now delay code d c p. retried-Conforms now delay code d c p;
}

new-Conforms : (now i : ℕ) (r : PublishRecord) → Conforms (new_delivery now i r)
unfolding constraints
new-Conforms now i r = refl

pub enqueue-deliveries :
    (now i : ℕ) (r : PublishRecord) (db : Db)
    → (enqueue now i r db).deliveries ≡ new_delivery now i r ∷ db.deliveries
unfolding enqueue
enqueue-deliveries now i r db = refl

-- The primary key stays one.
pub Step-Keyed : (db db' : Db) → Step db db' → Keyed db → Keyed db'
Step-Keyed db db' st keyed = elim (Step-Rows SameId SameId-Allows db db' st keyed) [
  | inl rows ↦ Rows-IsKeyed delivery_id db.deliveries db'.deliveries rows keyed
  | inr (now, i, r, fresh, e) ↦
      rw (e, enqueue-deliveries)
        (
          All-map (λ d. (d.id ≢ i) × (d.publish_record_id ≢ r.id)) (λ d. d.id ≢ i) (λ d h. h.0)
              db.deliveries fresh.new_id,
          keyed,
        )
]

abbrev pub IsSound : Db → Type 0
IsSound db = Keyed db × All Conforms db.deliveries

pub Step-IsSound : (db db' : Db) → Step db db' → IsSound db → IsSound db'
Step-IsSound db db' st (keyed, h) = (
  Step-Keyed db db' st keyed,
  elim (Step-Rows KeepsConstraints constraints-Allows db db' st keyed) [
    | inl rows ↦ Rows-All Conforms db.deliveries db'.deliveries rows h
    | inr (now, i, r, fresh, e) ↦ rw (e, enqueue-deliveries) (new-Conforms now i r, h)
  ],
)

-- Whatever the transactions, their order and the other users of the tables do, each row of the queue
-- satisfies the CHECK constraints of its table, and its key is its own.
pub Reach-IsSound : (dir : Directory) (db : Db) → Reach (empty_db dir) db → IsSound db
Reach-IsSound dir db = Reach_induction IsSound (empty_db dir) (tt, tt) Step-IsSound
