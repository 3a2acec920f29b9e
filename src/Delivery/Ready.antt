-- ===== src/Delivery/Ready.antt =====
-- What a claim looks for and what it gives up, in terms of the rows, and that the tests of
-- Delivery/Claim.antt decide it.
use e_commerec_operations.Base.{
  ==_iff, All, Bool, Bool-cases, List, Option, Option-cases, [], arith, exists_where, false,
  false≢true, holds, inl, inr, leb, none, refl, some, true, ℕ, ◌<◌, ◌∷◌, ◌≡◌, ◌≢◌, ◌≤◌, ◌⊎◌,
}
use e_commerec_operations.Common.{PlatformDeliveryStatus}
use e_commerec_operations.Delivery.Claim.{
  claimable, has_predecessor, is_eligible, is_exhausted, is_older, is_open, precedes,
}
use e_commerec_operations.Delivery.Tables.{
  Db, PlatformDelivery, PublishRecord, failed_delivery, is_pending, is_processing, publish_record,
}

-- A delivery that has been given up at `now`.
pub record GivenUp (now : ℕ) (d d' : PlatformDelivery) : Type 0 where
  pub status : d'.status ≡ PlatformDeliveryStatus.failed
  pub error : d'.error_code ≡ some "PLATFORM_DELIVERY_FAILED"
  pub completed : d'.completed_at ≡ some now
  pub no_holder : d'.lease_owner ≡ none
  pub no_lease : d'.lease_expires_at ≡ none
  pub attempts : d'.attempt_count ≡ d.attempt_count

pub given-up :
    (now : ℕ) (d : PlatformDelivery)
    → GivenUp now d (failed_delivery now "PLATFORM_DELIVERY_FAILED" d)
given-up now d = record {
  status = refl;
  error = refl;
  completed = refl;
  no_holder = refl;
  no_lease = refl;
  attempts = refl;
}

-- Its third lease has run out, and no other transaction holds the row.
pub record Exhausted (now : ℕ) (locked : ℕ → Bool) (d : PlatformDelivery) : Type 0 where
  pub running : d.status ≡ PlatformDeliveryStatus.processing
  pub attempts : 3 ≤ d.attempt_count
  pub until : (t : ℕ) × (d.lease_expires_at ≡ some t) × (t ≤ now)
  pub free : locked d.id ≡ false

abbrev pub IsDue : ℕ → PlatformDelivery → Type 0
IsDue now d =
    (d.status ≡ PlatformDeliveryStatus.pending)
      × ((d.next_attempt_at ≡ none) ⊎ ((t : ℕ) × (d.next_attempt_at ≡ some t) × (t ≤ now)))
    ⊎ (d.status ≡ PlatformDeliveryStatus.processing)
      × ((t : ℕ) × (d.lease_expires_at ≡ some t) × (t ≤ now))

-- `o` is no unfinished delivery of an older version of what `r` publishes.
abbrev pub IsOutOfTheWay : List PublishRecord → PublishRecord → PlatformDelivery → Type 0
IsOutOfTheWay records r o =
    (s : PublishRecord)
    → publish_record records o ≡ some s
    → s.store_id ≡ r.store_id
    → s.product_id ≡ r.product_id
    → s.published_product_version < r.published_product_version
    → (o.status ≢ PlatformDeliveryStatus.pending) × (o.status ≢ PlatformDeliveryStatus.processing)

pub record Ready (now : ℕ) (locked : ℕ → Bool) (db : Db) (d : PlatformDelivery) : Type 0 where
  pub due : IsDue now d
  pub attempts : d.attempt_count < 3
  pub free : locked d.id ≡ false
  pub publication : PublishRecord
  pub found : publish_record db.records d ≡ some publication
  pub first : All (IsOutOfTheWay db.records publication) db.deliveries

pending-status :
    (s : PlatformDeliveryStatus) → is_pending s ≡ true → s ≡ PlatformDeliveryStatus.pending
pending-status PlatformDeliveryStatus.pending e = refl
pending-status PlatformDeliveryStatus.processing e = absurd (false≢true e)
pending-status PlatformDeliveryStatus.succeeded e = absurd (false≢true e)
pending-status PlatformDeliveryStatus.failed e = absurd (false≢true e)

processing-status :
    (s : PlatformDeliveryStatus) → is_processing s ≡ true → s ≡ PlatformDeliveryStatus.processing
processing-status PlatformDeliveryStatus.processing e = refl
processing-status PlatformDeliveryStatus.pending e = absurd (false≢true e)
processing-status PlatformDeliveryStatus.succeeded e = absurd (false≢true e)
processing-status PlatformDeliveryStatus.failed e = absurd (false≢true e)

-- a time that is there and not after `now`
time-passed :
    (now : ℕ) (o : Option ℕ) → holds (λ t. leb t now) o ≡ true → (t : ℕ) × (o ≡ some t) × (t ≤ now)
time-passed now none e = absurd (false≢true e)
time-passed now (some t) e = (t, refl, ground arith)

passed-time : (now t : ℕ) (o : Option ℕ) → o ≡ some t → t ≤ now → holds (λ x. leb x now) o ≡ true
passed-time now t o e h = rw e (ground arith)

pub is_exhausted-Exhausted :
    (now : ℕ) (locked : ℕ → Bool) (d : PlatformDelivery)
    → is_exhausted now locked d ≡ true
    → Exhausted now locked d
is_exhausted-Exhausted now locked d e = record {
  running = processing-status d.status (ground arith);
  attempts = ground arith;
  until = time-passed now d.lease_expires_at (ground arith);
  free = ground arith;
}

pub Exhausted-is_exhausted :
    (now : ℕ) (locked : ℕ → Bool) (d : PlatformDelivery)
    → Exhausted now locked d
    → is_exhausted now locked d ≡ true
Exhausted-is_exhausted now locked d x =
    let (t, at, past) = x.until in
    let p = passed-time now t d.lease_expires_at at past in
    let k = x.attempts in let f = x.free in rw x.running (ground arith)

is_eligible-IsDue : (now : ℕ) (d : PlatformDelivery) → is_eligible now d ≡ true → IsDue now d
is_eligible-IsDue now d e = elim (Bool-cases (is_pending d.status)) [
  | inr other ↦
      inr (
        processing-status d.status (ground arith),
        time-passed now d.lease_expires_at (ground arith),
      )
  | inl waiting ↦ elim (Option-cases d.next_attempt_at) [
    | inl never ↦ inl (pending-status d.status waiting, inl never)
    | inr (t, at) ↦
        let idle : is_processing d.status ≡ false = rw (pending-status d.status waiting) refl in
        inl
          (pending-status d.status waiting, inr (time-passed now d.next_attempt_at (ground arith)))
  ]
]

IsDue-is_eligible : (now : ℕ) (d : PlatformDelivery) → IsDue now d → is_eligible now d ≡ true
IsDue-is_eligible now d (inl (waiting, inl never)) = rw (waiting, never) refl
IsDue-is_eligible now d (inl (waiting, inr (t, at, past))) =
    let p = passed-time now t d.next_attempt_at at past in rw waiting (ground arith)
IsDue-is_eligible now d (inr (running, (t, at, past))) =
    let p = passed-time now t d.lease_expires_at at past in rw running p

older-precedes :
    (records : List PublishRecord) (r s : PublishRecord) (o : PlatformDelivery)
    → precedes records r o ≡ false
    → publish_record records o ≡ some s
    → s.store_id ≡ r.store_id
    → s.product_id ≡ r.product_id
    → s.published_product_version < r.published_product_version
    → is_open o ≡ false
older-precedes records r s o e at store product version =
    let a = (==_iff s.store_id r.store_id).1 store in
    let b = (==_iff s.product_id r.product_id).1 product in let k = rw at at e in ground arith

closed-status :
    (o : PlatformDelivery)
    → is_open o ≡ false
    → (o.status ≢ PlatformDeliveryStatus.pending) × (o.status ≢ PlatformDeliveryStatus.processing)
closed-status o e = (
  (λ p. let t : is_pending o.status ≡ true = rw p refl in absurd (ground arith)),
  (λ p. let t : is_processing o.status ≡ true = rw p refl in absurd (ground arith)),
)

predecessor-none :
    (records : List PublishRecord) (r : PublishRecord) (rows : List PlatformDelivery)
    → exists_where (precedes records r) rows ≡ false
    → All (IsOutOfTheWay records r) rows
unfolding exists_where
predecessor-none records r [] e = tt
predecessor-none records r (o ∷ os) e = (
  λ s at store product version.
      closed-status o (older-precedes records r s o (ground arith) at store product version),
  predecessor-none records r os (ground arith),
)

precedes-false :
    (records : List PublishRecord) (r : PublishRecord) (o : PlatformDelivery)
    → IsOutOfTheWay records r o
    → precedes records r o ≡ false
precedes-false records r o h = elim (Bool-cases (precedes records r o)) [
  | inr f ↦ f
  | inl t ↦ elim (Option-cases (publish_record records o)) [
    | inl missing ↦ absurd (ground arith)
    | inr (s, at) ↦
        let older : is_older r s ≡ true = ground arith in
        let open_now : is_open o ≡ true = ground arith in
        let (p, q) =
          h s at ((==_iff s.store_id r.store_id).0 (ground arith))
            ((==_iff s.product_id r.product_id).0 (ground arith)) (ground arith) in
        elim (Bool-cases (is_pending o.status)) [
          | inl waiting ↦ absurd (p (pending-status o.status waiting))
          | inr other ↦ absurd (q (processing-status o.status (ground arith)))
        ]
  ]
]

none-predecessor :
    (records : List PublishRecord) (r : PublishRecord) (rows : List PlatformDelivery)
    → All (IsOutOfTheWay records r) rows
    → exists_where (precedes records r) rows ≡ false
unfolding exists_where
none-predecessor records r [] h = refl
none-predecessor records r (o ∷ os) h =
    rw (precedes-false records r o h.0) (none-predecessor records r os h.1)

pub claimable-Ready :
    (now : ℕ) (locked : ℕ → Bool) (db : Db) (d : PlatformDelivery)
    → claimable now locked db d ≡ true
    → Ready now locked db d
unfolding claimable has_predecessor
claimable-Ready now locked db d e = elim (Option-cases (publish_record db.records d)) [
  | inl missing ↦ absurd (ground arith)
  | inr (r, at) ↦ record {
    due = is_eligible-IsDue now d (ground arith);
    attempts = ground arith;
    free = ground arith;
    publication = r;
    found = at;
    first = predecessor-none db.records r db.deliveries (ground arith);
  }
]

pub Ready-claimable :
    (now : ℕ) (locked : ℕ → Bool) (db : Db) (d : PlatformDelivery)
    → Ready now locked db d
    → claimable now locked db d ≡ true
unfolding claimable has_predecessor
Ready-claimable now locked db d x =
    let a = IsDue-is_eligible now d x.due in
    let b = x.attempts in
    let c = x.free in
    let f = none-predecessor db.records x.publication db.deliveries x.first in
    let found = x.found in rw (a, c, found, f) (ground arith)
