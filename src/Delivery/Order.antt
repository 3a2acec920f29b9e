-- ===== src/Delivery/Order.antt =====
-- The versions of one product are published in their order.
use e_commerec_operations.Base.{
  All, All-exists_where, List, Rows, Rows-All₂, arith, exists_where-All, false, inl, inr, refl,
  some, ◌<◌, ◌∙◌, ◌≡◌, ◌⊎◌,
}
use e_commerec_operations.Delivery.Claim.{has_predecessor, precedes}
use e_commerec_operations.Delivery.Moves.{Allows}
use e_commerec_operations.Delivery.Respects.{Always}
use e_commerec_operations.Delivery.Tables.{Db, PlatformDelivery, PublishRecord, publish_record}

-- No open delivery publishes an older version of the product of `d`.
abbrev pub IsFree : Db → PlatformDelivery → Type 0
IsFree db d =
    (r : PublishRecord) → publish_record db.records d ≡ some r → has_predecessor db r ≡ false

-- So it is for every delivery that has been attempted.
abbrev pub InOrder : Db → Type 0
InOrder db = All (λ d. 0 < d.attempt_count → IsFree db d) db.deliveries

-- A move never makes a delivery a predecessor.
abbrev pub Closing : List PublishRecord → PlatformDelivery → PlatformDelivery → Type 0
Closing records d d' =
    (newer : PublishRecord) → precedes records newer d ≡ false → precedes records newer d' ≡ false

pub Closing-Allows : (records : List PublishRecord) → Allows Always (Closing records)
unfolding publish_record
Closing-Allows records = record {
  stay = λ d newer h. h;
  compose = λ a b c p q newer h. q newer (p newer h);
  failing = λ now code d c p newer h. ground arith;
  claiming = λ now owner seconds d o few t newer h. ground arith;
  succeeding = λ now operation d p newer h. ground arith;
  retrying = λ now delay code d c p newer h. ground arith;
}

pub IsFree-Rows :
    (db db' : Db) (d : PlatformDelivery)
    → db'.records ≡ db.records
    → Rows (Closing db.records) db.deliveries db'.deliveries
    → IsFree db d
    → IsFree db' d
unfolding has_predecessor
IsFree-Rows db db' d same rows free r e =
    let before = exists_where-All (precedes db.records r) db.deliveries (free r (rw same at e)) in
    rw same (
      All-exists_where (precedes db.records r) db'.deliveries (
        Rows-All₂ (Closing db.records) (λ x. precedes db.records r x ≡ false)
          (λ x. precedes db.records r x ≡ false) (λ x y c. c r) db.deliveries db'.deliveries rows
          before))

-- A delivery that has been attempted was so before, or was found to be free.
module _ (T : PlatformDelivery → Type 0) where
  abbrev pub Attempt : PlatformDelivery → PlatformDelivery → Type 0
  Attempt d d' =
      (d'.publish_record_id ≡ d.publish_record_id)
      × (0 < d'.attempt_count → (0 < d.attempt_count) ⊎ T d)

  pub Attempt-Allows :
      ((a b : PlatformDelivery) → b.publish_record_id ≡ a.publish_record_id → T b → T a)
      → Allows T Attempt
  Attempt-Allows carry = record {
    stay = λ d. (refl, λ h. inl h);
    compose = λ a b c p q.
        (q.0 ∙ p.0, λ h. elim (q.1 h) [ inl k ↦ p.1 k | inr t ↦ inr (carry a b p.0 t) ]);
    failing = λ now code d c p. (refl, λ h. inl h);
    claiming = λ now owner seconds d o few t. (refl, λ h. inr t);
    succeeding = λ now operation d p. (refl, λ h. inl h);
    retrying = λ now delay code d c p. (refl, λ h. inl h);
  }

  pub Attempt-InOrder :
      (db db' : Db)
      → db'.records ≡ db.records
      → Rows (Closing db.records) db.deliveries db'.deliveries
      → Rows Attempt db.deliveries db'.deliveries
      → ((d : PlatformDelivery) → T d → IsFree db' d)
      → InOrder db
      → InOrder db'
  unfolding publish_record
  Attempt-InOrder db db' same closing attempt known h =
      Rows-All₂ Attempt (λ d. 0 < d.attempt_count → IsFree db d)
        (λ d. 0 < d.attempt_count → IsFree db' d)
        (λ x y a inv tried. elim (a.1 tried) [
          | inl before ↦ λ r e. IsFree-Rows db db' x same closing (inv before) r (rw a.0 at e)
          | inr t ↦ λ r e. known x t r (rw a.0 at e)
        ])
        db.deliveries db'.deliveries attempt h
