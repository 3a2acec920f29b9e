-- ===== src/Delivery/Progress.antt =====
-- What becomes of one delivery in any run of the queue.
use e_commerec_operations.Base.{
  All-find?, Option, Rows-find?, arith, false, find?, find?-test, inl, inr, refl, some, ℕ, ◌==◌,
  ◌∙◌, ◌≡◌, ◌≢◌, ◌≤◌,
}
use e_commerec_operations.Delivery.Claim.{is_open}
use e_commerec_operations.Delivery.Constraints.{Step-Keyed}
use e_commerec_operations.Delivery.Moves.{Allows, Keyed, delivery_id}
use e_commerec_operations.Delivery.Respects.{Always, Step-Rows}
use e_commerec_operations.Delivery.Steps.{Reach, Step, enqueue, here, next}
use e_commerec_operations.Delivery.Tables.{Db, PlatformDelivery, PublishRecord}

-- Its attempts only grow, and once it has succeeded or failed nothing in its row changes.
abbrev pub Later : PlatformDelivery → PlatformDelivery → Type 0
Later d d' =
    (d'.id ≡ d.id)
    × (d'.publish_record_id ≡ d.publish_record_id)
    × (d.attempt_count ≤ d'.attempt_count)
    × (is_open d ≡ false → d' ≡ d)

Later-trans : (a b c : PlatformDelivery) → Later a b → Later b c → Later a c
Later-trans a b c p q = (
  q.0 ∙ p.0,
  q.1 ∙ p.1,
  omega arith,
  (λ shut. let same : b ≡ a = p.3 shut in q.3 (rw same shut) ∙ same),
)

pub Later-Allows : Allows Always Later
Later-Allows = record {
  stay = λ d. (refl, refl, omega arith, λ shut. refl);
  compose = Later-trans;
  failing = λ now code d c p. (refl, refl, omega arith, λ shut. ground arith);
  claiming = λ now owner seconds d o few t. (refl, refl, omega arith, λ shut. ground arith);
  succeeding = λ now operation d p. (refl, refl, omega arith, λ shut. ground arith);
  retrying = λ now delay code d c p. (refl, refl, omega arith, λ shut. ground arith);
}

unfoldable pub delivery : ℕ → Db → Option PlatformDelivery
delivery i db = find? (λ z. delivery_id z == i) db.deliveries

find_after_enqueue :
    (now i j : ℕ) (r : PublishRecord) (db : Db) {d : PlatformDelivery}
    → d.id ≢ j
    → delivery i db ≡ some d
    → delivery i (enqueue now j r db) ≡ some d
unfolding delivery enqueue find?
find_after_enqueue now i j r db {d} ne e =
    let at_i = find?-test (λ z. delivery_id z == i) db.deliveries e in ground (arith, ne)

Step-Later :
    (db db' : Db) (i : ℕ) (d : PlatformDelivery)
    → Step db db'
    → Keyed db
    → delivery i db ≡ some d
    → (d' : PlatformDelivery) × (delivery i db' ≡ some d') × Later d d'
unfolding delivery
Step-Later db db' i d st keyed e = elim (Step-Rows Later Later-Allows db db' st keyed) [
  | inl rows ↦ Rows-find? delivery_id Later (λ x y r. r.0) i db.deliveries db'.deliveries rows e
  | inr (now, j, r, fresh, is) ↦
      let other =
        All-find? (λ x. (x.id ≢ j) × (x.publish_record_id ≢ r.id)) (λ z. delivery_id z == i)
          db.deliveries e fresh.new_id in
      (d, rw is (find_after_enqueue now i j r db other.0.0 e), Later-Allows.stay d)
]

-- Between any two states of a run, the first with distinct keys, a delivery keeps its key and its
-- publish record, its attempts never decrease, and once it has succeeded or failed nothing in its
-- row changes; the keys stay distinct.
pub Reach-Later :
    (db : Db) (i : ℕ) (d : PlatformDelivery)
    → Keyed db
    → delivery i db ≡ some d
    → {db' : Db} → Reach db db'
    → Keyed db' × ((d' : PlatformDelivery) × (delivery i db' ≡ some d') × Later d d')
Reach-Later db i d keyed e here = (keyed, (d, e, Later-Allows.stay d))
Reach-Later db i d keyed e (next {db = mid} {db' = db'} r st) =
    let (keyed_mid, (x, ex, lx)) = Reach-Later db i d keyed e r in
    let (y, ey, ly) = Step-Later mid db' i x st keyed_mid ex in
    (Step-Keyed mid db' st keyed_mid, (y, ey, Later-trans d x y lx ly))
