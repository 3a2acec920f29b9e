-- ===== src/Delivery/Respects.antt =====
-- Each transaction of backend/platform_delivery_runs.py respects the relations that the moves of a row
-- respect.
-- The two parts of a claim.
use e_commerec_operations.Base.{
  All, All-head?, All-of, All-order_by, All-select_where, Bool, Determines, IsKeyed-Determines,
  Option, Option-cases, Rows, Rows-IsKeyed, Rows-refl, Rows-trans, Rows-update_where, SameKey,
  String, [], arith, inl, inr, ok, order_by, refl, select_where, some, true, ℕ, ◌<◌, ◌∙◌, ◌≡◌, ◌⊎◌,
}
use e_commerec_operations.Delivery.Claim.{
  claim_next_platform_delivery, claimable, claimed_delivery, fail_exhausted, is_exhausted, is_open,
  next_claimable, queue_key, take_claim,
}
use e_commerec_operations.Delivery.Moves.{
  Allows, Keyed, complete-Rows, delivery_id, failed_code, give_up-Rows, return-Rows, save-Rows,
}
use e_commerec_operations.Delivery.Steps.{
  IsNext, Step, claimed, completed, enqueue, enqueued, gave_up, reassigned, returned,
}
use e_commerec_operations.Delivery.Tables.{
  Db, PlatformDelivery, PublishRecord, failed_delivery, store_delivery,
}

pub exhausted-Rows :
    (T : PlatformDelivery → Type 0) (R : PlatformDelivery → PlatformDelivery → Type 0)
    (moves : Allows T R) (now : ℕ) (locked : ℕ → Bool) (db : Db)
    → Rows R db.deliveries (fail_exhausted now locked db).deliveries
unfolding fail_exhausted
exhausted-Rows T R moves now locked db =
    let give_up = failed_delivery now "PLATFORM_DELIVERY_FAILED" in
    Rows-update_where R (is_exhausted now locked) give_up moves.stay db.deliveries (
      All-of (λ d. is_exhausted now locked d ≡ true → R d (give_up d))
        (λ d e. moves.failing now "PLATFORM_DELIVERY_FAILED" d failed_code (ground arith))
        db.deliveries)

abbrev pub SameId : PlatformDelivery → PlatformDelivery → Type 0
SameId = SameKey delivery_id

abbrev pub Always : PlatformDelivery → Type 0
Always d = Unit

pub SameId-Allows : Allows Always SameId
SameId-Allows = record {
  stay = λ d. refl;
  compose = λ a b c p q. q ∙ p;
  failing = λ now code d c p. refl;
  claiming = λ now owner seconds d o k t. refl;
  succeeding = λ now operation d p. refl;
  retrying = λ now delay code d c p. refl;
}

pub exhausted-Keyed :
    (now : ℕ) (locked : ℕ → Bool) (db : Db) → Keyed db → Keyed (fail_exhausted now locked db)
exhausted-Keyed now locked db =
    Rows-IsKeyed delivery_id db.deliveries (fail_exhausted now locked db).deliveries
      (exhausted-Rows Always SameId SameId-Allows now locked db)

-- What a statement about all rows says of the one that is claimed, with the test that it passed.
pub next_claimable-All :
    (P : PlatformDelivery → Type 0) (now : ℕ) (locked : ℕ → Bool) (db : Db) {d : PlatformDelivery}
    → next_claimable now locked db ≡ some d
    → All P db.deliveries
    → P d × (claimable now locked db d ≡ true)
unfolding next_claimable
next_claimable-All P now locked db e h =
    let Q = λ (x : PlatformDelivery). P x × (claimable now locked db x ≡ true) in
    let rows = select_where (claimable now locked db) db.deliveries in
    All-head? Q (order_by queue_key rows) e
      (All-order_by Q queue_key rows (All-select_where P (claimable now locked db) db.deliveries h))

pub claimable-is_open :
    (now : ℕ) (locked : ℕ → Bool) (db : Db) (d : PlatformDelivery)
    → claimable now locked db d ≡ true
    → (is_open d ≡ true) × (d.attempt_count < 3)
unfolding claimable
claimable-is_open now locked db d e = ground arith

module _ (T : PlatformDelivery → Type 0) (R : PlatformDelivery → PlatformDelivery → Type 0)
    (moves : Allows T R) where
  pub take_claim-Rows :
      (now : ℕ) (locked : ℕ → Bool) (owner : String) (seconds : ℕ) (db : Db)
      (found : Option PlatformDelivery) {db' : Db}
      → ((d : PlatformDelivery) → claimable now locked db d ≡ true → T d)
      → Keyed db
      → take_claim now owner seconds db (next_claimable now locked db) ≡ ok (found, db')
      → Rows R db.deliveries db'.deliveries
  unfolding take_claim
  take_claim-Rows now locked owner seconds db found {db'} known keyed e =
      elim (Option-cases (next_claimable now locked db)) [
        | inl nothing ↦
            let same : db' ≡ db = ground arith in rw same (Rows-refl R moves.stay db.deliveries)
        | inr (d, chosen) ↦
            let d' = claimed_delivery now owner seconds d in
            let is : db' ≡ store_delivery d' [] db = ground arith in
            let (det, test) =
              next_claimable-All (λ x. All (Determines delivery_id x) db.deliveries) now locked db
                chosen (IsKeyed-Determines delivery_id db.deliveries keyed) in
            let (opened, few) = claimable-is_open now locked db d test in
            rw is (
              save-Rows T R moves db.deliveries d d' refl det
                (moves.claiming now owner seconds d opened few (known d test)))
      ]

  pub claim-Rows :
      (now : ℕ) (locked : ℕ → Bool) (owner : String) (seconds : ℕ) (db : Db)
      (found : Option PlatformDelivery) {db' : Db}
      → ((d : PlatformDelivery)
          → claimable now locked (fail_exhausted now locked db) d ≡ true
          → T d)
      → Keyed db
      → claim_next_platform_delivery now locked owner seconds db ≡ ok (found, db')
      → Rows R db.deliveries db'.deliveries
  unfolding claim_next_platform_delivery
  claim-Rows now locked owner seconds db found {db'} known keyed e =
      let mid = fail_exhausted now locked db in
      let taken : take_claim now owner seconds mid (next_claimable now locked mid)
          ≡ ok (found, db') =
        ground arith in
      Rows-trans R moves.compose db.deliveries mid.deliveries db'.deliveries
        (exhausted-Rows T R moves now locked db)
        (take_claim-Rows now locked owner seconds mid found known
          (exhausted-Keyed now locked db keyed) taken)

module _ (R : PlatformDelivery → PlatformDelivery → Type 0) (moves : Allows Always R) where
  -- Every transaction but the insertion of a delivery moves each row by allowed moves.
  pub Step-Rows :
      (db db' : Db)
      → Step db db'
      → Keyed db
      → Rows R db.deliveries db'.deliveries
        ⊎ ((now i : ℕ) × (r : PublishRecord) × IsNext i r db × (db' ≡ enqueue now i r db))
  Step-Rows db db' (enqueued now i r fresh) keyed = inr (now, i, r, fresh, refl)
  Step-Rows db db' (claimed now locked owner seconds found e) keyed =
      inl (claim-Rows Always R moves now locked owner seconds db found (λ d t. tt) keyed e)
  Step-Rows db db' (completed now i owner operation done e) keyed =
      inl (complete-Rows Always R moves now i owner operation db done keyed e)
  Step-Rows db db' (returned now i owner code after done e) keyed =
      inl (return-Rows Always R moves now i owner code after db done keyed e)
  Step-Rows db db' (gave_up now i owner code done e) keyed =
      inl (give_up-Rows Always R moves now i owner code db done keyed e)
  Step-Rows db db' (reassigned dir) keyed = inl (Rows-refl R moves.stay db.deliveries)
