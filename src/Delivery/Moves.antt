-- ===== src/Delivery/Moves.antt =====
-- Every transaction of the queue changes a row of `platform_deliveries` by moves of one small state
-- machine: what a relation between rows has to satisfy so that all transactions respect it.
use e_commerec_operations.Base.{
  ==_iff, All, All-find?, All-map, Bool, Bool-cases, Determines, IsKeyed, IsKeyed-Determines, List,
  Option, Option-cases, Rows, Rows-refl, Rows-update_where, String, [], arith, inl, inr, leb, ok,
  refl, some, true, ℕ, ◌<◌, ◌∙◌, ◌∷◌, ◌≡◌,
}
use e_commerec_operations.Delivery.Claim.{claimed_delivery, is_open}
use e_commerec_operations.Delivery.Finish.{
  complete_platform_delivery, delivery_authorized, fail_platform_delivery, retried_delivery,
  retry_delay, return_platform_delivery_for_retry, succeeded_delivery,
}
use e_commerec_operations.Delivery.Tables.{
  Db, PlatformDelivery, failed_delivery, is_error_code, is_owned, is_processing, mark_failed,
  owned_delivery, same_delivery, save, store_delivery, terminal_audit,
}

abbrev pub delivery_id : PlatformDelivery → ℕ
delivery_id d = d.id

abbrev pub Keyed : Db → Type 0
Keyed db = IsKeyed delivery_id db.deliveries

-- The moves of one row: the four ways in which a transaction rewrites it, with what the transaction
-- has tested before. `T` is what is known besides of a delivery that is claimed.
pub record Allows (T : PlatformDelivery → Type 0) (R : PlatformDelivery → PlatformDelivery → Type 0)
    : Type 0 where
  pub stay : (d : PlatformDelivery) → R d d
  pub compose : (a b c : PlatformDelivery) → R a b → R b c → R a c
  pub failing :
      (now : ℕ) (code : String) (d : PlatformDelivery)
      → is_error_code code ≡ true
      → is_processing d.status ≡ true
      → R d (failed_delivery now code d)
  pub claiming :
      (now : ℕ) (owner : String) (seconds : ℕ) (d : PlatformDelivery)
      → is_open d ≡ true
      → d.attempt_count < 3
      → T d
      → R d (claimed_delivery now owner seconds d)
  pub succeeding :
      (now : ℕ) (operation : String) (d : PlatformDelivery)
      → is_processing d.status ≡ true
      → R d (succeeded_delivery now operation d)
  pub retrying :
      (now delay : ℕ) (code : String) (d : PlatformDelivery)
      → is_error_code code ≡ true
      → is_processing d.status ≡ true
      → R d (retried_delivery now delay code d)

pub forbidden_code : is_error_code "PLATFORM_FORBIDDEN" ≡ true
unfolding is_error_code
forbidden_code = refl

pub failed_code : is_error_code "PLATFORM_DELIVERY_FAILED" ≡ true
unfolding is_error_code
failed_code = refl

module _ (T : PlatformDelivery → Type 0) (R : PlatformDelivery → PlatformDelivery → Type 0)
    (moves : Allows T R) where
  pub save-Rows :
      (rows : List PlatformDelivery) (d d' : PlatformDelivery)
      → d'.id ≡ d.id
      → All (Determines delivery_id d) rows
      → R d d'
      → Rows R rows (save d' rows)
  unfolding save
  save-Rows rows d d' same det r =
      Rows-update_where R (same_delivery d') (λ _. d') moves.stay rows
        (All-map (Determines delivery_id d) (λ x. same_delivery d' x ≡ true → R x d')
          (λ x k e. let at_d : x ≡ d = k ((==_iff x.id d'.id).0 e ∙ same) in rw at_d r) rows det)

  owned-found :
      (now i : ℕ) (owner : String) (db : Db) (d : PlatformDelivery)
      → Keyed db
      → owned_delivery now i owner db ≡ some d
      → All (Determines delivery_id d) db.deliveries × (is_processing d.status ≡ true)
  unfolding owned_delivery
  owned-found now i owner db d keyed e =
      let found =
        All-find? (λ d. All (Determines delivery_id d) db.deliveries) (is_owned now i owner)
          db.deliveries e (IsKeyed-Determines delivery_id db.deliveries keyed) in
      (found.0, ground arith)

  fail-Rows :
      (now i : ℕ) (code : String) (owner : String) (db : Db) (d : PlatformDelivery)
      → is_error_code code ≡ true
      → Keyed db
      → owned_delivery now i owner db ≡ some d
      → Rows R db.deliveries (mark_failed now code d db).deliveries
  unfolding mark_failed
  fail-Rows now i code owner db d c keyed e =
      let (det, p) = owned-found now i owner db d keyed e in
      save-Rows db.deliveries d (failed_delivery now code d) refl det (moves.failing now code d c p)

  pub complete-Rows :
      (now i : ℕ) (owner operation : String) (db : Db) (done : Bool) {db' : Db}
      → Keyed db
      → complete_platform_delivery now i owner operation db ≡ ok (done, db')
      → Rows R db.deliveries db'.deliveries
  unfolding complete_platform_delivery
  complete-Rows now i owner operation db done {db'} keyed e =
      elim (Option-cases (owned_delivery now i owner db)) [
        | inl missing ↦
            let same : db' ≡ db = ground arith in rw same (Rows-refl R moves.stay db.deliveries)
        | inr (d, found) ↦ elim (Bool-cases (delivery_authorized db d)) [
          | inl granted ↦
              let d' = succeeded_delivery now operation d in
              let is : db' ≡ store_delivery d' (terminal_audit d' true ∷ []) db = ground arith in
              let (det, p) = owned-found now i owner db d keyed found in
              rw is (save-Rows db.deliveries d d' refl det (moves.succeeding now operation d p))
          | inr refused ↦
              let is : db' ≡ mark_failed now "PLATFORM_FORBIDDEN" d db = ground arith in
              rw is (fail-Rows now i "PLATFORM_FORBIDDEN" owner db d forbidden_code keyed found)
        ]
      ]

  pub return-Rows :
      (now i : ℕ) (owner code : String) (after : Option ℕ) (db : Db) (done : Bool) {db' : Db}
      → Keyed db
      → return_platform_delivery_for_retry now i owner code after db ≡ ok (done, db')
      → Rows R db.deliveries db'.deliveries
  unfolding return_platform_delivery_for_retry
  return-Rows now i owner code after db done {db'} keyed e =
      let listed : is_error_code code ≡ true = ground arith in
      elim (Option-cases (owned_delivery now i owner db)) [
        | inl missing ↦
            let same : db' ≡ db = ground arith in rw same (Rows-refl R moves.stay db.deliveries)
        | inr (d, found) ↦ elim (Bool-cases (delivery_authorized db d)) [
          | inl granted ↦ elim (Bool-cases (leb 3 d.attempt_count)) [
            | inl last ↦
                let is : db' ≡ mark_failed now code d db = ground arith in
                rw is (fail-Rows now i code owner db d listed keyed found)
            | inr again ↦
                let delay = retry_delay after d.attempt_count in
                let is : db' ≡ store_delivery (retried_delivery now delay code d) [] db =
                  ground arith in
                let (det, p) = owned-found now i owner db d keyed found in
                rw is (
                  save-Rows db.deliveries d (retried_delivery now delay code d) refl det
                    (moves.retrying now delay code d listed p))
          ]
          | inr refused ↦
              let is : db' ≡ mark_failed now "PLATFORM_FORBIDDEN" d db = ground arith in
              rw is (fail-Rows now i "PLATFORM_FORBIDDEN" owner db d forbidden_code keyed found)
        ]
      ]

  pub give_up-Rows :
      (now i : ℕ) (owner code : String) (db : Db) (done : Bool) {db' : Db}
      → Keyed db
      → fail_platform_delivery now i owner code db ≡ ok (done, db')
      → Rows R db.deliveries db'.deliveries
  unfolding fail_platform_delivery
  give_up-Rows now i owner code db done {db'} keyed e =
      let listed : is_error_code code ≡ true = ground arith in
      elim (Option-cases (owned_delivery now i owner db)) [
        | inl missing ↦
            let same : db' ≡ db = ground arith in rw same (Rows-refl R moves.stay db.deliveries)
        | inr (d, found) ↦
            let is : db' ≡ mark_failed now code d db = ground arith in
            rw is (fail-Rows now i code owner db d listed keyed found)
      ]
