-- ===== src/Worker/Settled.antt =====
-- A delivery that the worker takes is always settled: the queue accepts whatever a publication yields.
-- An id that the queue takes, or an error that it takes.
use e_commerec_operations.Base.{
  Bool, Option, Option-cases, Result, Result-cases, String, arith, err, false, if◌then◌else◌, inl,
  inr, none, not, ok, refl, some, true, ℕ, ◌<◌, ◌==◌, ◌>>=◌, ◌≡◌,
}
use e_commerec_operations.Delivery.Claim.{
  claim_next_platform_delivery, fail_exhausted, next_claimable,
}
use e_commerec_operations.Delivery.Finish.{
  complete_platform_delivery, fail_platform_delivery, is_operation_id,
  return_platform_delivery_for_retry,
}
use e_commerec_operations.Delivery.Tables.{
  Db, PlatformDelivery, ValueError, is_error_code, publish_authorized, publish_record, valid_owner,
}
use e_commerec_operations.Worker.Client.{Reply, Response, Session, validated_result}
use e_commerec_operations.Worker.Codes.{
  Listed, ListedPublish, bind-ListedPublish, if-ListedPublish, is_listed_error, new_token-Listed,
  post_listing-Listed, validated_result-Listed, validated_result-is_operation_id,
}
use e_commerec_operations.Worker.Loop.{
  authorize_publish, load_publish_request, publish, run_once, settle,
}
use e_commerec_operations.Worker.Publish.{
  PublishError, cached_token, client, of_client, publish_listing, second_try, unexpected,
}

abbrev Accepted : {A : Type 0} → (A → String) → Result PublishError A → Type 0
Accepted name (ok a) = is_operation_id (name a) ≡ true
Accepted name (err (client e)) = is_listed_error e ≡ true
Accepted name (err unexpected) = Unit

bind-Accepted :
    {A B : Type 0} (name : B → String) (m : Result PublishError A) (k : A → Result PublishError B)
    → ListedPublish m
    → ((a : A) → Accepted name (k a))
    → Accepted name (m >>= k)
bind-Accepted name (ok a) k h g = g a
bind-Accepted name (err (client e)) k h g = h
bind-Accepted name (err unexpected) k h g = h

if-Accepted :
    {A : Type 0} (name : A → String) (b : Bool) (x y : Result PublishError A)
    → Accepted name x
    → Accepted name y
    → Accepted name (if b then x else y)
if-Accepted name true x y h k = h
if-Accepted name false x y h k = k

keep-Accepted :
    {A : Type 0} (name : A → String) (m : Result PublishError A)
    → Accepted name m
    → Accepted (λ x. x) (m >>= λ a. ok (name a))
keep-Accepted name (ok a) h = h
keep-Accepted name (err (client e)) h = h
keep-Accepted name (err unexpected) h = h

abbrev operation : String × Session → String
operation x = x.0

result-Accepted :
    (parse_token : String → Option String) (parse_operation : String → Option String) (r : Response)
    (s : Session)
    → Accepted operation
        (of_client (validated_result parse_token parse_operation r) >>= λ o. ok (o, s))
result-Accepted parse_token parse_operation r s =
    elim (Result-cases (validated_result parse_token parse_operation r)) [
      | inl (e, refused) ↦
          let listed : Listed {A = String} (err e) =
            rw refused at (validated_result-Listed parse_token parse_operation r) in
          rw refused listed
      | inr (o, fits) ↦
          rw fits (validated_result-is_operation_id parse_token parse_operation r o fits)
    ]

module _ (parse_token : String → Option String) (parse_operation : String → Option String)
    (configured : Bool) (send : ℕ → Reply) (authorize : ℕ → Result PublishError Bool)
    (known : (n : ℕ) → ListedPublish (authorize n)) where
  second_try-Listed :
      (last : Response × Session)
      → ListedPublish (second_try parse_token parse_operation configured send authorize last)
  unfolding second_try
  second_try-Listed (r, s) =
      if-ListedPublish (r.status_code == 401) _ _
        (bind-ListedPublish _ _
          (new_token-Listed parse_token parse_operation configured send authorize known s)
          (λ renewed.
            post_listing-Listed parse_token parse_operation configured send authorize known
              renewed.1))
        tt

  cached_token-Listed :
      (s : Session)
      → ListedPublish (cached_token parse_token parse_operation configured send authorize s)
  unfolding cached_token
  cached_token-Listed s = elim (Option-cases s.access_token) [
    | inl missing ↦
        rw missing (new_token-Listed parse_token parse_operation configured send authorize known s)
    | inr (t, kept) ↦ rw kept tt
  ]

  publish_listing-Accepted :
      (well_formed : Bool) (s : Session)
      → Accepted operation
          (publish_listing parse_token parse_operation configured send authorize well_formed s)
  unfolding publish_listing is_listed_error is_error_code
  publish_listing-Accepted well_formed s = if-Accepted operation (not well_formed) _ _ refl (
      bind-Accepted operation _ _ (cached_token-Listed s) (λ got.
        bind-Accepted operation _ _
          (post_listing-Listed parse_token parse_operation configured send authorize known got.1)
          (λ first.
            bind-Accepted operation _ _ (second_try-Listed first)
              (λ last. result-Accepted parse_token parse_operation last.0 last.1))))

delivery_failed_code : is_error_code "PLATFORM_DELIVERY_FAILED" ≡ true
unfolding is_error_code
delivery_failed_code = refl

settle-accepts :
    (now : ℕ) (owner : String) (d : PlatformDelivery) (db : Db) (r : Result PublishError String)
    (x : ValueError)
    → valid_owner owner ≡ true
    → Accepted (λ o. o) r
    → settle now owner d db r ≡ err x
    → ⊥
unfolding settle complete_platform_delivery fail_platform_delivery
    return_platform_delivery_for_retry is_listed_error
settle-accepts now owner d db (ok o) x valid fits refused = ground arith
settle-accepts now owner d db (err unexpected) x valid fits refused =
    let code = delivery_failed_code in ground arith
settle-accepts now owner d db (err (client e)) x valid fits refused = ground arith

claim-accepts :
    (now : ℕ) (locked : ℕ → Bool) (owner : String) (seconds : ℕ) (db : Db) (x : ValueError)
    → valid_owner owner ≡ true
    → 0 < seconds
    → claim_next_platform_delivery now locked owner seconds db ≡ err x
    → ⊥
unfolding claim_next_platform_delivery
claim-accepts now locked owner seconds db x valid some_time refused =
    elim (Option-cases (next_claimable now locked (fail_exhausted now locked db))) [
      | inl nothing ↦ ground arith
      | inr (d, chosen) ↦ ground arith
    ]

module _ (parse_token : String → Option String) (parse_operation : String → Option String)
    (configured : Bool) (send : ℕ → Reply) (attempt_db : ℕ → Db) (snapshot_ok well_formed : Bool)
    (s : Session) where
  load-Listed :
      (d : PlatformDelivery) (db : Db) → ListedPublish (load_publish_request d db snapshot_ok)
  unfolding load_publish_request is_listed_error is_error_code
  load-Listed d db = elim (Option-cases (publish_record db.records d)) [
    | inl missing ↦ rw missing tt
    | inr (r, found) ↦ rw found (
        if-ListedPublish (not (r.store_id == d.store_id)) _ _ tt (
          if-ListedPublish (not (publish_authorized db.directory r)) _ _ refl
            (if-ListedPublish (not snapshot_ok) _ _ tt tt)))
  ]

  publish-Accepted :
      (d : PlatformDelivery) (db : Db)
      → Accepted
          (λ o. o)
          (publish parse_token parse_operation configured send attempt_db snapshot_ok well_formed s
            d db)
  unfolding publish authorize_publish
  publish-Accepted d db =
      bind-Accepted (λ o. o) _ _ (load-Listed d db)
        (λ loaded. keep-Accepted operation _ (
          publish_listing-Accepted parse_token parse_operation configured send
            (authorize_publish parse_token parse_operation configured send attempt_db snapshot_ok
              well_formed s d)
            (λ n. bind-ListedPublish _ _ (load-Listed d (attempt_db n)) (λ granted. tt)) well_formed
            s))

  -- With a lease owner and a lease time that the queue allows, a run of the worker returns
  -- normally, whatever the platform answers and the other transactions do: none of the transactions
  -- that settle the delivery is refused for its arguments.
  pub run_once-returns :
      (now later : ℕ) (locked : ℕ → Bool) (owner : String) (seconds : ℕ)
      (load_db settle_db : Db → Db) (db : Db)
      → valid_owner owner ≡ true
      → 0 < seconds
      → (x : Option ℕ × Db) × (run_once parse_token parse_operation configured send attempt_db
            snapshot_ok well_formed s now later locked owner seconds load_db settle_db db
          ≡ ok x)
  unfolding run_once
  run_once-returns now later locked owner seconds load_db settle_db db valid some_time =
      elim (Result-cases (claim_next_platform_delivery now locked owner seconds db)) [
        | inl (x, refused) ↦
            absurd (claim-accepts now locked owner seconds db x valid some_time refused)
        | inr ((none, db'), nothing) ↦ ((none, db'), rw (run_once, nothing))
        | inr ((some d, db'), taken) ↦
            let r =
              publish parse_token parse_operation configured send attempt_db snapshot_ok well_formed
                s d (load_db db') in
            elim (Result-cases (settle later owner d (settle_db (load_db db')) r)) [
              | inl (x, refused) ↦ absurd (
                  settle-accepts later owner d (settle_db (load_db db')) r x valid
                    (publish-Accepted d (load_db db')) refused)
              | inr ((done, db''), settled) ↦ ((some d.id, db''), rw (run_once, taken, settled))
            ]
      ]
