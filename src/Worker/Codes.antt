-- ===== src/Worker/Codes.antt =====
-- What a publication yields is what the queue accepts: its error codes, its delays and its ids.
use e_commerec_operations.Base.{
  Bool, Bool-cases, List, Option, Option-cases, Result, String, [], arith, codes, err, false, holds,
  if◌then◌else◌, inl, inr, leb, none, not, ok, refl, some, true, ℕ, ◌&&◌, ◌==◌, ◌>>=◌, ◌||◌, ◌∷◌,
  ◌≡◌,
}
use e_commerec_operations.Delivery.Finish.{is_operation_id}
use e_commerec_operations.Delivery.Tables.{is_error_code}
use e_commerec_operations.Worker.Client.{
  PlatformClientError, Reply, Response, Session, answered, client_error, disconnected,
  is_server_error, is_success, operation_of, reply_of, retry_after_of, status_error, timed_out,
  token_of, validated_result,
}
use e_commerec_operations.Worker.Publish.{
  PublishError, client, new_token, of_client, post_listing, unexpected,
}

abbrev pub short_delay : Option ℕ → Bool
short_delay u = not (holds (λ r. not (leb r 60)) u)

-- an error that `return_platform_delivery_for_retry` and `fail_platform_delivery` accept
unfoldable pub is_listed_error : PlatformClientError → Bool
is_listed_error e = is_error_code e.code && short_delay e.retry_after_seconds

abbrev pub Listed {ℓ} : {A : Type ℓ} → Result PlatformClientError A → Type 0
Listed (ok a) = Unit
Listed (err e) = is_listed_error e ≡ true

abbrev pub ListedPublish {ℓ} : {A : Type ℓ} → Result PublishError A → Type 0
ListedPublish (ok a) = Unit
ListedPublish (err (client e)) = is_listed_error e ≡ true
ListedPublish (err unexpected) = Unit

retry_after-short : (cs : List ℕ) → short_delay (retry_after_of cs) ≡ true
unfolding retry_after_of
retry_after-short [] = refl
retry_after-short (a ∷ []) = ground arith
retry_after-short (a ∷ b ∷ []) = ground arith
retry_after-short (a ∷ b ∷ c ∷ cs) = refl

status_error-listed : (r : Response) → is_listed_error (status_error r) ≡ true
unfolding status_error is_listed_error is_error_code
status_error-listed r = elim (Bool-cases (r.status_code == 429)) [
  | inl t ↦ rw t (retry_after-short (codes r.retry_after))
  | inr f ↦ rw f
]

pub reply_of-Listed : (r : Reply) → Listed (reply_of r)
unfolding reply_of is_listed_error is_error_code
reply_of-Listed (answered r) = tt
reply_of-Listed timed_out = refl
reply_of-Listed disconnected = refl

operation_of-Listed : (o : Option String) → Listed (operation_of o)
unfolding operation_of is_listed_error is_error_code
operation_of-Listed none = refl
operation_of-Listed (some operation) = elim (Bool-cases (is_operation_id operation)) [
  | inl t ↦ rw t tt
  | inr f ↦ rw f
]

Listed-if :
    {A : Type 0} (b : Bool) (x y : Result PlatformClientError A)
    → Listed x
    → Listed y
    → Listed (if b then x else y)
Listed-if true x y h k = h
Listed-if false x y h k = k

module _ (parse_token : String → Option String) (parse_operation : String → Option String) where
  token_of-Listed : (r : Response) → Listed (token_of parse_token parse_operation r)
  unfolding token_of is_listed_error is_error_code
  token_of-Listed r =
      Listed-if (not (r.status_code == 200)) _ _
        (Listed-if (r.status_code == 429 || is_server_error r.status_code) _ _
          (status_error-listed r) refl)
        (parsed (parse_token r.body))
    where
      parsed :
          (o : Option String)
          → Listed (elim o as (λ _. Result PlatformClientError String) [
            | none ↦ err (client_error "PLATFORM_RESPONSE_INVALID" false)
            | some token ↦ ok token
          ])
      parsed none = refl
      parsed (some token) = tt

  pub validated_result-Listed :
      (r : Response) → Listed (validated_result parse_token parse_operation r)
  unfolding validated_result is_listed_error is_error_code
  validated_result-Listed r = Listed-if (r.status_code == 401) _ _ refl (
      Listed-if (r.status_code == 403) _ _ refl (
        Listed-if (r.status_code == 409) _ _ refl (
          Listed-if (r.status_code == 429) _ _ (status_error-listed r) (
            Listed-if (is_server_error r.status_code) _ _ refl (
              Listed-if (not (is_success r.status_code)) _ _ refl
                (operation_of-Listed (parse_operation r.body)))))))

  pub validated_result-is_operation_id :
      (r : Response) (operation : String)
      → validated_result parse_token parse_operation r ≡ ok operation
      → is_operation_id operation ≡ true
  unfolding validated_result operation_of
  validated_result-is_operation_id r operation e = elim (Option-cases (parse_operation r.body)) [
    | inl missing ↦ absurd (ground arith)
    | inr (o, found) ↦ ground arith
  ]

pub of_client-ListedPublish :
    {A : Type 0} (r : Result PlatformClientError A) → Listed r → ListedPublish (of_client r)
of_client-ListedPublish (ok a) h = tt
of_client-ListedPublish (err e) h = h

bind-Listed :
    {A B : Type 0} (m : Result PlatformClientError A) (k : A → Result PlatformClientError B)
    → Listed m
    → ((a : A) → Listed (k a))
    → Listed (m >>= k)
bind-Listed (ok a) k h g = g a
bind-Listed (err e) k h g = h

pub bind-ListedPublish :
    {A B : Type 0} (m : Result PublishError A) (k : A → Result PublishError B)
    → ListedPublish m
    → ((a : A) → ListedPublish (k a))
    → ListedPublish (m >>= k)
bind-ListedPublish (ok a) k h g = g a
bind-ListedPublish (err (client e)) k h g = h
bind-ListedPublish (err unexpected) k h g = h

pub if-ListedPublish :
    {A : Type 0} (b : Bool) (x y : Result PublishError A)
    → ListedPublish x
    → ListedPublish y
    → ListedPublish (if b then x else y)
if-ListedPublish true x y h k = h
if-ListedPublish false x y h k = k

module _ (parse_token : String → Option String) (parse_operation : String → Option String)
    (configured : Bool) (send : ℕ → Reply) (authorize : ℕ → Result PublishError Bool)
    (known : (n : ℕ) → ListedPublish (authorize n)) where
  pub new_token-Listed :
      (s : Session)
      → ListedPublish (new_token parse_token parse_operation configured send authorize s)
  unfolding new_token is_listed_error is_error_code
  new_token-Listed s = if-ListedPublish (not configured) _ _ refl (
      bind-ListedPublish _ _
        (of_client-ListedPublish _ (
          bind-Listed (reply_of (send s.requests)) _ (reply_of-Listed (send s.requests))
            (token_of-Listed parse_token parse_operation)))
        (λ token. tt))

  pub post_listing-Listed :
      (s : Session)
      → ListedPublish (post_listing parse_token parse_operation configured send authorize s)
  unfolding post_listing is_listed_error is_error_code
  post_listing-Listed s = bind-ListedPublish (authorize s.requests) _ (known s.requests) (λ granted.
      if-ListedPublish (not granted) _ _ refl (
        bind-ListedPublish _ _ (of_client-ListedPublish _ (reply_of-Listed (send s.requests)))
          (λ r. tt)))
