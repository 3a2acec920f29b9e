-- ===== src/Worker/Publish.antt =====
-- `publish_listing` of backend/platform_client.py: a token, the request, and one more try with a new
-- token if the platform refuses the first. `configured` tells whether the settings have the
-- credentials, `authorize` what `before_http_attempt` does before the n-th request, and `well_formed`
-- whether the keys and the listing pass their patterns.
use e_commerec_operations.Base.{
  Bool, Option, Result, String, err, false, if◌then◌else◌, none, not, ok, some, ℕ, ◌+◌, ◌==◌, ◌>>=◌,
}
use e_commerec_operations.Worker.Client.{
  PlatformClientError, Reply, Response, Session, client_error, reply_of, token_of, validated_result,
}

-- What `publish_listing` raises: an error of the client, or anything else.
pub data PublishError : Type 0 where
  client : PlatformClientError → PublishError
  unexpected : PublishError

abbrev pub of_client {ℓ} : {A : Type ℓ} → Result PlatformClientError A → Result PublishError A
of_client (ok a) = ok a
of_client (err e) = err (client e)

module _ (parse_token : String → Option String) (parse_operation : String → Option String)
    (configured : Bool) (send : ℕ → Reply) (authorize : ℕ → Result PublishError Bool) where
  unfoldable pub new_token : Session → Result PublishError (String × Session)
  unfolding reply_of token_of
  new_token s =
      let answer = reply_of (send s.requests) >>= λ r. token_of parse_token parse_operation r in
      if not configured
      then err (client (client_error "PLATFORM_REQUEST_INVALID" false))
      else of_client answer >>= λ token.
          ok (token, record { access_token = some token; requests = s.requests + 1 })

  -- `_token`
  unfoldable pub cached_token : Session → Result PublishError (String × Session)
  unfolding new_token
  cached_token s = elim s.access_token [ some t ↦ ok (t, s) | none ↦ new_token s ]

  -- `_post_listing`
  unfoldable pub post_listing : Session → Result PublishError (Response × Session)
  unfolding reply_of
  post_listing s = authorize s.requests >>= λ granted.
      if not granted
      then err (client (client_error "PLATFORM_FORBIDDEN" false))
      else of_client (reply_of (send s.requests)) >>= λ r.
          ok (r, record s { requests = s.requests + 1 })

  unfoldable pub second_try : Response × Session → Result PublishError (Response × Session)
  unfolding new_token post_listing
  second_try (r, s) =
      if r.status_code == 401
      then (new_token s >>= λ renewed. post_listing renewed.1)
      else ok (r, s)

  unfoldable pub publish_listing : Bool → Session → Result PublishError (String × Session)
  unfolding cached_token post_listing second_try validated_result
  publish_listing well_formed s =
      let published = cached_token s >>= λ got. post_listing got.1 >>= λ first.
      second_try first >>= λ last.
      of_client (validated_result parse_token parse_operation last.0) >>= λ operation.
      ok (operation, last.1) in
      if not well_formed
      then err (client (client_error "PLATFORM_REQUEST_INVALID" false))
      else published
