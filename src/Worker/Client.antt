-- ===== src/Worker/Client.antt =====
-- `CommercePlatformClient` of backend/platform_client.py. The HTTP transport and the JSON parser are
-- parameters: `send` is the answer to the n-th request, `parse_token` the bearer token of a body, and
-- `parse_operation` the field `external_operation_id` of a body that has that field alone.
use e_commerec_operations.Base.{
  Bool, List, Option, Result, String, [], codes, err, false, if◌then◌else◌, leb, none, not, ok,
  some, true, ℕ, ◌&&◌, ◌*◌, ◌+◌, ◌-◌, ◌==◌, ◌||◌, ◌∷◌,
}
use e_commerec_operations.Delivery.Finish.{is_operation_id}

pub record PlatformClientError : Type 0 where
  pub code : String
  pub retryable : Bool
  pub retry_after_seconds : Option ℕ

pub record Response : Type 0 where
  pub status_code : ℕ
  pub retry_after : String
  pub body : String

-- What the transport does with a request.
pub data Reply : Type 0 where
  answered : Response → Reply
  timed_out : Reply
  disconnected : Reply

-- The token that the client keeps, and the number of requests that it has sent.
pub record Session : Type 0 where
  pub access_token : Option String
  pub requests : ℕ

abbrev pub client_error : String → Bool → PlatformClientError
client_error code retryable = record {
  code = code;
  retryable = retryable;
  retry_after_seconds = none;
}

abbrev pub is_decimal : ℕ → Bool
is_decimal c = leb b'0' c && leb c b'9'

-- The header `Retry-After`, if it is a number of at most two digits, and at most sixty.
unfoldable pub retry_after_of : List ℕ → Option ℕ
retry_after_of (a ∷ []) = if is_decimal a then some (a - b'0') else none
retry_after_of (a ∷ b ∷ []) =
    let seconds = 10 * (a - b'0') + (b - b'0') in
    if is_decimal a && is_decimal b && leb seconds 60 then some seconds else none
retry_after_of _ = none

-- `_status_error`
unfoldable pub status_error : Response → PlatformClientError
unfolding retry_after_of
status_error r =
    if r.status_code == 429
    then record {
      code = "PLATFORM_RATE_LIMITED";
      retryable = true;
      retry_after_seconds = retry_after_of (codes r.retry_after);
    }
    else client_error "PLATFORM_SERVER_ERROR" true

abbrev pub is_server_error : ℕ → Bool
is_server_error status = leb 500 status && leb status 599

abbrev pub is_success : ℕ → Bool
is_success status = leb 200 status && leb status 299

-- `_request`
unfoldable pub reply_of : Reply → Result PlatformClientError Response
reply_of (answered r) = ok r
reply_of timed_out = err (client_error "PLATFORM_TIMEOUT" true)
reply_of disconnected = err (client_error "PLATFORM_CONNECTION_FAILED" true)

unfoldable pub operation_of : Option String → Result PlatformClientError String
operation_of none = err (client_error "PLATFORM_RESPONSE_INVALID" false)
operation_of (some operation) =
    if is_operation_id operation
    then ok operation
    else err (client_error "PLATFORM_RESPONSE_INVALID" false)

module _ (parse_token : String → Option String) (parse_operation : String → Option String) where
  unfoldable pub token_of : Response → Result PlatformClientError String
  unfolding status_error
  token_of r =
      if not (r.status_code == 200)
      then (if r.status_code == 429 || is_server_error r.status_code
          then err (status_error r)
          else err (client_error "PLATFORM_AUTH_FAILED" false))
      else elim (parse_token r.body) [
        | none ↦ err (client_error "PLATFORM_RESPONSE_INVALID" false)
        | some token ↦ ok token
      ]

  -- `_validated_result`
  unfoldable pub validated_result : Response → Result PlatformClientError String
  unfolding status_error operation_of
  validated_result r =
      let status = r.status_code in
      if status == 401
      then err (client_error "PLATFORM_AUTH_FAILED" false)
      else if status == 403
      then err (client_error "PLATFORM_FORBIDDEN" false)
      else if status == 409
      then err (client_error "PLATFORM_IDEMPOTENCY_CONFLICT" false)
      else if status == 429
      then err (status_error r)
      else if is_server_error status
      then err (client_error "PLATFORM_SERVER_ERROR" true)
      else if not (is_success status)
      then err (client_error "PLATFORM_REQUEST_REJECTED" false)
      else operation_of (parse_operation r.body)
