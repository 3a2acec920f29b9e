-- ===== src/Webhooks.antt =====
-- backend/platform_webhooks.py: the platform's notices on deliveries, each recorded once. `hmac`,
-- `sha256` and the parser of the payload are library code and parameters; a body is a list of bytes.
pub mod Replays
pub mod Steps
pub mod Once
pub mod Tests
use e_commerec_operations.Audit.{AuditEvent}
use e_commerec_operations.Base.{
  Bool, List, Option, Result, String, [], codes, count, err, false, find?, holds, if◌then◌else◌,
  is_none, leb, length, ltb, none, not, ok, some, str_eq, true, ℕ, ◌&&◌, ◌*◌, ◌++◌, ◌+◌, ◌-◌, ◌==◌,
  ◌>>=◌, ◌||◌, ◌∷◌,
}
use e_commerec_operations.Common.{AuditEventType, AuditOutcome, PlatformDeliveryStatus}
use e_commerec_operations.Delivery.Finish.{is_operation_id}
use e_commerec_operations.Delivery.Tables.{PlatformDelivery}

pub record Payload : Type 0 where
  pub delivery_id : ℕ
  pub external_operation_id : String
  pub event_type : String

pub record Receipt : Type 0 where
  pub platform_delivery_id : ℕ
  pub event_id : String
  pub event_type : String
  pub payload_digest : String

pub record WebhookDb : Type 0 where
  pub deliveries : List PlatformDelivery
  pub receipts : List Receipt
  pub audit : List AuditEvent

-- `PlatformWebhookError`, by the last part of its code, with the status
pub data WebhookError : Type 0 where
  too_large event_invalid timestamp_invalid signature_invalid unavailable payload_invalid
        replay_conflict operation_invalid :
      WebhookError

abbrev pub status_code : WebhookError → ℕ
status_code WebhookError.too_large = 413
status_code WebhookError.event_invalid = 422
status_code WebhookError.timestamp_invalid = 401
status_code WebhookError.signature_invalid = 401
status_code WebhookError.unavailable = 503
status_code WebhookError.payload_invalid = 422
status_code WebhookError.replay_conflict = 409
status_code WebhookError.operation_invalid = 422

abbrev pub is_digit : ℕ → Bool
is_digit c = leb b'0' c && leb c b'9'

abbrev pub is_hex_digit : ℕ → Bool
is_hex_digit c = is_digit c || leb b'a' c && leb c b'f'

unfoldable pub all_codes : (ℕ → Bool) → List ℕ → Bool
all_codes p [] = true
all_codes p (c ∷ cs) = p c && all_codes p cs

abbrev pub is_timestamp : String → Bool
is_timestamp s = let n = length (codes s) in leb 1 n && leb n 10 && all_codes is_digit (codes s)

abbrev pub is_signature : String → Bool
is_signature s = length (codes s) == 64 && all_codes is_hex_digit (codes s)

-- `int(timestamp)` of a text of digits
unfoldable pub int_of : ℕ → List ℕ → ℕ
int_of n [] = n
int_of n (c ∷ cs) = int_of (10 * n + (c - b'0')) cs

-- `abs(a - b)`
abbrev pub distance : ℕ → ℕ → ℕ
distance a b = (a - b) + (b - a)

pub record Notice : Type 0 where
  pub body : List ℕ
  pub event_id : String
  pub timestamp : String
  pub signature : String

abbrev pub is_event : String → Receipt → Bool
is_event event_id r = str_eq r.event_id event_id

unfoldable pub is_exact_replay : Payload → String → Receipt → Bool
is_exact_replay payload digest r =
    str_eq r.payload_digest digest
    && r.platform_delivery_id == payload.delivery_id
    && str_eq r.event_type payload.event_type

abbrev pub is_succeeded : PlatformDeliveryStatus → Bool
is_succeeded PlatformDeliveryStatus.succeeded = true
is_succeeded _ = false

abbrev pub is_confirmed : Payload → PlatformDelivery → Bool
is_confirmed payload d =
    d.id == payload.delivery_id
    && is_succeeded d.status
    && holds (λ o. str_eq o payload.external_operation_id) d.external_operation_id

-- `_delivery`
unfoldable pub confirmed_delivery : Payload → WebhookDb → Option PlatformDelivery
confirmed_delivery payload db = find? (is_confirmed payload) db.deliveries

abbrev pub new_receipt : PlatformDelivery → String → String → Payload → Receipt
new_receipt d event_id digest payload = record {
  platform_delivery_id = d.id;
  event_id = event_id;
  event_type = payload.event_type;
  payload_digest = digest;
}

abbrev pub received_audit : PlatformDelivery → AuditEvent
received_audit d = record {
  event_type = AuditEventType.platform_webhook_received;
  outcome = AuditOutcome.success;
  store_id = some d.store_id;
  actor_id = none;
  actor_role = none;
  resource_type = "platform_delivery";
  resource_id = d.id;
  error_code = none;
}

-- the branch for an event that has its receipt
unfoldable pub replayed :
    Payload → String → Receipt → WebhookDb → Result WebhookError (Bool × WebhookDb)
unfolding is_exact_replay
replayed payload digest r db =
    if not (is_exact_replay payload digest r)
    then err replay_conflict
    else if is_none (confirmed_delivery payload db)
    then err operation_invalid
    else ok (false, db)

-- The insertion. `rival` is the receipt of the same event that another transaction has committed since
-- this one looked, if there is one: the UNIQUE column refuses the second, and the answer is that of a
-- replay.
unfoldable pub insert_receipt :
    String
    → Payload
    → String
    → Option Receipt
    → PlatformDelivery
    → WebhookDb
    → Result WebhookError (Bool × WebhookDb)
insert_receipt event_id payload digest none d db = ok (
  true,
  record db {
    receipts = new_receipt d event_id digest payload ∷ db.receipts;
    audit = db.audit ++ received_audit d ∷ [];
  },
)
insert_receipt event_id payload digest (some r) d db =
    let db' = record db { receipts = r ∷ db.receipts } in
    if is_exact_replay payload digest r then ok (false, db') else err replay_conflict

unfoldable pub store_notice :
    String → Payload → String → Option Receipt → WebhookDb → Result WebhookError (Bool × WebhookDb)
unfolding replayed insert_receipt
store_notice event_id payload digest rival db = elim (find? (is_event event_id) db.receipts) [
  | some r ↦ replayed payload digest r db
  | none ↦ elim (confirmed_delivery payload db) [
    | none ↦ err operation_invalid
    | some d ↦ insert_receipt event_id payload digest rival d db
  ]
]

-- `timestamp.encode("ascii") + b"." + event_id.encode("ascii") + b"." + body`
abbrev pub message : Notice → List ℕ
message notice = codes notice.timestamp ++ 46 ∷ codes notice.event_id ++ 46 ∷ notice.body

module _ (hmac : String → List ℕ → String) (sha256 : List ℕ → String)
    (parse : List ℕ → Option Payload) where
  unfoldable pub parsed : List ℕ → Option Payload → Result WebhookError (Payload × String)
  parsed body none = err payload_invalid
  parsed body (some payload) = ok (payload, sha256 body)

  -- `_validated_envelope`, at the time `now`
  unfoldable pub validated_envelope : ℕ → String → Notice → Result WebhookError (Payload × String)
  unfolding parsed all_codes int_of is_operation_id
  validated_envelope now secret notice =
      if ltb 4096 (length notice.body)
      then err too_large
      else if not (is_operation_id notice.event_id)
      then err event_invalid
      else if not (is_timestamp notice.timestamp)
      then err timestamp_invalid
      else if not (is_signature notice.signature)
      then err signature_invalid
      else if count secret == 0
      then err unavailable
      else if not (str_eq (hmac secret (message notice)) notice.signature)
      then err signature_invalid
      else if ltb 300 (distance (int_of 0 (codes notice.timestamp)) now)
      then err timestamp_invalid
      else parsed notice.body (parse notice.body)

  unfoldable pub receive_platform_webhook :
      ℕ → String → Notice → Option Receipt → WebhookDb → Result WebhookError (Bool × WebhookDb)
  unfolding validated_envelope store_notice
  receive_platform_webhook now secret notice rival db =
      validated_envelope now secret notice >>= λ envelope.
      store_notice notice.event_id envelope.0 envelope.1 rival db
