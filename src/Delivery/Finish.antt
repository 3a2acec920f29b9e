-- ===== src/Delivery/Finish.antt =====
-- `complete_platform_delivery`, `return_platform_delivery_for_retry` and `fail_platform_delivery` of
-- backend/platform_delivery_runs.py: how the holder of a lease ends it.
use e_commerec_operations.Base.{
  ℕ, ◌+◌, ◌^◌, min, String, Bool, true, false, ◌&&◌, ◌||◌, not, Option, none, some, List, [], ◌∷◌,
  ◌==◌, leb, holds, codes, if◌then◌else◌, Result, ok, err, length,
}
use e_commerec_operations.Common.{PlatformDeliveryStatus}
use e_commerec_operations.Delivery.Tables.{
  PlatformDelivery, Db, ValueError, invalid_lease_owner, invalid_external_operation_id,
  invalid_error_code, invalid_retry_delay, is_error_code, publish_authorized, valid_owner,
  publish_record, terminal_audit, store_delivery, mark_failed, owned_delivery,
}

-- `[A-Za-z0-9_-]`
abbrev pub is_id_char : ℕ → Bool
is_id_char c =
    leb b'A' c && leb c b'Z'
    || leb b'a' c && leb c b'z'
    || leb b'0' c && leb c b'9'
    || c == b'_'
    || c == b'-'

abbrev pub all_id_chars : List ℕ → Bool
all_id_chars [] = true
all_id_chars (c ∷ cs) = is_id_char c && all_id_chars cs

-- `re.fullmatch(r"[A-Za-z0-9_-]{1,128}", s)`
unfoldable pub is_operation_id : String → Bool
is_operation_id s = let n = length (codes s) in leb 1 n && leb n 128 && all_id_chars (codes s)

-- The record of a delivery is there, and its approver may still publish it.
unfoldable pub delivery_authorized : Db → PlatformDelivery → Bool
delivery_authorized db d = holds (publish_authorized db.directory) (publish_record db.records d)

abbrev pub succeeded_delivery : ℕ → String → PlatformDelivery → PlatformDelivery
succeeded_delivery now external_operation_id d = record d {
  status = PlatformDeliveryStatus.succeeded;
  next_attempt_at = none;
  lease_owner = none;
  lease_expires_at = none;
  external_operation_id = some external_operation_id;
  error_code = none;
  completed_at = some now;
}

unfoldable pub complete_owned : ℕ → String → Db → Option PlatformDelivery → Bool × Db
unfolding mark_failed
complete_owned now external_operation_id db none = (false, db)
complete_owned now external_operation_id db (some d) =
    let d' = succeeded_delivery now external_operation_id d in
    if not (delivery_authorized db d)
    then (false, mark_failed now "PLATFORM_FORBIDDEN" d db)
    else (true, store_delivery d' (terminal_audit d' true ∷ []) db)

unfoldable pub complete_platform_delivery :
    ℕ → ℕ → String → String → Db → Result ValueError (Bool × Db)
unfolding valid_owner complete_owned
complete_platform_delivery now delivery_id lease_owner external_operation_id db =
    if not (valid_owner lease_owner)
    then err invalid_lease_owner
    else if not (is_operation_id external_operation_id)
    then err invalid_external_operation_id
    else ok (
        complete_owned now external_operation_id db (owned_delivery now delivery_id lease_owner db))

-- `retry_after_seconds`, or the exponential back-off
unfoldable pub retry_delay : Option ℕ → ℕ → ℕ
retry_delay none attempt_count = min 60 (2 ^ attempt_count)
retry_delay (some seconds) attempt_count = seconds

abbrev pub retried_delivery : ℕ → ℕ → String → PlatformDelivery → PlatformDelivery
retried_delivery now delay error_code d = record d {
  status = PlatformDeliveryStatus.pending;
  next_attempt_at = some (now + delay);
  lease_owner = none;
  lease_expires_at = none;
  error_code = some error_code;
}

unfoldable pub retry_owned : ℕ → String → Option ℕ → Db → Option PlatformDelivery → Bool × Db
unfolding mark_failed
retry_owned now error_code retry_after_seconds db none = (false, db)
retry_owned now error_code retry_after_seconds db (some d) =
    let delay = retry_delay retry_after_seconds d.attempt_count in
    if not (delivery_authorized db d)
    then (true, mark_failed now "PLATFORM_FORBIDDEN" d db)
    else if leb 3 d.attempt_count
    then (true, mark_failed now error_code d db)
    else (true, store_delivery (retried_delivery now delay error_code d) [] db)

unfoldable pub return_platform_delivery_for_retry :
    ℕ → ℕ → String → String → Option ℕ → Db → Result ValueError (Bool × Db)
unfolding valid_owner retry_owned
return_platform_delivery_for_retry now delivery_id lease_owner error_code retry_after_seconds db =
    if not (valid_owner lease_owner)
    then err invalid_lease_owner
    else if not (is_error_code error_code)
    then err invalid_error_code
    else if holds (λ r. not (leb r 60)) retry_after_seconds
    then err invalid_retry_delay
    else ok (
        retry_owned now error_code retry_after_seconds db
          (owned_delivery now delivery_id lease_owner db))

unfoldable pub fail_owned : ℕ → String → Db → Option PlatformDelivery → Bool × Db
unfolding mark_failed
fail_owned now error_code db none = (false, db)
fail_owned now error_code db (some d) = (true, mark_failed now error_code d db)

unfoldable pub fail_platform_delivery : ℕ → ℕ → String → String → Db → Result ValueError (Bool × Db)
unfolding valid_owner fail_owned
fail_platform_delivery now delivery_id lease_owner error_code db =
    if not (valid_owner lease_owner)
    then err invalid_lease_owner
    else if not (is_error_code error_code)
    then err invalid_error_code
    else ok (fail_owned now error_code db (owned_delivery now delivery_id lease_owner db))
