-- ===== src/Webhooks/Tests.antt =====
-- The notice of a delivery that has succeeded, with a signature of sixty-four zeros.
use e_commerec_operations.Base.{
  List, Option, String, [], false, find?, none, ok, refl, some, true, ℕ, ◌∷◌, ◌≡◌,
}
use e_commerec_operations.Common.{PlatformDeliveryStatus}
use e_commerec_operations.Delivery.Tables.{PlatformDelivery}
use e_commerec_operations.Webhooks.{
  Notice, Payload, WebhookDb, confirmed_delivery, new_receipt, receive_platform_webhook,
  received_audit, validated_envelope,
}
use e_commerec_operations.Webhooks.Once.{receive-once}
use e_commerec_operations.Webhooks.Replays.{Checked, Confirmed, receive-Checked}
use e_commerec_operations.Webhooks.Steps.{WebhookReach, notified, then_notice, unchanged}

abbrev signed : String → List ℕ → String
signed secret bytes = "0000000000000000000000000000000000000000000000000000000000000000"

abbrev digest_of : List ℕ → String
digest_of body = "digest"

abbrev paid_out : Payload
paid_out = record {
  delivery_id = 11;
  external_operation_id = "op-1";
  event_type = "publish.confirmed";
}

abbrev read : List ℕ → Option Payload
read body = some paid_out

abbrev sent : PlatformDelivery
sent = record {
  id = 11;
  publish_record_id = 2;
  store_id = 5;
  status = PlatformDeliveryStatus.succeeded;
  attempt_count = 1;
  next_attempt_at = none;
  lease_owner = none;
  lease_expires_at = none;
  external_operation_id = some "op-1";
  error_code = none;
  created_at = 100;
  completed_at = some 120;
}

abbrev notice : Notice
notice = record {
  body = 1 ∷ 2 ∷ [];
  event_id = "evt-1";
  timestamp = "1000";
  signature = signed "key" [];
}

abbrev empty : WebhookDb
empty = record { deliveries = sent ∷ []; receipts = []; audit = [] }

abbrev recorded_db : WebhookDb
recorded_db = record empty {
  receipts = new_receipt sent "evt-1" "digest" paid_out ∷ [];
  audit = received_audit sent ∷ [];
}

receives :
    receive_platform_webhook signed digest_of read 1010 "key" notice none empty
    ≡ ok (true, recorded_db)
unfolding receive_platform_webhook find? confirmed_delivery
receives = refl

passes : validated_envelope signed digest_of read 1200 "key" notice ≡ ok (paid_out, "digest")
unfolding validated_envelope
passes = refl

repeats :
    receive_platform_webhook signed digest_of read 1100 "key" notice none recorded_db
    ≡ ok (false, recorded_db)
unfolding receive_platform_webhook find? confirmed_delivery
repeats = refl

sent_again : WebhookReach signed digest_of read recorded_db recorded_db
sent_again = then_notice unchanged (notified 1100 "key" notice none false refl repeats)

receive-Checked_example :
    (payload : Payload) × Checked signed digest_of read 1010 "key" notice payload
      (digest_of notice.body)
    × ((d : PlatformDelivery) × Confirmed payload empty d)
receive-Checked_example =
    receive-Checked signed digest_of read 1010 "key" notice none empty recorded_db true receives

receive-once_example :
    receive_platform_webhook signed digest_of read 1200 "key" notice none recorded_db
    ≡ ok (false, recorded_db)
receive-once_example =
    receive-once signed digest_of read 1010 1200 "key" notice none none empty recorded_db
      recorded_db paid_out "digest" (tt, tt) receives sent_again passes
