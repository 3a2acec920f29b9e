-- ===== src/Webhooks/Replays.antt =====
-- A notice is recorded once, and only if the platform signed it.
use e_commerec_operations.Base.{
  ==_iff, Bool, List, Mem, Option, Option-cases, Result-cases, String, ap, arith, codes, count,
  eq_iff, false, false≢true, find?, find?-Mem, holds, inl, inr, none, ok, refl, some, str_eq,
  str_eq_refl, subst, true, ℕ, ◌==◌, ◌∷◌, ◌≡◌, ◌≤◌,
}
use e_commerec_operations.Common.{PlatformDeliveryStatus}
use e_commerec_operations.Delivery.Tables.{PlatformDelivery}
use e_commerec_operations.Webhooks.{
  Notice, Payload, Receipt, WebhookDb, confirmed_delivery, distance, int_of, is_confirmed, is_event,
  is_exact_replay, is_succeeded, message, new_receipt, receive_platform_webhook, store_notice,
  validated_envelope,
}

pub stored-confirmed :
    (event_id : String) (payload : Payload) (digest : String) (rival : Option Receipt)
    (db db' : WebhookDb) (fresh : Bool)
    → store_notice event_id payload digest rival db ≡ ok (fresh, db')
    → (d : PlatformDelivery) × (confirmed_delivery payload db ≡ some d)
unfolding store_notice
stored-confirmed event_id payload digest rival db db' fresh e =
    elim (Option-cases (confirmed_delivery payload db)) [
      | inr (d, found) ↦ (d, found)
      | inl missing ↦ elim (Option-cases (find? (is_event event_id) db.receipts)) [
        | inl new ↦ absurd (ground arith)
        | inr (r, old) ↦ absurd (ground arith)
      ]
    ]

-- what is recorded, when a notice is new
pub recorded :
    (event_id : String) (payload : Payload) (digest : String) (rival : Option Receipt)
    (db db' : WebhookDb) (d : PlatformDelivery)
    → store_notice event_id payload digest rival db ≡ ok (true, db')
    → confirmed_delivery payload db ≡ some d
    → (db'.receipts ≡ new_receipt d event_id digest payload ∷ db.receipts)
      × (db'.deliveries ≡ db.deliveries)
unfolding store_notice
recorded event_id payload digest rival db db' d e found =
    elim (Option-cases (find? (is_event event_id) db.receipts)) [
      | inr (r, old) ↦ absurd (ground arith)
      | inl new ↦ elim (Option-cases rival) [
        | inl alone ↦ (ground arith, ground arith)
        | inr (r, first) ↦ absurd (ground arith)
      ]
    ]

pub first-is_event :
    (event_id : String) (r : Receipt) (rs rs' : List Receipt)
    → is_event event_id r ≡ true
    → rs' ≡ r ∷ rs
    → find? (is_event event_id) rs' ≡ some r
unfolding find?
first-is_event event_id r rs rs' t e = rw (e, t)

pub new-is_exact_replay :
    (event_id : String) (payload : Payload) (digest : String) (d : PlatformDelivery)
    → (d.id == payload.delivery_id) ≡ true
    → is_exact_replay payload digest (new_receipt d event_id digest payload) ≡ true
unfolding is_exact_replay
new-is_exact_replay event_id payload digest d at_id =
    rw (str_eq_refl digest, at_id, str_eq_refl payload.event_type)

-- The delivery that a payload names, with the operation that it names.
pub record Confirmed (payload : Payload) (db : WebhookDb) (d : PlatformDelivery) : Type 0 where
  pub row : Mem d db.deliveries
  pub named : d.id ≡ payload.delivery_id
  pub succeeded : d.status ≡ PlatformDeliveryStatus.succeeded
  pub operation : d.external_operation_id ≡ some payload.external_operation_id

succeeded-status :
    (s : PlatformDeliveryStatus) → is_succeeded s ≡ true → s ≡ PlatformDeliveryStatus.succeeded
succeeded-status PlatformDeliveryStatus.succeeded e = refl
succeeded-status PlatformDeliveryStatus.pending e = absurd (false≢true e)
succeeded-status PlatformDeliveryStatus.processing e = absurd (false≢true e)
succeeded-status PlatformDeliveryStatus.failed e = absurd (false≢true e)

under-operation :
    (o : Option String) (operation : String)
    → holds (λ x. str_eq x operation) o ≡ true
    → o ≡ some operation
under-operation none operation e = absurd (false≢true e)
under-operation (some x) operation e = ap some ((eq_iff x operation).0 e)

Confirmed-row :
    (event_id : String) (payload : Payload) (digest : String) (rival : Option Receipt)
    (db db' : WebhookDb) (fresh : Bool)
    → store_notice event_id payload digest rival db ≡ ok (fresh, db')
    → (d : PlatformDelivery) × Confirmed payload db d
unfolding confirmed_delivery
Confirmed-row event_id payload digest rival db db' fresh e =
    let (d, found) = stored-confirmed event_id payload digest rival db db' fresh e in
    let (row, test) = find?-Mem (is_confirmed payload) db.deliveries found in
    (
      d,
      record {
        row = row;
        named = (==_iff d.id payload.delivery_id).0 (ground arith);
        succeeded = succeeded-status d.status (ground arith);
        operation =
            under-operation d.external_operation_id payload.external_operation_id (ground arith);
      },
    )

module _ (hmac : String → List ℕ → String) (sha256 : List ℕ → String)
    (parse : List ℕ → Option Payload) where
  -- what the checks of an envelope establish
  pub record Checked (now : ℕ) (secret : String) (notice : Notice) (payload : Payload)
      (digest : String) : Type 0 where
    pub signed : str_eq (hmac secret (message notice)) notice.signature ≡ true
    pub secret_set : (count secret == 0) ≡ false
    pub recent : distance (int_of 0 (codes notice.timestamp)) now ≤ 300
    pub is_payload : parse notice.body ≡ some payload
    pub is_digest : digest ≡ sha256 notice.body

  pub validated-Checked :
      (now : ℕ) (secret : String) (notice : Notice) (payload : Payload) (digest : String)
      → validated_envelope hmac sha256 parse now secret notice ≡ ok (payload, digest)
      → Checked now secret notice payload digest
  unfolding validated_envelope
  validated-Checked now secret notice payload digest e = elim (Option-cases (parse notice.body)) [
    | inl missing ↦ absurd (ground arith)
    | inr (p, is) ↦ record {
      signed = ground arith;
      secret_set = ground arith;
      recent = ground arith;
      is_payload = ground arith;
      is_digest = ground arith;
    }
  ]

  -- A notice is answered with success, new or not, only if its signature is the platform's over its
  -- time, its event and its body, its time is within five minutes, and the table has the delivery that it
  -- names, as succeeded under the operation that it names.
  pub receive-Checked :
      (now : ℕ) (secret : String) (notice : Notice) (rival : Option Receipt) (db db' : WebhookDb)
      (fresh : Bool)
      → receive_platform_webhook hmac sha256 parse now secret notice rival db ≡ ok (fresh, db')
      → (payload : Payload) × Checked now secret notice payload (sha256 notice.body)
        × ((d : PlatformDelivery) × Confirmed payload db d)
  unfolding receive_platform_webhook
  receive-Checked now secret notice rival db db' fresh e =
      elim (Result-cases (validated_envelope hmac sha256 parse now secret notice)) [
        | inl (x, refused) ↦ absurd (ground arith)
        | inr ((payload, digest), valid) ↦
            let checked = validated-Checked now secret notice payload digest valid in
            let stored : store_notice notice.event_id payload digest rival db ≡ ok (fresh, db') =
              ground arith in
            (
              payload,
              subst (λ x. Checked now secret notice payload x) checked.is_digest checked,
              Confirmed-row notice.event_id payload digest rival db db' fresh stored,
            )
      ]
