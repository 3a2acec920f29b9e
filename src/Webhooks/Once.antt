-- ===== src/Webhooks/Once.antt =====
-- A notice that has been recorded stays recorded, and so does the delivery that it confirms.
use mathlib.Core.Option.{some-injective}
use e_commerec_operations.Base.{
  ==_iff, Bool, Bool-cases, IsKeyed, List, Option, Option-cases, Result-cases, String, [], ap,
  arith, eq_iff, false, find?, find?-IsKeyed, find?-test, inl, inr, none, ok, refl, some,
  str_eq_refl, subst, sym, true, ℕ, ◌==◌, ◌∙◌, ◌∷◌, ◌≡◌,
}
use e_commerec_operations.Delivery.Claim.{is_open}
use e_commerec_operations.Delivery.Moves.{delivery_id}
use e_commerec_operations.Delivery.Progress.{Reach-Later, delivery}
use e_commerec_operations.Delivery.Tables.{PlatformDelivery}
use e_commerec_operations.Webhooks.{
  Notice, Payload, Receipt, WebhookDb, confirmed_delivery, insert_receipt, is_confirmed, is_event,
  new_receipt, receive_platform_webhook, replayed, store_notice, validated_envelope,
}
use e_commerec_operations.Webhooks.Replays.{
  first-is_event, new-is_exact_replay, recorded, stored-confirmed, validated-Checked,
}
use e_commerec_operations.Webhooks.Steps.{
  WebhookReach, WebhookStep, is_rival, notified, queue_ran, then_notice, unchanged,
}

-- The receipt of an event, and the delivery of a key.
pub record Kept (event_id : String) (r : Receipt) (i : ℕ) (d : PlatformDelivery) (db : WebhookDb)
    : Type 0 where
  pub receipt : find? (is_event event_id) db.receipts ≡ some r
  pub row : find? (λ z. delivery_id z == i) db.deliveries ≡ some d

-- A receipt of an event that had none is added.
receipt-added :
    (e event_id : String) (x r : Receipt) (rows : List Receipt)
    → is_event event_id x ≡ true
    → find? (is_event event_id) rows ≡ none
    → find? (is_event e) rows ≡ some r
    → find? (is_event e) (x ∷ rows) ≡ some r
unfolding find?
receipt-added e event_id x r rows of_event new old = elim (Bool-cases (is_event e x)) [
  | inr f ↦ rw f old
  | inl t ↦
      let same : e ≡ event_id =
        sym ((eq_iff x.event_id e).0 t) ∙ (eq_iff x.event_id event_id).0 of_event in
      let twice : find? (is_event event_id) rows ≡ some r =
        subst (λ s. find? (is_event s) rows ≡ some r) same old in
      absurd (ground arith)
]

store-kept :
    (event_id : String) (payload : Payload) (digest : String) (rival : Option Receipt)
    (db db' : WebhookDb) (fresh : Bool) (e : String) (r : Receipt)
    → is_rival event_id rival ≡ true
    → store_notice event_id payload digest rival db ≡ ok (fresh, db')
    → find? (is_event e) db.receipts ≡ some r
    → (db'.deliveries ≡ db.deliveries) × (find? (is_event e) db'.receipts ≡ some r)
unfolding store_notice replayed insert_receipt
store-kept event_id payload digest rival db db' fresh e r of_event h old =
    elim (Option-cases (find? (is_event event_id) db.receipts)) [
      | inr (x, there) ↦
          let same : db' ≡ db = ground arith in
          (ap (λ (w : WebhookDb). w.deliveries) same, rw same old)
      | inl new ↦ elim (Option-cases (confirmed_delivery payload db)) [
        | inl missing ↦ absurd (ground arith)
        | inr (d, found) ↦ elim (Option-cases rival) [
          | inl alone ↦
              let x = new_receipt d event_id digest payload in
              let rows : db'.receipts ≡ x ∷ db.receipts = ground arith in
              (
                ground arith,
                rw rows (receipt-added e event_id x r db.receipts (str_eq_refl event_id) new old),
              )
          | inr (x, first) ↦
              let rows : db'.receipts ≡ x ∷ db.receipts = ground arith in
              (
                ground arith,
                rw rows (
                    receipt-added e event_id x r db.receipts
                      (subst (λ o. is_rival event_id o ≡ true) first of_event) new old),
              )
        ]
      ]
    ]

succeeded-shut :
    (payload : Payload) (d : PlatformDelivery) → is_confirmed payload d ≡ true → is_open d ≡ false
succeeded-shut payload d t = ground arith

-- The row that a payload confirms is the first of its key.
row-confirmed :
    (payload : Payload) (d : PlatformDelivery) (rows : List PlatformDelivery)
    → is_confirmed payload d ≡ true
    → find? (λ z. delivery_id z == payload.delivery_id) rows ≡ some d
    → find? (is_confirmed payload) rows ≡ some d
unfolding find?
row-confirmed payload d [] t e = absurd (ground arith)
row-confirmed payload d (x ∷ xs) t e = elim (Bool-cases (delivery_id x == payload.delivery_id)) [
  | inl at ↦
      let same : x ≡ d = some-injective _ _ (rw at at e) in
      let test : is_confirmed payload x ≡ true = rw same t in rw test (rw same refl)
  | inr other ↦
      let test : is_confirmed payload x ≡ false = ground arith in
      rw test (row-confirmed payload d xs t (rw other at e))
]

module _ (hmac : String → List ℕ → String) (sha256 : List ℕ → String)
    (parse : List ℕ → Option Payload) where
  step-Kept :
      (e : String) (r : Receipt) (i : ℕ) (d : PlatformDelivery) (db db' : WebhookDb)
      → is_open d ≡ false
      → WebhookStep hmac sha256 parse db db'
      → Kept e r i d db
      → Kept e r i d db'
  unfolding receive_platform_webhook delivery
  step-Kept e r i d db db' shut (notified now secret notice rival fresh of_event h) k =
      elim (Result-cases (validated_envelope hmac sha256 parse now secret notice)) [
        | inl (x, refused) ↦ absurd (ground arith)
        | inr ((payload, digest), valid) ↦
            let stored : store_notice notice.event_id payload digest rival db ≡ ok (fresh, db') =
              ground arith in
            let (rows, receipt) =
              store-kept notice.event_id payload digest rival db db' fresh e r of_event stored
                k.receipt in
            record { receipt = receipt; row = rw rows (k.row) }
      ]
  step-Kept e r i d db db' shut (queue_ran queue queue' rows audit keyed run) k =
      let (keyed', (d', row, later)) =
        Reach-Later queue i d keyed (rw rows (k.row)) {db' = queue'} run in
      record { receipt = k.receipt; row = row ∙ ap some (later.3 shut) }

  reach-Kept :
      (e : String) (r : Receipt) (i : ℕ) (d : PlatformDelivery) (db db' : WebhookDb)
      → is_open d ≡ false
      → WebhookReach hmac sha256 parse db db'
      → Kept e r i d db
      → Kept e r i d db'
  reach-Kept e r i d db db' shut unchanged k = k
  reach-Kept e r i d db db' shut (then_notice {db = mid} run st) k =
      step-Kept e r i d mid db' shut st (reach-Kept e r i d db mid shut run k)

  stored-once :
      (event_id : String) (payload : Payload) (digest : String) (rival rival' : Option Receipt)
      (db db' db'' : WebhookDb)
      → IsKeyed delivery_id db.deliveries
      → store_notice event_id payload digest rival db ≡ ok (true, db')
      → WebhookReach hmac sha256 parse db' db''
      → store_notice event_id payload digest rival' db'' ≡ ok (false, db'')
  unfolding store_notice replayed confirmed_delivery
  stored-once event_id payload digest rival rival' db db' db'' keyed e run =
      let (d, found) = stored-confirmed event_id payload digest rival db db' true e in
      let (receipts, deliveries) = recorded event_id payload digest rival db db' d e found in
      let r = new_receipt d event_id digest payload in
      let test = find?-test (is_confirmed payload) db.deliveries found in
      let at_id : (d.id == payload.delivery_id) ≡ true = ground arith in
      let row =
        find?-IsKeyed delivery_id (is_confirmed payload) payload.delivery_id
          (λ x t. (==_iff x.id payload.delivery_id).0 (ground arith)) db.deliveries keyed found in
      let kept =
        reach-Kept event_id r payload.delivery_id d db' db'' (succeeded-shut payload d test) run
          (record {
            receipt =
                first-is_event event_id r db.receipts db'.receipts (str_eq_refl event_id) receipts;
            row =
                subst (λ l. find? (λ z. delivery_id z == payload.delivery_id) l ≡ some d)
                  (sym deliveries) row;
          }) in
      let old = kept.receipt in
      let exact = new-is_exact_replay event_id payload digest d at_id in
      let still = row-confirmed payload d db''.deliveries test kept.row in ground arith

  -- In tables where the keys of the deliveries are distinct, once a notice has been recorded, the same
  -- notice is answered with `False` and changes nothing, at any time at which it passes the checks of the
  -- envelope, whatever other notices have come and whatever the delivery queue has done in between.
  pub receive-once :
      (now later : ℕ) (secret : String) (notice : Notice) (rival rival' : Option Receipt)
      (db db' db'' : WebhookDb) (payload : Payload) (digest : String)
      → IsKeyed delivery_id db.deliveries
      → receive_platform_webhook hmac sha256 parse now secret notice rival db ≡ ok (true, db')
      → WebhookReach hmac sha256 parse db' db''
      → validated_envelope hmac sha256 parse later secret notice ≡ ok (payload, digest)
      → receive_platform_webhook hmac sha256 parse later secret notice rival' db''
        ≡ ok (false, db'')
  unfolding receive_platform_webhook
  receive-once now later secret notice rival rival' db db' db'' payload digest keyed e run valid =
      elim (Result-cases (validated_envelope hmac sha256 parse now secret notice)) [
        | inl (x, refused) ↦ absurd (ground arith)
        | inr ((p, g), first) ↦
            let one = validated-Checked hmac sha256 parse now secret notice p g first in
            let two =
              validated-Checked hmac sha256 parse later secret notice payload digest valid in
            let same_payload : p ≡ payload =
              some-injective _ _ (sym one.is_payload ∙ two.is_payload) in
            let same_digest : g ≡ digest = one.is_digest ∙ sym two.is_digest in
            let stored : store_notice notice.event_id p g rival db ≡ ok (true, db') =
              ground arith in
            rw valid (
              stored-once notice.event_id payload digest rival rival' db db' db'' keyed
                (rw (same_payload, same_digest) at stored) run)
      ]
