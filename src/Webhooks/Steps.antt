-- ===== src/Webhooks/Steps.antt =====
-- Any notices in any order, and between them any runs of the delivery queue on its tables.
use e_commerec_operations.Base.{Bool, List, Option, String, none, ok, some, true, ℕ, ◌≡◌}
use e_commerec_operations.Delivery.Moves.{Keyed}
use e_commerec_operations.Delivery.Tables.{Db}
use e_commerec_operations.Delivery.Steps.{Reach}
use e_commerec_operations.Webhooks.{
  Notice, Payload, Receipt, WebhookDb, is_event, receive_platform_webhook,
}

-- `rival` is a receipt of the same event, if it is there.
abbrev pub is_rival : String → Option Receipt → Bool
is_rival event_id none = true
is_rival event_id (some r) = is_event event_id r

module _ (hmac : String → List ℕ → String) (sha256 : List ℕ → String)
    (parse : List ℕ → Option Payload) where
  pub data WebhookStep (db : WebhookDb) : WebhookDb → Type 0 where
    notified :
        (now : ℕ) (secret : String) (notice : Notice) (rival : Option Receipt) (fresh : Bool)
        {db' : WebhookDb}
        → is_rival notice.event_id rival ≡ true
        → receive_platform_webhook hmac sha256 parse now secret notice rival db ≡ ok (fresh, db')
        → WebhookStep db db'
    queue_ran :
        (queue queue' : Db)
        → queue.deliveries ≡ db.deliveries
        → queue.audit ≡ db.audit
        → Keyed queue
        → Reach queue queue'
        → WebhookStep db (record db { deliveries = queue'.deliveries; audit = queue'.audit })

  pub data WebhookReach (start : WebhookDb) : WebhookDb → Type 0 where
    unchanged : WebhookReach start start
    then_notice :
        {db db' : WebhookDb} → WebhookReach start db → WebhookStep db db' → WebhookReach start db'
