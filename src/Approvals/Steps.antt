-- ===== src/Approvals/Steps.antt =====
-- The runs of the approval tables: the calls of backend/approvals.py and the transactions of the
-- delivery queue, with whatever the other modules do to the tables that they own. The keys of a call
-- are new, as `uuid4` makes them.
use e_commerec_operations.Approvals.Actions.{Call, Library, perform_action}
use e_commerec_operations.Approvals.Publish.{Approval, approve_proposal}
use e_commerec_operations.Approvals.Tables.{ApprovalActionType, ApprovalDb}
use e_commerec_operations.Base.{All, ◌≡◌, ◌≢◌}
use e_commerec_operations.Delivery.Steps.{Step}
use e_commerec_operations.Delivery.Tables.{Db, PlatformDelivery, PublishRecord}

pub record IsFresh (call : Approval) (db : ApprovalDb) : Type 0 where
  pub new_record : All (λ (s : PublishRecord). s.id ≢ call.record_id) db.queue.records
  pub new_delivery_id :
      All
        (λ (d : PlatformDelivery).
          (d.id ≢ call.delivery_id) × (d.publish_record_id ≢ call.record_id))
        db.queue.deliveries

pub data ApprovalStep (lib : Library) (db : ApprovalDb) : ApprovalDb → Type 0 where
  performed :
      (type : ApprovalActionType) (call : Call)
      → ApprovalStep lib db (perform_action lib type call db).1
  approved :
      (call : Approval) → IsFresh call db → ApprovalStep lib db (approve_proposal lib call db).1
  -- the queue's own transactions, which add no record
  delivered :
      (queue : Db)
      → Step db.queue queue
      → queue.records ≡ db.queue.records
      → ApprovalStep lib db (record db { queue = queue })
  -- Only approvals write these four tables; the other modules write the rest.
  elsewhere :
      {db' : ApprovalDb}
      → db'.queue ≡ db.queue
      → db'.products ≡ db.products
      → db'.actions ≡ db.actions
      → db'.publications ≡ db.publications
      → ApprovalStep lib db db'

pub data ApprovalReach (lib : Library) (start : ApprovalDb) : ApprovalDb → Type 0 where
  started : ApprovalReach lib start start
  and_then :
      {db db' : ApprovalDb}
      → ApprovalReach lib start db
      → ApprovalStep lib db db'
      → ApprovalReach lib start db'

pub ApprovalReach_induction :
    (lib : Library) (P : ApprovalDb → Type 0) (start : ApprovalDb)
    → P start
    → ((db db' : ApprovalDb) → ApprovalStep lib db db' → P db → P db')
    → {db : ApprovalDb} → ApprovalReach lib start db
    → P db
ApprovalReach_induction lib P start h keep started = h
ApprovalReach_induction lib P start h keep (and_then {db} {db'} r st) =
    keep db db' st (ApprovalReach_induction lib P start h keep r)
