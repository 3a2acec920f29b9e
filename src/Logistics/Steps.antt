-- ===== src/Logistics/Steps.antt =====
-- The runs of the logistics part: any handlers in any order, and what each does to the three tables.
-- The keys of new rows are new, as `uuid4` makes them.
use e_commerec_operations.Accounts.{Directory}
use e_commerec_operations.Base.{All, List, Option, [], ok, ℕ, ◌≡◌, ◌≢◌}
use e_commerec_operations.Logistics.Patrol.{Evidence, patrol}
use e_commerec_operations.Logistics.Returns.{ReturnTransition, create_return, transition_return}
use e_commerec_operations.Logistics.Shipments.{
  EventCreate, ShipmentCreate, create_shipment, record_event,
}
use e_commerec_operations.Logistics.Tables.{LogisticsDb, Order}
use e_commerec_operations.Logistics.Tasks.{ExceptionAction, update_exception}

module _ (digest : Evidence → ℕ) where
  pub data Step (db : LogisticsDb) : LogisticsDb → Type 0 where
    placing :
        (now actor_id shipment_id : ℕ) (payload : ShipmentCreate) {db' : LogisticsDb}
        → All (λ s. s.id ≢ shipment_id) db.shipments
        → create_shipment now actor_id shipment_id payload db ≡ ok db'
        → Step db db'
    recording :
        (now actor_id shipment_id : ℕ) (payload : EventCreate) {db' : LogisticsDb}
        → record_event now actor_id shipment_id payload db ≡ ok db'
        → Step db db'
    requesting :
        (now actor_id return_id shipment_id expected_return_at : ℕ) {db' : LogisticsDb}
        → All (λ c. c.id ≢ return_id) db.returns
        → create_return now actor_id return_id shipment_id expected_return_at db ≡ ok db'
        → Step db db'
    transitioning :
        (now actor_id return_id : ℕ) (payload : ReturnTransition) {db' : LogisticsDb}
        → transition_return now actor_id return_id payload db ≡ ok db'
        → Step db db'
    handling :
        (now actor_id task_id : ℕ) (payload : ExceptionAction) {db' : LogisticsDb}
        → update_exception now actor_id task_id payload db ≡ ok db'
        → Step db db'
    patrolling :
        (uuid : ℕ → ℕ) (now : ℕ) (actor_id : Option ℕ) (shipment_ids ids : List ℕ)
        {db' : LogisticsDb}
        → patrol digest uuid now actor_id shipment_ids ids db ≡ ok db'
        → Step db db'
    -- other parts of the system change the users, stores, scopes and orders
    elsewhere :
        (dir : Directory) (orders : List Order)
        → Step db (record db { directory = dir; orders = orders })

  pub data Reach (start : LogisticsDb) : LogisticsDb → Type 0 where
    here : Reach start start
    next : {db db' : LogisticsDb} → Reach start db → Step db db' → Reach start db'

  pub Reach_induction :
      (P : LogisticsDb → Type 0) (start : LogisticsDb)
      → P start
      → ((db db' : LogisticsDb) → Step db db' → P db → P db')
      → {db : LogisticsDb} → Reach start db
      → P db
  Reach_induction P start h keep here = h
  Reach_induction P start h keep (next {db} {db'} r st) =
      keep db db' st (Reach_induction P start h keep r)

-- the tables of a new installation
abbrev pub start_db : Directory → List Order → LogisticsDb
start_db dir orders = record {
  directory = dir;
  orders = orders;
  shipments = [];
  returns = [];
  events = [];
  tasks = [];
  runs = [];
}
