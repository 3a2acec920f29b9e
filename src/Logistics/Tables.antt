-- ===== src/Logistics/Tables.antt =====
-- backend/logistics_models.py, and the helpers of backend/logistics.py that its handlers share. The
-- texts that are only stored (descriptions, notes, titles, the names of actors) are left out.
use e_commerec_operations.Accounts.{
  Directory, HttpException, User, enabled_store, get_user, http, require_department, store_visible,
}
use e_commerec_operations.Base.{
  Bool, List, Option, Result, String, [], err, find?, holds, if◌then◌else◌, is_none, leb, ltb, none,
  not, ok, some, ℕ, ◌&&◌, ◌++◌, ◌+◌, ◌==◌, ◌>>=◌, ◌>>◌, ◌||◌, ◌∷◌,
}
use e_commerec_operations.Common.{OrderStatus, UserDepartment}
use e_commerec_operations.Logistics.States.{
  EventType, ExceptionKind, ExceptionStatus, ReturnStatus, Severity, ShipmentStatus,
}

pub record Order : Type 0 where
  pub id : ℕ
  pub store_id : ℕ
  pub ordered_at : ℕ
  pub status : OrderStatus

pub record Shipment : Type 0 where
  pub id : ℕ
  pub order_id : ℕ
  pub store_id : ℕ
  pub carrier : String
  pub tracking_no : String
  pub status : ShipmentStatus
  pub dispatch_due_at : ℕ
  pub expected_delivery_at : ℕ
  pub dispatched_at : Option ℕ
  pub delivered_at : Option ℕ
  pub last_event_at : Option ℕ
  pub last_location : String
  pub is_demo : Bool

pub record ReturnCase : Type 0 where
  pub id : ℕ
  pub shipment_id : ℕ
  pub store_id : ℕ
  pub status : ReturnStatus
  pub carrier : String
  pub tracking_no : String
  pub requested_at : ℕ
  pub expected_return_at : ℕ
  pub received_at : Option ℕ
  pub closed_at : Option ℕ
  pub updated_at : ℕ
  pub is_demo : Bool

pub record ShipmentEvent : Type 0 where
  pub shipment_id : ℕ
  pub return_id : Option ℕ
  pub event_type : EventType
  pub occurred_at : ℕ
  pub location : String
  pub actor_id : Option ℕ

pub record ExceptionTask : Type 0 where
  pub id : ℕ
  pub shipment_id : ℕ
  pub return_id : Option ℕ
  pub store_id : ℕ
  pub kind : ExceptionKind
  pub severity : Severity
  pub status : ExceptionStatus
  pub dedupe_key : ℕ
  pub assignee_id : Option ℕ
  pub created_at : ℕ
  pub resolved_at : Option ℕ
  pub resolution : String

pub record AgentRun : Type 0 where
  pub created_by : Option ℕ
  pub scope_store_ids : List ℕ
  pub started_at : ℕ
  pub scanned_shipments : ℕ
  pub created_exceptions : ℕ
  pub existing_exceptions : ℕ

pub record LogisticsDb : Type 0 where
  pub directory : Directory
  pub orders : List Order
  pub shipments : List Shipment
  pub returns : List ReturnCase
  pub events : List ShipmentEvent
  pub tasks : List ExceptionTask
  pub runs : List AgentRun

abbrev pub is_shipment : ℕ → Shipment → Bool
is_shipment shipment_id s = s.id == shipment_id

abbrev pub is_return : ℕ → ReturnCase → Bool
is_return return_id c = c.id == return_id

abbrev pub is_task : ℕ → ExceptionTask → Bool
is_task task_id t = t.id == task_id

abbrev pub is_order : ℕ → Order → Bool
is_order order_id o = o.id == order_id

current_actor : Option User → Result HttpException User
current_actor none = err (http 403)
current_actor (some u) = require_department (some u) UserDepartment.logistics >> ok u

-- `_logistics_actor`
unfoldable pub logistics_actor : ℕ → Directory → Result HttpException User
unfolding current_actor
logistics_actor actor_id dir = current_actor (get_user actor_id dir)

-- The store is enabled and its rows are visible to the actor.
unfoldable pub accessible : User → Directory → ℕ → Bool
accessible actor dir store_id =
    not (is_none (enabled_store store_id dir)) && store_visible actor store_id dir

unfoldable pub shipment_row :
    User → LogisticsDb → Option Shipment → Result HttpException (Shipment × Order)
shipment_row actor db none = err (http 404)
shipment_row actor db (some s) = elim (find? (is_order s.order_id) db.orders) [
  | none ↦ err (http 404)
  | some o ↦ if accessible actor db.directory s.store_id then ok (s, o) else err (http 404)
]

unfoldable pub scoped_shipment : ℕ → ℕ → LogisticsDb → Result HttpException (Shipment × Order)
unfolding shipment_row
scoped_shipment actor_id shipment_id db = do
  actor ← logistics_actor actor_id db.directory
  shipment_row actor db (find? (is_shipment shipment_id) db.shipments)

-- The time that was reported is at most five seconds ahead, and not before the last one.
unfoldable pub check_time : ℕ → ℕ → ℕ → Result HttpException (Unit {0})
check_time now value earliest =
    if ltb (now + 5) value
    then err (http 422)
    else if ltb value earliest
    then err (http 422)
    else ok tt

unfoldable pub add_event :
    ℕ → Option ℕ → Option ℕ → EventType → ℕ → String → LogisticsDb → LogisticsDb
add_event shipment_id return_id actor_id event_type occurred_at location db = record db {
  events =
      db.events
      ++ record {
        shipment_id = shipment_id;
        return_id = return_id;
        event_type = event_type;
        occurred_at = occurred_at;
        location = location;
        actor_id = actor_id;
      }
        ∷ [];
}

-- A time that may be missing is not after `t`.
abbrev pub before : Option ℕ → ℕ → Bool
before u t = is_none u || holds (λ v. leb v t) u
