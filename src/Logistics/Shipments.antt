-- ===== src/Logistics/Shipments.antt =====
-- `create_shipment` and `record_event` of backend/logistics.py.
use mathlib.Core.Option.{get_or}
use e_commerec_operations.Accounts.{HttpException, User, http}
use e_commerec_operations.Base.{
  Bool, Option, Result, String, err, exists_where, false, find?, if◌then◌else◌, ltb, none, not, ok,
  some, str_eq, true, update_where, ℕ, ◌&&◌, ◌==◌, ◌>>=◌, ◌>>◌, ◌||◌, ◌∷◌,
}
use e_commerec_operations.Common.{OrderStatus}
use e_commerec_operations.Logistics.States.{EventAction, EventType, ShipmentStatus, event_allowed}
use e_commerec_operations.Logistics.Tables.{
  LogisticsDb, Order, Shipment, accessible, add_event, check_time, is_order, is_shipment,
  logistics_actor, scoped_shipment,
}

pub record ShipmentCreate : Type 0 where
  pub order_id : ℕ
  pub carrier : String
  pub tracking_no : String
  pub dispatch_due_at : ℕ
  pub expected_delivery_at : ℕ

abbrev pub new_shipment : ℕ → ShipmentCreate → Order → Shipment
new_shipment shipment_id payload order = record {
  id = shipment_id;
  order_id = order.id;
  store_id = order.store_id;
  carrier = payload.carrier;
  tracking_no = payload.tracking_no;
  status = ShipmentStatus.pending_dispatch;
  dispatch_due_at = payload.dispatch_due_at;
  expected_delivery_at = payload.expected_delivery_at;
  dispatched_at = none;
  delivered_at = none;
  last_event_at = none;
  last_location = "待仓库发货";
  is_demo = false;
}

-- `uq_logistics_shipment_order` or `uq_logistics_shipment_tracking` refuses the new row.
abbrev pub conflicts : Shipment → Shipment → Bool
conflicts s t =
    t.order_id == s.order_id || str_eq t.carrier s.carrier && str_eq t.tracking_no s.tracking_no

abbrev pub is_cancelled : OrderStatus → Bool
is_cancelled OrderStatus.cancelled = true
is_cancelled _ = false

unfoldable pub place_shipment :
    ℕ → ℕ → ShipmentCreate → User → LogisticsDb → Option Order → Result HttpException LogisticsDb
place_shipment now shipment_id payload actor db none = err (http 404)
place_shipment now shipment_id payload actor db (some order) =
    let s = new_shipment shipment_id payload order in
    if not (accessible actor db.directory order.store_id)
    then err (http 404)
    else if is_cancelled order.status
    then err (http 409)
    else if ltb payload.dispatch_due_at order.ordered_at
    then err (http 422)
    else if exists_where (conflicts s) db.shipments
    then err (http 409)
    else ok (
        add_event shipment_id none (some actor.id) EventType.created now ""
          (record db { shipments = s ∷ db.shipments }))

-- `chronological` is the validator of the request.
unfoldable pub create_shipment :
    ℕ → ℕ → ℕ → ShipmentCreate → LogisticsDb → Result HttpException LogisticsDb
unfolding place_shipment
create_shipment now actor_id shipment_id payload db =
    let placed = logistics_actor actor_id db.directory >>= λ actor.
    place_shipment now shipment_id payload actor db (find? (is_order payload.order_id) db.orders) in
    if ltb payload.expected_delivery_at payload.dispatch_due_at then err (http 422) else placed

pub record EventCreate : Type 0 where
  pub action : EventAction
  pub occurred_at : ℕ
  pub location : String

unfoldable pub progress : EventAction → ℕ → Shipment → Shipment
progress EventAction.dispatch occurred_at s = record s {
  status = ShipmentStatus.in_transit;
  dispatched_at = some occurred_at;
}
progress EventAction.transit occurred_at s = s
progress EventAction.deliver occurred_at s = record s {
  status = ShipmentStatus.delivered;
  delivered_at = some occurred_at;
}

unfoldable pub moved_shipment : EventCreate → Shipment → Shipment
unfolding progress
moved_shipment payload s = record (progress payload.action payload.occurred_at s) {
  last_event_at = some payload.occurred_at;
  last_location = payload.location;
}

unfoldable pub move_shipment :
    ℕ → ℕ → EventCreate → LogisticsDb → Shipment × Order → Result HttpException LogisticsDb
unfolding moved_shipment
move_shipment now actor_id payload db (s, order) =
    let changed = update_where (is_shipment s.id) (moved_shipment payload) db.shipments in
    let recorded =
      add_event s.id none (some actor_id) (EventType.moved payload.action) payload.occurred_at
        payload.location (record db { shipments = changed }) in
    if not (event_allowed s.status payload.action)
    then err (http 409)
    else check_time now payload.occurred_at (get_or s.last_event_at order.ordered_at) >> ok recorded

unfoldable pub record_event :
    ℕ → ℕ → ℕ → EventCreate → LogisticsDb → Result HttpException LogisticsDb
unfolding move_shipment
record_event now actor_id shipment_id payload db = do
  row ← scoped_shipment actor_id shipment_id db
  move_shipment now actor_id payload db row
