-- ===== src/Logistics/Returns.antt =====
-- `create_return` and `transition_return` of backend/logistics.py.
use mathlib.Core.Option.{get_or}
use e_commerec_operations.Accounts.{HttpException, User, http}
use e_commerec_operations.Base.{
  Bool, Option, Result, String, count, err, exists_where, find?, holds, if◌then◌else◌, is_none, leb,
  none, not, ok, some, update_where, ℕ, ◌&&◌, ◌==◌, ◌>>=◌, ◌>>◌, ◌||◌, ◌∷◌,
}
use e_commerec_operations.Logistics.States.{
  EventType, ReturnStatus, is_closed, is_pending_dispatch, is_received, is_sent_back,
  return_allowed,
}
use e_commerec_operations.Logistics.Tables.{
  LogisticsDb, Order, ReturnCase, Shipment, accessible, add_event, check_time, is_return,
  is_shipment, logistics_actor, scoped_shipment,
}

abbrev pub new_return : ℕ → ℕ → ℕ → Shipment → ReturnCase
new_return now return_id expected_return_at s = record {
  id = return_id;
  shipment_id = s.id;
  store_id = s.store_id;
  status = ReturnStatus.requested;
  carrier = "";
  tracking_no = "";
  requested_at = now;
  expected_return_at = expected_return_at;
  received_at = none;
  closed_at = none;
  updated_at = now;
  is_demo = s.is_demo;
}

abbrev pub is_return_of : ℕ → ReturnCase → Bool
is_return_of shipment_id c = c.shipment_id == shipment_id

-- `uq_logistics_return_shipment` refuses a second return of the shipment.
unfoldable pub open_return :
    ℕ → ℕ → ℕ → ℕ → LogisticsDb → Shipment × Order → Result HttpException LogisticsDb
open_return now actor_id return_id expected_return_at db (s, order) =
    let c = new_return now return_id expected_return_at s in
    if is_pending_dispatch s.status
    then err (http 409)
    else if leb expected_return_at now
    then err (http 422)
    else if exists_where (is_return_of s.id) db.returns
    then err (http 409)
    else ok (
        add_event s.id (some return_id) (some actor_id) EventType.return_requested now ""
          (record db { returns = c ∷ db.returns }))

unfoldable pub create_return : ℕ → ℕ → ℕ → ℕ → ℕ → LogisticsDb → Result HttpException LogisticsDb
unfolding open_return
create_return now actor_id return_id shipment_id expected_return_at db = do
  row ← scoped_shipment actor_id shipment_id db
  open_return now actor_id return_id expected_return_at db row

unfoldable pub return_row : User → LogisticsDb → Option ReturnCase → Result HttpException ReturnCase
return_row actor db none = err (http 404)
return_row actor db (some c) =
    if is_none (find? (is_shipment c.shipment_id) db.shipments)
    then err (http 404)
    else if accessible actor db.directory c.store_id
    then ok c
    else err (http 404)

-- `scoped_return`; the shipment is locked first
unfoldable pub scoped_return : ℕ → ℕ → LogisticsDb → Result HttpException (ReturnCase × Shipment)
unfolding return_row
scoped_return actor_id return_id db = do
  actor ← logistics_actor actor_id db.directory
  c ← return_row actor db (find? (is_return return_id) db.returns)
  row ← scoped_shipment actor_id c.shipment_id db
  ok (c, row.0)

pub record ReturnTransition : Type 0 where
  pub status : ReturnStatus
  pub occurred_at : ℕ
  pub carrier : Option String
  pub tracking_no : Option String

-- a text that is there and not empty
abbrev pub is_given : Option String → Bool
is_given text_ = holds (λ s. leb 1 (count s)) text_

unfoldable pub sent_back : ReturnTransition → ReturnCase → ReturnCase
sent_back payload c =
    if is_sent_back payload.status
    then record c {
      carrier = get_or payload.carrier c.carrier;
      tracking_no = get_or payload.tracking_no c.tracking_no;
    }
    else c

unfoldable pub stamped : ReturnTransition → ReturnCase → ReturnCase
stamped payload c =
    if is_received payload.status
    then record c { received_at = some payload.occurred_at }
    else if is_closed payload.status
    then record c { closed_at = some payload.occurred_at }
    else c

unfoldable pub moved_return : ReturnTransition → ReturnCase → ReturnCase
unfolding sent_back stamped
moved_return payload c =
    stamped payload
      (record (sent_back payload c) { status = payload.status; updated_at = payload.occurred_at })

-- The carrier's texts belong to the step in which the parcel is sent back, and to no other.
unfoldable pub check_parcel : ReturnTransition → Result HttpException (Unit {0})
check_parcel payload =
    if is_sent_back payload.status
    then (if is_given payload.carrier && is_given payload.tracking_no
        then ok tt
        else err (http 422))
    else if not (is_none payload.carrier) || not (is_none payload.tracking_no)
    then err (http 422)
    else ok tt

unfoldable pub move_return :
    ℕ
    → ℕ
    → ReturnTransition
    → LogisticsDb
    → ReturnCase × Shipment
    → Result HttpException LogisticsDb
unfolding moved_return check_parcel
move_return now actor_id payload db (c, s) =
    let changed = update_where (is_return c.id) (moved_return payload) db.returns in
    let recorded =
      add_event s.id (some c.id) (some actor_id) (EventType.return_moved payload.status)
        payload.occurred_at "" (record db { returns = changed }) in
    if not (return_allowed c.status payload.status)
    then err (http 409)
    else check_time now payload.occurred_at c.updated_at >> check_parcel payload >> ok recorded

unfoldable pub transition_return :
    ℕ → ℕ → ℕ → ReturnTransition → LogisticsDb → Result HttpException LogisticsDb
unfolding move_return
transition_return now actor_id return_id payload db = do
  row ← scoped_return actor_id return_id db
  move_return now actor_id payload db row
