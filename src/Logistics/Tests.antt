-- ===== src/Logistics/Tests.antt =====
-- One order: it is shipped and delivered, sent back, and a late return is found by the patrol.
use e_commerec_operations.Accounts.{
  Directory, User, enabled_store, get_user, has_department_access, in_scope, require_department,
  store_visible,
}
use e_commerec_operations.Base.{
  [], exists_where, find?, insert_by, none, ok, order_by, refl, select_where, some, true,
  update_where, ℕ, ◌*◌, ◌+◌, ◌∷◌, ◌≡◌, ◌≢◌, ◌⊎◌,
}
use e_commerec_operations.Common.{OrderStatus, UserDepartment, UserRole, UserStatus}
use e_commerec_operations.Logistics.Access.{
  Authorized, Given, Resolved, record_event-Authorized, update_exception-outcome,
}
use e_commerec_operations.Logistics.Changes.{Moved}
use e_commerec_operations.Logistics.Dedupe.{patrol-repeats}
use e_commerec_operations.Logistics.Final.{
  ReturnLater, ReturnStep, ShipmentLater, return_case, shipment,
}
use e_commerec_operations.Logistics.History.{Reach-ReturnLater, Reach-ShipmentLater}
use e_commerec_operations.Logistics.Patrol.{
  Evidence, Issue, issues, new_task, patrol, patrol_as, report, visible_store_ids,
}
use e_commerec_operations.Logistics.Returns.{new_return}
use e_commerec_operations.Logistics.Runs.{IsConsistent}
use e_commerec_operations.Logistics.Shipments.{
  EventCreate, ShipmentCreate, create_shipment, moved_shipment, new_shipment, record_event,
}
use e_commerec_operations.Logistics.States.{
  EventAction, EventType, ExceptionKind, ExceptionStatus, Severity, ShipmentStatus, TaskAction,
}
use e_commerec_operations.Logistics.Steps.{
  Reach, here, next, patrolling, placing, recording, start_db,
}
use e_commerec_operations.Logistics.Tables.{
  AgentRun, ExceptionTask, LogisticsDb, Order, ReturnCase, Shipment, accessible, add_event,
  check_time, is_task, logistics_actor, scoped_shipment,
}
use e_commerec_operations.Logistics.TaskRuns.{Reach-IsConsistent}
use e_commerec_operations.Logistics.Tasks.{
  ExceptionAction, assigned_task, change_task, update_exception,
}

abbrev keeper : User
keeper = record {
  id = 1;
  role = UserRole.admin;
  status = UserStatus.active;
  department = UserDepartment.logistics;
}

abbrev depot : Directory
depot = record { users = keeper ∷ []; stores = record { id = 5; enabled = true } ∷ []; scopes = [] }

abbrev order : Order
order = record { id = 3; store_id = 5; ordered_at = 100; status = OrderStatus.paid }

abbrev db0 : LogisticsDb
db0 = start_db depot (order ∷ [])

abbrev parcel : ShipmentCreate
parcel = record {
  order_id = 3;
  carrier = "SF";
  tracking_no = "SF-1";
  dispatch_due_at = 200;
  expected_delivery_at = 300;
}

abbrev fresh : Shipment
fresh = new_shipment 21 parcel order

abbrev db1 : LogisticsDb
db1 = add_event 21 none (some 1) EventType.created 110 "" (record db0 { shipments = fresh ∷ [] })

places : create_shipment 110 1 21 parcel db0 ≡ ok db1
unfolding create_shipment logistics_actor get_user find? require_department has_department_access
    accessible enabled_store store_visible exists_where
places = refl

abbrev departure : EventCreate
departure = record { action = EventAction.dispatch; occurred_at = 120; location = "depot" }

abbrev shipped : Shipment
shipped = record fresh {
  status = ShipmentStatus.in_transit;
  dispatched_at = some 120;
  last_event_at = some 120;
  last_location = "depot";
}

abbrev db2 : LogisticsDb
db2 =
    add_event 21 none (some 1) (EventType.moved EventAction.dispatch) 120 "depot"
      (record db1 { shipments = shipped ∷ [] })

departs : record_event 120 1 21 departure db1 ≡ ok db2
unfolding record_event scoped_shipment logistics_actor get_user find? require_department
    has_department_access accessible enabled_store store_visible add_event check_time moved_shipment
    update_where
departs = refl

-- the shipment later, and its return, which is late
abbrev arrived : Shipment
arrived = record shipped {
  status = ShipmentStatus.delivered;
  delivered_at = some 130;
  last_event_at = some 130;
  last_location = "door";
}

abbrev late : ReturnCase
late = new_return 140 31 200 arrived

abbrev late_db : LogisticsDb
late_db = record db0 { shipments = arrived ∷ []; returns = late ∷ [] }

-- a numbering of the evidence, and of the new keys
abbrev digest : Evidence → ℕ
digest e = e.shipment_id + 1000 * e.anchor

abbrev uuid : ℕ → ℕ
uuid n = 500 + n

abbrev overdue : Issue
overdue = record {
  kind = ExceptionKind.return_overdue;
  severity = Severity.high;
  anchor = 200;
  return_id = some 31;
}

abbrev run_of : ℕ → ℕ → AgentRun
run_of created existing = record {
  created_by = some 1;
  scope_store_ids = 5 ∷ [];
  started_at = 210;
  scanned_shipments = 1;
  created_exceptions = created;
  existing_exceptions = existing;
}

abbrev found_db : LogisticsDb
found_db = record late_db {
  events =
      record {
        shipment_id = 21;
        return_id = some 31;
        event_type = EventType.exception_detected;
        occurred_at = 210;
        location = "";
        actor_id = some 1;
      }
      ∷ [];
  tasks = new_task digest uuid 210 500 arrived overdue ∷ [];
  runs = run_of 1 0 ∷ [];
}

patrols : patrol digest uuid 210 (some 1) (21 ∷ []) (5 ∷ []) late_db ≡ ok found_db
unfolding patrol logistics_actor get_user find? require_department has_department_access
    enabled_store store_visible exists_where add_event update_where insert_by order_by select_where
    issues report patrol_as visible_store_ids
patrols = refl

abbrev again_db : LogisticsDb
again_db = record found_db { runs = run_of 0 1 ∷ run_of 1 0 ∷ [] }

patrols_again : patrol digest uuid 210 (some 1) (21 ∷ []) (5 ∷ []) found_db ≡ ok again_db
unfolding patrol logistics_actor get_user find? require_department has_department_access
    enabled_store store_visible exists_where add_event update_where insert_by order_by select_where
    issues report patrol_as visible_store_ids
patrols_again = refl

patrol-repeats_example : (again_db.tasks ≡ found_db.tasks) × (again_db.events ≡ found_db.events)
patrol-repeats_example =
    patrol-repeats digest uuid uuid 210 (some 1) (21 ∷ []) (5 ∷ []) late_db found_db again_db
      patrols patrols_again

abbrev taking : ExceptionAction
taking = record { action = TaskAction.assign; assignee_id = some 1; resolution = none }

abbrev taken_db : LogisticsDb
taken_db =
    add_event 21 (some 31) (some 1) (EventType.exception_changed TaskAction.assign) 220 ""
      (record found_db {
        tasks = assigned_task 1 (new_task digest uuid 210 500 arrived overdue) ∷ [];
      })

takes : update_exception 220 1 500 taking found_db ≡ ok taken_db
unfolding update_exception scoped_shipment logistics_actor get_user find? require_department
    has_department_access accessible enabled_store store_visible change_task update_where in_scope
takes = refl

update_exception-outcome_example :
    (t t' : ExceptionTask) × (find? (is_task 500) found_db.tasks ≡ some t)
    × (t.status ≢ ExceptionStatus.resolved)
    × (find? (is_task 500) taken_db.tasks ≡ some t')
    × (Given 220 taking found_db.directory t t' ⊎ Resolved 220 t t')
update_exception-outcome_example = update_exception-outcome 220 1 500 taking found_db taken_db takes

run : Reach digest db0 db2
run = next (next here (placing 110 1 21 parcel tt places)) (recording 120 1 21 departure departs)

Reach-IsConsistent_example : IsConsistent db2
Reach-IsConsistent_example = Reach-IsConsistent digest depot (order ∷ []) db2 run

at_first : shipment 21 db1 ≡ some fresh
unfolding shipment find? add_event
at_first = refl

Reach-ShipmentLater_example : (s : Shipment) × (shipment 21 db2 ≡ some s) × ShipmentLater fresh s
Reach-ShipmentLater_example =
    Reach-ShipmentLater digest 21 db1 db2 fresh at_first
      (next here (recording 120 1 21 departure departs))

at_late : return_case 31 late_db ≡ some late
unfolding return_case find?
at_late = refl

Reach-ReturnLater_example :
    (d d' : ReturnCase) × (return_case 31 late_db ≡ some d)
    × (return_case 31 found_db ≡ some d')
    × ReturnLater late d
    × ReturnStep d d'
Reach-ReturnLater_example =
    Reach-ReturnLater digest 31 late_db late_db found_db late at_late here
      (patrolling uuid 210 (some 1) (21 ∷ []) (5 ∷ []) patrols)

record_event-Authorized_example : (s : Shipment) × Authorized 1 db1 s × Moved 21 departure db1 db2 s
record_event-Authorized_example = record_event-Authorized 120 1 21 departure db1 db2 departs
