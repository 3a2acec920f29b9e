-- ===== src/Logistics/TaskRuns.antt =====
-- The tasks keep their constraint, and so the whole database does.
use mathlib.Core.Option
use e_commerec_operations.Accounts.{Directory, User}
use e_commerec_operations.Base.{
  All-update_where, Bool-cases, List, Option, arith, exists_where, inl, inr, length, ok, order_by,
  refl, select_where, ℕ, ◌≡◌,
}
use e_commerec_operations.Logistics.Changes.{
  create_return-Requested, create_shipment-Placed, record_event-Moved,
  transition_return-Transitioned,
}
use e_commerec_operations.Logistics.Patrol.{
  Counts, Evidence, Issue, evidence, has_key, is_patrolled, patrol_as, patrol_rows, record_run,
  report,
}
use e_commerec_operations.Logistics.Runs.{
  IsConsistent, Moved-IsConsistent, Placed-IsConsistent, Requested-IsConsistent, shipment_id,
  Transitioned-IsConsistent,
}
use e_commerec_operations.Logistics.Sound.{TaskSound, task_checks}
use e_commerec_operations.Logistics.Steps.{
  Reach, Reach_induction, Step, elsewhere, handling, patrolling, placing, recording, requesting,
  start_db, transitioning,
}
use e_commerec_operations.Logistics.Tables.{
  ExceptionTask, LogisticsDb, Order, Shipment, add_event, is_task,
}
use e_commerec_operations.Logistics.TaskChanges.{
  Handled, patrol-patrol_as, patrol_rows-keeps, patroller, task_change-cases,
  update_exception-Handled,
}
use e_commerec_operations.Logistics.Tasks.{ExceptionAction, task_change}

change-TaskSound :
    (now : ℕ) (payload : ExceptionAction) (t : ExceptionTask) (dir : Directory)
    (change : ExceptionTask → ExceptionTask)
    → task_change now payload.action payload.assignee_id payload.resolution t dir ≡ ok change
    → (x : ExceptionTask) → TaskSound (change x)
unfolding task_checks
change-TaskSound now payload t dir change e x =
    elim (task_change-cases now payload.action payload.assignee_id payload.resolution t dir change
      e) [
        | inl (u, asked, row, may, is) ↦ rw is (ground arith)
        | inr (resolution, given, is) ↦ rw is (ground arith)
      ]

Handled-IsConsistent :
    (now n : ℕ) (payload : ExceptionAction) (db db' : LogisticsDb) (t : ExceptionTask)
    → Handled now n payload db db' t
    → IsConsistent db
    → IsConsistent db'
Handled-IsConsistent now n payload db db' t m h = record {
  shipments = rw m.shipments h.shipments;
  one_shipment = rw m.shipments h.one_shipment;
  returns = rw m.returns h.returns;
  one_return = rw m.returns h.one_return;
  tasks = rw m.tasks (
      All-update_where TaskSound (is_task t.id) m.change db.tasks
        (λ x px is. change-TaskSound now payload t db.directory m.change m.is_change x) h.tasks);
}

module _ (digest : Evidence → ℕ) where
  report-IsConsistent :
      (uuid : ℕ → ℕ) (now : ℕ) (actor_id : Option ℕ) (s : Shipment) (i : Issue)
      (acc : Counts × LogisticsDb)
      → IsConsistent acc.1
      → IsConsistent (report digest uuid now actor_id s i acc).1
  unfolding report add_event task_checks
  report-IsConsistent uuid now actor_id s i (n, db) h =
      elim (Bool-cases (exists_where (has_key (digest (evidence s i))) db.tasks)) [
        | inl known ↦ rw known h
        | inr new ↦ rw new (record {
          shipments = h.shipments;
          one_shipment = h.one_shipment;
          returns = h.returns;
          one_return = h.one_return;
          tasks = (refl, h.tasks);
        })
      ]

  recorded-IsConsistent :
      (now : ℕ) (actor_id : Option ℕ) (ids : List ℕ) (scanned : ℕ) (acc : Counts × LogisticsDb)
      → IsConsistent acc.1
      → IsConsistent (record_run now actor_id ids scanned acc)
  unfolding record_run
  recorded-IsConsistent now actor_id ids scanned (n, db) h = record {
    shipments = h.shipments;
    one_shipment = h.one_shipment;
    returns = h.returns;
    one_return = h.one_return;
    tasks = h.tasks;
  }

  patrolled-IsConsistent :
      (uuid : ℕ → ℕ) (now : ℕ) (actor : Option User) (shipment_ids ids : List ℕ) (db : LogisticsDb)
      → IsConsistent db
      → IsConsistent (patrol_as digest uuid now actor shipment_ids ids db)
  unfolding patrol_as
  patrolled-IsConsistent uuid now actor shipment_ids ids db h =
      let rows =
        order_by (λ (s : Shipment). (s.id, s.id))
          (select_where (is_patrolled actor db.directory shipment_ids ids) db.shipments) in
      let actor_id = Option.map (λ (u : User). u.id) actor in
      recorded-IsConsistent now actor_id ids (length rows)
        (patrol_rows digest uuid now actor_id db.returns rows
          (record { created = 0; existing = 0 }, db))
        (patrol_rows-keeps digest uuid now actor_id IsConsistent
          (λ s i acc. report-IsConsistent uuid now actor_id s i acc) db.returns rows
          (record { created = 0; existing = 0 }, db) h)

  Step-IsConsistent :
      (db db' : LogisticsDb) → Step digest db db' → IsConsistent db → IsConsistent db'
  Step-IsConsistent db db' (placing now actor_id n payload fresh e) h =
      let (o, m) = create_shipment-Placed now actor_id n payload db db' e in
      Placed-IsConsistent n payload db db' o fresh m h
  Step-IsConsistent db db' (recording now actor_id n payload e) h =
      let (s, m) = record_event-Moved now actor_id n payload db db' e in
      Moved-IsConsistent n payload db db' s m h
  Step-IsConsistent db db' (requesting now actor_id n shipment_id due fresh e) h =
      let (s, m) = create_return-Requested now actor_id n shipment_id due db db' e in
      Requested-IsConsistent now n due db db' s fresh m h
  Step-IsConsistent db db' (transitioning now actor_id n payload e) h =
      let (c, m) = transition_return-Transitioned now actor_id n payload db db' e in
      Transitioned-IsConsistent now n payload db db' c m h
  Step-IsConsistent db db' (handling now actor_id n payload e) h =
      let (t, m) = update_exception-Handled now actor_id n payload db db' e in
      Handled-IsConsistent now n payload db db' t m h
  Step-IsConsistent db db' (patrolling uuid now actor_id shipment_ids ids e) h =
      let actor = patroller actor_id db.directory in
      rw (patrol-patrol_as digest uuid now actor_id shipment_ids ids db db' e)
        (patrolled-IsConsistent uuid now actor shipment_ids ids db h)
  Step-IsConsistent db db' (elsewhere dir orders) h = record {
    shipments = h.shipments;
    one_shipment = h.one_shipment;
    returns = h.returns;
    one_return = h.one_return;
    tasks = h.tasks;
  }

  -- In every run of the handlers from empty tables, in any order, all rows satisfy the CHECK
  -- constraints of their tables, the keys of shipments and returns are distinct, an order has at
  -- most one shipment and a shipment at most one return.
  pub Reach-IsConsistent :
      (dir : Directory) (orders : List Order) (db : LogisticsDb)
      → Reach digest (start_db dir orders) db
      → IsConsistent db
  Reach-IsConsistent dir orders db =
      Reach_induction digest IsConsistent (start_db dir orders)
        (record {
          shipments = (tt, tt);
          one_shipment = tt;
          returns = (tt, tt);
          one_return = tt;
          tasks = tt;
        })
        Step-IsConsistent
