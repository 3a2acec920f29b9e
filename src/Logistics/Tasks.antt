-- ===== src/Logistics/Tasks.antt =====
-- `update_exception` of backend/logistics.py: a task is assigned, and resolved once.
use e_commerec_operations.Accounts.{Directory, HttpException, User, has_id, http, in_scope}
use e_commerec_operations.Base.{
  Bool, Option, Result, String, count, err, find?, if◌then◌else◌, is_none, none, not, ok, some,
  update_where, ℕ, ◌&&◌, ◌==◌, ◌>>=◌, ◌||◌,
}
use e_commerec_operations.Common.{UserDepartment, is_active, is_admin, same_department}
use e_commerec_operations.Logistics.States.{EventType, ExceptionStatus, TaskAction, is_resolved}
use e_commerec_operations.Logistics.Tables.{
  ExceptionTask, LogisticsDb, Shipment, accessible, add_event, is_shipment, is_task,
  logistics_actor, scoped_shipment,
}

pub record ExceptionAction : Type 0 where
  pub action : TaskAction
  pub assignee_id : Option ℕ
  pub resolution : Option String

unfoldable pub task_row :
    User → LogisticsDb → Option ExceptionTask → Result HttpException ExceptionTask
task_row actor db none = err (http 404)
task_row actor db (some t) =
    if is_none (find? (is_shipment t.shipment_id) db.shipments)
    then err (http 404)
    else if accessible actor db.directory t.store_id
    then ok t
    else err (http 404)

-- An assignee is active, an administrator or of logistics, and an administrator or in the store's scope.
abbrev pub may_handle : ℕ → Directory → User → Bool
may_handle store_id dir u =
    is_active u.status
    && (is_admin u.role || same_department u.department UserDepartment.logistics)
    && (is_admin u.role || in_scope u.id store_id dir)

abbrev pub assigned_task : ℕ → ExceptionTask → ExceptionTask
assigned_task user_id t = record t {
  assignee_id = some user_id;
  status = ExceptionStatus.in_progress;
}

abbrev pub resolved_task : ℕ → String → ExceptionTask → ExceptionTask
resolved_task now resolution t = record t {
  status = ExceptionStatus.resolved;
  resolved_at = some now;
  resolution = resolution;
}

unfoldable pub find_assignee : ExceptionTask → Directory → ℕ → Option User
find_assignee t dir user_id = find? (λ u. has_id user_id u && may_handle t.store_id dir u) dir.users

-- What the action makes of the task, or why it is refused.
unfoldable pub task_change :
    ℕ
    → TaskAction
    → Option ℕ
    → Option String
    → ExceptionTask
    → Directory
    → Result HttpException (ExceptionTask → ExceptionTask)
unfolding find_assignee
task_change now TaskAction.assign none resolution t dir = err (http 422)
task_change now TaskAction.assign (some user_id) resolution t dir =
    if not (is_none resolution) then err (http 422) else elim (find_assignee t dir user_id) [
      | none ↦ err (http 422)
      | some u ↦ ok (assigned_task u.id)
    ]
task_change now TaskAction.resolve assignee_id none t dir = err (http 422)
task_change now TaskAction.resolve assignee_id (some resolution) t dir =
    if count resolution == 0 || not (is_none assignee_id)
    then err (http 422)
    else ok (resolved_task now resolution)

unfoldable pub change_task :
    ℕ
    → ℕ
    → ExceptionAction
    → LogisticsDb
    → ExceptionTask
    → Shipment
    → Result HttpException LogisticsDb
unfolding task_change
change_task now actor_id payload db t s =
    let changed =
      task_change now payload.action payload.assignee_id payload.resolution t db.directory in
    let stored = changed >>= λ change. ok (
      add_event s.id t.return_id (some actor_id) (EventType.exception_changed payload.action) now ""
        (record db { tasks = update_where (is_task t.id) change db.tasks })) in
    if is_resolved t.status then err (http 409) else stored

unfoldable pub update_exception :
    ℕ → ℕ → ℕ → ExceptionAction → LogisticsDb → Result HttpException LogisticsDb
unfolding task_row change_task
update_exception now actor_id task_id payload db = do
  actor ← logistics_actor actor_id db.directory
  t ← task_row actor db (find? (is_task task_id) db.tasks)
  row ← scoped_shipment actor_id t.shipment_id db
  change_task now actor_id payload db t row.0
