-- ===== src/Logistics/TaskChanges.antt =====
-- What a change of a task and a patrol do when they succeed.
use e_commerec_operations.Accounts.{Directory, User, get_user, has_id, require_department}
use e_commerec_operations.Base.{
  List, Mem, Option, Option-cases, Result-cases, String, [], ap, arith, count, false, find?,
  find?-Mem, inl, inr, none, ok, some, sym, true, update_where, ℕ, ◌&&◌, ◌∷◌, ◌≡◌, ◌≤◌, ◌⊎◌,
}
use e_commerec_operations.Common.{UserDepartment}
use e_commerec_operations.Logistics.Patrol.{
  Counts, Evidence, Issue, issues, patrol, patrol_as, patrol_rows, report, report_all,
}
use e_commerec_operations.Logistics.Returns.{is_return_of}
use e_commerec_operations.Logistics.States.{TaskAction, is_resolved}
use e_commerec_operations.Logistics.Tables.{
  ExceptionTask, LogisticsDb, ReturnCase, Shipment, add_event, is_task, logistics_actor,
  scoped_shipment,
}
use e_commerec_operations.Logistics.Tasks.{
  ExceptionAction, assigned_task, find_assignee, may_handle, resolved_task, task_change,
  update_exception,
}

pub record Handled (now n : ℕ) (payload : ExceptionAction) (db db' : LogisticsDb)
    (t : ExceptionTask) : Type 0 where
  pub change : ExceptionTask → ExceptionTask
  pub found : find? (is_task n) db.tasks ≡ some t
  pub unresolved : is_resolved t.status ≡ false
  pub is_change :
      task_change now payload.action payload.assignee_id payload.resolution t db.directory
      ≡ ok change
  pub shipments : db'.shipments ≡ db.shipments
  pub returns : db'.returns ≡ db.returns
  pub tasks : db'.tasks ≡ update_where (is_task t.id) change db.tasks

pub update_exception-Handled :
    (now actor_id n : ℕ) (payload : ExceptionAction) (db db' : LogisticsDb)
    → update_exception now actor_id n payload db ≡ ok db'
    → (t : ExceptionTask) × Handled now n payload db db' t
unfolding update_exception add_event
update_exception-Handled now actor_id n payload db db' e =
    elim (Result-cases (logistics_actor actor_id db.directory)) [
      | inl (x, refused) ↦ absurd (ground arith)
      | inr (actor, is_actor) ↦ elim (Option-cases (find? (is_task n) db.tasks)) [
        | inl missing ↦ absurd (ground arith)
        | inr (t, found) ↦ elim (Result-cases (scoped_shipment actor_id t.shipment_id db)) [
          | inl (x, refused) ↦ absurd (ground arith)
          | inr ((s, o), row) ↦
              elim (Result-cases (
                task_change now payload.action payload.assignee_id payload.resolution t
                  db.directory)) [
                    | inl (x, refused) ↦ absurd (ground arith)
                    | inr (change, is_change) ↦ (
                      t,
                      record {
                        change = change;
                        found = found;
                        unresolved = ground arith;
                        is_change = is_change;
                        shipments = ground arith;
                        returns = ground arith;
                        tasks = ground arith;
                      },
                    )
                  ]
        ]
      ]
    ]

assignee-may_handle :
    (t : ExceptionTask) (dir : Directory) (user_id : ℕ) {u : User}
    → find_assignee t dir user_id ≡ some u
    → Mem u dir.users × (u.id ≡ user_id) × (may_handle t.store_id dir u ≡ true)
unfolding find_assignee
assignee-may_handle t dir user_id {u} found =
    let (row, test) =
      find?-Mem (λ v. has_id user_id v && may_handle t.store_id dir v) dir.users found in
    (row, ground arith, ground arith)

-- A task goes to an assignee that may handle it, or is resolved with a text that is not empty.
pub task_change-cases :
    (now : ℕ) (action : TaskAction) (assignee_id : Option ℕ) (resolution : Option String)
    (t : ExceptionTask) (dir : Directory) (change : ExceptionTask → ExceptionTask)
    → task_change now action assignee_id resolution t dir ≡ ok change
    → ((u : User) × (assignee_id ≡ some u.id)
        × Mem u dir.users
        × (may_handle t.store_id dir u ≡ true)
        × (change ≡ assigned_task u.id))
      ⊎ ((text_ : String) × (1 ≤ count text_) × (change ≡ resolved_task now text_))
unfolding task_change
task_change-cases now TaskAction.assign none resolution t dir change e = absurd (ground arith)
task_change-cases now TaskAction.assign (some user_id) resolution t dir change e =
    elim (Option-cases (find_assignee t dir user_id)) [
      | inl missing ↦ absurd (ground arith)
      | inr (u, found) ↦
          let (row, same, may) = assignee-may_handle t dir user_id found in
          inl (u, ap some (sym same), row, may, ground arith)
    ]
task_change-cases now TaskAction.resolve assignee_id none t dir change e = absurd (ground arith)
task_change-cases now TaskAction.resolve assignee_id (some text_) t dir change e =
    inr (text_, ground arith, ground arith)

-- A patrol that succeeds is the patrol of a user of the table, or of the worker.
abbrev pub patroller : Option ℕ → Directory → Option User
patroller none dir = none
patroller (some actor_id) dir = get_user actor_id dir

pub logistics_actor-user :
    (actor_id : ℕ) (dir : Directory) (u : User)
    → logistics_actor actor_id dir ≡ ok u
    → get_user actor_id dir ≡ some u
unfolding logistics_actor
logistics_actor-user actor_id dir u e = elim (Option-cases (get_user actor_id dir)) [
  | inl missing ↦ absurd (ground arith)
  | inr (v, found) ↦ elim (Result-cases (require_department (some v) UserDepartment.logistics)) [
    | inl (x, refused) ↦ absurd (ground arith)
    | inr (t, granted) ↦ ground arith
  ]
]

pub patrol-patrol_as :
    (digest : Evidence → ℕ) (uuid : ℕ → ℕ) (now : ℕ) (actor_id : Option ℕ)
    (shipment_ids ids : List ℕ) (db db' : LogisticsDb)
    → patrol digest uuid now actor_id shipment_ids ids db ≡ ok db'
    → db' ≡ patrol_as digest uuid now (patroller actor_id db.directory) shipment_ids ids db
unfolding patrol
patrol-patrol_as digest uuid now none shipment_ids ids db db' e = ground arith
patrol-patrol_as digest uuid now (some actor_id) shipment_ids ids db db' e =
    elim (Result-cases (logistics_actor actor_id db.directory)) [
      | inl (x, refused) ↦ absurd (ground arith)
      | inr (actor, is_actor) ↦
          let user = logistics_actor-user actor_id db.directory actor is_actor in
          rw user (ground arith)
    ]

module _ (digest : Evidence → ℕ) (uuid : ℕ → ℕ) (now : ℕ) (actor_id : Option ℕ)
    (P : LogisticsDb → Type 0)
    (keep : (s : Shipment) (i : Issue) (acc : Counts × LogisticsDb)
      → P acc.1
      → P (report digest uuid now actor_id s i acc).1) where
  report_all-keeps :
      (s : Shipment) (is : List Issue) (acc : Counts × LogisticsDb)
      → P acc.1
      → P (report_all digest uuid now actor_id s is acc).1
  unfolding report_all
  report_all-keeps s [] acc h = h
  report_all-keeps s (i ∷ is) acc h =
      report_all-keeps s is (report digest uuid now actor_id s i acc) (keep s i acc h)

  -- What each report keeps, the loop keeps.
  pub patrol_rows-keeps :
      (cases : List ReturnCase) (rows : List Shipment) (acc : Counts × LogisticsDb)
      → P acc.1
      → P (patrol_rows digest uuid now actor_id cases rows acc).1
  unfolding patrol_rows
  patrol_rows-keeps cases [] acc h = h
  patrol_rows-keeps cases (s ∷ rows) acc h =
      let is = issues s (find? (is_return_of s.id) cases) now in
      patrol_rows-keeps cases rows (report_all digest uuid now actor_id s is acc)
        (report_all-keeps s is acc h)
