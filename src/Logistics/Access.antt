-- ===== src/Logistics/Access.antt =====
-- Who may change what in the logistics part.
-- The actor is an active user of the table who belongs to logistics or is an administrator, and the
-- shipment is one of an enabled store that he sees.
use mathlib.Core.Option.{some-injective}
use e_commerec_operations.Accounts.{
  Directory, Store, User, enabled_store, get_user, has_department_access, is_enabled_store,
  require_department, store_visible,
}
use e_commerec_operations.Accounts.Rows.{
  InScope, in_scope-InScope, is_active-active, is_admin-admin, is_logistics,
}
use e_commerec_operations.Base.{
  ==_iff, Bool-cases, Mem, Option-cases, Result-cases, String, ap, arith, count, false≢true, find?,
  find?-Mem, find?-update_where, if◌then◌else◌, inl, inr, ok, refl, some, sym, true, update_where,
  ℕ, ◌∙◌, ◌≡◌, ◌≢◌, ◌≤◌, ◌⊎◌,
}
use e_commerec_operations.Common.{UserDepartment, UserRole, UserStatus, is_admin}
use e_commerec_operations.Logistics.Changes.{Moved, record_event-Moved, scoped-found}
use e_commerec_operations.Logistics.Shipments.{EventCreate, record_event}
use e_commerec_operations.Logistics.States.{ExceptionStatus, is_resolved}
use e_commerec_operations.Logistics.Tables.{
  ExceptionTask, LogisticsDb, Order, Shipment, accessible, is_order, is_shipment, is_task,
  logistics_actor, scoped_shipment, shipment_row,
}
use e_commerec_operations.Logistics.TaskChanges.{
  logistics_actor-user, task_change-cases, update_exception-Handled,
}
use e_commerec_operations.Logistics.Tasks.{
  ExceptionAction, assigned_task, may_handle, resolved_task, update_exception,
}

-- The store is in the table and enabled, and the user is an administrator or has it in his scope.
pub record Reaches (dir : Directory) (u : User) (i : ℕ) : Type 0 where
  pub store : Store
  pub store_row : Mem store dir.stores
  pub store_id : store.id ≡ i
  pub enabled : store.enabled ≡ true
  pub scoped : (u.role ≡ UserRole.admin) ⊎ InScope dir u i

accessible-Reaches :
    (dir : Directory) (u : User) (i : ℕ) → accessible u dir i ≡ true → Reaches dir u i
unfolding accessible store_visible enabled_store
accessible-Reaches dir u i e = elim (Option-cases (enabled_store i dir)) [
  | inl closed ↦ absurd (ground arith)
  | inr (s, found) ↦
      let (row, at) = find?-Mem (is_enabled_store i) dir.stores found in
      record {
        store = s;
        store_row = row;
        store_id = (==_iff s.id i).0 (ground arith);
        enabled = ground arith;
        scoped = elim (Bool-cases (is_admin u.role)) [
          | inl t ↦ inl (is_admin-admin u.role t)
          | inr f ↦ inr (in_scope-InScope dir u i (ground arith))
        ];
      }
]

logistics-member :
    (u : User)
    → has_department_access (some u) UserDepartment.logistics ≡ true
    → (u.status ≡ UserStatus.active)
      × ((u.role ≡ UserRole.admin) ⊎ (u.department ≡ UserDepartment.logistics))
unfolding has_department_access
logistics-member u e =
    let a = is_active-active u.status (ground arith) in
    elim (Bool-cases (is_admin u.role)) [
      | inl t ↦ (a, inl (is_admin-admin u.role t))
      | inr f ↦ (a, inr (is_logistics u.department (ground arith)))
    ]

pub record Authorized (actor_id : ℕ) (db : LogisticsDb) (s : Shipment) : Type 0 where
  pub actor : User
  pub is_actor : get_user actor_id db.directory ≡ some actor
  pub department : has_department_access (some actor) UserDepartment.logistics ≡ true
  pub active : actor.status ≡ UserStatus.active
  pub member : (actor.role ≡ UserRole.admin) ⊎ (actor.department ≡ UserDepartment.logistics)
  pub access : accessible actor db.directory s.store_id ≡ true
  pub reaches : Reaches db.directory actor s.store_id

logistics_actor-access :
    (actor_id : ℕ) (dir : Directory) (u : User)
    → logistics_actor actor_id dir ≡ ok u
    → has_department_access (some u) UserDepartment.logistics ≡ true
unfolding logistics_actor require_department
logistics_actor-access actor_id dir u e = elim (Option-cases (get_user actor_id dir)) [
  | inl missing ↦ absurd (ground arith)
  | inr (v, found) ↦ elim (Bool-cases (has_department_access (some v) UserDepartment.logistics)) [
    | inl granted ↦ let is : v ≡ u = ground arith in rw (sym is) granted
    | inr refused ↦ absurd (ground arith)
  ]
]

scoped-Authorized :
    (actor_id n : ℕ) (db : LogisticsDb) (s : Shipment) (o : Order)
    → scoped_shipment actor_id n db ≡ ok (s, o)
    → Authorized actor_id db s
unfolding scoped_shipment shipment_row
scoped-Authorized actor_id n db s o e =
    elim (Result-cases (logistics_actor actor_id db.directory)) [
      | inl (x, refused) ↦ absurd (ground arith)
      | inr (u, granted) ↦ elim (Option-cases (find? (is_shipment n) db.shipments)) [
        | inl missing ↦ absurd (ground arith)
        | inr (t, found) ↦ elim (Option-cases (find? (is_order t.order_id) db.orders)) [
          | inl missing ↦ absurd (ground arith)
          | inr (p, at_order) ↦
              let department = logistics_actor-access actor_id db.directory u granted in
              let access : accessible u db.directory s.store_id ≡ true = ground arith in
              let (active, member) = logistics-member u department in
              record {
                actor = u;
                is_actor = logistics_actor-user actor_id db.directory u granted;
                department = department;
                active = active;
                member = member;
                access = access;
                reaches = accessible-Reaches db.directory u s.store_id access;
              }
        ]
      ]
    ]

-- An event is recorded only for the shipment that was asked for, by a user who is active then, of the
-- logistics department or an administrator, and has the shipment's enabled store in his scope or is an
-- administrator, in a state that allows the action and not before the last event.
pub record_event-Authorized :
    (now actor_id n : ℕ) (payload : EventCreate) (db db' : LogisticsDb)
    → record_event now actor_id n payload db ≡ ok db'
    → (s : Shipment) × Authorized actor_id db s × Moved n payload db db' s
unfolding record_event
record_event-Authorized now actor_id n payload db db' e =
    let (s, m) = record_event-Moved now actor_id n payload db db' e in
    elim (Result-cases (scoped_shipment actor_id n db)) [
      | inl (x, refused) ↦ absurd (ground arith)
      | inr ((t, o), row) ↦
          let found = scoped-found actor_id n db t o row in
          let is : t ≡ s = some-injective _ _ (sym found ∙ m.found) in
          (s, rw (sym is) (scoped-Authorized actor_id n db t o row), m)
    ]

-- A user of the table who may be given a task of the store.
pub record CanHandle (dir : Directory) (store_id : ℕ) (u : User) : Type 0 where
  pub row : Mem u dir.users
  pub active : u.status ≡ UserStatus.active
  pub member : (u.role ≡ UserRole.admin) ⊎ (u.department ≡ UserDepartment.logistics)
  pub scoped : (u.role ≡ UserRole.admin) ⊎ InScope dir u store_id

may_handle-CanHandle :
    (dir : Directory) (i : ℕ) (u : User)
    → Mem u dir.users
    → may_handle i dir u ≡ true
    → CanHandle dir i u
may_handle-CanHandle dir i u row e =
    let active = is_active-active u.status (ground arith) in
    elim (Bool-cases (is_admin u.role)) [
      | inl t ↦
          let admin = is_admin-admin u.role t in
          record { row = row; active = active; member = inl admin; scoped = inl admin }
      | inr f ↦ record {
        row = row;
        active = active;
        member = inr (is_logistics u.department (ground arith));
        scoped = inr (in_scope-InScope dir u i (ground arith));
      }
    ]

changed-task :
    (n : ℕ) (t : ExceptionTask) (f : ExceptionTask → ExceptionTask)
    → ((x : ExceptionTask) → (f x).id ≡ x.id)
    → (db db' : LogisticsDb) → find? (is_task n) db.tasks ≡ some t
    → db'.tasks ≡ update_where (is_task t.id) f db.tasks
    → find? (is_task n) db'.tasks ≡ some (f t)
changed-task n t f same db db' found is =
    let itself : is_task t.id t ≡ true = (==_iff t.id t.id).1 refl in
    let row : find? (is_task n) (update_where (is_task t.id) f db.tasks)
        ≡ some (if is_task t.id t then f t else t) =
      find?-update_where (λ (x : ExceptionTask). x.id) (is_task t.id) f same n db.tasks found in
    rw is (rw itself at row)

-- What an update makes of the task.
pub record Given (now : ℕ) (payload : ExceptionAction) (dir : Directory) (t t' : ExceptionTask)
    : Type 0 where
  pub user : User
  pub asked : payload.assignee_id ≡ some user.id
  pub can : CanHandle dir t.store_id user
  pub assignee : t'.assignee_id ≡ some user.id
  pub status : t'.status ≡ ExceptionStatus.in_progress

pub record Resolved (now : ℕ) (t t' : ExceptionTask) : Type 0 where
  pub text : String
  pub said : 1 ≤ count text
  pub resolution : t'.resolution ≡ text
  pub status : t'.status ≡ ExceptionStatus.resolved
  pub resolved_at : t'.resolved_at ≡ some now

-- A task is changed only while it is unresolved: it is given to the user of the table that was asked for,
-- who is active, of the logistics department or an administrator, and has the store in his scope or is an
-- administrator; or it is resolved with a text that is not empty.
pub update_exception-outcome :
    (now actor_id n : ℕ) (payload : ExceptionAction) (db db' : LogisticsDb)
    → update_exception now actor_id n payload db ≡ ok db'
    → (t t' : ExceptionTask) × (find? (is_task n) db.tasks ≡ some t)
      × (t.status ≢ ExceptionStatus.resolved)
      × (find? (is_task n) db'.tasks ≡ some t')
      × (Given now payload db.directory t t' ⊎ Resolved now t t')
update_exception-outcome now actor_id n payload db db' e =
    let (t, m) = update_exception-Handled now actor_id n payload db db' e in
    let unresolved : t.status ≢ ExceptionStatus.resolved =
      λ k. false≢true (sym m.unresolved ∙ ap is_resolved k) in
    let cases =
      task_change-cases now payload.action payload.assignee_id payload.resolution t db.directory
        m.change m.is_change in
    elim cases [
      | inl (u, asked, row, may, is) ↦ (
        t,
        assigned_task u.id t,
        m.found,
        unresolved,
        changed-task n t (assigned_task u.id) (λ x. refl) db db' m.found (m.tasks ∙ rw is),
        inl (record {
          user = u;
          asked = asked;
          can = may_handle-CanHandle db.directory t.store_id u row may;
          assignee = refl;
          status = refl;
        }),
      )
      | inr (text_, given, is) ↦ (
        t,
        resolved_task now text_ t,
        m.found,
        unresolved,
        changed-task n t (resolved_task now text_) (λ x. refl) db db' m.found (m.tasks ∙ rw is),
        inr (record {
          text = text_;
          said = given;
          resolution = refl;
          status = refl;
          resolved_at = refl;
        }),
      )
    ]
