-- ===== src/Admin.antt =====
-- backend/admin_management.py: the administrator's changes of users, scopes and stores. A function is
-- one transaction; an exception rolls it back. Keys are numbers, so the length test on the ids of a
-- scope replacement, which every key of the tables passes, is left out; so is the mapping of the
-- database's own errors to `ADMIN_CONFLICT`.
pub mod Guards
pub mod Scopes
pub mod Tests
use mathlib.Core.Option.{get_or}
use e_commerec_operations.Accounts.{Directory, Store, User, UserStoreScope, has_id}
use e_commerec_operations.Audit.{AuditEvent}
use e_commerec_operations.Base.{
  Bool, List, Option, Result, String, [], err, exists_where, false, find?, holds, if◌then◌else◌,
  length, ltb, map, none, not, ok, order_by, select_where, some, true, update_where, ℕ, ◌&&◌, ◌++◌,
  ◌==◌, ◌>>=◌, ◌||◌, ◌∷◌,
}
use e_commerec_operations.Common.{
  AuditEventType, AuditOutcome, UserDepartment, UserRole, UserStatus, is_active, is_admin,
}

pub data AdminDomainError : Type 0 where
  guard_violation user_not_found scope_invalid store_not_found store_disabled : AdminDomainError

pub record AdminDb : Type 0 where
  pub directory : Directory
  pub audit : List AuditEvent

-- `role is ADMIN and status is ACTIVE`
abbrev pub is_active_admin : User → Bool
is_active_admin u = is_admin u.role && is_active u.status

-- the rows that `lock_admin_user_set` locks
abbrev pub is_locked : ℕ → ℕ → User → Bool
is_locked actor_id target_id u = u.id == actor_id || u.id == target_id || is_active_admin u

pub locked_users :
    Option User → Option User → List User → Result AdminDomainError (User × User × List User)
locked_users none target admins = err guard_violation
locked_users (some actor) none admins =
    if not (is_active_admin actor) then err guard_violation else err user_not_found
locked_users (some actor) (some target) admins =
    if not (is_active_admin actor) then err guard_violation else ok (actor, target, admins)

pub lock_admin_user_set : ℕ → ℕ → Directory → Result AdminDomainError (User × User × List User)
unfolding locked_users
lock_admin_user_set actor_id target_id dir =
    let rows = select_where (is_locked actor_id target_id) dir.users in
    locked_users (find? (has_id actor_id) rows) (find? (has_id target_id) rows)
      (select_where is_active_admin rows)

-- `AdminUserPatch`: a field that is unset is `none`
pub record AdminUserPatch : Type 0 where
  pub role : Option UserRole
  pub status : Option UserStatus
  pub department : Option UserDepartment

abbrev pub apply_patch : AdminUserPatch → User → User
apply_patch patch u = record u {
  role = get_or patch.role u.role;
  status = get_or patch.status u.status;
  department = get_or patch.department u.department;
}

abbrev pub is_disabled : UserStatus → Bool
is_disabled UserStatus.disabled = true
is_disabled _ = false

-- `patch.role not in (None, ADMIN) or patch.status == DISABLED`
abbrev pub demotes : AdminUserPatch → Bool
demotes patch = holds (λ r. not (is_admin r)) patch.role || holds is_disabled patch.status

abbrev admin_event : User → AuditEventType → String → ℕ → AuditEvent
admin_event actor event_type resource_type resource_id = record {
  event_type = event_type;
  outcome = AuditOutcome.success;
  store_id = none;
  actor_id = some actor.id;
  actor_role = some actor.role;
  resource_type = resource_type;
  resource_id = resource_id;
  error_code = none;
}

patch_user :
    AdminUserPatch → User × User × List User → AdminDb → Result AdminDomainError (User × AdminDb)
patch_user patch (actor, target, admins) db =
    let changed = update_where (has_id target.id) (apply_patch patch) in
    let event = admin_event actor AuditEventType.admin_user_updated "user" target.id in
    let dir = db.directory in
    if actor.id == target.id && demotes patch
    then err guard_violation
    else if not (exists_where is_active_admin admins)
    then err guard_violation
    else if not (exists_where is_active_admin (changed admins))
    then err guard_violation
    else ok (
      apply_patch patch target,
      record db {
        directory = record dir { users = changed dir.users };
        audit = db.audit ++ event ∷ [];
      },
    )

pub update_admin_user : ℕ → ℕ → AdminUserPatch → AdminDb → Result AdminDomainError (User × AdminDb)
unfolding patch_user
update_admin_user actor_id user_id patch db = do
  locked ← lock_admin_user_set actor_id user_id db.directory
  patch_user patch locked db

abbrev pub is_id : ℕ → ℕ → Bool
is_id n m = m == n

-- `len(ids) == len(set(ids))`
pub distinct : List ℕ → Bool
distinct [] = true
distinct (n ∷ ns) = not (exists_where (is_id n) ns) && distinct ns

abbrev pub is_listed : List ℕ → Store → Bool
is_listed store_ids s = exists_where (is_id s.id) store_ids

abbrev pub new_scopes : ℕ → List ℕ → List UserStoreScope
new_scopes user_id store_ids =
    map (λ s. record { user_id = user_id; store_id = s }) (order_by (λ s. (s, s)) store_ids)

abbrev pub other_user : ℕ → UserStoreScope → Bool
other_user user_id row = not (row.user_id == user_id)

replace_scopes :
    ℕ → List ℕ → User × User × List User → AdminDb → Result AdminDomainError (User × AdminDb)
replace_scopes user_id store_ids (actor, target, admins) db =
    let dir = db.directory in
    let stores = select_where (is_listed store_ids) dir.stores in
    let event = admin_event actor AuditEventType.admin_user_scopes_replaced "user" user_id in
    if not (length stores == length store_ids)
    then err store_not_found
    else if exists_where (λ s. not s.enabled) stores
    then err store_disabled
    else ok (
      target,
      record db {
        directory = record dir {
          scopes = select_where (other_user user_id) dir.scopes ++ new_scopes user_id store_ids;
        };
        audit = db.audit ++ event ∷ [];
      },
    )

pub replace_user_store_scopes : ℕ → ℕ → List ℕ → AdminDb → Result AdminDomainError (User × AdminDb)
unfolding replace_scopes
replace_user_store_scopes actor_id user_id store_ids db =
    let replaced = lock_admin_user_set actor_id user_id db.directory >>= λ locked.
    replace_scopes user_id store_ids locked db in
    if ltb 100 (length store_ids) || not (distinct store_ids) then err scope_invalid else replaced

-- `AdminStorePatch` has the one field `enabled`.
patch_store : Bool → User → Option Store → AdminDb → Result AdminDomainError (Store × AdminDb)
patch_store enabled actor none db = err store_not_found
patch_store enabled actor (some store) db =
    let dir = db.directory in
    let change = λ (s : Store). record s { enabled = enabled } in
    let event = admin_event actor AuditEventType.admin_store_updated "store" store.id in
    ok (
      change store,
      record db {
        directory = record dir { stores = update_where (λ s. s.id == store.id) change dir.stores };
        audit = db.audit ++ record event { store_id = some store.id } ∷ [];
      },
    )

pub update_admin_store : ℕ → ℕ → Bool → AdminDb → Result AdminDomainError (Store × AdminDb)
unfolding patch_store
update_admin_store actor_id store_id enabled db = do
  locked ← lock_admin_user_set actor_id actor_id db.directory
  patch_store enabled locked.0 (find? (λ s. s.id == store_id) db.directory.stores) db
