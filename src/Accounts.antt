-- ===== src/Accounts.antt =====
-- backend/auth.py and the tables of users, stores and scopes of backend/models.py: who may act in
-- which department and on which store. Keys are numbers: the source only compares and orders them.
-- The JWT library is the parameter `decode` of `get_current_user`.
pub mod Access
pub mod Rows
use e_commerec_operations.Base.{
  Bool, List, Option, Result, err, exists_where, false, find?, if◌then◌else◌, none, not, ok, some,
  true, ℕ, ◌&&◌, ◌==◌, ◌>>◌, ◌||◌,
}
use e_commerec_operations.Common.{
  UserDepartment, UserRole, UserStatus, is_active, is_admin, same_department,
}

pub record User : Type 0 where
  pub id : ℕ
  pub role : UserRole
  pub status : UserStatus
  pub department : UserDepartment

pub record Store : Type 0 where
  pub id : ℕ
  pub enabled : Bool

pub record UserStoreScope : Type 0 where
  pub user_id : ℕ
  pub store_id : ℕ

-- The three tables.
pub record Directory : Type 0 where
  pub users : List User
  pub stores : List Store
  pub scopes : List UserStoreScope

-- `HTTPException`, by its status code.
pub data HttpException : Type 0 where
  http : ℕ → HttpException

abbrev pub has_id : ℕ → User → Bool
has_id user_id u = u.id == user_id

unfoldable pub get_user : ℕ → Directory → Option User
get_user user_id dir = find? (has_id user_id) dir.users

abbrev pub is_scope : ℕ → ℕ → UserStoreScope → Bool
is_scope user_id store_id row = row.user_id == user_id && row.store_id == store_id

-- `SELECT … FROM user_store_scopes WHERE user_id = … AND store_id = …` has a row
unfoldable pub in_scope : ℕ → ℕ → Directory → Bool
in_scope user_id store_id dir = exists_where (is_scope user_id store_id) dir.scopes

abbrev pub is_enabled_store : ℕ → Store → Bool
is_enabled_store store_id s = s.id == store_id && s.enabled

unfoldable pub enabled_store : ℕ → Directory → Option Store
enabled_store store_id dir = find? (is_enabled_store store_id) dir.stores

-- What `jwt.decode` yields for `payload["sub"]`.
pub data Subject : Type 0 where
  text : ℕ → Subject
  not_text : Subject

-- `get_current_user`: the token names the user, the table says whether he is active.
session_user : Option User → Result HttpException User
session_user none = err (http 401)
session_user (some u) = if is_active u.status then ok u else err (http 401)

subject_user : Directory → Option Subject → Result HttpException User
unfolding session_user
subject_user dir none = err (http 401)
subject_user dir (some not_text) = err (http 401)
subject_user dir (some (text user_id)) = session_user (get_user user_id dir)

module _ {Token : Type 0} (decode : Token → Option Subject) where
  unfoldable pub get_current_user : Option Token → Directory → Result HttpException User
  unfolding subject_user
  get_current_user none dir = err (http 401)
  get_current_user (some token) dir = subject_user dir (decode token)

-- `store_visibility_predicate`, at a row with this store
unfoldable pub store_visible : User → ℕ → Directory → Bool
store_visible actor store_id dir = is_admin actor.role || in_scope actor.id store_id dir

unfoldable pub has_department_access : Option User → UserDepartment → Bool
has_department_access none department = false
has_department_access (some u) department =
    is_active u.status && (is_admin u.role || same_department u.department department)

unfoldable pub require_department : Option User → UserDepartment → Result HttpException (Unit {0})
require_department user department =
    if not (has_department_access user department) then err (http 403) else ok tt

unfoldable pub store_access : User → Directory → Option Store → Result HttpException Store
store_access user dir none = err (http 404)
store_access user dir (some store) =
    if is_admin user.role
    then ok store
    else if in_scope user.id store.id dir
    then ok store
    else err (http 403)

unfoldable pub require_store_access : ℕ → User → Directory → Result HttpException Store
unfolding store_access
require_store_access store_id user dir = store_access user dir (enabled_store store_id dir)

-- `require_operations_user` and `require_logistics_user`, on the user of the session
unfoldable pub require_operations_user : User → Result HttpException User
unfolding require_department
require_operations_user user = require_department (some user) UserDepartment.operations >> ok user

unfoldable pub require_logistics_user : User → Result HttpException User
unfolding require_department
require_logistics_user user = require_department (some user) UserDepartment.logistics >> ok user

abbrev pub same_role : UserRole → UserRole → Bool
same_role UserRole.operator UserRole.operator = true
same_role UserRole.supervisor UserRole.supervisor = true
same_role UserRole.admin UserRole.admin = true
same_role _ _ = false

unfoldable pub require_roles : List UserRole → User → Result HttpException User
require_roles roles user =
    if not (exists_where (same_role user.role) roles) then err (http 403) else ok user
