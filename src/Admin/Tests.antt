-- ===== src/Admin/Tests.antt =====
-- An administrator disables a supervisor, gives her other stores, and disables a store.
use e_commerec_operations.Accounts.{
  Store, Subject, User, enabled_store, get_current_user, http, in_scope, require_store_access,
  store_visible, text,
}
use e_commerec_operations.Accounts.Access.{require_store_access_iff}
use e_commerec_operations.Admin.{
  AdminDb, AdminDomainError, AdminUserPatch, demotes, distinct, guard_violation, is_active_admin,
  is_id, lock_admin_user_set, replace_user_store_scopes, update_admin_store, update_admin_user,
}
use e_commerec_operations.Admin.Guards.{
  disabled_user_has_no_session, update_admin_user-guard, update_admin_user-keeps_admin,
}
use e_commerec_operations.Admin.Scopes.{disabled_store_is_refused, replace-in_scope}
use e_commerec_operations.Base.{
  Option, Result, [], err, exists_where, false, find?, if◌then◌else◌, none, ok, refl, select_where,
  some, true, update_where, ℕ, ◌==◌, ◌↔◌, ◌∷◌, ◌≡◌, ◌⊎◌,
}
use e_commerec_operations.Common.{UserDepartment, UserRole, UserStatus}

abbrev boss : User
boss = record {
  id = 1;
  role = UserRole.admin;
  status = UserStatus.active;
  department = UserDepartment.operations;
}

abbrev clerk : User
clerk = record {
  id = 2;
  role = UserRole.supervisor;
  status = UserStatus.active;
  department = UserDepartment.logistics;
}

abbrev start : AdminDb
start = record {
  directory = record {
    users = boss ∷ clerk ∷ [];
    stores = record { id = 5; enabled = true } ∷ record { id = 6; enabled = true } ∷ [];
    scopes = record { user_id = 2; store_id = 5 } ∷ [];
  };
  audit = [];
}

abbrev disable : AdminUserPatch
disable = record { role = none; status = some UserStatus.disabled; department = none }

abbrev ok_of {ℓ} : {A : Type ℓ} → A → Result AdminDomainError A → A
ok_of a (ok x) = x
ok_of a (err e) = a

abbrev after_disable : User × AdminDb
after_disable = ok_of (clerk, start) (update_admin_user 1 2 disable start)

disables : update_admin_user 1 2 disable start ≡ ok after_disable
unfolding update_admin_user lock_admin_user_set find? select_where exists_where update_where
disables = refl

update_admin_user-keeps_admin_example :
    exists_where is_active_admin after_disable.1.directory.users ≡ true
update_admin_user-keeps_admin_example =
    update_admin_user-keeps_admin 1 2 disable start after_disable.1 after_disable.0 disables

refuses : update_admin_user 1 1 disable start ≡ err guard_violation
unfolding update_admin_user lock_admin_user_set find? select_where
refuses = refl

update_admin_user-guard_example :
    (lock_admin_user_set 1 1 start.directory ≡ err guard_violation)
    ⊎ ((boss.id ≡ boss.id) × (demotes disable ≡ true))
update_admin_user-guard_example = update_admin_user-guard 1 1 disable start refuses

-- a token that names its user directly
abbrev plain : ℕ → Option Subject
plain n = some (text n)

disabled_user_has_no_session_example :
    get_current_user plain (some 2) after_disable.1.directory ≡ err (http 401)
disabled_user_has_no_session_example =
    disabled_user_has_no_session plain 2 1 2 disable start after_disable.1 after_disable.0 disables
      refl refl

abbrev after_replace : User × AdminDb
after_replace = ok_of (clerk, start) (replace_user_store_scopes 1 2 (6 ∷ []) start)

replaces : replace_user_store_scopes 1 2 (6 ∷ []) start ≡ ok after_replace
unfolding replace_user_store_scopes lock_admin_user_set distinct exists_where find? select_where
replaces = refl

replace-in_scope_example :
    in_scope 2 5 after_replace.1.directory
    ≡ (if 2 == 2 then exists_where (is_id 5) (6 ∷ []) else in_scope 2 5 start.directory)
replace-in_scope_example =
    replace-in_scope 1 2 (6 ∷ []) start after_replace.1 after_replace.0 replaces 2 5

abbrev after_close : Store × AdminDb
after_close = ok_of (record { id = 6; enabled = true }, start) (update_admin_store 1 6 false start)

closes : update_admin_store 1 6 false start ≡ ok after_close
unfolding update_admin_store lock_admin_user_set find? select_where
closes = refl

disabled_store_is_refused_example :
    require_store_access 6 boss after_close.1.directory ≡ err (http 404)
disabled_store_is_refused_example =
    disabled_store_is_refused 1 6 start after_close.1 after_close.0 boss closes

require_store_access_iff_example :
    (require_store_access 5 clerk start.directory ≡ ok (record { id = 5; enabled = true })) ↔ (
      (enabled_store 5 start.directory ≡ some (record { id = 5; enabled = true }))
      × (store_visible clerk 5 start.directory ≡ true))
require_store_access_iff_example =
    require_store_access_iff 5 clerk start.directory (record { id = 5; enabled = true })
