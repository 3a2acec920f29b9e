-- ===== src/Accounts/Rows.antt =====
-- The tests of backend/auth.py, in terms of the values in the rows.
use e_commerec_operations.Accounts.{Directory, User, UserStoreScope, in_scope, is_scope}
use e_commerec_operations.Base.{
  ==_iff, Mem, arith, exists_where-Mem, false≢true, refl, true, ℕ, ◌≡◌,
}
use e_commerec_operations.Common.{
  UserDepartment, UserRole, UserStatus, is_active, is_admin, same_department,
}

pub is_active-active : (s : UserStatus) → is_active s ≡ true → s ≡ UserStatus.active
is_active-active UserStatus.active e = refl
is_active-active UserStatus.disabled e = absurd (false≢true e)

pub is_admin-admin : (r : UserRole) → is_admin r ≡ true → r ≡ UserRole.admin
is_admin-admin UserRole.admin e = refl
is_admin-admin UserRole.supervisor e = absurd (false≢true e)
is_admin-admin UserRole.operator e = absurd (false≢true e)

pub is_operations :
    (d : UserDepartment)
    → same_department d UserDepartment.operations ≡ true
    → d ≡ UserDepartment.operations
is_operations UserDepartment.operations e = refl
is_operations UserDepartment.logistics e = absurd (false≢true e)

pub is_logistics :
    (d : UserDepartment)
    → same_department d UserDepartment.logistics ≡ true
    → d ≡ UserDepartment.logistics
is_logistics UserDepartment.logistics e = refl
is_logistics UserDepartment.operations e = absurd (false≢true e)

-- A scope row of the table.
pub record InScope (dir : Directory) (u : User) (i : ℕ) : Type 0 where
  pub scope : UserStoreScope
  pub row : Mem scope dir.scopes
  pub of_user : scope.user_id ≡ u.id
  pub of_store : scope.store_id ≡ i

pub in_scope-InScope :
    (dir : Directory) (u : User) (i : ℕ) → in_scope u.id i dir ≡ true → InScope dir u i
unfolding in_scope
in_scope-InScope dir u i e =
    let (x, row, at) = exists_where-Mem (is_scope u.id i) dir.scopes e in
    record {
      scope = x;
      row = row;
      of_user = (==_iff x.user_id u.id).0 (ground arith);
      of_store = (==_iff x.store_id i).0 (ground arith);
    }
