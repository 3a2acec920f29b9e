-- ===== src/Delivery/Permits.antt =====
-- What it takes to publish: the test of `_authorized` in backend/platform_delivery_runs.py, in terms of
-- the rows of the tables.
use e_commerec_operations.Accounts.{
  Directory, Store, User, enabled_store, get_user, has_department_access, has_id, in_scope,
  is_enabled_store,
}
use e_commerec_operations.Accounts.Rows.{
  InScope, in_scope-InScope, is_active-active, is_admin-admin, is_operations,
}
use e_commerec_operations.Base.{
  ==_iff, Bool-cases, Mem, Option-cases, ap, arith, false≢true, find?-Mem, inl, inr, some, sym,
  true, ◌∙◌, ◌≡◌, ◌≢◌, ◌⊎◌,
}
use e_commerec_operations.Common.{UserDepartment, UserRole, UserStatus, is_admin}
use e_commerec_operations.Delivery.Tables.{
  PublishRecord, may_publish, publish_authorized, publisher_in_scope,
}

-- An active user of the operations department, or an administrator, who is no operator, with a row that
-- gives him the store, which is enabled.
pub record MayPublish (dir : Directory) (r : PublishRecord) : Type 0 where
  pub user : User
  pub user_row : Mem user dir.users
  pub user_id : user.id ≡ r.approved_by
  pub active : user.status ≡ UserStatus.active
  pub member : (user.role ≡ UserRole.admin) ⊎ (user.department ≡ UserDepartment.operations)
  pub no_operator : user.role ≢ UserRole.operator
  pub store : Store
  pub store_row : Mem store dir.stores
  pub store_id : store.id ≡ r.store_id
  pub enabled : store.enabled ≡ true
  pub scope : InScope dir user r.store_id

pub user-member :
    (u : User)
    → has_department_access (some u) UserDepartment.operations ≡ true
    → (u.status ≡ UserStatus.active)
      × ((u.role ≡ UserRole.admin) ⊎ (u.department ≡ UserDepartment.operations))
unfolding has_department_access
user-member u e =
    let a = is_active-active u.status (ground arith) in
    elim (Bool-cases (is_admin u.role)) [
      | inl t ↦ (a, inl (is_admin-admin u.role t))
      | inr f ↦ (a, inr (is_operations u.department (ground arith)))
    ]

publisher-role : (r : UserRole) → may_publish r ≡ true → r ≢ UserRole.operator
publisher-role r t e = false≢true (ap may_publish (sym e) ∙ t)

pub publish_authorized-MayPublish :
    (dir : Directory) (r : PublishRecord) → publish_authorized dir r ≡ true → MayPublish dir r
unfolding publish_authorized publisher_in_scope get_user enabled_store in_scope
publish_authorized-MayPublish dir r e = elim (Option-cases (get_user r.approved_by dir)) [
  | inl missing ↦ absurd (ground arith)
  | inr (u, found) ↦ elim (Option-cases (enabled_store r.store_id dir)) [
    | inl closed ↦ absurd (ground arith)
    | inr (s, at_store) ↦
        let granted : has_department_access (some u) UserDepartment.operations ≡ true =
          ground arith in
        let scoped : in_scope u.id r.store_id dir ≡ true = ground arith in
        let role : may_publish u.role ≡ true = ground arith in
        let (active, member) = user-member u granted in
        let (row_u, at_u) = find?-Mem (has_id r.approved_by) dir.users found in
        let (row_s, at_s) = find?-Mem (is_enabled_store r.store_id) dir.stores at_store in
        record {
          user = u;
          user_row = row_u;
          user_id = (==_iff u.id r.approved_by).0 at_u;
          active = active;
          member = member;
          no_operator = publisher-role u.role role;
          store = s;
          store_row = row_s;
          store_id = (==_iff s.id r.store_id).0 (ground arith);
          enabled = ground arith;
          scope = in_scope-InScope dir u r.store_id scoped;
        }
  ]
]
