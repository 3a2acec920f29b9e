-- ===== src/Accounts/Access.antt =====
-- What the checks of backend/auth.py guarantee.
use e_commerec_operations.Accounts.{
  Directory, Store, User, enabled_store, is_enabled_store, require_store_access, store_visible,
}
use e_commerec_operations.Base.{
  Option-cases, arith, find?-test, inl, inr, ok, some, true, ℕ, ◌↔◌, ◌≡◌,
}

enabled_store-is_enabled :
    (store_id : ℕ) (dir : Directory) {s : Store}
    → enabled_store store_id dir ≡ some s
    → (s.id ≡ store_id) × (s.enabled ≡ true)
unfolding enabled_store
enabled_store-is_enabled store_id dir {s} e =
    let found = find?-test (is_enabled_store store_id) dir.stores e in ground arith

-- A store is granted exactly when it is enabled and the lists would show its rows to the user, so the
-- check of one store and the predicate of the lists agree.
pub require_store_access_iff :
    (store_id : ℕ) (u : User) (dir : Directory) (s : Store)
    → (require_store_access store_id u dir ≡ ok s)
      ↔ ((enabled_store store_id dir ≡ some s) × (store_visible u store_id dir ≡ true))
unfolding require_store_access store_visible
require_store_access_iff store_id u dir s = elim (Option-cases (enabled_store store_id dir)) [
  | inl e ↦ ((λ h. ground arith), (λ h. ground arith))
  | inr (t, e) ↦
      let at_id = enabled_store-is_enabled store_id dir e in
      ((λ h. ground arith), (λ h. ground arith))
]

-- A granted store is the enabled one that was asked for, and the lists show its rows to the user.
pub require_store_access-visible :
    (store_id : ℕ) (u : User) (dir : Directory) (s : Store)
    → require_store_access store_id u dir ≡ ok s
    → (s.id ≡ store_id) × (s.enabled ≡ true) × (store_visible u store_id dir ≡ true)
unfolding require_store_access store_visible
require_store_access-visible store_id u dir s h = elim (Option-cases (enabled_store store_id dir)) [
  | inl e ↦ ground arith
  | inr (t, e) ↦ ground (arith, enabled_store-is_enabled store_id dir e)
]
