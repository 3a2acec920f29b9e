-- ===== src/Admin/Scopes.antt =====
-- The scopes of backend/admin_management.py as backend/auth.py reads them.
use e_commerec_operations.Accounts.{
  Store, User, UserStoreScope, enabled_store, http, in_scope, is_enabled_store, is_scope,
  require_store_access,
}
use e_commerec_operations.Admin.{
  AdminDb, is_id, is_locked, lock_admin_user_set, new_scopes, other_user, replace_user_store_scopes,
  update_admin_store,
}
use e_commerec_operations.Base.{
  ==_iff, Bool-cases, List, Option-cases, Result-cases, [], arith, err, exists_where,
  exists_where-append, exists_where-deleted, exists_where-order_by, exists_where-select_where,
  false, find?, find?-test, if◌then◌else◌, inl, inr, map, none, not, ok, order_by, refl,
  select_where, update_where, ℕ, ◌&&◌, ◌++◌, ◌==◌, ◌∷◌, ◌≡◌,
}

granted :
    (user_id n s : ℕ) (ids : List ℕ)
    → exists_where (is_scope n s) (map (λ i. record { user_id = user_id; store_id = i }) ids)
      ≡ (user_id == n && exists_where (is_id s) ids)
unfolding exists_where
granted user_id n s [] = ground arith
granted user_id n s (i ∷ ids) = let rest = granted user_id n s ids in ground arith

other-scopes :
    (user_id n s : ℕ) (rows : List UserStoreScope)
    → exists_where (is_scope n s) (select_where (other_user user_id) rows)
      ≡ (not (user_id == n) && exists_where (is_scope n s) rows)
other-scopes user_id n s rows = elim (Bool-cases (user_id == n)) [
  | inl t ↦
      rw t (exists_where-deleted (is_scope n s) (other_user user_id) (λ row h. ground arith) rows)
  | inr f ↦
      rw f
        (exists_where-select_where (is_scope n s) (other_user user_id) (λ row h. ground arith) rows)
]

-- Replacing a user's scopes gives that user exactly the listed stores and leaves every other user's
-- scopes as they were.
pub replace-in_scope :
    (actor_id user_id : ℕ) (store_ids : List ℕ) (db db' : AdminDb) (u : User)
    → replace_user_store_scopes actor_id user_id store_ids db ≡ ok (u, db')
    → (n s : ℕ)
    → in_scope n s db'.directory
      ≡ (if user_id == n then exists_where (is_id s) store_ids else in_scope n s db.directory)
unfolding replace_user_store_scopes in_scope
replace-in_scope actor_id user_id store_ids db db' u e n s =
    elim (Result-cases (lock_admin_user_set actor_id user_id db.directory)) [
      | inl (x, refused) ↦ absurd (ground arith)
      | inr ((actor, target, admins), locked) ↦
          let is : db'.directory.scopes
              ≡ select_where (other_user user_id) db.directory.scopes
                ++ new_scopes user_id store_ids =
            ground arith in
          let old = other-scopes user_id n s db.directory.scopes in
          let new = granted user_id n s (order_by (λ i. (i, i)) store_ids) in
          let same = exists_where-order_by (λ i. (i, i)) (is_id s) store_ids in
          rw
            (
              is,
              exists_where-append (is_scope n s)
                  (select_where (other_user user_id) db.directory.scopes)
                  (new_scopes user_id store_ids),
              old,
              new,
              same,
            )
            (ground arith)
    ]

disable-find? :
    (n : ℕ) (stores : List Store)
    → find?
        (is_enabled_store n)
        (update_where (λ s. s.id == n) (λ s. record s { enabled = false }) stores)
      ≡ none
unfolding find? update_where
disable-find? n [] = refl
disable-find? n (s ∷ stores) = let rest = disable-find? n stores in ground arith

-- Once a store is disabled, nobody is granted it, administrators included.
pub disabled_store_is_refused :
    (actor_id store_id : ℕ) (db db' : AdminDb) (s : Store) (u : User)
    → update_admin_store actor_id store_id false db ≡ ok (s, db')
    → require_store_access store_id u db'.directory ≡ err (http 404)
unfolding update_admin_store require_store_access enabled_store
disabled_store_is_refused actor_id store_id db db' s u e =
    elim (Result-cases (lock_admin_user_set actor_id actor_id db.directory)) [
      | inl (x, refused) ↦ absurd (ground arith)
      | inr (locked, is_locked) ↦
          elim (Option-cases (find? (λ t. t.id == store_id) db.directory.stores)) [
            | inl missing ↦ absurd (ground arith)
            | inr (store, found) ↦
                let at_id : store.id ≡ store_id =
                  (==_iff store.id store_id).0
                    (find?-test (λ t. t.id == store_id) db.directory.stores found) in
                let is : db'.directory.stores
                    ≡ update_where (λ t. t.id == store.id) (λ t. record t { enabled = false })
                        db.directory.stores =
                  ground arith in
                rw (is, at_id, disable-find? store_id db.directory.stores)
          ]
    ]
