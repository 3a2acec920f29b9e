-- ===== src/Admin/Guards.antt =====
-- The guards of backend/admin_management.py: an active administrator always remains, and a change
-- takes effect on the next request.
use e_commerec_operations.Accounts.{
  Directory, Subject, User, get_current_user, get_user, has_id, http, text,
}
use e_commerec_operations.Admin.{
  AdminDb, AdminUserPatch, apply_patch, demotes, guard_violation, is_active_admin, is_locked,
  lock_admin_user_set, update_admin_user,
}
use e_commerec_operations.Base.{
  ==_iff, Bool-cases, List, Option, Result-cases, arith, err, exists_where,
  exists_where-update_where, false, find?, find?-exists_where, find?-kept, find?-select_where,
  find?-test, find?-update_where, if◌then◌else◌, inl, inr, ok, refl, select_where, some, true,
  update_where, ℕ, ◌&&◌, ◌==◌, ◌∙◌, ◌≡◌, ◌⊎◌,
}
use e_commerec_operations.Common.{UserStatus}

lock-find? :
    (actor_id target_id n : ℕ) (users : List User)
    → ((u : User) → has_id n u ≡ true → is_locked actor_id target_id u ≡ true)
    → find? (has_id n) (select_where (is_locked actor_id target_id) users) ≡ find? (has_id n) users
lock-find? actor_id target_id n users sub =
    find?-select_where (has_id n) (is_locked actor_id target_id) sub users

-- What `lock_admin_user_set` returns: the two users of the table, the first an active administrator.
pub lock-returns :
    (actor_id target_id : ℕ) (dir : Directory) (actor target : User) (admins : List User)
    → lock_admin_user_set actor_id target_id dir ≡ ok (actor, target, admins)
    → (get_user actor_id dir ≡ some actor)
      × (get_user target_id dir ≡ some target)
      × (is_active_admin actor ≡ true)
      × (admins
          ≡ select_where is_active_admin (select_where (is_locked actor_id target_id) dir.users))
unfolding lock_admin_user_set get_user
lock-returns actor_id target_id dir actor target admins e =
    let fa = lock-find? actor_id target_id actor_id dir.users (λ u h. ground arith) in
    let ft = lock-find? actor_id target_id target_id dir.users (λ u h. ground arith) in ground arith

-- the actor is among the locked administrators
locked-actor :
    (actor_id target_id : ℕ) (actor : User) (users : List User)
    → find? (has_id actor_id) users ≡ some actor
    → is_active_admin actor ≡ true
    → find?
        (has_id actor_id)
        (select_where is_active_admin (select_where (is_locked actor_id target_id) users))
      ≡ some actor
locked-actor actor_id target_id actor users found admin =
    find?-kept (has_id actor_id) is_active_admin _
      (lock-find? actor_id target_id actor_id users (λ u h. ground arith) ∙ found) admin

-- the actor stays an active administrator
patched-is_active_admin :
    (patch : AdminUserPatch) (actor target : User)
    → (actor.id == target.id && demotes patch) ≡ false
    → is_active_admin actor ≡ true
    → is_active_admin (if has_id target.id actor then apply_patch patch actor else actor) ≡ true
patched-is_active_admin patch actor target calm admin = ground arith

-- However an update of a user succeeds, an active administrator is left in the table.
pub update_admin_user-keeps_admin :
    (actor_id user_id : ℕ) (patch : AdminUserPatch) (db db' : AdminDb) (u : User)
    → update_admin_user actor_id user_id patch db ≡ ok (u, db')
    → exists_where is_active_admin db'.directory.users ≡ true
unfolding update_admin_user get_user
update_admin_user-keeps_admin actor_id user_id patch db db' u e =
    elim (Result-cases (lock_admin_user_set actor_id user_id db.directory)) [
      | inl (x, refused) ↦ absurd (ground arith)
      | inr ((actor, target, admins), locked) ↦
          let (found, at_target, admin, are) =
            lock-returns actor_id user_id db.directory actor target admins locked in
          let is : db'.directory.users
              ≡ update_where (has_id target.id) (apply_patch patch) db.directory.users =
            ground arith in
          let calm : (actor.id == target.id && demotes patch) ≡ false = ground arith in
          rw is (
            exists_where-update_where (has_id actor_id) is_active_admin (has_id target.id)
              (apply_patch patch) db.directory.users found
              (patched-is_active_admin patch actor target calm admin))
    ]

-- If an update is refused as a guard violation, then the lock set was refused, since the actor is
-- no active administrator, or the actor would take his own role or status away: the two later
-- guards of the source never fire.
pub update_admin_user-guard :
    (actor_id user_id : ℕ) (patch : AdminUserPatch) (db : AdminDb)
    → update_admin_user actor_id user_id patch db ≡ err guard_violation
    → (lock_admin_user_set actor_id user_id db.directory ≡ err guard_violation)
      ⊎ ((actor_id ≡ user_id) × (demotes patch ≡ true))
unfolding update_admin_user find? get_user
update_admin_user-guard actor_id user_id patch db e =
    elim (Result-cases (lock_admin_user_set actor_id user_id db.directory)) [
      | inl (x, refused) ↦ inl (ground arith)
      | inr ((actor, target, admins), locked) ↦
          let (found, at_target, admin, are) =
            lock-returns actor_id user_id db.directory actor target admins locked in
          let seen : find? (has_id actor_id) admins ≡ some actor =
            rw are (locked-actor actor_id user_id actor db.directory.users found admin) in
          elim (Bool-cases (actor.id == target.id && demotes patch)) [
            | inl t ↦
                let is_actor = find?-test (has_id actor_id) db.directory.users found in
                let is_target = find?-test (has_id user_id) db.directory.users at_target in
                inr (ground arith)
            | inr calm ↦
                let before =
                  find?-exists_where (has_id actor_id) is_active_admin admins seen admin in
                let after =
                  exists_where-update_where (has_id actor_id) is_active_admin (has_id target.id)
                    (apply_patch patch) admins seen
                    (patched-is_active_admin patch actor target calm admin) in
                absurd (ground arith)
          ]
    ]

-- When an administrator has disabled a user, a token that names the user gives no session any more.
pub disabled_user_has_no_session :
    {Token : Type 0} (decode : Token → Option Subject) (token : Token) (actor_id user_id : ℕ)
    (patch : AdminUserPatch) (db db' : AdminDb) (u : User)
    → update_admin_user actor_id user_id patch db ≡ ok (u, db')
    → patch.status ≡ some UserStatus.disabled
    → decode token ≡ some (text user_id)
    → get_current_user decode (some token) db'.directory ≡ err (http 401)
unfolding update_admin_user get_current_user get_user
disabled_user_has_no_session decode token actor_id user_id patch db db' u e off names =
    elim (Result-cases (lock_admin_user_set actor_id user_id db.directory)) [
      | inl (x, refused) ↦ absurd (ground arith)
      | inr ((actor, target, admins), locked) ↦
          let (found, at_target, admin, are) =
            lock-returns actor_id user_id db.directory actor target admins locked in
          let at_id : target.id ≡ user_id =
            (==_iff target.id user_id).0
              (find?-test (has_id user_id) db.directory.users at_target) in
          let is : db'.directory.users
              ≡ update_where (has_id target.id) (apply_patch patch) db.directory.users =
            ground arith in
          let row =
            find?-update_where (λ (x : User). x.id) (has_id target.id) (apply_patch patch)
              (λ x. refl) user_id db.directory.users at_target in
          rw (names, is, row)
            (elim (Bool-cases (has_id target.id target)) [
              | inl t ↦ ground arith
              | inr f ↦ absurd (ground arith)
            ])
    ]
