-- ===== src/Knowledge/Moves.antt =====
-- Each transaction of backend/knowledge_runs.py on a version that is leased is a change of the tables.
use mathlib.Core.Option.{some-injective}
use e_commerec_operations.Base.{
  ==_iff, Bool, Bool-cases, IsKeyed, List, Option-cases, String, arith, exists_where, false, inl,
  inr, refl, some, subst, sym, true, ℕ, ◌&&◌, ◌==◌, ◌∙◌, ◌≡◌,
}
use e_commerec_operations.Common.{KnowledgeVersionStatus}
use e_commerec_operations.Knowledge.Changes.{Change, Quiet, passed, stayed}
use e_commerec_operations.Knowledge.Consistent.{Progress, version_checks}
use e_commerec_operations.Knowledge.Lease.{
  authorized, commit_owned_update, extended, renew_knowledge_lease,
}
use e_commerec_operations.Knowledge.Lookup.{get_version-id, owned-found}
use e_commerec_operations.Knowledge.Tables.{
  KnowledgeDb, KnowledgeVersion, get_version, is_active_version, is_owned_version, is_processed,
  owned_version, released, revoke, store_version, uploader_authorized, version_id,
}
use e_commerec_operations.Logistics.Shipments.{progress}

abbrev at_key : ℕ → KnowledgeVersion → Bool
at_key i v = version_id v == i

-- An update of versions that are processed, by one that leaves them in a status that is not active.
pub processed-Quiet :
    (p : KnowledgeVersion → Bool) (f : KnowledgeVersion → KnowledgeVersion)
    (versions : List KnowledgeVersion)
    → ((v : KnowledgeVersion) → (f v).id ≡ v.id)
    → ((i : ℕ) (v : KnowledgeVersion)
        → get_version i versions ≡ some v
        → p v ≡ true
        → is_processed v.status ≡ true)
    → ((v : KnowledgeVersion) → p v ≡ true → is_active_version (f v).status ≡ false)
    → ((v : KnowledgeVersion)
        → is_processed v.status ≡ true
        → version_checks v ≡ true
        → version_checks (f v) ≡ true)
    → ((v : KnowledgeVersion) → is_processed v.status ≡ true → Progress v (f v))
    → Quiet versions p f
processed-Quiet p f versions same running idle checks progress = record {
  same = same;
  before = λ i v e t. let q = running i v e t in ground arith;
  after = idle;
  checks = λ i v e t. checks v (running i v e t);
  progress = λ i v e t. progress v (running i v e t);
}

owned-processed :
    (now i : ℕ) (owner : String) (v : KnowledgeVersion)
    → is_owned_version now i owner v ≡ true
    → is_processed v.status ≡ true
owned-processed now i owner v t = ground arith

released-checks :
    (status : KnowledgeVersionStatus) (code : String) (v : KnowledgeVersion)
    → is_processed status ≡ false
    → version_checks v ≡ true
    → version_checks (released status code v) ≡ true
unfolding version_checks
released-checks status code v r h = ground arith

released-Progress :
    (status : KnowledgeVersionStatus) (code : String) (v : KnowledgeVersion)
    → is_processed v.status ≡ true
    → Progress v (released status code v)
released-Progress status code v q = record {
  document = refl;
  number = refl;
  content = refl;
  attempts = omega arith;
  from_active = λ h. absurd (ground arith);
  finished = λ h. absurd (ground arith);
}

pub released-Quiet :
    (p : KnowledgeVersion → Bool) (status : KnowledgeVersionStatus) (code : String)
    (versions : List KnowledgeVersion)
    → is_processed status ≡ false
    → is_active_version status ≡ false
    → ((i : ℕ) (v : KnowledgeVersion)
        → get_version i versions ≡ some v
        → p v ≡ true
        → is_processed v.status ≡ true)
    → Quiet versions p (released status code)
released-Quiet p status code versions r a running =
    processed-Quiet p (released status code) versions (λ v. refl) running (λ v t. a)
      (λ v q. released-checks status code v r) (released-Progress status code)

revoke-Change :
    (now i : ℕ) (owner : String) (v : KnowledgeVersion) (db : KnowledgeDb)
    → IsKeyed version_id db.versions
    → owned_version now i owner db ≡ some v
    → Change db (revoke v db)
unfolding revoke store_version
revoke-Change now i owner v db keyed e =
    let (row, owned) = owned-found now i owner db keyed e in
    let running =
      λ (j : ℕ) (u : KnowledgeVersion) (found : get_version j db.versions ≡ some u)
          (t : at_key v.id u ≡ true).
        let j_is : j ≡ i =
          sym (get_version-id j db.versions found)
          ∙ (==_iff u.id v.id).0 t
          ∙ get_version-id i db.versions row in
        let found_i = subst (λ n. get_version n db.versions ≡ some u) j_is found in
        let same : u ≡ v = some-injective _ _ (sym found_i ∙ row) in
        subst (λ (x : KnowledgeVersion). is_processed x.status ≡ true) (sym same)
          (owned-processed now i owner v owned) in
    passed (at_key v.id) (released KnowledgeVersionStatus.failed "KNOWLEDGE_AUTHORIZATION_CHANGED")
      (released-Quiet (at_key v.id) KnowledgeVersionStatus.failed "KNOWLEDGE_AUTHORIZATION_CHANGED"
        db.versions refl refl running)
      refl refl

-- What a call of the holder of a lease changes, by what it does when it is authorized.
pub authorized-Change :
    (now i : ℕ) (owner : String) (act : KnowledgeVersion → Bool × KnowledgeDb) (db : KnowledgeDb)
    → IsKeyed version_id db.versions
    → ((v : KnowledgeVersion)
        → get_version i db.versions ≡ some v
        → is_owned_version now i owner v ≡ true
        → Change db (act v).1)
    → Change db (authorized now i owner act db).1
unfolding authorized
authorized-Change now i owner act db keyed does =
    elim (Option-cases (owned_version now i owner db)) [
      | inl missing ↦ rw (missing, authorized) (stayed refl refl)
      | inr (v, e) ↦ elim (Bool-cases (uploader_authorized db v)) [
        | inl t ↦
            let (row, owned) = owned-found now i owner db keyed e in
            rw (e, t, authorized) (does v row owned)
        | inr f ↦ rw (e, f, authorized) (revoke-Change now i owner v db keyed e)
      ]
    ]

pub commit-Change :
    (now i : ℕ) (owner : String) (test : KnowledgeVersion → Bool)
    (change : KnowledgeVersion → KnowledgeVersion) (db : KnowledgeDb)
    → Quiet db.versions (λ v. is_owned_version now i owner v && test v) change
    → Change db (commit_owned_update now i owner test change db).1
unfolding commit_owned_update
commit-Change now i owner test change db q =
    let p : KnowledgeVersion → Bool = λ v. is_owned_version now i owner v && test v in
    elim (Bool-cases (exists_where p db.versions)) [
      | inl t ↦ rw t (passed p change q refl refl)
      | inr f ↦ rw f (stayed refl refl)
    ]

pub release-Change :
    (now i : ℕ) (owner : String) (test : KnowledgeVersion → Bool) (status : KnowledgeVersionStatus)
    (code : String) (db : KnowledgeDb)
    → is_processed status ≡ false
    → is_active_version status ≡ false
    → Change db (commit_owned_update now i owner test (released status code) db).1
release-Change now i owner test status code db r a =
    commit-Change now i owner test (released status code) db (
      released-Quiet (λ v. is_owned_version now i owner v && test v) status code db.versions r a
        (λ j v e t. ground arith))

extended-Progress :
    (now seconds : ℕ) (v : KnowledgeVersion)
    → is_processed v.status ≡ true
    → Progress v (extended now seconds v)
extended-Progress now seconds v q = record {
  document = refl;
  number = refl;
  content = refl;
  attempts = omega arith;
  from_active = λ h. absurd (ground arith);
  finished = λ h. absurd (ground arith);
}

extended-checks :
    (now seconds : ℕ) (v : KnowledgeVersion)
    → is_processed v.status ≡ true
    → version_checks v ≡ true
    → version_checks (extended now seconds v) ≡ true
unfolding version_checks
extended-checks now seconds v q h = ground arith

still-Quiet :
    (now i : ℕ) (owner : String) (seconds : ℕ) (db : KnowledgeDb)
    → Quiet db.versions (λ v. is_owned_version now i owner v && true) (extended now seconds)
still-Quiet now i owner seconds db =
    processed-Quiet (λ v. is_owned_version now i owner v && true) (extended now seconds) db.versions
      (λ v. refl) (λ j v e t. ground arith) (λ v t. ground arith) (extended-checks now seconds)
      (extended-Progress now seconds)

pub renew-Change :
    (now i : ℕ) (owner : String) (seconds : ℕ) (db : KnowledgeDb)
    → IsKeyed version_id db.versions
    → Change db (renew_knowledge_lease now i owner seconds db).1
unfolding renew_knowledge_lease
renew-Change now i owner seconds db keyed =
    authorized-Change now i owner
      (λ v. commit_owned_update now i owner (λ _. true) (extended now seconds) db) db keyed
      (λ v row owned.
        commit-Change now i owner (λ _. true) (extended now seconds) db
          (still-Quiet now i owner seconds db))
