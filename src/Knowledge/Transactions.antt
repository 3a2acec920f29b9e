-- ===== src/Knowledge/Transactions.antt =====
-- The other transactions of backend/knowledge_runs.py, as changes of the tables.
use e_commerec_operations.Base.{
  ==_iff, All, All-find?, All-head?, All-order_by, All-select_where, Bool, Bool-cases, Determines,
  IsKeyed, IsKeyed-Determines, List, Option-cases, String, arith, inl, inr, ltb, order_by, refl,
  select_where, some, subst, sym, true, update-IsKeyed, ℕ, ◌==◌, ◌≡◌,
}
use e_commerec_operations.Common.{KnowledgeVersionStatus}
use e_commerec_operations.Knowledge.Activate.{
  activate_knowledge_version, current_of, document_of, is_newer, switch,
}
use e_commerec_operations.Knowledge.Changes.{Change, Quiet, passed, stayed, switched, twice}
use e_commerec_operations.Knowledge.Claim.{
  claim_next_knowledge_version, claimed_version, fail_spent, is_next, is_spent, next_version,
  take_version,
}
use e_commerec_operations.Knowledge.Consistent.{Progress, version_checks}
use e_commerec_operations.Knowledge.Lease.{
  ChunkDraft, commit_owned_update, fail_knowledge_version, return_version_for_retry, upsert_all,
  upsert_knowledge_chunks,
}
use e_commerec_operations.Knowledge.Moves.{authorized-Change, release-Change, released-Quiet}
use e_commerec_operations.Knowledge.Tables.{
  KnowledgeDb, KnowledgeDocument, KnowledgeVersion, get_document, get_version, is_owned_version,
  released, store_version, version_id,
}

pub return-Change :
    (now later i : ℕ) (owner code : String) (db : KnowledgeDb)
    → Change db (return_version_for_retry now later i owner code db).1
unfolding return_version_for_retry
return-Change now later i owner code db =
    let few : KnowledgeVersion → Bool = λ v. ltb v.attempt_count 3 in
    let last : KnowledgeVersion → Bool = λ v. v.attempt_count == 3 in
    elim (Bool-cases
      (commit_owned_update now i owner few (released KnowledgeVersionStatus.accepted code) db).0) [
        | inl t ↦
            rw t (release-Change now i owner few KnowledgeVersionStatus.accepted code db refl refl)
        | inr f ↦ rw f (
            release-Change later i owner last KnowledgeVersionStatus.failed
              "KNOWLEDGE_ATTEMPTS_EXHAUSTED" db refl refl)
      ]

pub fail-Change :
    (now i : ℕ) (owner code : String) (db : KnowledgeDb)
    → Change db (fail_knowledge_version now i owner code db).1
unfolding fail_knowledge_version
fail-Change now i owner code db =
    release-Change now i owner (λ _. true) KnowledgeVersionStatus.failed code db refl refl

pub upsert-Change :
    (now i : ℕ) (owner : String) (drafts : List ChunkDraft) (db : KnowledgeDb)
    → IsKeyed version_id db.versions
    → Change db (upsert_knowledge_chunks now i owner drafts db).1
unfolding upsert_knowledge_chunks
upsert-Change now i owner drafts db keyed =
    authorized-Change now i owner
      (λ v. (true, record db { chunks = upsert_all i drafts db.chunks })) db keyed
      (λ v row owned. stayed refl refl)

claimed-Progress :
    (now : ℕ) (locked : ℕ → Bool) (owner : String) (seconds : ℕ) (v : KnowledgeVersion)
    → is_next now locked v ≡ true
    → Progress v (claimed_version now owner seconds v)
claimed-Progress now locked owner seconds v t = record {
  document = refl;
  number = refl;
  content = refl;
  attempts = omega arith;
  from_active = λ h. absurd (ground arith);
  finished = λ h. absurd (ground arith);
}

claimed-checks :
    (now : ℕ) (locked : ℕ → Bool) (owner : String) (seconds : ℕ) (v : KnowledgeVersion)
    → is_next now locked v ≡ true
    → version_checks v ≡ true
    → version_checks (claimed_version now owner seconds v) ≡ true
unfolding version_checks
claimed-checks now locked owner seconds v t h = ground arith

-- The version that is taken is one of the table, and waits or has lost its lease.
next-found :
    (now : ℕ) (locked : ℕ → Bool) (db : KnowledgeDb) {v : KnowledgeVersion}
    → IsKeyed version_id db.versions
    → next_version now locked db ≡ some v
    → All (Determines version_id v) db.versions × (is_next now locked v ≡ true)
unfolding next_version
next-found now locked db {v} keyed e =
    let P : KnowledgeVersion → Type 0 =
      λ x. All (Determines version_id x) db.versions × (is_next now locked x ≡ true) in
    let key : KnowledgeVersion → ℕ × ℕ = λ x. (x.created_at, x.id) in
    let chosen =
      All-select_where (λ x. All (Determines version_id x) db.versions) (is_next now locked)
        db.versions (IsKeyed-Determines version_id db.versions keyed) in
    All-head? P (order_by key (select_where (is_next now locked) db.versions)) e
      (All-order_by P key (select_where (is_next now locked) db.versions) chosen)

determined :
    (v : KnowledgeVersion) (versions : List KnowledgeVersion)
    → All (Determines version_id v) versions
    → (j : ℕ) (u : KnowledgeVersion) → get_version j versions ≡ some u
    → (version_id u == v.id) ≡ true
    → u ≡ v
unfolding get_version
determined v versions det j u e t =
    (All-find? (Determines version_id v) (λ x. version_id x == j) versions e det).0
      ((==_iff u.id v.id).0 t)

claimed-Quiet :
    (now : ℕ) (locked : ℕ → Bool) (owner : String) (seconds : ℕ) (db : KnowledgeDb)
    (v : KnowledgeVersion)
    → All (Determines version_id v) db.versions
    → is_next now locked v ≡ true
    → Quiet db.versions (λ u. version_id u == v.id) (claimed_version now owner seconds)
claimed-Quiet now locked owner seconds db v det t =
    let test =
      λ (j : ℕ) (u : KnowledgeVersion) (e : get_version j db.versions ≡ some u)
          (k : (version_id u == v.id) ≡ true).
        subst (λ x. is_next now locked x ≡ true) (sym (determined v db.versions det j u e k)) t in
    record {
      same = λ u. refl;
      before = λ j u e k. let r = test j u e k in ground arith;
      after = λ u k. refl;
      checks = λ j u e k. claimed-checks now locked owner seconds u (test j u e k);
      progress = λ j u e k. claimed-Progress now locked owner seconds u (test j u e k);
    }

spent-Change : (now : ℕ) (db : KnowledgeDb) → Change db (fail_spent now db)
unfolding fail_spent
spent-Change now db =
    passed (is_spent now) (released KnowledgeVersionStatus.failed "KNOWLEDGE_ATTEMPTS_EXHAUSTED")
      (released-Quiet (is_spent now) KnowledgeVersionStatus.failed "KNOWLEDGE_ATTEMPTS_EXHAUSTED"
        db.versions refl refl (λ j v e t. ground arith))
      refl refl

take-Change :
    (now : ℕ) (locked : ℕ → Bool) (owner : String) (seconds : ℕ) (db : KnowledgeDb)
    → IsKeyed version_id db.versions
    → Change db (take_version now owner seconds db (next_version now locked db)).1
unfolding take_version store_version
take-Change now locked owner seconds db keyed = elim (Option-cases (next_version now locked db)) [
  | inl none_left ↦ rw (none_left, take_version) (stayed refl refl)
  | inr (v, e) ↦
      let (det, t) = next-found now locked db keyed e in
      rw (e, take_version)
        (passed (λ u. version_id u == v.id) (claimed_version now owner seconds)
          (claimed-Quiet now locked owner seconds db v det t) refl refl)
]

pub claim-Change :
    (now : ℕ) (locked : ℕ → Bool) (owner : String) (seconds : ℕ) (db : KnowledgeDb)
    → IsKeyed version_id db.versions
    → Change db (claim_next_knowledge_version now locked owner seconds db).1
unfolding claim_next_knowledge_version fail_spent
claim-Change now locked owner seconds db keyed =
    let give_up = released KnowledgeVersionStatus.failed "KNOWLEDGE_ATTEMPTS_EXHAUSTED" in
    twice (spent-Change now db) (
      take-Change now locked owner seconds (fail_spent now db)
        (update-IsKeyed version_id (is_spent now) give_up (λ v. refl) db.versions keyed))

switch-Change :
    (now i : ℕ) (owner : String) (d : KnowledgeDocument) (v : KnowledgeVersion) (db : KnowledgeDb)
    → get_version i db.versions ≡ some v
    → get_document v.document_id db.documents ≡ some d
    → d.enabled ≡ true
    → is_owned_version now i owner v ≡ true
    → Change db (switch now i owner d (current_of d db.versions) v db).1
unfolding switch
switch-Change now i owner d v db row document on owned =
    elim (Bool-cases (is_newer (current_of d db.versions) v)) [
      | inl t ↦ rw t (
          switched i v d (is_owned_version now i owner) (record {
            row = row;
            document = document;
            enabled = on;
            processed = ground arith;
            newer = t;
            chosen = owned;
            only = λ u k. ground arith;
            versions = refl;
            documents = refl;
          }))
      | inr f ↦ rw f (
          passed (is_owned_version now i owner)
            (released KnowledgeVersionStatus.disabled "KNOWLEDGE_VERSION_SUPERSEDED")
            (released-Quiet (is_owned_version now i owner) KnowledgeVersionStatus.disabled
              "KNOWLEDGE_VERSION_SUPERSEDED" db.versions refl refl (λ j u e k. ground arith))
            refl refl)
    ]

document-found :
    (i : ℕ) (db : KnowledgeDb) (v : KnowledgeVersion) (d : KnowledgeDocument)
    → get_version i db.versions ≡ some v
    → document_of i db ≡ some d
    → get_document v.document_id db.documents ≡ some d
unfolding document_of
document-found i db v d row e = rw (row, document_of) at e

pub activate-Change :
    (now i : ℕ) (owner : String) (db : KnowledgeDb)
    → IsKeyed version_id db.versions
    → Change db (activate_knowledge_version now i owner db).1
unfolding activate_knowledge_version
activate-Change now i owner db keyed = elim (Option-cases (document_of i db)) [
  | inl missing ↦ rw (missing, activate_knowledge_version) (stayed refl refl)
  | inr (d, e) ↦ elim (Bool-cases d.enabled) [
    | inl on ↦
        rw (e, on, activate_knowledge_version)
          (authorized-Change now i owner (λ v. switch now i owner d (current_of d db.versions) v db)
            db keyed
            (λ v row owned.
              switch-Change now i owner d v db row (document-found i db v d row e) on owned))
    | inr off ↦ rw (e, off, activate_knowledge_version) (stayed refl refl)
  ]
]
