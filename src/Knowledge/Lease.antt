-- ===== src/Knowledge/Lease.antt =====
-- The calls of the holder of a lease in backend/knowledge_runs.py that do not activate the version.
use e_commerec_operations.Base.{
  Bool, List, String, [], exists_where, false, if◌then◌else◌, ltb, none, some, true, update_where,
  ℕ, ◌&&◌, ◌++◌, ◌+◌, ◌==◌, ◌∷◌,
}
use e_commerec_operations.Common.{KnowledgeVersionStatus}
use e_commerec_operations.Knowledge.Tables.{
  KnowledgeChunk, KnowledgeDb, KnowledgeVersion, is_owned_version, owned_version, released, revoke,
  uploader_authorized,
}

-- `_commit_owned_update`: an UPDATE of the owned row, with a further test; `False` if there is none
unfoldable pub commit_owned_update :
    ℕ
    → ℕ
    → String
    → (KnowledgeVersion → Bool)
    → (KnowledgeVersion → KnowledgeVersion)
    → KnowledgeDb
    → Bool × KnowledgeDb
commit_owned_update now i owner test change db =
    let p : KnowledgeVersion → Bool = λ v. is_owned_version now i owner v && test v in
    if exists_where p db.versions
    then (true, record db { versions = update_where p change db.versions })
    else (false, db)

-- What a call does for a version that is owned and whose uploader still has his rights.
unfoldable pub authorized :
    ℕ → ℕ → String → (KnowledgeVersion → Bool × KnowledgeDb) → KnowledgeDb → Bool × KnowledgeDb
authorized now i owner act db = elim (owned_version now i owner db) [
  | none ↦ (false, db)
  | some v ↦ if uploader_authorized db v then act v else (false, revoke v db)
]

abbrev pub extended : ℕ → ℕ → KnowledgeVersion → KnowledgeVersion
extended now seconds v = record v { lease_expires_at = some (now + seconds) }

unfoldable pub renew_knowledge_lease : ℕ → ℕ → String → ℕ → KnowledgeDb → Bool × KnowledgeDb
unfolding authorized
renew_knowledge_lease now i owner seconds db =
    authorized now i owner
      (λ v. commit_owned_update now i owner (λ _. true) (extended now seconds) db) db

-- Two transactions: the second, at `later`, runs if the first has found no row.
unfoldable pub return_version_for_retry :
    ℕ → ℕ → ℕ → String → String → KnowledgeDb → Bool × KnowledgeDb
unfolding commit_owned_update
return_version_for_retry now later i owner error_code db =
    let first =
      commit_owned_update now i owner (λ v. ltb v.attempt_count 3)
        (released KnowledgeVersionStatus.accepted error_code) db in
    let second =
      commit_owned_update later i owner (λ v. v.attempt_count == 3)
        (released KnowledgeVersionStatus.failed "KNOWLEDGE_ATTEMPTS_EXHAUSTED") db in
    if first.0 then first else second

unfoldable pub fail_knowledge_version : ℕ → ℕ → String → String → KnowledgeDb → Bool × KnowledgeDb
unfolding commit_owned_update
fail_knowledge_version now i owner error_code db =
    commit_owned_update now i owner (λ _. true) (released KnowledgeVersionStatus.failed error_code)
      db

pub record ChunkDraft : Type 0 where
  pub chunk_id : ℕ
  pub chunk_index : ℕ
  pub chunk_hash : String
  pub canonical_text : String
  pub chunk_metadata : String
  pub token_count : ℕ

abbrev pub at_index : ℕ → ℕ → KnowledgeChunk → Bool
at_index i n c = c.version_id == i && c.chunk_index == n

-- `INSERT … ON CONFLICT (version_id, chunk_index) DO UPDATE`
unfoldable pub upsert_chunk : ℕ → ChunkDraft → List KnowledgeChunk → List KnowledgeChunk
upsert_chunk i draft chunks =
    let change = λ (c : KnowledgeChunk). record c {
      chunk_hash = draft.chunk_hash;
      canonical_text = draft.canonical_text;
      chunk_metadata = draft.chunk_metadata;
      token_count = draft.token_count;
    } in
    let new : KnowledgeChunk = record {
      id = draft.chunk_id;
      version_id = i;
      chunk_index = draft.chunk_index;
      chunk_hash = draft.chunk_hash;
      canonical_text = draft.canonical_text;
      chunk_metadata = draft.chunk_metadata;
      token_count = draft.token_count;
    } in
    if exists_where (at_index i draft.chunk_index) chunks
    then update_where (at_index i draft.chunk_index) change chunks
    else chunks ++ new ∷ []

unfoldable pub upsert_all : ℕ → List ChunkDraft → List KnowledgeChunk → List KnowledgeChunk
unfolding upsert_chunk
upsert_all i [] chunks = chunks
upsert_all i (draft ∷ drafts) chunks = upsert_all i drafts (upsert_chunk i draft chunks)

unfoldable pub upsert_knowledge_chunks :
    ℕ → ℕ → String → List ChunkDraft → KnowledgeDb → Bool × KnowledgeDb
unfolding authorized upsert_all
upsert_knowledge_chunks now i owner drafts db =
    authorized now i owner (λ v. (true, record db { chunks = upsert_all i drafts db.chunks })) db
