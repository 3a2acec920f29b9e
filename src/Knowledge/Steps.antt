-- ===== src/Knowledge/Steps.antt =====
-- The runs of the knowledge tables: any transactions in any order. The keys of an upload that adds
-- rows are new, as `uuid4` makes them.
use e_commerec_operations.Accounts.{Directory}
use e_commerec_operations.Base.{All, Bool, List, Option, String, [], ok, ℕ, ◌≡◌, ◌≢◌}
use e_commerec_operations.Knowledge.Activate.{
  activate_knowledge_version, disable_knowledge_document,
}
use e_commerec_operations.Knowledge.Claim.{claim_next_knowledge_version}
use e_commerec_operations.Knowledge.Create.{Upload, Uploaded, create_document_version}
use e_commerec_operations.Knowledge.Lease.{
  ChunkDraft, fail_knowledge_version, renew_knowledge_lease, return_version_for_retry,
  upsert_knowledge_chunks,
}
use e_commerec_operations.Knowledge.Tables.{KnowledgeDb}

pub data Step (db : KnowledgeDb) : KnowledgeDb → Type 0 where
  uploaded :
      (now : ℕ) (up : Upload) (result : Uploaded) {db' : KnowledgeDb}
      → All (λ v. v.id ≢ up.version_id) db.versions
      → create_document_version now up db ≡ ok (result, db')
      → Step db db'
  claimed :
      (now : ℕ) (locked : ℕ → Bool) (owner : String) (seconds : ℕ)
      → Step db (claim_next_knowledge_version now locked owner seconds db).1
  renewed :
      (now i : ℕ) (owner : String) (seconds : ℕ)
      → Step db (renew_knowledge_lease now i owner seconds db).1
  returned :
      (now later i : ℕ) (owner error_code : String)
      → Step db (return_version_for_retry now later i owner error_code db).1
  gave_up :
      (now i : ℕ) (owner error_code : String)
      → Step db (fail_knowledge_version now i owner error_code db).1
  indexed :
      (now i : ℕ) (owner : String) (drafts : List ChunkDraft)
      → Step db (upsert_knowledge_chunks now i owner drafts db).1
  activated_version :
      (now i : ℕ) (owner : String) → Step db (activate_knowledge_version now i owner db).1
  disabled_document :
      (i : ℕ) (actor_id : Option ℕ) (done : Bool) {db' : KnowledgeDb}
      → disable_knowledge_document i actor_id db ≡ ok (done, db')
      → Step db db'
  -- other parts of the system change the users
  reassigned : (dir : Directory) → Step db (record db { directory = dir })

pub data Reach (start : KnowledgeDb) : KnowledgeDb → Type 0 where
  here : Reach start start
  next : {db db' : KnowledgeDb} → Reach start db → Step db db' → Reach start db'

pub Reach_induction :
    (P : KnowledgeDb → Type 0) (start : KnowledgeDb)
    → P start
    → ((db db' : KnowledgeDb) → Step db db' → P db → P db')
    → {db : KnowledgeDb} → Reach start db
    → P db
Reach_induction P start h keep here = h
Reach_induction P start h keep (next {db} {db'} r st) =
    keep db db' st (Reach_induction P start h keep r)

abbrev pub no_documents : Directory → KnowledgeDb
no_documents dir = record {
  directory = dir;
  documents = [];
  versions = [];
  chunks = [];
  audit = [];
}
