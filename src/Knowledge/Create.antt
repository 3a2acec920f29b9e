-- ===== src/Knowledge/Create.antt =====
-- `create_document_version` of backend/knowledge_runs.py: an upload, or the answer to one that is
-- repeated.
use e_commerec_operations.Accounts.{User}
use e_commerec_operations.Audit.{AuditEvent}
use e_commerec_operations.Base.{
  Bool, List, Option, Result, String, [], count, err, false, find?, holds, if◌then◌else◌, is_none,
  ltb, none, not, ok, some, str_eq, true, ℕ, ◌&&◌, ◌++◌, ◌+◌, ◌==◌, ◌>>=◌, ◌∷◌,
}
use e_commerec_operations.Common.{AuditEventType, AuditOutcome, KnowledgeVersionStatus}
use e_commerec_operations.Knowledge.Tables.{
  KnowledgeDb, KnowledgeDocument, KnowledgeError, KnowledgeVersion, document_not_found,
  get_document, idempotency_conflict, knowledge_actor,
}

pub record Upload : Type 0 where
  pub document_id : ℕ
  pub version_id : ℕ
  pub created_by : ℕ
  pub name : Option String
  pub category : Option String
  pub sha256 : String
  pub idempotency_key : Option String

-- a key that is given and not empty
abbrev pub is_key : Option String → Bool
is_key key = holds (λ s. not (count s == 0)) key

abbrev pub same_text : Option String → Option String → Bool
same_text (some s) (some t) = str_eq s t
same_text _ _ = false

-- `find_document_version_by_sha`
abbrev pub has_sha : ℕ → String → KnowledgeVersion → Bool
has_sha i sha v = v.document_id == i && str_eq v.sha256 sha

unfoldable pub version_by_sha : ℕ → String → KnowledgeDb → Option KnowledgeVersion
version_by_sha i sha db = find? (has_sha i sha) db.versions

-- `find_document_version_by_idempotency_key`
abbrev pub has_version_key : ℕ → Option String → KnowledgeVersion → Bool
has_version_key i key v = v.document_id == i && same_text v.idempotency_key key

unfoldable pub version_by_key : ℕ → Option String → KnowledgeDb → Option KnowledgeVersion
version_by_key i key db = find? (has_version_key i key) db.versions

-- `find_document_by_idempotency_key`
abbrev pub has_document_key : ℕ → Option String → KnowledgeDocument → Bool
has_document_key creator key d = d.created_by == creator && same_text d.idempotency_key key

unfoldable pub document_by_key : ℕ → Option String → KnowledgeDb → Option KnowledgeDocument
document_by_key creator key db = find? (has_document_key creator key) db.documents

-- `max(version_number)`, or 0
unfoldable pub last_number : ℕ → List KnowledgeVersion → ℕ
last_number i [] = 0
last_number i (v ∷ vs) =
    let rest = last_number i vs in
    if v.document_id == i && ltb rest v.version_number then v.version_number else rest

abbrev pub new_version : ℕ → Upload → ℕ → Option String → KnowledgeVersion
new_version now up number key = record {
  id = up.version_id;
  document_id = up.document_id;
  version_number = number;
  sha256 = up.sha256;
  status = KnowledgeVersionStatus.accepted;
  attempt_count = 0;
  lease_owner = none;
  lease_expires_at = none;
  idempotency_key = key;
  error_code = none;
  created_at = now;
}

abbrev pub new_document : Upload → String → String → KnowledgeDocument
new_document up name category = record {
  id = up.document_id;
  name = name;
  category = category;
  enabled = true;
  current_version_id = none;
  created_by = up.created_by;
  idempotency_key = up.idempotency_key;
}

abbrev pub upload_audit : User → AuditEventType → String → ℕ → AuditEvent
upload_audit actor event_type resource_type resource_id = record {
  event_type = event_type;
  outcome = AuditOutcome.success;
  store_id = none;
  actor_id = some actor.id;
  actor_role = some actor.role;
  resource_type = resource_type;
  resource_id = resource_id;
  error_code = none;
}

-- The document, the version, and whether the version is new.
abbrev pub Uploaded : Type 0
Uploaded = ℕ × ℕ × Bool

unfoldable pub add_document :
    ℕ
    → Upload
    → User
    → KnowledgeDb
    → Option String
    → Option String
    → Result KnowledgeError (Uploaded × KnowledgeDb)
add_document now up actor db (some name) (some category) = ok (
  (up.document_id, up.version_id, true),
  record db {
    documents = new_document up name category ∷ db.documents;
    versions = new_version now up 1 none ∷ db.versions;
    audit =
        db.audit
        ++ upload_audit actor AuditEventType.knowledge_document_created "knowledge_document"
            up.document_id
          ∷ [];
  },
)
add_document now up actor db _ _ = err document_not_found

unfoldable pub add_version :
    ℕ
    → Upload
    → User
    → KnowledgeDb
    → Option KnowledgeVersion
    → Result KnowledgeError (Uploaded × KnowledgeDb)
add_version now up actor db (some v) = ok ((up.document_id, v.id, false), db)
add_version now up actor db none =
    let number = last_number up.document_id db.versions + 1 in
    ok (
      (up.document_id, up.version_id, true),
      record db {
        versions = new_version now up number up.idempotency_key ∷ db.versions;
        audit =
            db.audit
            ++ upload_audit actor AuditEventType.knowledge_version_created "knowledge_version"
                up.version_id
              ∷ [];
      },
    )

-- an upload to a document that exists
unfoldable pub upload_version :
    ℕ
    → Upload
    → User
    → KnowledgeDb
    → Option KnowledgeVersion
    → Result KnowledgeError (Uploaded × KnowledgeDb)
unfolding add_version
upload_version now up actor db none =
    add_version now up actor db (version_by_sha up.document_id up.sha256 db)
upload_version now up actor db (some v) =
    if str_eq v.sha256 up.sha256
    then ok ((up.document_id, v.id, false), db)
    else err idempotency_conflict

unfoldable pub upload_document :
    ℕ
    → Upload
    → User
    → KnowledgeDb
    → Option KnowledgeDocument
    → Result KnowledgeError (Uploaded × KnowledgeDb)
unfolding add_document upload_version
upload_document now up actor db none = add_document now up actor db up.name up.category
upload_document now up actor db (some d) =
    let keyed = version_by_key up.document_id up.idempotency_key db in
    upload_version now up actor db (if is_key up.idempotency_key then keyed else none)

-- the answer for a key under which the creator already has a document
unfoldable pub repeated_document :
    Upload → KnowledgeDb → KnowledgeDocument → Result KnowledgeError (Uploaded × KnowledgeDb)
repeated_document up db d = elim (version_by_sha d.id up.sha256 db) [
  | none ↦ err idempotency_conflict
  | some v ↦ ok ((d.id, v.id, false), db)
]

unfoldable pub answer_upload :
    ℕ
    → Upload
    → User
    → KnowledgeDb
    → Option KnowledgeDocument
    → Result KnowledgeError (Uploaded × KnowledgeDb)
unfolding upload_document repeated_document
answer_upload now up actor db (some d) = repeated_document up db d
answer_upload now up actor db none =
    upload_document now up actor db (get_document up.document_id db.documents)

-- the document that the creator has under the key, if the call names one
unfoldable pub named_document : Upload → KnowledgeDb → Option KnowledgeDocument
named_document up db =
    let existing = document_by_key up.created_by up.idempotency_key db in
    if not (is_none up.name) && is_key up.idempotency_key then existing else none

unfoldable pub create_document_version :
    ℕ → Upload → KnowledgeDb → Result KnowledgeError (Uploaded × KnowledgeDb)
unfolding answer_upload named_document
create_document_version now up db = knowledge_actor up.created_by db.directory >>= λ actor.
    answer_upload now up actor db (named_document up db)
