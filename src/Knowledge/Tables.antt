-- ===== src/Knowledge/Tables.antt =====
-- The tables of documents, versions and chunks of backend/models.py, and the helpers that the
-- transactions of backend/knowledge_runs.py share. File names and the versions of the parsers are
-- only stored, and left out. The metadata of a chunk is its JSON text.
use e_commerec_operations.Accounts.{Directory, User, get_user, has_department_access}
use e_commerec_operations.Audit.{AuditEvent}
use e_commerec_operations.Base.{
  Bool, List, Option, Result, String, err, false, find?, holds, if◌then◌else◌, ltb, none, ok, some,
  str_eq, true, update_where, ℕ, ◌&&◌, ◌==◌,
}
use e_commerec_operations.Common.{AuditEventType, KnowledgeVersionStatus, UserDepartment, is_admin}

pub record KnowledgeDocument : Type 0 where
  pub id : ℕ
  pub name : String
  pub category : String
  pub enabled : Bool
  pub current_version_id : Option ℕ
  pub created_by : ℕ
  pub idempotency_key : Option String

pub record KnowledgeVersion : Type 0 where
  pub id : ℕ
  pub document_id : ℕ
  pub version_number : ℕ
  pub sha256 : String
  pub status : KnowledgeVersionStatus
  pub attempt_count : ℕ
  pub lease_owner : Option String
  pub lease_expires_at : Option ℕ
  pub idempotency_key : Option String
  pub error_code : Option String
  pub created_at : ℕ

pub record KnowledgeChunk : Type 0 where
  pub id : ℕ
  pub version_id : ℕ
  pub chunk_index : ℕ
  pub chunk_hash : String
  pub canonical_text : String
  pub chunk_metadata : String
  pub token_count : ℕ

pub record KnowledgeDb : Type 0 where
  pub directory : Directory
  pub documents : List KnowledgeDocument
  pub versions : List KnowledgeVersion
  pub chunks : List KnowledgeChunk
  pub audit : List AuditEvent

-- `HTTPException(403)`, and the `ValueError`s by the last part of their message
pub data KnowledgeError : Type 0 where
  forbidden idempotency_conflict document_not_found : KnowledgeError

abbrev pub document_id : KnowledgeDocument → ℕ
document_id d = d.id

abbrev pub version_id : KnowledgeVersion → ℕ
version_id v = v.id

unfoldable pub get_document : ℕ → List KnowledgeDocument → Option KnowledgeDocument
get_document i documents = find? (λ d. document_id d == i) documents

unfoldable pub get_version : ℕ → List KnowledgeVersion → Option KnowledgeVersion
get_version i versions = find? (λ v. version_id v == i) versions

abbrev pub is_accepted : KnowledgeVersionStatus → Bool
is_accepted KnowledgeVersionStatus.accepted = true
is_accepted _ = false

abbrev pub is_processed : KnowledgeVersionStatus → Bool
is_processed KnowledgeVersionStatus.processing = true
is_processed _ = false

abbrev pub is_active_version : KnowledgeVersionStatus → Bool
is_active_version KnowledgeVersionStatus.active = true
is_active_version _ = false

knowledge_admin : Option User → Result KnowledgeError User
knowledge_admin none = err forbidden
knowledge_admin (some u) =
    if has_department_access (some u) UserDepartment.operations && is_admin u.role
    then ok u
    else err forbidden

-- `_knowledge_actor`
unfoldable pub knowledge_actor : ℕ → Directory → Result KnowledgeError User
unfolding knowledge_admin
knowledge_actor actor_id dir = knowledge_admin (get_user actor_id dir)

abbrev pub is_version_created : AuditEventType → Bool
is_version_created AuditEventType.knowledge_version_created = true
is_version_created _ = false

abbrev pub is_upload : ℕ → AuditEvent → Bool
is_upload i e =
    is_version_created e.event_type
    && str_eq e.resource_type "knowledge_version"
    && e.resource_id == i

-- The uploader that the audit log names first, or else the creator of the document.
unfoldable pub uploader : KnowledgeDb → KnowledgeVersion → Option ℕ
uploader db v =
    let creator : Option ℕ = elim (get_document v.document_id db.documents) [
      | none ↦ none
      | some d ↦ some d.created_by
    ] in
    elim (find? (is_upload v.id) db.audit) [
      | none ↦ creator
      | some e ↦ elim e.actor_id [ none ↦ creator | some a ↦ some a ]
    ]

-- whether the uploader still passes `_knowledge_actor`
unfoldable pub uploader_authorized : KnowledgeDb → KnowledgeVersion → Bool
unfolding uploader
uploader_authorized db v = elim (uploader db v) [
  | none ↦ false
  | some a ↦ elim (knowledge_actor a db.directory) [ err e ↦ false | ok u ↦ true ]
]

abbrev pub released : KnowledgeVersionStatus → String → KnowledgeVersion → KnowledgeVersion
released status error_code v = record v {
  status = status;
  lease_owner = none;
  lease_expires_at = none;
  error_code = some error_code;
}

-- The session writes one version back.
unfoldable pub store_version : ℕ → (KnowledgeVersion → KnowledgeVersion) → KnowledgeDb → KnowledgeDb
store_version i change db = record db {
  versions = update_where (λ v. version_id v == i) change db.versions;
}

-- `_authorized_version`, on a version whose uploader has lost his rights
unfoldable pub revoke : KnowledgeVersion → KnowledgeDb → KnowledgeDb
unfolding store_version
revoke v db =
    store_version v.id (released KnowledgeVersionStatus.failed "KNOWLEDGE_AUTHORIZATION_CHANGED") db

-- `_owned_lease`
abbrev pub is_owned_version : ℕ → ℕ → String → KnowledgeVersion → Bool
is_owned_version now i owner v =
    version_id v == i
    && is_processed v.status
    && holds (λ o. str_eq o owner) v.lease_owner
    && holds (λ t. ltb now t) v.lease_expires_at

unfoldable pub owned_version : ℕ → ℕ → String → KnowledgeDb → Option KnowledgeVersion
owned_version now i owner db = find? (is_owned_version now i owner) db.versions
