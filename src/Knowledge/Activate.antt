-- ===== src/Knowledge/Activate.antt =====
-- `activate_knowledge_version` and `disable_knowledge_document` of backend/knowledge_runs.py.
use mathlib.Core.Option.{get_or}
use e_commerec_operations.Accounts.{User}
use e_commerec_operations.Base.{
  Bool, List, Option, Result, String, [], false, holds, if◌then◌else◌, is_none, ltb, none, ok, some,
  true, update_where, ℕ, ◌&&◌, ◌++◌, ◌==◌, ◌>>=◌, ◌||◌, ◌∷◌,
}
use e_commerec_operations.Common.{AuditEventType, KnowledgeVersionStatus}
use e_commerec_operations.Knowledge.Create.{upload_audit}
use e_commerec_operations.Knowledge.Lease.{authorized}
use e_commerec_operations.Knowledge.Tables.{
  KnowledgeDb, KnowledgeDocument, KnowledgeError, KnowledgeVersion, document_id, get_document,
  get_version, is_accepted, is_active_version, is_owned_version, is_processed, knowledge_actor,
  released, version_id,
}

abbrev pub activated : KnowledgeVersion → KnowledgeVersion
activated v = record v {
  status = KnowledgeVersionStatus.active;
  lease_owner = none;
  lease_expires_at = none;
  error_code = none;
}

abbrev pub retired : KnowledgeVersion → KnowledgeVersion
retired v = record v { status = KnowledgeVersionStatus.disabled }

abbrev pub is_current : ℕ → KnowledgeVersion → Bool
is_current i v = version_id v == i && is_active_version v.status

-- The UPDATE that retires the version that was current, if there is one.
unfoldable pub retire : Option KnowledgeVersion → List KnowledgeVersion → List KnowledgeVersion
retire none versions = versions
retire (some c) versions = update_where (is_current c.id) retired versions

abbrev pub point_to : Option ℕ → KnowledgeDocument → KnowledgeDocument
point_to i d = record d { current_version_id = i }

abbrev pub is_newer : Option KnowledgeVersion → KnowledgeVersion → Bool
is_newer current candidate =
    is_none current
    || holds (λ (c : KnowledgeVersion). ltb c.version_number candidate.version_number) current

unfoldable pub switch :
    ℕ
    → ℕ
    → String
    → KnowledgeDocument
    → Option KnowledgeVersion
    → KnowledgeVersion
    → KnowledgeDb
    → Bool × KnowledgeDb
unfolding retire
switch now i owner d current candidate db =
    let owned = is_owned_version now i owner in
    let chosen = update_where owned activated db.versions in
    let superseded =
      update_where owned (released KnowledgeVersionStatus.disabled "KNOWLEDGE_VERSION_SUPERSEDED")
        db.versions in
    if is_newer current candidate
    then (
      true,
      record db {
        versions = retire current chosen;
        documents = update_where (λ e. document_id e == d.id) (point_to (some i)) db.documents;
      },
    )
    else (false, record db { versions = superseded })

abbrev pub current_of : KnowledgeDocument → List KnowledgeVersion → Option KnowledgeVersion
current_of d versions = elim d.current_version_id [ none ↦ none | some i ↦ get_version i versions ]

-- the document of the version, with the version's row
unfoldable pub document_of : ℕ → KnowledgeDb → Option KnowledgeDocument
document_of i db = elim (get_version i db.versions) [
  | none ↦ none
  | some v ↦ get_document v.document_id db.documents
]

unfoldable pub activate_knowledge_version : ℕ → ℕ → String → KnowledgeDb → Bool × KnowledgeDb
unfolding authorized switch document_of
activate_knowledge_version now i owner db = elim (document_of i db) [
  | none ↦ (false, db)
  | some d ↦
      let done =
        authorized now i owner
          (λ candidate. switch now i owner d (current_of d db.versions) candidate db) db in
      if d.enabled then done else (false, db)
]

-- The versions that a disabled document takes with it.
abbrev pub is_alive : ℕ → KnowledgeVersion → Bool
is_alive i v =
    v.document_id == i
    && (is_accepted v.status || is_processed v.status || is_active_version v.status)

abbrev pub withdrawn : KnowledgeVersion → KnowledgeVersion
withdrawn v = record v {
  status = KnowledgeVersionStatus.disabled;
  lease_owner = none;
  lease_expires_at = none;
}

abbrev pub shut : KnowledgeDocument → KnowledgeDocument
shut d = record d { enabled = false; current_version_id = none }

unfoldable pub shut_document : User → ℕ → KnowledgeDb → KnowledgeDb
shut_document actor i db = record db {
  documents = update_where (λ d. document_id d == i) shut db.documents;
  versions = update_where (is_alive i) withdrawn db.versions;
  audit =
      db.audit
      ++ upload_audit actor AuditEventType.knowledge_document_disabled "knowledge_document" i ∷ [];
}

-- `actor_id or document.created_by`
unfoldable pub disable_knowledge_document :
    ℕ → Option ℕ → KnowledgeDb → Result KnowledgeError (Bool × KnowledgeDb)
unfolding shut_document
disable_knowledge_document i actor_id db = elim (get_document i db.documents) [
  | none ↦ ok (false, db)
  | some d ↦ knowledge_actor (get_or actor_id d.created_by) db.directory >>= λ actor.
      ok (true, shut_document actor i db)
]
