-- ===== src/Knowledge/Uploads.antt =====
-- What an upload does when it succeeds: it finds the version that an earlier upload has stored, or it
-- adds one, to a document of the table or to a new one.
use e_commerec_operations.Accounts.{User}
use e_commerec_operations.Audit.{AuditEvent}
use e_commerec_operations.Base.{
  All, Bool-cases, Option, Option-cases, Result-cases, String, [], arith, false, if◌then◌else◌, inl,
  inr, none, ok, ok-injective, refl, some, str_eq, subst, sym, true, ℕ, ◌++◌, ◌+◌, ◌∷◌, ◌≡◌, ◌≢◌,
}
use e_commerec_operations.Common.{AuditEventType}
use e_commerec_operations.Knowledge.Changes.{Change, gained_document, gained_version, stayed, twice}
use e_commerec_operations.Knowledge.Consistent.{version_checks}
use e_commerec_operations.Knowledge.Create.{
  Upload, Uploaded, add_document, add_version, answer_upload, create_document_version, is_key,
  last_number, named_document, new_document, new_version, repeated_document, upload_audit,
  upload_document, upload_version, version_by_key, version_by_sha,
}
use e_commerec_operations.Knowledge.Tables.{
  KnowledgeDb, KnowledgeDocument, KnowledgeVersion, get_document, knowledge_actor, version_id,
}

-- The outcomes of `create_document_version`.
pub data Outcome (now : ℕ) (up : Upload) (db : KnowledgeDb) : Uploaded → KnowledgeDb → Type 0 where
  repeated : (d v : ℕ) → Outcome now up db (d, v, false) db
  first_version :
      (name category : String) (event : AuditEvent)
      → up.name ≡ some name
      → up.category ≡ some category
      → get_document up.document_id db.documents ≡ none
      → Outcome now up db
          (up.document_id, up.version_id, true)
          (record db {
            documents = new_document up name category ∷ db.documents;
            versions = new_version now up 1 none ∷ db.versions;
            audit = db.audit ++ event ∷ [];
          })
  further_version :
      (d : KnowledgeDocument) (event : AuditEvent)
      → get_document up.document_id db.documents ≡ some d
      → version_by_sha up.document_id up.sha256 db ≡ none
      → Outcome now up db
          (up.document_id, up.version_id, true)
          (record db {
            versions =
                new_version now up (last_number up.document_id db.versions + 1) up.idempotency_key
                ∷ db.versions;
            audit = db.audit ++ event ∷ [];
          })

module _ (now : ℕ) (up : Upload) (actor : User) (db : KnowledgeDb) (result : Uploaded)
    (db' : KnowledgeDb) where
  add_document-Outcome :
      (name category : Option String)
      → name ≡ up.name
      → category ≡ up.category
      → get_document up.document_id db.documents ≡ none
      → add_document now up actor db name category ≡ ok (result, db')
      → Outcome now up db result db'
  unfolding add_document
  add_document-Outcome (some name) (some category) at_name at_category fresh e =
      subst (λ x. Outcome now up db x.0 x.1) (ok-injective e)
        (first_version name category
          (upload_audit actor AuditEventType.knowledge_document_created "knowledge_document"
            up.document_id)
          (sym at_name) (sym at_category) fresh)
  add_document-Outcome none category at_name at_category fresh e = absurd cc
  add_document-Outcome (some name) none at_name at_category fresh e = absurd cc

  add_version-Outcome :
      (d : KnowledgeDocument) (known : Option KnowledgeVersion)
      → get_document up.document_id db.documents ≡ some d
      → version_by_sha up.document_id up.sha256 db ≡ known
      → add_version now up actor db known ≡ ok (result, db')
      → Outcome now up db result db'
  unfolding add_version
  add_version-Outcome d (some v) found at_known e =
      subst (λ x. Outcome now up db x.0 x.1) (ok-injective e) (repeated up.document_id v.id)
  add_version-Outcome d none found at_known e =
      subst (λ x. Outcome now up db x.0 x.1) (ok-injective e)
        (further_version d
          (upload_audit actor AuditEventType.knowledge_version_created "knowledge_version"
            up.version_id)
          found at_known)

  upload_version-Outcome :
      (d : KnowledgeDocument) (keyed : Option KnowledgeVersion)
      → get_document up.document_id db.documents ≡ some d
      → upload_version now up actor db keyed ≡ ok (result, db')
      → Outcome now up db result db'
  unfolding upload_version
  upload_version-Outcome d none found e =
      add_version-Outcome d (version_by_sha up.document_id up.sha256 db) found refl e
  upload_version-Outcome d (some v) found e = elim (Bool-cases (str_eq v.sha256 up.sha256)) [
    | inl t ↦
        let k = rw t at e in
        subst (λ x. Outcome now up db x.0 x.1) (ok-injective k) (repeated up.document_id v.id)
    | inr f ↦ absurd (ground arith)
  ]

  upload_document-Outcome :
      (row : Option KnowledgeDocument)
      → get_document up.document_id db.documents ≡ row
      → upload_document now up actor db row ≡ ok (result, db')
      → Outcome now up db result db'
  unfolding upload_document
  upload_document-Outcome none fresh e = add_document-Outcome up.name up.category refl refl fresh e
  upload_document-Outcome (some d) found e =
      let keyed = version_by_key up.document_id up.idempotency_key db in
      upload_version-Outcome d (if is_key up.idempotency_key then keyed else none) found e

  repeated-Outcome :
      (d : KnowledgeDocument)
      → repeated_document up db d ≡ ok (result, db')
      → Outcome now up db result db'
  unfolding repeated_document
  repeated-Outcome d e = elim (Option-cases (version_by_sha d.id up.sha256 db)) [
    | inl missing ↦ absurd (ground arith)
    | inr (v, found) ↦
        let k = rw (found, repeated_document) at e in
        subst (λ x. Outcome now up db x.0 x.1) (ok-injective k) (repeated d.id v.id)
  ]

  pub answer_upload-Outcome :
      (existing : Option KnowledgeDocument)
      → answer_upload now up actor db existing ≡ ok (result, db')
      → Outcome now up db result db'
  unfolding answer_upload
  answer_upload-Outcome none e =
      upload_document-Outcome (get_document up.document_id db.documents) refl e
  answer_upload-Outcome (some d) e = repeated-Outcome d e

pub create-Outcome :
    (now : ℕ) (up : Upload) (db : KnowledgeDb) (result : Uploaded) (db' : KnowledgeDb)
    → create_document_version now up db ≡ ok (result, db')
    → Outcome now up db result db'
unfolding create_document_version
create-Outcome now up db result db' e =
    elim (Result-cases (knowledge_actor up.created_by db.directory)) [
      | inl (x, refused) ↦ absurd (ground arith)
      | inr (actor, granted) ↦
          answer_upload-Outcome now up actor db result db' (named_document up db)
            (rw (granted, create_document_version) at e)
    ]

new_version-checks :
    (now : ℕ) (up : Upload) (number : ℕ) (key : Option String)
    → version_checks (new_version now up (number + 1) key) ≡ true
unfolding version_checks
new_version-checks now up number key = ground arith

pub create-Change :
    (now : ℕ) (up : Upload) {db : KnowledgeDb} {result : Uploaded} {db' : KnowledgeDb}
    → All (λ v. version_id v ≢ up.version_id) db.versions
    → Outcome now up db result db'
    → Change db db'
create-Change now up fresh (repeated d v) = stayed refl refl
create-Change now up {db} fresh (first_version name category event at_name at_category absent) =
    let mid : KnowledgeDb = record db {
      documents = new_document up name category ∷ db.documents;
    } in
    twice (gained_document (new_document up name category) {db' = mid} absent refl refl refl) (
      gained_version (new_version now up 1 none) fresh refl (new_version-checks now up 0 none) refl
        refl)
create-Change now up {db} fresh (further_version d event found unknown) =
    let number = last_number up.document_id db.versions in
    gained_version (new_version now up (number + 1) up.idempotency_key) fresh refl
      (new_version-checks now up number up.idempotency_key) refl refl
