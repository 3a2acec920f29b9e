-- ===== src/Knowledge/Consistent.antt =====
-- What is consistent in the knowledge tables: the constraints of backend/models.py, and that the
-- versions that a search reads are the ones that the documents point to.
use e_commerec_operations.Base.{
  Bool, Bool-cases, IsKeyed, arith, false, if◌then◌else◌, inl, inr, is_none, leb, not, refl, some,
  true, ℕ, ◌&&◌, ◌||◌, ◌∙◌, ◌≡◌, ◌≤◌,
}
use e_commerec_operations.Common.{KnowledgeVersionStatus}
use e_commerec_operations.Knowledge.Tables.{
  KnowledgeDb, KnowledgeDocument, KnowledgeVersion, document_id, get_document, get_version,
  is_active_version, is_processed, version_id,
}

-- `ck_knowledge_document_versions_attempt_count`, `…_version_number` and `…_lease_state`
unfoldable pub version_checks : KnowledgeVersion → Bool
version_checks v =
    leb v.attempt_count 3
    && leb 1 v.version_number
    && (if is_processed v.status
        then not (is_none v.lease_owner) && not (is_none v.lease_expires_at)
        else is_none v.lease_owner && is_none v.lease_expires_at)

pub record IsCoherent (db : KnowledgeDb) : Type 0 where
  pub document_keys : IsKeyed document_id db.documents
  pub version_keys : IsKeyed version_id db.versions
  pub checks :
      (i : ℕ) (v : KnowledgeVersion) → get_version i db.versions ≡ some v → version_checks v ≡ true
  pub active_is_current :
      (i : ℕ) (v : KnowledgeVersion)
      → get_version i db.versions ≡ some v
      → is_active_version v.status ≡ true
      → (d : KnowledgeDocument) × (get_document v.document_id db.documents ≡ some d)
        × (d.current_version_id ≡ some i)
  pub current_is_active :
      (k i : ℕ) (d : KnowledgeDocument)
      → get_document k db.documents ≡ some d
      → d.current_version_id ≡ some i
      → (d.enabled ≡ true)
        × ((v : KnowledgeVersion) × (get_version i db.versions ≡ some v)
            × (v.document_id ≡ k)
            × (is_active_version v.status ≡ true))

-- What happens to a version: its document, number and content stay, attempts only grow, an active
-- version can only be disabled, and a failed or disabled one does not change.
abbrev pub is_finished : KnowledgeVersionStatus → Bool
is_finished KnowledgeVersionStatus.failed = true
is_finished KnowledgeVersionStatus.disabled = true
is_finished _ = false

abbrev pub is_disabled : KnowledgeVersionStatus → Bool
is_disabled KnowledgeVersionStatus.disabled = true
is_disabled _ = false

pub record Progress (v w : KnowledgeVersion) : Type 0 where
  pub document : w.document_id ≡ v.document_id
  pub number : w.version_number ≡ v.version_number
  pub content : w.sha256 ≡ v.sha256
  pub attempts : v.attempt_count ≤ w.attempt_count
  pub from_active :
      is_active_version v.status ≡ true
      → (is_active_version w.status || is_disabled w.status) ≡ true
  pub finished : is_finished v.status ≡ true → w ≡ v

pub Progress-refl : (v : KnowledgeVersion) → Progress v v
Progress-refl v = record {
  document = refl;
  number = refl;
  content = refl;
  attempts = omega arith;
  from_active = λ h. ground arith;
  finished = λ h. refl;
}

pub Progress-trans : (u v w : KnowledgeVersion) → Progress u v → Progress v w → Progress u w
Progress-trans u v w a b = record {
  document = b.document ∙ a.document;
  number = b.number ∙ a.number;
  content = b.content ∙ a.content;
  attempts = let x = a.attempts in let y = b.attempts in omega arith;
  from_active = λ h. elim (Bool-cases (is_active_version v.status)) [
    | inl still ↦ b.from_active still
    | inr ended ↦
        let off : is_disabled v.status ≡ true = let k = a.from_active h in ground arith in
        let same = b.finished (ground arith) in rw same (rw (ended, off))
  ];
  finished = λ h.
      let same = a.finished h in
      let done : is_finished v.status ≡ true = rw same h in b.finished done ∙ same;
}
