-- ===== src/Approvals/Review.antt =====
-- The review that an action relies on: `_current_review` of backend/approvals.py, and
-- `_recheck_canonical_citations` of backend/optimization_runs.py. The validators of the JSON columns
-- are pydantic's, and so a parameter.
use e_commerec_operations.Approvals.Context.{Context, found_or, refuse_if}
use e_commerec_operations.Approvals.Tables.{
  ApprovalDb, ApprovalError, ComplianceReview, Product, is_key_of, is_normal,
  proposal_data_inconsistent, proposal_not_submittable, same_key, trusted_evidence_invalid,
}
use e_commerec_operations.Base.{
  Bool, List, Option, Result, String, [], exists_where, find?, holds, if◌then◌else◌, is_none, not,
  str_eq, true, ℕ, ◌&&◌, ◌==◌, ◌>>=◌, ◌>>◌, ◌||◌, ◌∷◌,
}
use e_commerec_operations.Knowledge.Tables.{
  KnowledgeChunk, KnowledgeDb, KnowledgeDocument, KnowledgeVersion, get_document, get_version,
  is_active_version,
}

-- `CanonicalRuleCitation`
pub record RuleCitation : Type 0 where
  pub document_id : ℕ
  pub version_id : ℕ
  pub chunk_id : ℕ
  pub document_name : String
  pub version_number : ℕ
  pub category : String
  pub canonical_text : String

abbrev pub cites : ℕ → RuleCitation → Bool
cites i c = c.chunk_id == i

-- No two citations name one chunk.
unfoldable pub are_distinct : List RuleCitation → Bool
are_distinct [] = true
are_distinct (c ∷ cs) = not (exists_where (cites c.chunk_id) cs) && are_distinct cs

abbrev pub chunk_id_is : ℕ → KnowledgeChunk → Bool
chunk_id_is i k = k.id == i

-- whether the joined row has the values of the citation
abbrev pub quotes :
    Product → RuleCitation → KnowledgeChunk → KnowledgeVersion → KnowledgeDocument → Bool
quotes product c k v d =
    is_key_of v.id d.current_version_id
    && d.enabled
    && is_active_version v.status
    && (str_eq d.category product.category || str_eq d.category "通用规则")
    && c.document_id == d.id
    && c.version_id == v.id
    && str_eq c.document_name d.name
    && c.version_number == v.version_number
    && str_eq c.category d.category
    && str_eq c.canonical_text k.canonical_text

-- The chunk that is cited, its version, and the document of the version.
unfoldable pub citation_valid : Product → KnowledgeDb → RuleCitation → Bool
citation_valid product db c =
    holds
      (λ (k : KnowledgeChunk).
        holds
          (λ (v : KnowledgeVersion).
            holds (λ (d : KnowledgeDocument). quotes product c k v d)
              (get_document v.document_id db.documents))
          (get_version k.version_id db.versions))
      (find? (chunk_id_is c.chunk_id) db.chunks)

unfoldable pub all_valid : Product → KnowledgeDb → List RuleCitation → Bool
unfolding citation_valid
all_valid product db [] = true
all_valid product db (c ∷ cs) = citation_valid product db c && all_valid product db cs

unfoldable pub recheck_canonical_citations : Product → List RuleCitation → KnowledgeDb → Bool
unfolding are_distinct all_valid
recheck_canonical_citations product citations db =
    are_distinct citations && all_valid product db citations

abbrev pub is_review_of : ℕ → ComplianceReview → Bool
is_review_of i r = r.proposal_revision_id == i

module _ (parse_citations : String → Option (List RuleCitation)) where
  unfoldable pub checked_citations : Context → ApprovalDb → Result ApprovalError (Unit {0})
  unfolding recheck_canonical_citations
  checked_citations c db =
      found_or proposal_data_inconsistent (parse_citations c.revision.citations) >>= λ citations.
      refuse_if (not (recheck_canonical_citations c.product citations db.knowledge))
        trusted_evidence_invalid

  unfoldable pub current_review : Context → Bool → ApprovalDb → Result ApprovalError (Unit {0})
  unfolding checked_citations
  current_review c submitting db =
      let refused = if submitting then proposal_not_submittable else proposal_data_inconsistent in
      found_or refused (find? (is_review_of c.revision.id) db.reviews) >>= λ r.
      refuse_if
        (not (
          r.proposal_id == c.proposal.id
          && same_key r.iteration c.revision.iteration
          && str_eq r.citations c.revision.citations))
        proposal_data_inconsistent
      >> (refuse_if (not (r.passed && is_normal r.quality_status && is_none r.error_code)) refused
          >> checked_citations c db)
