-- ===== src/Approvals/Cited.antt =====
-- What `_recheck_canonical_citations` has established of the rows of the knowledge tables.
use e_commerec_operations.Approvals.Review.{
  RuleCitation, all_valid, are_distinct, chunk_id_is, citation_valid, cites, quotes,
  recheck_canonical_citations,
}
use e_commerec_operations.Approvals.Tables.{Product, is_key_of}
use e_commerec_operations.Base.{
  ==_iff, All, Bool, Bool-cases, IsKeyed, List, Mem, Option, [], ap, arith, eq_iff, exists_where,
  false, false≢true, find?, find?-Mem, holds, inl, inr, none, refl, some, str_eq, true, ℕ, ◌&&◌,
  ◌==◌, ◌||◌, ◌∷◌, ◌≡◌, ◌≢◌, ◌⊎◌,
}
use e_commerec_operations.Common.{KnowledgeVersionStatus}
use e_commerec_operations.Knowledge.Tables.{
  KnowledgeChunk, KnowledgeDb, KnowledgeDocument, KnowledgeVersion, get_document, get_version,
  is_active_version,
}

-- What the joined rows have in common with the citation: the version is current and active, the document
-- is enabled, and it is of the product's category or of the general rules.
pub record Quoted (product : Product) (c : RuleCitation) (k : KnowledgeChunk) (v : KnowledgeVersion)
    (d : KnowledgeDocument) : Type 0 where
  pub current : d.current_version_id ≡ some v.id
  pub enabled : d.enabled ≡ true
  pub active : v.status ≡ KnowledgeVersionStatus.active
  pub applies : (d.category ≡ product.category) ⊎ (d.category ≡ "通用规则")
  pub cited_document : c.document_id ≡ d.id
  pub cited_version : c.version_id ≡ v.id
  pub cited_name : c.document_name ≡ d.name
  pub cited_number : c.version_number ≡ v.version_number
  pub cited_category : c.category ≡ d.category
  pub cited_text : c.canonical_text ≡ k.canonical_text

-- The chunk that is cited, its version and the document of the version are in the tables.
pub record InForce (product : Product) (db : KnowledgeDb) (c : RuleCitation) : Type 0 where
  pub chunk : KnowledgeChunk
  pub chunk_row : Mem chunk db.chunks
  pub chunk_id : chunk.id ≡ c.chunk_id
  pub version : KnowledgeVersion
  pub version_row : Mem version db.versions
  pub version_id : version.id ≡ chunk.version_id
  pub document : KnowledgeDocument
  pub document_row : Mem document db.documents
  pub document_id : document.id ≡ version.document_id
  pub quoted : Quoted product c chunk version document

pub key-some : (i : ℕ) (key : Option ℕ) → is_key_of i key ≡ true → key ≡ some i
key-some i none e = absurd (false≢true e)
key-some i (some j) e = ap some ((==_iff j i).0 e)

active-version :
    (s : KnowledgeVersionStatus) → is_active_version s ≡ true → s ≡ KnowledgeVersionStatus.active
active-version KnowledgeVersionStatus.active e = refl
active-version KnowledgeVersionStatus.accepted e = absurd (false≢true e)
active-version KnowledgeVersionStatus.processing e = absurd (false≢true e)
active-version KnowledgeVersionStatus.failed e = absurd (false≢true e)
active-version KnowledgeVersionStatus.disabled e = absurd (false≢true e)

applies-category :
    (product : Product) (d : KnowledgeDocument)
    → (str_eq d.category product.category || str_eq d.category "通用规则") ≡ true
    → (d.category ≡ product.category) ⊎ (d.category ≡ "通用规则")
applies-category product d e = elim (Bool-cases (str_eq d.category product.category)) [
  | inl t ↦ inl ((eq_iff d.category product.category).0 t)
  | inr f ↦ inr ((eq_iff d.category "通用规则").0 (ground arith))
]

both : (a b : Bool) → (a && b) ≡ true → (a ≡ true) × (b ≡ true)
both true b e = (refl, e)
both false b e = absurd (false≢true e)

quotes-Quoted :
    (product : Product) (c : RuleCitation) (k : KnowledgeChunk) (v : KnowledgeVersion)
    (d : KnowledgeDocument)
    → quotes product c k v d ≡ true
    → Quoted product c k v d
quotes-Quoted product c k v d e =
    let (e8, x9) = both _ _ e in
    let (e7, x8) = both _ _ e8 in
    let (e6, x7) = both _ _ e7 in
    let (e5, x6) = both _ _ e6 in
    let (e4, x5) = both _ _ e5 in
    let (e3, x4) = both _ _ e4 in
    let (e2, x3) = both _ _ e3 in
    let (e1, x2) = both _ _ e2 in
    let (x0, x1) = both _ _ e1 in
    record {
      current = key-some v.id d.current_version_id x0;
      enabled = x1;
      active = active-version v.status x2;
      applies = applies-category product d x3;
      cited_document = (==_iff c.document_id d.id).0 x4;
      cited_version = (==_iff c.version_id v.id).0 x5;
      cited_name = (eq_iff c.document_name d.name).0 x6;
      cited_number = (==_iff c.version_number v.version_number).0 x7;
      cited_category = (eq_iff c.category d.category).0 x8;
      cited_text = (eq_iff c.canonical_text k.canonical_text).0 x9;
    }

holds-some :
    {A : Type 0} (p : A → Bool) (o : Option A)
    → holds p o ≡ true
    → (x : A) × (o ≡ some x) × (p x ≡ true)
holds-some p none e = absurd (false≢true e)
holds-some p (some x) e = (x, refl, e)

citation_valid-InForce :
    (product : Product) (db : KnowledgeDb) (c : RuleCitation)
    → citation_valid product db c ≡ true
    → InForce product db c
unfolding citation_valid get_version get_document
citation_valid-InForce product db c e =
    let (k, at_k, e1) = holds-some _ (find? (chunk_id_is c.chunk_id) db.chunks) e in
    let (v, at_v, e2) = holds-some _ (get_version k.version_id db.versions) e1 in
    let (d, at_d, q) =
      holds-some (λ (d : KnowledgeDocument). quotes product c k v d)
        (get_document v.document_id db.documents) e2 in
    let (row_k, is_k) = find?-Mem (chunk_id_is c.chunk_id) db.chunks at_k in
    let (row_v, is_v) =
      find?-Mem (λ (x : KnowledgeVersion). x.id == k.version_id) db.versions at_v in
    let (row_d, is_d) =
      find?-Mem (λ (x : KnowledgeDocument). x.id == v.document_id) db.documents at_d in
    record {
      chunk = k;
      chunk_row = row_k;
      chunk_id = (==_iff k.id c.chunk_id).0 is_k;
      version = v;
      version_row = row_v;
      version_id = (==_iff v.id k.version_id).0 is_v;
      document = d;
      document_row = row_d;
      document_id = (==_iff d.id v.document_id).0 is_d;
      quoted = quotes-Quoted product c k v d q;
    }

all_valid-InForce :
    (product : Product) (db : KnowledgeDb) (cs : List RuleCitation)
    → all_valid product db cs ≡ true
    → All (InForce product db) cs
unfolding all_valid
all_valid-InForce product db [] e = tt
all_valid-InForce product db (c ∷ cs) e = (
  citation_valid-InForce product db c (ground arith),
  all_valid-InForce product db cs (ground arith),
)

abbrev pub cited_chunk : RuleCitation → ℕ
cited_chunk c = c.chunk_id

uncited :
    (i : ℕ) (cs : List RuleCitation)
    → exists_where (cites i) cs ≡ false
    → All (λ c. cited_chunk c ≢ i) cs
unfolding exists_where
uncited i [] e = tt
uncited i (c ∷ cs) e = (
  λ same. let t = (==_iff c.chunk_id i).1 same in absurd (ground arith),
  uncited i cs (ground arith),
)

distinct-IsKeyed : (cs : List RuleCitation) → are_distinct cs ≡ true → IsKeyed cited_chunk cs
unfolding are_distinct
distinct-IsKeyed [] e = tt
distinct-IsKeyed (c ∷ cs) e =
    (uncited c.chunk_id cs (ground arith), distinct-IsKeyed cs (ground arith))

pub recheck-InForce :
    (product : Product) (citations : List RuleCitation) (db : KnowledgeDb)
    → recheck_canonical_citations product citations db ≡ true
    → IsKeyed cited_chunk citations × All (InForce product db) citations
unfolding recheck_canonical_citations
recheck-InForce product citations db e = (
  distinct-IsKeyed citations (ground arith),
  all_valid-InForce product db citations (ground arith),
)
