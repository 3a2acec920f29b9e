-- ===== src/Validation/Evidence.antt =====
-- The helpers inside `validate_optimization_output`, and its loop over the citations. Each check is the
-- list of the calls of `add` that it makes; `added` is what they leave. The product's facts are those of
-- the trusted input that an evidence can name.
use e_commerec_operations.Base.{
  Bool, List, Option, String, [], codes, contains, exists_where, false, holds, if◌then◌else◌, leb,
  length, ltb, none, not, select_where, some, str_eq, true, ℕ, ◌&&◌, ◌++◌, ◌∷◌,
}
use e_commerec_operations.Validation.Texts.{
  after_prefix, is_one_of, is_within, last_dot, same_codes, split_dots,
}

pub data EvidenceKind : Type 0 where
  fact citation : EvidenceKind

pub record EvidenceRef : Type 0 where
  pub kind : EvidenceKind
  pub value : String

-- A `Decimal`: its coefficient and how many of its digits follow the point. A positive exponent is
-- written out.
pub record Price : Type 0 where
  pub negative : Bool
  pub digits : ℕ
  pub places : ℕ

pub record TrustedSku : Type 0 where
  pub id : String
  pub price : Price

pub record TrustedCitation : Type 0 where
  pub chunk_id : String
  pub active : Bool
  pub applicable : Bool

-- The keys of the attributes, the metrics that are not None, and how many texts of evidence there are.
pub record Trusted : Type 0 where
  pub attributes : List String
  pub skus : List TrustedSku
  pub candidate_metrics : List String
  pub candidate_evidence : ℕ
  pub canonical_rule_citations : List TrustedCitation

pub record Violation : Type 0 where
  pub code : String
  pub field : String

abbrev pub same_violation : Violation → Violation → Bool
same_violation v w = str_eq v.code w.code && str_eq v.field w.field

-- `add`, of each call in turn
unfoldable pub add_to : List Violation → List Violation → List Violation
add_to seen [] = seen
add_to seen (v ∷ vs) =
    add_to (if exists_where (same_violation v) seen then seen else seen ++ v ∷ []) vs

abbrev pub added : List Violation → List Violation
added calls = add_to [] calls

unfoldable pub when : Bool → String → String → List Violation
when true code field = record { code = code; field = field } ∷ []
when false code field = []

-- the last one of a key, as in a dict
unfoldable pub sku_by_id : String → List TrustedSku → Option TrustedSku
sku_by_id i [] = none
sku_by_id i (k ∷ ks) = elim (sku_by_id i ks) [
  | some later ↦ some later
  | none ↦ if str_eq k.id i then some k else none
]

abbrev pub is_allowed : Trusted → String → Bool
is_allowed trusted i =
    exists_where (λ c. c.active && c.applicable && str_eq c.chunk_id i)
      trusted.canonical_rule_citations

abbrev product_facts : List String
product_facts =
    "product.title" ∷ "product.category" ∷ "product.brand" ∷ "product.selling_points"
    ∷ "product.description" ∷ "product.search_keywords" ∷ []

abbrev sku_facts : List String
sku_facts = "code" ∷ "spec" ∷ "price" ∷ "stock" ∷ []

sku_path : Trusted → List ℕ → Bool
unfolding last_dot same_codes
sku_path trusted rest = elim (last_dot rest) [
  | none ↦ false
  | some (sku_id, field) ↦
      exists_where (λ k. same_codes (codes k.id) sku_id) trusted.skus && is_one_of field sku_facts
]

-- `parts[2].isdigit() and int(parts[2]) < …`
indexed : ℕ → Option ℕ → Bool
indexed n i = holds (λ k. ltb k n) i

candidate_path : (List ℕ → Option ℕ) → Trusted → List (List ℕ) → Bool
unfolding same_codes indexed
candidate_path index_of trusted (first ∷ second ∷ third ∷ []) =
    same_codes (codes "candidate") first
    && (if same_codes (codes "metrics") second
        then is_one_of third trusted.candidate_metrics
        else same_codes (codes "evidence") second
          && indexed trusted.candidate_evidence (index_of third))
candidate_path index_of trusted _ = false

-- `index_of` is `int(part)` if `part.isdigit()`. The texts that `isdigit` accepts and `int` refuses, on
-- which the source raises ValueError, are outside of the model.
unfoldable pub valid_fact_path : (List ℕ → Option ℕ) → Trusted → String → Bool
unfolding after_prefix split_dots sku_path candidate_path same_codes
valid_fact_path index_of trusted path =
    if contains path product_facts
    then true
    else elim (after_prefix (codes "product.attributes.") (codes path)) [
      | some name ↦ is_one_of name trusted.attributes
      | none ↦ elim (after_prefix (codes "product.skus.") (codes path)) [
        | some rest ↦ sku_path trusted rest
        | none ↦ candidate_path index_of trusted (split_dots (codes path))
      ]
    ]

abbrev pub is_citation : EvidenceKind → Bool
is_citation EvidenceKind.citation = true
is_citation EvidenceKind.fact = false

-- `check_evidence`: the calls, and whether a listed citation is among the evidence
check_item : (List ℕ → Option ℕ) → Trusted → List String → String → EvidenceRef → List Violation
unfolding valid_fact_path when
check_item index_of trusted listed field e =
    if is_citation e.kind
    then if not (is_allowed trusted e.value)
      then when true "EVIDENCE_CITATION_INVALID" field
      else when (not (contains e.value listed)) "CITATION_EVIDENCE_UNLISTED" field
    else when (not (valid_fact_path index_of trusted e.value)) "EVIDENCE_FACT_PATH_INVALID" field

check_items :
    (List ℕ → Option ℕ) → Trusted → List String → String → List EvidenceRef → List Violation
unfolding check_item
check_items index_of trusted listed field [] = []
check_items index_of trusted listed field (e ∷ es) =
    check_item index_of trusted listed field e ++ check_items index_of trusted listed field es

unfoldable pub has_listed_citation : Trusted → List String → List EvidenceRef → Bool
has_listed_citation trusted listed evidence =
    exists_where (λ e. is_citation e.kind && is_allowed trusted e.value && contains e.value listed)
      evidence

unfoldable pub check_evidence :
    (List ℕ → Option ℕ) → Trusted → List String → String → List EvidenceRef → List Violation
unfolding check_items when
check_evidence index_of trusted listed field [] = when true "EVIDENCE_MISSING" field
check_evidence index_of trusted listed field (e ∷ es) =
    check_items index_of trusted listed field (e ∷ es)

abbrev restricted_phrases : List String
restricted_phrases =
    "治疗" ∷ "治愈" ∷ "疗效" ∷ "药到病除" ∷ "100%安全" ∷ "绝对安全" ∷ "保证" ∷ "永久有效" ∷ "全网最低" ∷ "第一名" ∷ []

unfoldable pub check_text : String → String → ℕ → ℕ → List Violation
unfolding when is_within
check_text field value minimum maximum =
    when (not (leb minimum (length (codes value)) && leb (length (codes value)) maximum))
      "OUTPUT_BUSINESS_LENGTH" field
    ++ when (exists_where (λ phrase. is_within (codes phrase) (codes value)) restricted_phrases)
        "RESTRICTED_PHRASE" field

-- The loop over the citations of the output: its calls, and the citations that it lists.
citations_from : Trusted → List String → List String → List Violation
unfolding when
citations_from trusted seen [] = []
citations_from trusted seen (i ∷ is) =
    when (contains i seen) "CITATION_DUPLICATE" "citations"
    ++ when (not (is_allowed trusted i)) "CITATION_UNKNOWN" "citations"
    ++ citations_from trusted (i ∷ seen) is

unfoldable pub check_citations : Trusted → List String → List Violation
unfolding citations_from when
check_citations trusted cited =
    citations_from trusted [] cited
    ++ when (ltb 20 (length cited)) "OUTPUT_BUSINESS_LENGTH" "citations"

unfoldable pub listed_citations : Trusted → List String → List String
listed_citations trusted cited = select_where (is_allowed trusted) cited
