-- ===== src/Validation/Bounds.antt =====
-- What it means that the checks of the prices find nothing.
use native.Mathlib.Nat.{mul-le-mul_left}
use Prim.Native.String.{◌++◌ as ◌++s◌}
use e_commerec_operations.Base.{
  ==_iff, All, Bool, Bool-cases, List, Mem, Option, Option-cases, String, [], arith, contains,
  eq_iff, exists_where, exists_where-Mem, false, false≢true, if◌then◌else◌, inl, inr, leb, not,
  refl, some, str_eq, subst, suc, sym, true, zero, ℕ, ◌&&◌, ◌*◌, ◌++◌, ◌+◌, ◌<◌, ◌^◌, ◌||◌, ◌∷◌,
  ◌≡◌, ◌≢◌, ◌≤◌,
}
use e_commerec_operations.Validation.Evidence.{
  EvidenceKind, EvidenceRef, Price, Trusted, TrustedCitation, TrustedSku, Violation, add_to, added,
  check_citations, check_evidence, check_text, has_listed_citation, is_allowed, is_citation,
  listed_citations, same_violation, sku_by_id, when,
}
use e_commerec_operations.Validation.Prices.{
  PriceAdvice, cents, check_known, check_price, check_prices, check_range, check_sku, is_huge,
  is_positive, is_whole, percent_cents, price_violations, same_price,
}
use e_commerec_operations.Validation.Rounding.{half_up, half_up-above, half_up-below}

added-kept : (w : Violation) (seen calls : List Violation) → add_to (w ∷ seen) calls ≢ []
unfolding add_to
added-kept w seen [] e = ground arith
added-kept w seen (v ∷ vs) e = elim (Bool-cases (exists_where (same_violation v) (w ∷ seen))) [
  | inl t ↦
      added-kept w seen vs
        (subst (λ b. add_to (if b then w ∷ seen else (w ∷ seen) ++ v ∷ []) vs ≡ []) t e)
  | inr f ↦
      added-kept w (seen ++ v ∷ []) vs
        (subst (λ b. add_to (if b then w ∷ seen else (w ∷ seen) ++ v ∷ []) vs ≡ []) f e)
]

added-empty : (calls : List Violation) → added calls ≡ [] → calls ≡ []
unfolding add_to exists_where
added-empty [] e = refl
added-empty (v ∷ vs) e = absurd (added-kept v [] vs e)

append-empty : (vs ws : List Violation) → vs ++ ws ≡ [] → (vs ≡ []) × (ws ≡ [])
append-empty [] ws e = (refl, e)
append-empty (v ∷ vs) ws e = absurd (ground arith)

when-empty : (b : Bool) (code field : String) → when b code field ≡ [] → b ≡ false
unfolding when
when-empty true code field e = absurd (ground arith)
when-empty false code field e = refl

-- The suggested price is `c` cents, at least 70 % of the price less half a cent and at most 130 % of it
-- and half a cent more.
abbrev pub InRange : Price → Price → Type 0
InRange price suggested =
    (is_positive price ≡ true)
    × (is_positive suggested ≡ true)
    × ((c : ℕ) × (c * 10 ^ suggested.places ≡ suggested.digits * 100)
        × (140 * price.digits < 2 * 10 ^ price.places * c + 10 ^ price.places)
        × (2 * 10 ^ price.places * c ≤ 260 * price.digits + 10 ^ price.places))

-- An evidence that names a citation which the output lists and which is active and applicable in the input.
pub record RuleEvidence (trusted : Trusted) (listed : List String) (evidence : List EvidenceRef)
    : Type 0 where
  pub item : EvidenceRef
  pub item_row : Mem item evidence
  pub is_rule : item.kind ≡ EvidenceKind.citation
  pub is_listed : contains item.value listed ≡ true
  pub rule : TrustedCitation
  pub rule_row : Mem rule trusted.canonical_rule_citations
  pub named : rule.chunk_id ≡ item.value
  pub active : rule.active ≡ true
  pub applicable : rule.applicable ≡ true

citation-kind : (k : EvidenceKind) → is_citation k ≡ true → k ≡ EvidenceKind.citation
citation-kind EvidenceKind.citation e = refl
citation-kind EvidenceKind.fact e = absurd (false≢true e)

listed-RuleEvidence :
    (trusted : Trusted) (listed : List String) (evidence : List EvidenceRef)
    → has_listed_citation trusted listed evidence ≡ true
    → RuleEvidence trusted listed evidence
unfolding has_listed_citation
listed-RuleEvidence trusted listed evidence e =
    let (x, row, test) =
      exists_where-Mem
        (λ (x : EvidenceRef).
          is_citation x.kind && is_allowed trusted x.value && contains x.value listed)
        evidence e in
    let allowed : is_allowed trusted x.value ≡ true = ground arith in
    let (c, row_c, at) =
      exists_where-Mem
        (λ (c : TrustedCitation). c.active && c.applicable && str_eq c.chunk_id x.value)
        trusted.canonical_rule_citations allowed in
    record {
      item = x;
      item_row = row;
      is_rule = citation-kind x.kind (ground arith);
      is_listed = ground arith;
      rule = c;
      rule_row = row_c;
      named = (eq_iff c.chunk_id x.value).0 (ground arith);
      active = ground arith;
      applicable = ground arith;
    }

abbrev pub IsAccepted : Trusted → List String → PriceAdvice → Type 0
IsAccepted trusted listed s =
    (k : TrustedSku) × (sku_by_id s.target_sku_id trusted.skus ≡ some k)
    × (same_price s.current_price k.price ≡ true)
    × (has_listed_citation trusted listed s.evidence ≡ true)
    × RuleEvidence trusted listed s.evidence
    × InRange k.price s.suggested_price

bounds :
    (x d c : ℕ)
    → 0 < d
    → half_up (x * 70) d ≤ c
    → c ≤ half_up (x * 130) d
    → (140 * x < 2 * d * c + d) × (2 * d * c ≤ 260 * x + d)
bounds x d c h low high =
    let a = half_up-above (x * 70) d h in
    let b = half_up-below (x * 130) d in
    let e = mul-le-mul_left (2 * d) low in
    let f = mul-le-mul_left (2 * d) high in (omega arith, omega arith)

ten-positive : (n : ℕ) → 0 < 10 ^ n
ten-positive zero = omega arith
ten-positive (suc n) = let h = ten-positive n in omega arith

range-InRange :
    (field : String) (price suggested : Price)
    → is_positive price ≡ true
    → is_positive suggested ≡ true
    → check_range field price suggested ≡ []
    → InRange price suggested
unfolding check_range when
range-InRange field price suggested p s e = elim (Bool-cases (is_huge price || is_huge suggested)) [
  | inl huge ↦ absurd (ground arith)
  | inr small ↦ elim (Bool-cases (is_whole suggested)) [
    | inr broken ↦ absurd (ground arith)
    | inl whole ↦
        elim (Bool-cases (
          leb (percent_cents 70 price) (cents suggested)
          && leb (cents suggested) (percent_cents 130 price))) [
            | inr out ↦ absurd (ground arith)
            | inl within ↦
                let (low, high) =
                  bounds price.digits (10 ^ price.places) (cents suggested)
                    (ten-positive price.places) (ground arith) (ground arith) in
                (
                  p,
                  s,
                  (
                    cents suggested,
                    (==_iff (cents suggested * 10 ^ suggested.places) (suggested.digits * 100)).0
                        whole,
                    low,
                    high,
                  ),
                )
          ]
  ]
]

known-InRange :
    (field : String) (s : PriceAdvice) (k : TrustedSku)
    → check_known field s k ≡ []
    → (same_price s.current_price k.price ≡ true) × InRange k.price s.suggested_price
unfolding check_known
known-InRange field s k e =
    let same = when (not (same_price s.current_price k.price)) "PRICE_CURRENT_MISMATCH" field in
    let low = when (not (is_positive k.price)) "PRICE_CURRENT_NONPOSITIVE" field in
    let none_left = when (not (is_positive s.suggested_price)) "PRICE_NONPOSITIVE" field in
    let range = check_range field k.price s.suggested_price in
    let (e1, d) = append-empty (same ++ low ++ none_left) range e in
    let (e2, c) = append-empty (same ++ low) none_left e1 in
    let (a, b) = append-empty same low e2 in
    let a' =
      when-empty (not (same_price s.current_price k.price)) "PRICE_CURRENT_MISMATCH" field a in
    let b' = when-empty (not (is_positive k.price)) "PRICE_CURRENT_NONPOSITIVE" field b in
    let c' = when-empty (not (is_positive s.suggested_price)) "PRICE_NONPOSITIVE" field c in
    (ground arith, range-InRange field k.price s.suggested_price (ground arith) (ground arith) d)

price-IsAccepted :
    (index_of : List ℕ → Option ℕ) (trusted : Trusted) (listed seen : List String) (s : PriceAdvice)
    → check_price index_of trusted listed seen s ≡ []
    → IsAccepted trusted listed s
unfolding check_price check_sku
price-IsAccepted index_of trusted listed seen s e =
    let field = "price_suggestions." ++s s.target_sku_id in
    let twice = when (contains s.target_sku_id seen) "PRICE_TARGET_DUPLICATE" field in
    let facts = check_evidence index_of trusted listed (field ++s ".evidence") s.evidence in
    let cited =
      when (not (has_listed_citation trusted listed s.evidence)) "EVIDENCE_CITATION_INVALID"
        (field ++s ".evidence") in
    let text = check_text (field ++s ".reason") s.reason 1 500 in
    let sku = check_sku field s (sku_by_id s.target_sku_id trusted.skus) in
    let (e1, f) = append-empty (twice ++ facts ++ cited ++ text) sku e in
    let (e2, d) = append-empty (twice ++ facts ++ cited) text e1 in
    let c = (append-empty (twice ++ facts) cited e2).1 in
    let c' =
      when-empty (not (has_listed_citation trusted listed s.evidence)) "EVIDENCE_CITATION_INVALID"
        (field ++s ".evidence") c in
    let listed_ok : has_listed_citation trusted listed s.evidence ≡ true = ground arith in
    elim (Option-cases (sku_by_id s.target_sku_id trusted.skus)) [
      | inl missing ↦ absurd (
          false≢true (
            sym (
              when-empty true "PRICE_SKU_UNKNOWN" field
                (subst (λ o. check_sku field s o ≡ []) missing f))))
      | inr (k, found) ↦
          let (same, range) =
            known-InRange field s k (subst (λ o. check_sku field s o ≡ []) found f) in
          (
            k,
            found,
            same,
            listed_ok,
            listed-RuleEvidence trusted listed s.evidence listed_ok,
            range,
          )
    ]

prices-IsAccepted :
    (index_of : List ℕ → Option ℕ) (trusted : Trusted) (listed seen : List String)
    (advice : List PriceAdvice)
    → check_prices index_of trusted listed seen advice ≡ []
    → All (IsAccepted trusted listed) advice
unfolding check_prices
prices-IsAccepted index_of trusted listed seen [] e = tt
prices-IsAccepted index_of trusted listed seen (s ∷ ss) e =
    let (a, b) =
      append-empty (check_price index_of trusted listed seen s)
        (check_prices index_of trusted listed (s.target_sku_id ∷ seen) ss) e in
    (
      price-IsAccepted index_of trusted listed seen s a,
      prices-IsAccepted index_of trusted listed (s.target_sku_id ∷ seen) ss b,
    )

-- If the loops over the citations and the price suggestions find no violation, every price suggestion is
-- for a SKU of the product with its current price, among its evidence is a citation that the output lists
-- and that is active and applicable in the input, both prices are positive, and the suggested one is whole
-- cents, at least 70 % of the price less half a cent and at most 130 % of it and half a cent more.
pub price_violations-IsAccepted :
    (index_of : List ℕ → Option ℕ) (trusted : Trusted) (cited : List String)
    (advice : List PriceAdvice)
    → price_violations index_of trusted cited advice ≡ []
    → All (IsAccepted trusted (listed_citations trusted cited)) advice
unfolding price_violations
price_violations-IsAccepted index_of trusted cited advice e =
    let rest = check_prices index_of trusted (listed_citations trusted cited) [] advice in
    let calls = added-empty (check_citations trusted cited ++ rest) e in
    prices-IsAccepted index_of trusted (listed_citations trusted cited) [] advice
      (append-empty (check_citations trusted cited) rest calls).1
