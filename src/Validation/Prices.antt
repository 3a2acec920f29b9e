-- ===== src/Validation/Prices.antt =====
-- The loop of `validate_optimization_output` over the price suggestions. The product of a price with 0.70
-- or 1.30 is exact, as it is up to 28 digits; the column of a price has 12.
use Prim.Native.String.{◌++◌ as ◌++s◌}
use e_commerec_operations.Base.{
  Bool, List, Option, String, [], contains, false, if◌then◌else◌, leb, ltb, none, not, some, true,
  ℕ, ◌&&◌, ◌*◌, ◌++◌, ◌+◌, ◌==◌, ◌^◌, ◌||◌, ◌∷◌,
}
use e_commerec_operations.Validation.Evidence.{
  EvidenceRef, Price, Trusted, TrustedSku, Violation, add_to, added, check_citations,
  check_evidence, check_text, has_listed_citation, listed_citations, sku_by_id, when,
}
use e_commerec_operations.Validation.Rounding.{half_up}

pub record PriceAdvice : Type 0 where
  pub target_sku_id : String
  pub current_price : Price
  pub suggested_price : Price
  pub reason : String
  pub evidence : List EvidenceRef

abbrev pub is_positive : Price → Bool
is_positive p = not p.negative && ltb 0 p.digits

same_sign : Bool → Bool → Bool
same_sign true b = b
same_sign false b = not b

-- `a == b`: the signs of zeros do not count
unfoldable pub same_price : Price → Price → Bool
unfolding same_sign
same_price a b =
    a.digits * 10 ^ b.places == b.digits * 10 ^ a.places
    && (a.digits == 0 || same_sign a.negative b.negative)

-- `p.adjusted() >= 25`
abbrev pub is_huge : Price → Bool
is_huge p = leb (10 ^ (25 + p.places)) p.digits

-- p * percent / 100 of a positive price, in cents
abbrev pub percent_cents : ℕ → Price → ℕ
percent_cents percent p = half_up (p.digits * percent) (10 ^ p.places)

abbrev pub cents : Price → ℕ
cents = percent_cents 100

abbrev pub is_whole : Price → Bool
is_whole p = cents p * 10 ^ p.places == p.digits * 100

unfoldable pub check_range : String → Price → Price → List Violation
unfolding when half_up
check_range field price suggested =
    if is_huge price || is_huge suggested
    then when true "PRICE_RANGE" field
    else if not (is_whole suggested)
    then when true "PRICE_PRECISION" field
    else when
        (is_positive price
          && is_positive suggested
          && not (
              leb (percent_cents 70 price) (cents suggested)
              && leb (cents suggested) (percent_cents 130 price)))
        "PRICE_RANGE" field

unfoldable pub check_known : String → PriceAdvice → TrustedSku → List Violation
unfolding when check_range same_price
check_known field s k =
    when (not (same_price s.current_price k.price)) "PRICE_CURRENT_MISMATCH" field
    ++ when (not (is_positive k.price)) "PRICE_CURRENT_NONPOSITIVE" field
    ++ when (not (is_positive s.suggested_price)) "PRICE_NONPOSITIVE" field
    ++ check_range field k.price s.suggested_price

unfoldable pub check_sku : String → PriceAdvice → Option TrustedSku → List Violation
unfolding when check_known
check_sku field s none = when true "PRICE_SKU_UNKNOWN" field
check_sku field s (some k) = check_known field s k

unfoldable pub check_price :
    (List ℕ → Option ℕ) → Trusted → List String → List String → PriceAdvice → List Violation
unfolding when check_evidence has_listed_citation check_text sku_by_id check_sku
check_price index_of trusted listed seen s =
    let field = "price_suggestions." ++s s.target_sku_id in
    when (contains s.target_sku_id seen) "PRICE_TARGET_DUPLICATE" field
    ++ check_evidence index_of trusted listed (field ++s ".evidence") s.evidence
    ++ when (not (has_listed_citation trusted listed s.evidence)) "EVIDENCE_CITATION_INVALID"
        (field ++s ".evidence")
    ++ check_text (field ++s ".reason") s.reason 1 500
    ++ check_sku field s (sku_by_id s.target_sku_id trusted.skus)

unfoldable pub check_prices :
    (List ℕ → Option ℕ) → Trusted → List String → List String → List PriceAdvice → List Violation
unfolding check_price
check_prices index_of trusted listed seen [] = []
check_prices index_of trusted listed seen (s ∷ ss) =
    check_price index_of trusted listed seen s
    ++ check_prices index_of trusted listed (s.target_sku_id ∷ seen) ss

-- the loops over the citations and the prices, one after the other
unfoldable pub price_violations :
    (List ℕ → Option ℕ) → Trusted → List String → List PriceAdvice → List Violation
unfolding check_citations listed_citations check_prices add_to
price_violations index_of trusted cited advice = added (
    check_citations trusted cited
    ++ check_prices index_of trusted (listed_citations trusted cited) [] advice)
