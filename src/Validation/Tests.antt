-- ===== src/Validation/Tests.antt =====
-- A price of 10.00 that a rule allows to rise to 12.50, and not to 13.01.
use e_commerec_operations.Base.{
  All, List, Option, [], exists_where, false, none, refl, select_where, true, ℕ, ◌∷◌, ◌≡◌,
}
use e_commerec_operations.Validation.Bounds.{IsAccepted, price_violations-IsAccepted}
use e_commerec_operations.Validation.Evidence.{EvidenceKind, Price, Trusted, listed_citations}
use e_commerec_operations.Validation.Prices.{PriceAdvice, price_violations}

abbrev ten_yuan : Price
ten_yuan = record { negative = false; digits = 1000; places = 2 }

abbrev offered : Trusted
offered = record {
  attributes = "color" ∷ [];
  skus = record { id = "s1"; price = ten_yuan } ∷ [];
  candidate_metrics = "clicks" ∷ [];
  candidate_evidence = 1;
  canonical_rule_citations = record { chunk_id = "c1"; active = true; applicable = true } ∷ [];
}

abbrev no_index : List ℕ → Option ℕ
no_index part = none

abbrev advised : ℕ → PriceAdvice
advised digits = record {
  target_sku_id = "s1";
  current_price = ten_yuan;
  suggested_price = record { negative = false; digits = digits; places = 2 };
  reason = "cost";
  evidence =
      record { kind = EvidenceKind.citation; value = "c1" }
      ∷ record { kind = EvidenceKind.fact; value = "product.skus.s1.price" }
      ∷ [];
}

nothing_found : price_violations no_index offered ("c1" ∷ []) (advised 1250 ∷ []) ≡ []
unfolding price_violations exists_where select_where
nothing_found = refl

too_high :
    price_violations no_index offered ("c1" ∷ []) (advised 1301 ∷ [])
    ≡ record { code = "PRICE_RANGE"; field = "price_suggestions.s1" } ∷ []
unfolding price_violations exists_where select_where
too_high = refl

price_violations-IsAccepted_example :
    All (IsAccepted offered (listed_citations offered ("c1" ∷ []))) (advised 1250 ∷ [])
price_violations-IsAccepted_example =
    price_violations-IsAccepted no_index offered ("c1" ∷ []) (advised 1250 ∷ []) nothing_found
