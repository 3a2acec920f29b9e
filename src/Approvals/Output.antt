-- ===== src/Approvals/Output.antt =====
-- The output of the optimization that a revision holds, and the listing that it makes of a product.
use mathlib.Core.Option
use Prim.Native.String.{◌++◌ as ◌++s◌}
use e_commerec_operations.Approvals.Tables.{Attributes, Product, Snapshot}
use e_commerec_operations.Base.{
  Bool, List, Option, String, [], false, find?, holds, if◌then◌else◌, str_eq, true, ℕ, ◌&&◌, ◌==◌,
  ◌∷◌,
}

pub record DescriptionSection : Type 0 where
  pub heading : String
  pub body : String

pub record AttributeCompletion : Type 0 where
  pub target_attribute : String
  pub current_value : Option String
  pub suggested_value : String

-- A `Decimal`, as its sign, its digits and how many of them follow the point.
pub record Decimal : Type 0 where
  pub negative : Bool
  pub digits : ℕ
  pub places : ℕ

pub record PriceSuggestion : Type 0 where
  pub target_sku_id : ℕ
  pub current_price : Decimal

pub record SkuSuggestion : Type 0 where
  pub target_sku_id : ℕ
  pub current_code : String
  pub current_spec : Attributes

-- `OptimizationProposalOutput`, as far as a publication reads it
pub record OptimizationOutput : Type 0 where
  pub title : String
  pub selling_points : List String
  pub description : List DescriptionSection
  pub keywords : List String
  pub attribute_completions : List AttributeCompletion
  pub price_suggestions : List PriceSuggestion
  pub sku_suggestions : List SkuSuggestion

abbrev has_name : String → String × String → Bool
has_name name e = str_eq e.0 name

unfoldable pub value_of : String → Attributes → Option String
value_of name attributes = Option.map (λ e. e.1) (find? (has_name name) attributes)

-- `d[name] = value`: in place, or at the end
unfoldable pub set_value : String → String → Attributes → Attributes
set_value name value [] = (name, value) ∷ []
set_value name value (e ∷ es) =
    let rest = set_value name value es in if has_name name e then (name, value) ∷ es else e ∷ rest

-- `{**attributes, **{target: suggested …}}`
unfoldable pub completed_attributes : List AttributeCompletion → Attributes → Attributes
unfolding set_value
completed_attributes [] attributes = attributes
completed_attributes (c ∷ cs) attributes =
    completed_attributes cs (set_value c.target_attribute c.suggested_value attributes)

-- `a == b` of dicts: each has the entries of the other
unfoldable pub has_entries : Attributes → Attributes → Bool
unfolding value_of
has_entries a [] = true
has_entries a (e ∷ es) = holds (λ v. str_eq v e.1) (value_of e.0 a) && has_entries a es

abbrev pub same_dict : Attributes → Attributes → Bool
same_dict a b = has_entries a b && has_entries b a

unfoldable pub same_texts : List String → List String → Bool
same_texts [] [] = true
same_texts (s ∷ ss) (t ∷ ts) = str_eq s t && same_texts ss ts
same_texts _ _ = false

-- `"\n\n".join(f"{section.heading}\n{section.body}" …)`
unfoldable pub described : List DescriptionSection → String
described [] = ""
described (s ∷ []) = s.heading ++s "\n" ++s s.body
described (s ∷ t ∷ ss) = s.heading ++s "\n" ++s s.body ++s "\n\n" ++s described (t ∷ ss)

-- `_product_snapshot`
abbrev pub product_snapshot : Product → Snapshot
product_snapshot p = record {
  title = p.title;
  selling_points = p.selling_points;
  description = p.description;
  search_keywords = p.search_keywords;
  attributes = p.attributes;
  current_version = p.current_version;
}

unfoldable pub same_snapshot : Snapshot → Snapshot → Bool
unfolding same_texts has_entries
same_snapshot a b =
    str_eq a.title b.title
    && same_texts a.selling_points b.selling_points
    && str_eq a.description b.description
    && same_texts a.search_keywords b.search_keywords
    && same_dict a.attributes b.attributes
    && a.current_version == b.current_version

-- what the output makes of attributes, as the version `n`
unfoldable pub listing : OptimizationOutput → Attributes → ℕ → Snapshot
unfolding described completed_attributes
listing o attributes n = record {
  title = o.title;
  selling_points = o.selling_points;
  description = described o.description;
  search_keywords = o.keywords;
  attributes = completed_attributes o.attribute_completions attributes;
  current_version = n;
}

abbrev pub with_listing : Snapshot → Product → Product
with_listing s p = record p {
  title = s.title;
  selling_points = s.selling_points;
  description = s.description;
  search_keywords = s.search_keywords;
  attributes = s.attributes;
  current_version = s.current_version;
}
