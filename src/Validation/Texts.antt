-- ===== src/Validation/Texts.antt =====
-- `str.startswith`, `str.split(".")`, `str.rpartition(".")` and `in` of Python, on code points.
use e_commerec_operations.Base.{
  Bool, List, Option, String, [], codes, exists_where, false, if◌then◌else◌, is_none, none, not,
  some, true, ℕ, ◌&&◌, ◌==◌, ◌||◌, ◌∷◌,
}

-- what is left of a text after a prefix
unfoldable pub after_prefix : List ℕ → List ℕ → Option (List ℕ)
after_prefix [] cs = some cs
after_prefix (p ∷ ps) [] = none
after_prefix (p ∷ ps) (c ∷ cs) = let rest = after_prefix ps cs in if p == c then rest else none

unfoldable pub is_within : List ℕ → List ℕ → Bool
unfolding after_prefix
is_within p [] = not (is_none (after_prefix p []))
is_within p (c ∷ cs) = let rest = is_within p cs in not (is_none (after_prefix p (c ∷ cs))) || rest

begin_part : ℕ → List (List ℕ) → List (List ℕ)
begin_part c [] = (c ∷ []) ∷ []
begin_part c (part ∷ parts) = (c ∷ part) ∷ parts

unfoldable pub split_dots : List ℕ → List (List ℕ)
unfolding begin_part
split_dots [] = [] ∷ []
split_dots (c ∷ cs) =
    let parts = split_dots cs in if c == 46 then [] ∷ parts else begin_part c parts

unfoldable pub last_dot : List ℕ → Option (List ℕ × List ℕ)
last_dot [] = none
last_dot (c ∷ cs) = elim (last_dot cs) [
  | some (before, after) ↦ some (c ∷ before, after)
  | none ↦ if c == 46 then some ([], cs) else none
]

unfoldable pub same_codes : List ℕ → List ℕ → Bool
same_codes [] [] = true
same_codes (a ∷ l) (b ∷ m) = a == b && same_codes l m
same_codes _ _ = false

abbrev pub is_one_of : List ℕ → List String → Bool
is_one_of cs names = exists_where (λ name. same_codes (codes name) cs) names
