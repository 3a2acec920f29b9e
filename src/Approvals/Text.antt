-- ===== src/Approvals/Text.antt =====
-- `str.strip` and `str.join` of Python, as far as backend/approvals.py and backend/schemas.py use
-- them.
use e_commerec_operations.Base.{
  Bool, List, String, [], codes, exists_where, if◌then◌else◌, leb, length, ℕ, ◌&&◌, ◌==◌, ◌∷◌,
}

-- The code points that `str.isspace` accepts.
abbrev spaces : List ℕ
spaces =
    9 ∷ 10 ∷ 11 ∷ 12 ∷ 13 ∷ 28 ∷ 29 ∷ 30 ∷ 31 ∷ 32 ∷ 133 ∷ 160 ∷ 5760 ∷ 8192 ∷ 8193 ∷ 8194 ∷ 8195
    ∷ 8196 ∷ 8197 ∷ 8198 ∷ 8199 ∷ 8200 ∷ 8201 ∷ 8202 ∷ 8232 ∷ 8233 ∷ 8239 ∷ 8287 ∷ 12288 ∷ []

is_space : ℕ → Bool
is_space c = exists_where (λ s. s == c) spaces

lstrip : List ℕ → List ℕ
unfolding is_space
lstrip [] = []
lstrip (c ∷ cs) = let rest = lstrip cs in if is_space c then rest else c ∷ cs

rstrip : List ℕ → List ℕ
unfolding is_space
rstrip [] = []
rstrip (c ∷ cs) = elim (rstrip cs) [ [] ↦ if is_space c then [] else c ∷ [] | d ∷ ds ↦ c ∷ d ∷ ds ]

-- `len(value.strip())`
unfoldable pub stripped_length : String → ℕ
unfolding lstrip rstrip
stripped_length value = length (lstrip (rstrip (codes value)))

-- `1 <= len(value.strip()) <= limit`
abbrev pub fits : ℕ → String → Bool
fits limit value = leb 1 (stripped_length value) && leb (stripped_length value) limit
