-- ===== src/Base/Members.antt =====
-- What a search that finds a row says of the table.
use mathlib.Core.Path.{◌≡◌}
use mathlib.Core.Logic.{inl, inr}
use mathlib.Core.Bool.{Bool, true, false≢true}
use native.Mathlib.Omega.{arith}
use mathlib.Core.Option.{some, some-injective}
use mathlib.Core.List.{List, [], ◌∷◌, Mem, mem-cons_self, mem-cons_of_mem}
use e_commerec_operations.Base.Tests.{Bool-cases}
use e_commerec_operations.Base.Sql.{find?, exists_where}

module _ {ℓ} {A : Type ℓ} (p : A → Bool) where
  pub find?-Mem : (xs : List A) {x : A} → find? p xs ≡ some x → Mem x xs × (p x ≡ true)
  unfolding find?
  find?-Mem [] e = absurd (ground arith)
  find?-Mem (y ∷ ys) {x} e = elim (Bool-cases (p y)) [
    | inl t ↦ let same : y ≡ x = some-injective _ _ (rw t at e) in rw (← same) (mem-cons_self, t)
    | inr f ↦ let (m, t) = find?-Mem ys (rw f at e) in (mem-cons_of_mem y m, t)
  ]

  pub exists_where-Mem :
      (xs : List A) → exists_where p xs ≡ true → (x : A) × Mem x xs × (p x ≡ true)
  unfolding exists_where
  exists_where-Mem [] e = absurd (false≢true e)
  exists_where-Mem (y ∷ ys) e = elim (Bool-cases (p y)) [
    | inl t ↦ (y, mem-cons_self, t)
    | inr f ↦ let (x, m, t) = exists_where-Mem ys (rw f at e) in (x, mem-cons_of_mem y m, t)
  ]
