-- ===== src/Base/Tables.antt =====
-- Tables with a primary key whose rows all have a property, under INSERT and UPDATE by key.
use Prim.Native.Nat.{ℕ}
use mathlib.Core.Path.{◌≡◌, subst, refl, sym}
use mathlib.Core.Logic.{◌≢◌, inl, inr}
use mathlib.Core.Bool.{Bool, true, false}
use mathlib.Core.Option.{none, some, some-injective}
use mathlib.Core.List.{List, [], ◌∷◌}
use e_commerec_operations.Base.Tests.{==_iff, ◌==◌, Bool-cases, if◌then◌else◌}
use e_commerec_operations.Base.Sql.{All, find?, update_where}
use e_commerec_operations.Base.SqlLaws.{All-find?, All-map, All-of}
use e_commerec_operations.Base.Keyed.{
  Determines, IsKeyed, IsKeyed-Determines, Rows-All, Rows-IsKeyed, Rows-update_where, SameKey,
}

module _ {ℓ} {A : Type ℓ} (id : A → ℕ) (P : A → Type 0) where
  abbrev pub IsTable : List A → Type 0
  IsTable xs = IsKeyed id xs × All P xs

  pub IsTable-insert :
      (x : A) (xs : List A) → All (λ y. id y ≢ id x) xs → P x → IsTable xs → IsTable (x ∷ xs)
  IsTable-insert x xs fresh px (keyed, h) = ((fresh, keyed), (px, h))

  -- The row found at a key is changed.
  pub IsTable-update :
      (f : A → A)
      → ((x : A) → id (f x) ≡ id x)
      → (n : ℕ) (xs : List A) {d : A} → find? (λ z. id z == n) xs ≡ some d
      → (P d → P (f d))
      → IsTable xs
      → IsTable (update_where (λ z. id z == id d) f xs)
  IsTable-update f same n xs {d} e keep (keyed, h) =
      let det =
        (All-find? (λ x. All (Determines id x) xs) (λ z. id z == n) xs e
          (IsKeyed-Determines id xs keyed)).0 in
      let p : A → Bool = λ z. id z == id d in
      (
        Rows-IsKeyed id xs (update_where p f xs)
            (Rows-update_where (SameKey id) p f (λ x. refl) xs
              (All-of (λ x. p x ≡ true → SameKey id x (f x)) (λ x t. same x) xs))
            keyed,
        Rows-All P xs (update_where p f xs)
            (Rows-update_where (λ x y. P x → P y) p f (λ x px. px) xs
              (All-map (Determines id d) (λ x. p x ≡ true → P x → P (f x))
                (λ x dx t. subst (λ y. P y → P (f y)) (sym (dx ((==_iff (id x) (id d)).0 t))) keep)
                xs det))
            h,
      )

-- An UPDATE that keeps the key.
module _ {ℓ} {A : Type ℓ} (id : A → ℕ) (p : A → Bool) (f : A → A)
    (same : (x : A) → id (f x) ≡ id x) where
  pub update-IsKeyed : (xs : List A) → IsKeyed id xs → IsKeyed id (update_where p f xs)
  update-IsKeyed xs = Rows-IsKeyed id xs (update_where p f xs) (
      Rows-update_where (SameKey id) p f (λ x. refl) xs
        (All-of (λ x. p x ≡ true → SameKey id x (f x)) (λ x t. same x) xs))

  -- A row found after it was there before.
  pub find?-updated :
      (n : ℕ) (xs : List A) {y : A}
      → find? (λ z. id z == n) (update_where p f xs) ≡ some y
      → (x : A) × (find? (λ z. id z == n) xs ≡ some x) × (y ≡ (if p x then f x else x))
  unfolding find? update_where
  find?-updated n [] e = cc
  find?-updated n (x ∷ xs) {y} e = elim (Bool-cases (p x)) [
    | inl q ↦ elim (Bool-cases (id x == n)) [
      | inl t ↦ (x, rw t, rw q (sym (some-injective _ _ (rw (q, same x, t) at e))))
      | inr g ↦ let (z, k, is) = find?-updated n xs (rw (q, same x, g) at e) in (z, rw g k, is)
    ]
    | inr q ↦ elim (Bool-cases (id x == n)) [
      | inl t ↦ (x, rw t, rw q (sym (some-injective _ _ (rw (q, t) at e))))
      | inr g ↦ let (z, k, is) = find?-updated n xs (rw (q, g) at e) in (z, rw g k, is)
    ]
  ]

module _ {ℓ} {A : Type ℓ} where
  pub find?-missing : (p : A → Bool) (xs : List A) → find? p xs ≡ none → All (λ x. p x ≡ false) xs
  unfolding find?
  find?-missing p [] e = tt
  find?-missing p (x ∷ xs) e = elim (Bool-cases (p x)) [
    | inl t ↦ let k : some x ≡ none = rw t at e in absurd cc
    | inr f ↦ (f, find?-missing p xs (rw f at e))
  ]
