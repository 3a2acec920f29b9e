-- ===== src/Base/Exists.antt =====
-- Statements on `EXISTS`, under the operations on tables.
use Prim.Native.Nat.{ℕ}
use mathlib.Core.Path.{◌≡◌, refl, sym, ap, ◌∙◌}
use mathlib.Core.Logic.{inl, inr}
use mathlib.Core.Bool.{Bool, true, false, false≢true, ◌||◌}
use mathlib.Core.Option.{some, some-injective}
use mathlib.Core.List.{List, [], ◌∷◌, ◌++◌}
use native.Mathlib.Omega.{arith}
use e_commerec_operations.Base.Tests.{Bool-cases, if◌then◌else◌}
use e_commerec_operations.Base.Sql.{
  exists_where, select_where, find?, update_where, insert_by, order_by, earlier,
}

module _ {ℓ} {A : Type ℓ} where
  pub exists_where-append :
      (p : A → Bool) (xs ys : List A)
      → exists_where p (xs ++ ys) ≡ (exists_where p xs || exists_where p ys)
  unfolding exists_where
  exists_where-append p [] ys = refl
  exists_where-append p (x ∷ xs) ys = elim (Bool-cases (p x)) [
    | inl t ↦ rw t
    | inr f ↦ rw f (exists_where-append p xs ys)
  ]

  -- A row that the deletion keeps is there just if it was.
  pub exists_where-select_where :
      (p q : A → Bool)
      → ((x : A) → p x ≡ true → q x ≡ true)
      → (xs : List A) → exists_where p (select_where q xs) ≡ exists_where p xs
  unfolding exists_where select_where
  exists_where-select_where p q sub [] = refl
  exists_where-select_where p q sub (x ∷ xs) = elim (Bool-cases (q x)) [
    | inl t ↦ rw t (ap (λ b. p x || b) (exists_where-select_where p q sub xs))
    | inr f ↦ elim (Bool-cases (p x)) [
      | inl u ↦ absurd (false≢true (sym f ∙ sub x u))
      | inr u ↦ rw (f, u) (exists_where-select_where p q sub xs)
    ]
  ]

  -- A row that the deletion takes is gone.
  pub exists_where-deleted :
      (p q : A → Bool)
      → ((x : A) → p x ≡ true → q x ≡ false)
      → (xs : List A) → exists_where p (select_where q xs) ≡ false
  unfolding exists_where select_where
  exists_where-deleted p q out [] = refl
  exists_where-deleted p q out (x ∷ xs) = elim (Bool-cases (q x)) [
    | inl t ↦ elim (Bool-cases (p x)) [
      | inl u ↦ absurd (false≢true (sym (out x u) ∙ t))
      | inr u ↦ rw (t, u) (exists_where-deleted p q out xs)
    ]
    | inr f ↦ rw f (exists_where-deleted p q out xs)
  ]

  pub find?-select_where :
      (p q : A → Bool)
      → ((x : A) → p x ≡ true → q x ≡ true)
      → (xs : List A) → find? p (select_where q xs) ≡ find? p xs
  unfolding find? select_where
  find?-select_where p q sub [] = refl
  find?-select_where p q sub (x ∷ xs) = elim (Bool-cases (q x)) [
    | inl t ↦ rw t (ap (λ o. if p x then some x else o) (find?-select_where p q sub xs))
    | inr f ↦ elim (Bool-cases (p x)) [
      | inl u ↦ absurd (false≢true (sym f ∙ sub x u))
      | inr u ↦ rw (f, u) (find?-select_where p q sub xs)
    ]
  ]

  insert_by-exists_where :
      (key : A → ℕ × ℕ) (p : A → Bool) (x : A) (xs : List A)
      → exists_where p (insert_by key x xs) ≡ (p x || exists_where p xs)
  unfolding exists_where insert_by
  insert_by-exists_where key p x [] = refl
  insert_by-exists_where key p x (y ∷ ys) = elim (Bool-cases (earlier (key y) (key x))) [
    | inl t ↦ rw (t, insert_by-exists_where key p x ys) (swap_or (p y) (p x) (exists_where p ys))
    | inr f ↦ rw f
  ]
    where
      swap_or : (a b c : Bool) → (a || (b || c)) ≡ (b || (a || c))
      swap_or a b c = ground arith

  pub exists_where-order_by :
      (key : A → ℕ × ℕ) (p : A → Bool) (xs : List A)
      → exists_where p (order_by key xs) ≡ exists_where p xs
  unfolding exists_where order_by
  exists_where-order_by key p [] = refl
  exists_where-order_by key p (x ∷ xs) =
      insert_by-exists_where key p x (order_by key xs)
      ∙ ap (λ b. p x || b) (exists_where-order_by key p xs)

  -- A row found, that an UPDATE leaves or makes of a kind, is of that kind afterwards.
  pub exists_where-update_where :
      (r q p : A → Bool) (f : A → A) (xs : List A) {a : A}
      → find? r xs ≡ some a
      → q (if p a then f a else a) ≡ true
      → exists_where q (update_where p f xs) ≡ true
  unfolding find? exists_where update_where
  exists_where-update_where r q p f [] e h = cc
  exists_where-update_where r q p f (x ∷ xs) {a} e h = elim (Bool-cases (r x)) [
    | inl t ↦ let is : x ≡ a = some-injective _ _ (rw t at e) in rw (is, h)
    | inr g ↦
        let k = exists_where-update_where r q p f xs (rw g at e) h in
        rw k (or_true (q (if p x then f x else x)))
  ]
    where
      or_true : (b : Bool) → (b || true) ≡ true
      or_true b = ground arith

  -- A row found passes any test that it has.
  pub find?-exists_where :
      (r q : A → Bool) (xs : List A) {a : A}
      → find? r xs ≡ some a
      → q a ≡ true
      → exists_where q xs ≡ true
  unfolding find? exists_where
  find?-exists_where r q [] e h = cc
  find?-exists_where r q (x ∷ xs) {a} e h = elim (Bool-cases (r x)) [
    | inl t ↦ let is : x ≡ a = some-injective _ _ (rw t at e) in rw (is, h)
    | inr f ↦ elim (Bool-cases (q x)) [
      | inl u ↦ rw u
      | inr u ↦ rw u (find?-exists_where r q xs (rw f at e) h)
    ]
  ]

  -- A row found is found among the rows of any kind that it is of.
  pub find?-kept :
      (r q : A → Bool) (xs : List A) {a : A}
      → find? r xs ≡ some a
      → q a ≡ true
      → find? r (select_where q xs) ≡ some a
  unfolding find? select_where
  find?-kept r q [] e h = e
  find?-kept r q (x ∷ xs) {a} e h = elim (Bool-cases (r x)) [
    | inl t ↦
        let is : x ≡ a = some-injective _ _ (rw t at e) in
        let ra : r a ≡ true = rw is at t in rw (is, h, ra)
    | inr f ↦ elim (Bool-cases (q x)) [
      | inl u ↦ rw (u, f) (find?-kept r q xs (rw f at e) h)
      | inr u ↦ rw u (find?-kept r q xs (rw f at e) h)
    ]
  ]
