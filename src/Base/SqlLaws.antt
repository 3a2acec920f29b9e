-- ===== src/Base/SqlLaws.antt =====
-- Statements about every row, under the operations on tables.
use mathlib.Core.List.{head?}
use Prim.Native.Nat.{ℕ}
use mathlib.Core.Path.{◌≡◌, subst, refl, sym, ◌∙◌}
use mathlib.Core.Logic.{inl, inr}
use mathlib.Core.Bool.{Bool, true, false, false≢true}
use mathlib.Core.Option.{none, some, some-injective}
use mathlib.Core.Logic.{◌≢◌}
use mathlib.Core.List.{List, [], ◌∷◌}
use native.Mathlib.Omega.{arith}
use e_commerec_operations.Base.Tests.{Bool-cases}
use e_commerec_operations.Base.Sql.{
  All, exists_where, select_where, find?, update_where, insert_by, order_by, earlier,
}

module _ {ℓ κ} {A : Type ℓ} (P : A → Type κ) where
  pub All-select_where :
      (p : A → Bool) (xs : List A) → All P xs → All (λ x. P x × (p x ≡ true)) (select_where p xs)
  unfolding select_where
  All-select_where p [] h = tt
  All-select_where p (x ∷ xs) (px, h) = elim (Bool-cases (p x)) [
    | inl e ↦ rw e ((px, e), All-select_where p xs h)
    | inr e ↦ rw e (All-select_where p xs h)
  ]

  pub All-update_where :
      (p : A → Bool) (f : A → A) (xs : List A)
      → ((x : A) → P x → p x ≡ true → P (f x))
      → All P xs
      → All P (update_where p f xs)
  unfolding update_where
  All-update_where p f [] keep h = tt
  All-update_where p f (x ∷ xs) keep (px, h) = elim (Bool-cases (p x)) [
    | inl e ↦ rw e (keep x px e, All-update_where p f xs keep h)
    | inr e ↦ rw e (px, All-update_where p f xs keep h)
  ]

  pub All-find? :
      (p : A → Bool) (xs : List A) {a : A} → find? p xs ≡ some a → All P xs → P a × (p a ≡ true)
  unfolding find?
  All-find? p [] e h = cc
  All-find? p (x ∷ xs) {a} e (px, h) = elim (Bool-cases (p x)) [
    | inl t ↦ subst (λ y. P y × (p y ≡ true)) (some-injective _ _ (rw t at e)) (px, t)
    | inr t ↦ All-find? p xs (rw t at e) h
  ]

  pub All-insert_by :
      (key : A → ℕ × ℕ) (x : A) (xs : List A) → P x → All P xs → All P (insert_by key x xs)
  unfolding insert_by
  All-insert_by key x [] px h = (px, tt)
  All-insert_by key x (y ∷ ys) px (py, h) = elim (Bool-cases (earlier (key y) (key x))) [
    | inl e ↦ rw e (py, All-insert_by key x ys px h)
    | inr e ↦ rw e (px, (py, h))
  ]

  pub All-order_by : (key : A → ℕ × ℕ) (xs : List A) → All P xs → All P (order_by key xs)
  unfolding order_by
  All-order_by key [] h = tt
  All-order_by key (x ∷ xs) (px, h) =
      All-insert_by key x (order_by key xs) px (All-order_by key xs h)

  insert_by-All :
      (key : A → ℕ × ℕ) (x : A) (xs : List A) → All P (insert_by key x xs) → P x × All P xs
  unfolding insert_by
  insert_by-All key x [] h = h
  insert_by-All key x (y ∷ ys) h = elim (Bool-cases (earlier (key y) (key x))) [
    | inl e ↦
        let k : P y × All P (insert_by key x ys) = rw e at h in
        let r = insert_by-All key x ys k.1 in (r.0, (k.0, r.1))
    | inr e ↦ rw e at h
  ]

  pub order_by-All : (key : A → ℕ × ℕ) (xs : List A) → All P (order_by key xs) → All P xs
  unfolding order_by
  order_by-All key [] h = tt
  order_by-All key (x ∷ xs) h =
      let r = insert_by-All key x (order_by key xs) h in (r.0, order_by-All key xs r.1)

  pub All-of : ((x : A) → P x) → (xs : List A) → All P xs
  All-of f [] = tt
  All-of f (x ∷ xs) = (f x, All-of f xs)

  pub All-head? : (xs : List A) {a : A} → head? xs ≡ some a → All P xs → P a
  All-head? [] e h = cc
  All-head? (x ∷ xs) e (px, h) = subst P (some-injective _ _ e) px

module _ {ℓ κ μ} {A : Type ℓ} (P : A → Type κ) (Q : A → Type μ) where
  pub All-map : ((x : A) → P x → Q x) → (xs : List A) → All P xs → All Q xs
  All-map f [] h = tt
  All-map f (x ∷ xs) (px, h) = (f x px, All-map f xs h)

module _ {ℓ κ μ ν} {A : Type ℓ} (P : A → Type κ) (Q : A → Type μ) (S : A → Type ν) where
  pub All-map₂ : ((x : A) → P x → Q x → S x) → (xs : List A) → All P xs → All Q xs → All S xs
  All-map₂ f [] h k = tt
  All-map₂ f (x ∷ xs) (px, h) (qx, k) = (f x px qx, All-map₂ f xs h k)

-- `order_by` puts first a row that no other one precedes.
module _ {ℓ} {A : Type ℓ} (key : A → ℕ × ℕ) where
  -- `a` is not after `b`
  abbrev pub NotAfter : A → A → Type 0
  NotAfter a b = earlier (key b) (key a) ≡ false

  earlier-NotAfter : (a b c : A) → earlier (key a) (key b) ≡ true → NotAfter b c → NotAfter a c
  earlier-NotAfter a b c h k = ground arith

  NotAfter-trans : (a b c : A) → NotAfter a b → NotAfter b c → NotAfter a c
  NotAfter-trans a b c h k = ground arith

  data IsOrdered : List A → Type ℓ where
    nil : IsOrdered []
    cons : {x : A} {xs : List A} → All (NotAfter x) xs → IsOrdered xs → IsOrdered (x ∷ xs)

  insert_by-IsOrdered : (x : A) (xs : List A) → IsOrdered xs → IsOrdered (insert_by key x xs)
  unfolding insert_by
  insert_by-IsOrdered x [] h = cons tt nil
  insert_by-IsOrdered x (y ∷ ys) (cons below h) = elim (Bool-cases (earlier (key y) (key x))) [
    | inl e ↦ rw e (
        cons (All-insert_by (NotAfter y) key x ys (earlier-NotAfter y x x e (ground arith)) below)
          (insert_by-IsOrdered x ys h))
    | inr e ↦ rw e (
        cons (e, All-map (NotAfter y) (NotAfter x) (λ z. NotAfter-trans x y z e) ys below)
          (cons below h))
  ]

  order_by-IsOrdered : (xs : List A) → IsOrdered (order_by key xs)
  unfolding order_by
  order_by-IsOrdered [] = nil
  order_by-IsOrdered (x ∷ xs) = insert_by-IsOrdered x (order_by key xs) (order_by-IsOrdered xs)

  head-NotAfter : {a : A} (xs : List A) → IsOrdered xs → head? xs ≡ some a → All (NotAfter a) xs
  head-NotAfter [] h e = tt
  head-NotAfter (x ∷ xs) (cons below h) e =
      subst (λ y. All (NotAfter y) (x ∷ xs)) (some-injective _ _ e) (ground arith, below)

  -- The first row of an `ORDER BY` comes after no row of the table.
  pub head?-order_by :
      {a : A} (xs : List A) → head? (order_by key xs) ≡ some a → All (NotAfter a) xs
  head?-order_by {a} xs e =
      order_by-All (NotAfter a) key xs (head-NotAfter (order_by key xs) (order_by-IsOrdered xs) e)

pub find?-test {ℓ} :
    {A : Type ℓ} (p : A → Bool) (xs : List A) {a : A} → find? p xs ≡ some a → p a ≡ true
find?-test p xs e = (All-find? (λ _. Unit {0}) p xs e (All-of (λ _. Unit {0}) (λ _. tt) xs)).1

module _ {ℓ} {A : Type ℓ} (p : A → Bool) where
  pub exists_where-All : (xs : List A) → exists_where p xs ≡ false → All (λ x. p x ≡ false) xs
  unfolding exists_where
  exists_where-All [] e = tt
  exists_where-All (x ∷ xs) e = elim (Bool-cases (p x)) [
    | inl t ↦ absurd (false≢true (sym e ∙ rw t))
    | inr f ↦ (f, exists_where-All xs (rw f at e))
  ]

  pub All-exists_where : (xs : List A) → All (λ x. p x ≡ false) xs → exists_where p xs ≡ false
  unfolding exists_where
  All-exists_where [] h = refl
  All-exists_where (x ∷ xs) (e, h) = rw e (All-exists_where xs h)

module _ {ℓ κ} {A : Type ℓ} (P : A → Type κ) where
  pub select_where-All :
      (p : A → Bool) (xs : List A) → All P (select_where p xs) → All (λ x. p x ≡ true → P x) xs
  unfolding select_where
  select_where-All p [] h = tt
  select_where-All p (x ∷ xs) h = elim (Bool-cases (p x)) [
    | inl t ↦
        let k : P x × All P (select_where p xs) = rw t at h in
        ((λ _. k.0), select_where-All p xs k.1)
    | inr f ↦ ((λ t. absurd (false≢true (sym f ∙ t))), select_where-All p xs (rw f at h))
  ]

module _ {ℓ} {A : Type ℓ} (key : A → ℕ × ℕ) where
  insert_by-ne-nil : (x : A) (xs : List A) → head? (insert_by key x xs) ≢ none
  unfolding insert_by
  insert_by-ne-nil x [] e = cc
  insert_by-ne-nil x (y ∷ ys) e = elim (Bool-cases (earlier (key y) (key x))) [
    | inl t ↦ let k : head? (y ∷ insert_by key x ys) ≡ none = rw t at e in cc
    | inr f ↦ let k : head? (x ∷ y ∷ ys) ≡ none = rw f at e in cc
  ]

  -- An ordered selection has no first row just when no row passes its test.
  pub head?-none :
      (p : A → Bool) (xs : List A)
      → head? (order_by key (select_where p xs)) ≡ none
      → All (λ x. p x ≡ false) xs
  unfolding order_by select_where
  head?-none p [] e = tt
  head?-none p (x ∷ xs) e = elim (Bool-cases (p x)) [
    | inl t ↦ absurd (insert_by-ne-nil x (order_by key (select_where p xs)) (rw t at e))
    | inr f ↦ (f, head?-none p xs (rw f at e))
  ]

pub find?-none {ℓ} :
    {A : Type ℓ} (p : A → Bool) (xs : List A) → All (λ x. p x ≡ false) xs → find? p xs ≡ none
unfolding find?
find?-none p [] h = refl
find?-none p (x ∷ xs) (e, h) = rw e (find?-none p xs h)
