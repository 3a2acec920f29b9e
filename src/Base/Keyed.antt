-- ===== src/Base/Keyed.antt =====
-- Tables with a primary key, and how the rows of a table change.
use e_commerec_operations.Base.Sql.{All, find?, update_where}
use mathlib.Core.Option.{some, some-injective}
use Prim.Native.Nat.{ℕ}
use mathlib.Core.Path.{◌≡◌, refl, ◌∙◌, sym}
use mathlib.Core.Logic.{◌≢◌, inl, inr}
use mathlib.Core.Bool.{Bool, true, false}
use mathlib.Core.List.{List, [], ◌∷◌}
use e_commerec_operations.Base.Tests.{Bool-cases, ◌==◌, ==_iff, if◌then◌else◌}
use e_commerec_operations.Base.SqlLaws.{All-map, All-map₂, All-find?}

-- The rows of two tables of one length, pair by pair.
abbrev pub Rows {ℓ} : {A : Type ℓ} → (A → A → Type 0) → List A → List A → Type 0
Rows R [] [] = Unit
Rows R (x ∷ xs) (y ∷ ys) = R x y × Rows R xs ys
Rows R _ _ = ⊥

module _ {ℓ} {A : Type ℓ} (R : A → A → Type 0) where
  pub Rows-refl : ((x : A) → R x x) → (xs : List A) → Rows R xs xs
  Rows-refl r [] = tt
  Rows-refl r (x ∷ xs) = (r x, Rows-refl r xs)

  pub Rows-trans :
      ((x y z : A) → R x y → R y z → R x z)
      → (xs ys zs : List A) → Rows R xs ys
      → Rows R ys zs
      → Rows R xs zs
  Rows-trans t [] [] [] h k = tt
  Rows-trans t [] [] (z ∷ zs) h k = elim k [ ]
  Rows-trans t [] (y ∷ ys) zs h k = elim h [ ]
  Rows-trans t (x ∷ xs) [] zs h k = elim h [ ]
  Rows-trans t (x ∷ xs) (y ∷ ys) [] h k = elim k [ ]
  Rows-trans t (x ∷ xs) (y ∷ ys) (z ∷ zs) h k = (t x y z h.0 k.0, Rows-trans t xs ys zs h.1 k.1)

  -- An UPDATE changes each row that it selects, and no other.
  pub Rows-update_where :
      (p : A → Bool) (f : A → A)
      → ((x : A) → R x x)
      → (xs : List A) → All (λ x. p x ≡ true → R x (f x)) xs
      → Rows R xs (update_where p f xs)
  unfolding update_where
  Rows-update_where p f r [] h = tt
  Rows-update_where p f r (x ∷ xs) h = elim (Bool-cases (p x)) [
    | inl e ↦ rw e (h.0 e, Rows-update_where p f r xs h.1)
    | inr e ↦ rw e (r x, Rows-update_where p f r xs h.1)
  ]

pub Rows-map {ℓ} :
    {A : Type ℓ} (R S : A → A → Type 0)
    → ((x y : A) → R x y → S x y)
    → (xs ys : List A) → Rows R xs ys
    → Rows S xs ys
Rows-map R S f [] [] h = tt
Rows-map R S f [] (y ∷ ys) h = elim h [ ]
Rows-map R S f (x ∷ xs) [] h = elim h [ ]
Rows-map R S f (x ∷ xs) (y ∷ ys) h = (f x y h.0, Rows-map R S f xs ys h.1)

module _ {ℓ} {A : Type ℓ} (P : A → Type 0) where
  pub Rows-All : (xs ys : List A) → Rows (λ x y. P x → P y) xs ys → All P xs → All P ys
  Rows-All [] [] h k = tt
  Rows-All [] (y ∷ ys) h k = elim h [ ]
  Rows-All (x ∷ xs) [] h k = elim h [ ]
  Rows-All (x ∷ xs) (y ∷ ys) h k = (h.0 k.0, Rows-All xs ys h.1 k.1)

module _ {ℓ} {A : Type ℓ} (id : A → ℕ) where
  -- No two rows have one key.
  abbrev pub IsKeyed : List A → Type 0
  IsKeyed [] = Unit
  IsKeyed (x ∷ xs) = All (λ y. id y ≢ id x) xs × IsKeyed xs

  abbrev pub SameKey : A → A → Type 0
  SameKey x y = id y ≡ id x

  Rows-All_ne :
      (n : ℕ) (xs ys : List A)
      → Rows SameKey xs ys
      → All (λ y. id y ≢ n) xs
      → All (λ y. id y ≢ n) ys
  Rows-All_ne n [] [] h k = tt
  Rows-All_ne n [] (y ∷ ys) h k = elim h [ ]
  Rows-All_ne n (x ∷ xs) [] h k = elim h [ ]
  Rows-All_ne n (x ∷ xs) (y ∷ ys) h k = ((λ e. k.0 (sym h.0 ∙ e)), Rows-All_ne n xs ys h.1 k.1)

  pub Rows-IsKeyed : (xs ys : List A) → Rows SameKey xs ys → IsKeyed xs → IsKeyed ys
  Rows-IsKeyed [] [] h k = tt
  Rows-IsKeyed [] (y ∷ ys) h k = elim h [ ]
  Rows-IsKeyed (x ∷ xs) [] h k = elim h [ ]
  Rows-IsKeyed (x ∷ xs) (y ∷ ys) h k =
      (rw h.0 (Rows-All_ne (id x) xs ys h.1 k.0), Rows-IsKeyed xs ys h.1 k.1)

  -- A row that has the key of `d` is `d`.
  abbrev pub Determines : A → A → Type ℓ
  Determines d x = id x ≡ id d → x ≡ d

  pub IsKeyed-Determines : (xs : List A) → IsKeyed xs → All (λ d. All (Determines d) xs) xs
  IsKeyed-Determines [] h = tt
  IsKeyed-Determines (x ∷ xs) h = (
    ((λ e. refl), All-map (λ y. id y ≢ id x) (Determines x) (λ y ne e. absurd (ne e)) xs h.0),
    All-map₂ (λ y. id y ≢ id x) (λ d. All (Determines d) xs) (λ d. All (Determines d) (x ∷ xs))
        (λ d ne k. ((λ e. absurd (ne (sym e))), k)) xs h.0 (IsKeyed-Determines xs h.1),
  )

-- The row of a key, after its table has changed.
module _ {ℓ} {A : Type ℓ} (id : A → ℕ) (R : A → A → Type 0) where
  pub Rows-find? :
      ((x y : A) → R x y → id y ≡ id x)
      → (n : ℕ) (xs ys : List A) {x : A} → Rows R xs ys
      → find? (λ z. id z == n) xs ≡ some x
      → (y : A) × (find? (λ z. id z == n) ys ≡ some y) × R x y
  unfolding find?
  Rows-find? same n [] [] h e = cc
  Rows-find? same n [] (y ∷ ys) h e = elim h [ ]
  Rows-find? same n (x ∷ xs) [] h e = elim h [ ]
  Rows-find? same n (x ∷ xs) (y ∷ ys) {x = d} h e = elim (Bool-cases (id x == n)) [
    | inl t ↦
        let at_x : x ≡ d = some-injective _ _ (rw t at e) in
        (y, rw (same x y h.0, t), rw (← at_x) (h.0))
    | inr t ↦
        let (z, f, r) = Rows-find? same n xs ys h.1 (rw t at e) in (z, rw (same x y h.0, t) f, r)
  ]

module _ {ℓ} {A : Type ℓ} (R : A → A → Type 0) (P Q : A → Type 0) where
  pub Rows-All₂ :
      ((x y : A) → R x y → P x → Q y) → (xs ys : List A) → Rows R xs ys → All P xs → All Q ys
  Rows-All₂ f [] [] h k = tt
  Rows-All₂ f [] (y ∷ ys) h k = elim h [ ]
  Rows-All₂ f (x ∷ xs) [] h k = elim h [ ]
  Rows-All₂ f (x ∷ xs) (y ∷ ys) h k = (f x y h.0 k.0, Rows-All₂ f xs ys h.1 k.1)

module _ {ℓ} {A : Type ℓ} (id : A → ℕ) where
  -- A row that a test on its key and more finds is the row of that key.
  pub find?-IsKeyed :
      (p : A → Bool) (n : ℕ)
      → ((x : A) → p x ≡ true → id x ≡ n)
      → (xs : List A) {d : A} → IsKeyed id xs
      → find? p xs ≡ some d
      → find? (λ z. id z == n) xs ≡ some d
  unfolding find?
  find?-IsKeyed p n at_n [] keyed e = cc
  find?-IsKeyed p n at_n (x ∷ xs) {d} keyed e = elim (Bool-cases (p x)) [
    | inl t ↦ let k : some x ≡ some d = rw t at e in rw ((==_iff (id x) n).1 (at_n x t)) k
    | inr f ↦
        let later : find? p xs ≡ some d = rw f at e in
        let (ne, pd) = All-find? (λ y. id y ≢ id x) p xs later keyed.0 in
        elim (Bool-cases (id x == n)) [
          | inl t ↦ absurd (ne (at_n d pd ∙ sym ((==_iff (id x) n).0 t)))
          | inr g ↦ rw g (find?-IsKeyed p n at_n xs keyed.1 later)
        ]
  ]

  -- The row that is read after a row of its key has been written.
  pub find?-write :
      (n : ℕ) (d' : A)
      → id d' ≡ n
      → (xs : List A) {d : A} → find? (λ z. id z == n) xs ≡ some d
      → find? (λ z. id z == n) (update_where (λ z. id z == id d') (λ _. d') xs) ≡ some d'
  unfolding find? update_where
  find?-write n d' at_n [] e = cc
  find?-write n d' at_n (x ∷ xs) e = elim (Bool-cases (id x == n)) [
    | inl t ↦ let t' : (id x == id d') ≡ true = rw at_n t in rw t' (rw ((==_iff (id d') n).1 at_n))
    | inr f ↦
        let f' : (id x == id d') ≡ false = rw at_n f in
        rw (f', f) (find?-write n d' at_n xs (rw f at e))
  ]

  -- The row of a key after an UPDATE that selects it.
  pub find?-update_where :
      (p : A → Bool) (f : A → A)
      → ((x : A) → id (f x) ≡ id x)
      → (n : ℕ) (xs : List A) {d : A} → find? (λ z. id z == n) xs ≡ some d
      → find? (λ z. id z == n) (update_where p f xs) ≡ some (if p d then f d else d)
  unfolding find? update_where
  find?-update_where p f same n [] e = cc
  find?-update_where p f same n (x ∷ xs) {d} e = elim (Bool-cases (id x == n)) [
    | inl t ↦
        let is : x ≡ d = some-injective _ _ (rw t at e) in
        elim (Bool-cases (p x)) [ inl q ↦ rw (q, same x, t, ← is, q) | inr q ↦ rw (q, t, ← is, q) ]
    | inr g ↦ elim (Bool-cases (p x)) [
      | inl q ↦ rw (q, same x, g) (find?-update_where p f same n xs (rw g at e))
      | inr q ↦ rw (q, g) (find?-update_where p f same n xs (rw g at e))
    ]
  ]

module _ {ℓ} {A : Type ℓ} (id : A → ℕ) where
  -- Each row of a table is the one that its key finds.
  pub IsKeyed-found :
      (xs : List A) → IsKeyed id xs → All (λ x. find? (λ z. id z == id x) xs ≡ some x) xs
  unfolding find?
  IsKeyed-found [] h = tt
  IsKeyed-found (x ∷ xs) (fresh, keyed) = (
    rw ((==_iff (id x) (id x)).1 refl) refl,
    All-map₂ (λ y. id y ≢ id x) (λ y. find? (λ z. id z == id y) xs ≡ some y)
        (λ y. find? (λ z. id z == id y) (x ∷ xs) ≡ some y)
        (λ y ne e. elim (Bool-cases (id x == id y)) [
          | inl t ↦ absurd (ne (sym ((==_iff (id x) (id y)).0 t)))
          | inr f ↦ rw f e
        ])
        xs fresh (IsKeyed-found xs keyed),
  )
