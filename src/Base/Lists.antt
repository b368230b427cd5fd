-- ===== src/Base/Lists.antt =====
-- Lists measured and indexed by native numbers, and predicates on their entries.
use Prim.Native.Nat.{ℕ, zero, suc, ◌+◌}
use mathlib.Core.Path.{◌≡◌, sym, subst}
use mathlib.Core.Bool.{Bool}
use lite_mesh.Base.Tests.{if◌then◌else◌}
use mathlib.Core.Logic.{◌≢◌, ◌⊎◌, inl, inr}
use mathlib.Core.List.{List, [], ◌∷◌, ◌++◌}
use mathlib.Core.Option.{Option, none, some}
use native.Mathlib.Omega.{arith}

module _ {ℓ} {A : Type ℓ} where
  abbrev pub length : List A → ℕ
  length [] = 0
  length (x ∷ xs) = suc (length xs)

  abbrev pub get_elem? : List A → ℕ → Option A
  get_elem? [] i = none
  get_elem? (x ∷ xs) zero = some x
  get_elem? (x ∷ xs) (suc i) = get_elem? xs i

  pub length-append : (xs ys : List A) → length (xs ++ ys) ≡ length xs + length ys
  length-append [] ys = omega arith
  length-append (x ∷ xs) ys = omega (arith, length-append xs ys)

module _ {ℓ κ} {A : Type ℓ} (P : A → Type κ) where
  abbrev pub All : List A → Type κ
  All [] = Unit
  All (x ∷ xs) = P x × All xs

  pub All-append : (xs ys : List A) → All xs → All ys → All (xs ++ ys)
  All-append [] ys _ hy = hy
  All-append (x ∷ xs) ys (px, hx) hy = (px, All-append xs ys hx hy)

-- The entry `x` occurs in the list.
abbrev pub In : {A : Type 0} → A → List A → Type 0
In x [] = ⊥
In x (y ∷ ys) = (y ≡ x) ⊎ In x ys

pub In-remove :
    {A : Type 0} (xs ys : List A) (x y : A) → In x (xs ++ y ∷ ys) → (y ≡ x) ⊎ In x (xs ++ ys)
In-remove [] ys x y h = h
In-remove (z ∷ xs) ys x y (inl e) = inr (inl e)
In-remove (z ∷ xs) ys x y (inr h) = elim (In-remove xs ys x y h) [
  | inl e ↦ inl e
  | inr k ↦ inr (inr k)
]

-- The entries that pass a test.
abbrev pub keep : {A : Type 0} → (A → Bool) → List A → List A
keep f [] = []
keep f (x ∷ xs) = if f x then x ∷ keep f xs else keep f xs

-- No entry occurs twice.
abbrev pub Distinct {ℓ} : {A : Type ℓ} → List A → Type ℓ
Distinct [] = Unit
Distinct (x ∷ xs) = All (λ y. y ≢ x) xs × Distinct xs

module _ {A : Type 0} where
  pub All-imp : (P Q : A → Type 0) (xs : List A) → ((x : A) → P x → Q x) → All P xs → All Q xs
  All-imp P Q [] f h = tt
  All-imp P Q (x ∷ xs) f (h, hs) = (f x h, All-imp P Q xs f hs)

  pub Distinct-append :
      (xs ys : List A)
      → Distinct xs
      → Distinct ys
      → All (λ x. All (λ y. y ≢ x) ys) xs
      → Distinct (xs ++ ys)
  Distinct-append [] ys h k d = k
  Distinct-append (x ∷ xs) ys (h, hs) k (d, ds) =
      (All-append (λ y. y ≢ x) xs ys h d, Distinct-append xs ys hs k ds)

-- An entry of a list, and the list without it.
module _ {A : Type 0} where
  pub All-In : (P : A → Type 0) (x : A) (xs : List A) → All P xs → In x xs → P x
  All-In P x [] h i = elim i [ ]
  All-In P x (y ∷ xs) (h, hs) (inl e) = subst P e h
  All-In P x (y ∷ xs) (h, hs) (inr i) = All-In P x xs hs i

  pub All-middle : (P : A → Type 0) (xs ys : List A) (i : A) → All P (xs ++ i ∷ ys) → P i
  All-middle P [] ys i (p, h) = p
  All-middle P (x ∷ xs) ys i (p, h) = All-middle P xs ys i h

  pub All-remove :
      (P : A → Type 0) (xs ys : List A) (i : A) → All P (xs ++ i ∷ ys) → All P (xs ++ ys)
  All-remove P [] ys i (p, h) = h
  All-remove P (x ∷ xs) ys i (p, h) = (p, All-remove P xs ys i h)

  pub Distinct-remove :
      (xs ys : List A) (i : A)
      → Distinct (xs ++ i ∷ ys)
      → Distinct (xs ++ ys) × All (λ y. y ≢ i) (xs ++ ys)
  Distinct-remove [] ys i (h, d) = (d, h)
  Distinct-remove (x ∷ xs) ys i (h, d) =
      let (d', h') = Distinct-remove xs ys i d in
      (
        (All-remove (λ y. y ≢ x) xs ys i h, d'),
        (λ e. All-middle (λ y. y ≢ x) xs ys i h (sym e), h'),
      )

-- The first entry, and the last one, satisfy a predicate.
module _ {A : Type 0} (P : A → Type 0) where
  abbrev pub Starts : List A → Type 0
  Starts [] = ⊥
  Starts (x ∷ xs) = P x

  abbrev pub Ends : List A → Type 0
  Ends [] = ⊥
  Ends (x ∷ []) = P x
  Ends (x ∷ y ∷ xs) = Ends (y ∷ xs)

  pub Ends-append : (xs ys : List A) → Ends ys → Ends (xs ++ ys)
  Ends-append [] ys h = h
  Ends-append (x ∷ []) [] h = elim h [ ]
  Ends-append (x ∷ []) (y ∷ ys) h = h
  Ends-append (x ∷ z ∷ xs) ys h = Ends-append (z ∷ xs) ys h
