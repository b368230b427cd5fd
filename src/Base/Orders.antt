-- ===== src/Base/Orders.antt =====
-- The orders of a list, and what does not depend on them. Go walks a map in an order of its own choice.
use mathlib.Core.Path.{◌≡◌, refl, sym, ap, subst, ◌∙◌}
use mathlib.Core.Logic.{◌≢◌}
use mathlib.Core.List.{List, [], ◌∷◌, ◌++◌, map, Permᴰ}
use mathlib.Core.Bool.{Bool, true, false}
use native.Mathlib.Omega.{arith}
use lite_mesh.Base.Tests.{if◌then◌else◌}
use lite_mesh.Base.Bytes.{Text, text_dec}
use lite_mesh.Base.Lists.{All, Distinct, keep}
use lite_mesh.Base.Maps.{lookup, keys, IsMap}

-- The same entries in another order.
abbrev pub Reorders {ℓ} : {A : Type ℓ} → List A → List A → Type ℓ
Reorders xs ys = Permᴰ xs ys

module _ {A : Type 0} where
  reordered_refl : (xs : List A) → Reorders xs xs
  reordered_refl [] = Permᴰ.nil
  reordered_refl (x ∷ xs) = Permᴰ.cons refl (reordered_refl xs)

  pub All-Reorders : (P : A → Type 0) (xs ys : List A) → Reorders xs ys → All P xs → All P ys
  All-Reorders P _ _ Permᴰ.nil h = tt
  All-Reorders P _ _ (Permᴰ.cons {l₁ = xs} {l₂ = ys} e p) (h, hs) =
      (subst P e h, All-Reorders P xs ys p hs)
  All-Reorders P _ _ (Permᴰ.swap e f) (h, (k, hs)) = (subst P f k, (subst P e h, hs))
  All-Reorders P xs zs (Permᴰ.trans {l₂ = ys} p q) h =
      All-Reorders P ys zs q (All-Reorders P xs ys p h)

  pub Distinct-Reorders : (xs ys : List A) → Reorders xs ys → Distinct xs → Distinct ys
  Distinct-Reorders _ _ Permᴰ.nil h = tt
  Distinct-Reorders _ _ (Permᴰ.cons {a = a} {b = b} {l₁ = xs} {l₂ = ys} e p) (h, hs) = (
    subst (λ x. All (λ y. y ≢ x) ys) e (All-Reorders (λ y. y ≢ a) xs ys p h),
    Distinct-Reorders xs ys p hs,
  )
  Distinct-Reorders _ _ (Permᴰ.swap {a = a} {b = b} {a' = a'} {b' = b'} {l = l} e f)
        ((n, h), (k, hs)) =
      (
        ((λ same. n (f ∙ sym same ∙ sym e)), subst (λ x. All (λ y. y ≢ x) l) f k),
        (subst (λ x. All (λ y. y ≢ x) l) e h, hs),
      )
  Distinct-Reorders xs zs (Permᴰ.trans {l₂ = ys} p q) h =
      Distinct-Reorders ys zs q (Distinct-Reorders xs ys p h)

  pub map-Reorders :
      {B : Type 0} (f : A → B) (xs ys : List A) → Reorders xs ys → Reorders (map f xs) (map f ys)
  map-Reorders f _ _ Permᴰ.nil = Permᴰ.nil
  map-Reorders f _ _ (Permᴰ.cons {l₁ = xs} {l₂ = ys} e p) =
      Permᴰ.cons (ap f e) (map-Reorders f xs ys p)
  map-Reorders f _ _ (Permᴰ.swap e g) = Permᴰ.swap (ap f e) (ap f g)
  map-Reorders f xs zs (Permᴰ.trans {l₂ = ys} p q) =
      Permᴰ.trans (map-Reorders f xs ys p) (map-Reorders f ys zs q)

  pub append-Reorders : (xs ys zs : List A) → Reorders ys zs → Reorders (xs ++ ys) (xs ++ zs)
  append-Reorders [] ys zs p = p
  append-Reorders (x ∷ xs) ys zs p = Permᴰ.cons refl (append-Reorders xs ys zs p)

  keep-cons :
      (f : A → Bool) (a b : A) (xs ys : List A)
      → a ≡ b
      → Reorders (keep f xs) (keep f ys)
      → Reorders (keep f (a ∷ xs)) (keep f (b ∷ ys))
  keep-cons f a b xs ys e p =
      subst (λ x. Reorders (keep f (a ∷ xs)) (keep f (x ∷ ys))) e (kept (f a))
    where
      kept :
          (t : Bool)
          → Reorders
              (if t then a ∷ keep f xs else keep f xs)
              (if t then a ∷ keep f ys else keep f ys)
      kept true = Permᴰ.cons refl p
      kept false = p

  keep-swap :
      (f : A → Bool) (a b : A) (xs : List A) → Reorders (keep f (a ∷ b ∷ xs)) (keep f (b ∷ a ∷ xs))
  keep-swap f a b xs = kept (f a) (f b)
    where
      kept :
          (t u : Bool)
          → Reorders
              (if t
                then a ∷ (if u then b ∷ keep f xs else keep f xs)
                else if u
                then b ∷ keep f xs
                else keep f xs)
              (if u
                then b ∷ (if t then a ∷ keep f xs else keep f xs)
                else if t
                then a ∷ keep f xs
                else keep f xs)
      kept true true = Permᴰ.swap refl refl
      kept true false = reordered_refl (a ∷ keep f xs)
      kept false true = reordered_refl (b ∷ keep f xs)
      kept false false = reordered_refl (keep f xs)

  pub keep-Reorders :
      (f : A → Bool) (xs ys : List A) → Reorders xs ys → Reorders (keep f xs) (keep f ys)
  keep-Reorders f _ _ Permᴰ.nil = Permᴰ.nil
  keep-Reorders f _ _ (Permᴰ.cons {a = a} {b = b} {l₁ = xs} {l₂ = ys} e p) =
      keep-cons f a b xs ys e (keep-Reorders f xs ys p)
  keep-Reorders f _ _ (Permᴰ.swap {a = a} {b = b} {a' = a'} {b' = b'} {l = l} e g) =
      subst (λ x. Reorders (keep f (a ∷ b ∷ l)) (keep f (x ∷ b' ∷ l))) g
        (subst (λ x. Reorders (keep f (a ∷ b ∷ l)) (keep f (b ∷ x ∷ l))) e (keep-swap f a b l))
  keep-Reorders f xs zs (Permᴰ.trans {l₂ = ys} p q) =
      Permᴰ.trans (keep-Reorders f xs ys p) (keep-Reorders f ys zs q)

module _ {V : Type 0} where
  pub IsMap-Reorders : (m n : List (Text × V)) → Reorders m n → IsMap m → IsMap n
  IsMap-Reorders m n p h = Distinct-Reorders (keys m) (keys n) (map-Reorders (λ e. e.0) m n p) h

  lookup-swap :
      (k : Text) (a b : Text × V) (l : List (Text × V))
      → b.0 ≢ a.0
      → lookup k (a ∷ b ∷ l) ≡ lookup k (b ∷ a ∷ l)
  unfolding lookup text_dec
  lookup-swap k (i, v) (j, w) l n = ground arith

  -- What a map holds does not depend on the order of its entries.
  pub lookup-Reorders :
      (k : Text) (m n : List (Text × V)) → Reorders m n → IsMap m → lookup k m ≡ lookup k n
  unfolding lookup
  lookup-Reorders k _ _ Permᴰ.nil h = refl
  lookup-Reorders k _ _ (Permᴰ.cons {a = (i, v)} {b = b} {l₁ = xs} {l₂ = ys} e p) (h, hs) =
      ground (arith, lookup-Reorders k xs ys p hs)
  lookup-Reorders k _ _ (Permᴰ.swap {a = a} {b = b} {a' = a'} {b' = b'} {l = l} e f) ((n, h), hs) =
      lookup-swap k a b l n ∙ ap (λ x. lookup k (x ∷ a ∷ l)) f ∙ ap (λ x. lookup k (a' ∷ x ∷ l)) e
  lookup-Reorders k m n (Permᴰ.trans {l₂ = l} p q) h =
      lookup-Reorders k m l p h ∙ lookup-Reorders k l n q (IsMap-Reorders m l p h)
