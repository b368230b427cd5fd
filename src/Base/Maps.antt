-- ===== src/Base/Maps.antt =====
-- `map[string]V` as an association list. A write replaces the entry of its key or adds one at the
-- end; a key that is not there reads as `none`.
use mathlib.Core.Path.{◌≡◌, refl}
use mathlib.Core.Logic.{◌≢◌, ite}
use mathlib.Core.List.{List, [], ◌∷◌, map}
use mathlib.Core.Option.{Option, none, some}
use native.Mathlib.Omega.{arith}
use lite_mesh.Base.Bytes.{Text, text_dec}
use lite_mesh.Base.Lists.{All, Distinct}

module _ {V : Type 0} where
  unfoldable pub lookup : Text → List (Text × V) → Option V
  lookup k [] = none
  lookup k ((j, v) ∷ m) = ite (text_dec j k) (some v) (lookup k m)

  unfoldable pub insert : Text → V → List (Text × V) → List (Text × V)
  insert k v [] = (k, v) ∷ []
  insert k v ((j, w) ∷ m) = ite (text_dec j k) ((k, v) ∷ m) ((j, w) ∷ insert k v m)

  -- `for k, v := range src { dst[k] = v }`
  unfoldable pub insert_all : List (Text × V) → List (Text × V) → List (Text × V)
  insert_all [] dst = dst
  insert_all ((k, v) ∷ src) dst = insert_all src (insert k v dst)

  abbrev pub keys : List (Text × V) → List Text
  keys = map (λ e. e.0)

  -- A Go map has one entry for each key.
  abbrev pub IsMap : List (Text × V) → Type 0
  IsMap m = Distinct (keys m)

  abbrev pub or_else : Option V → Option V → Option V
  or_else none d = d
  or_else (some v) d = some v

  pub or_else_assoc : (x y z : Option V) → or_else x (or_else y z) ≡ or_else (or_else x y) z
  or_else_assoc none y z = refl
  or_else_assoc (some v) y z = refl

  pub lookup-insert :
      (k j : Text) (v : V) (m : List (Text × V))
      → lookup j (insert k v m) ≡ ite (text_dec k j) (some v) (lookup j m)
  unfolding lookup insert
  lookup-insert k j v [] = refl
  lookup-insert k j v ((i, w) ∷ m) = ground (arith, lookup-insert k j v m)

  lookup-absent : (k : Text) (m : List (Text × V)) → All (λ j. j ≢ k) (keys m) → lookup k m ≡ none
  unfolding lookup
  lookup-absent k [] h = refl
  lookup-absent k ((j, v) ∷ m) (h, hs) = ground (arith, lookup-absent k m hs)

  pub lookup-insert_all :
      (k : Text) (src dst : List (Text × V))
      → IsMap src
      → lookup k (insert_all src dst) ≡ or_else (lookup k src) (lookup k dst)
  unfolding lookup insert_all
  lookup-insert_all k [] dst h = refl
  lookup-insert_all k ((j, v) ∷ src) dst (h, hs) = ground (
    arith,
    lookup-insert_all k src (insert j v dst) hs,
    lookup-insert j k v dst,
    lookup-absent j src h,
  )

  -- Each entry of the first map is an entry of the second one.
  abbrev pub Includes : List (Text × V) → List (Text × V) → Type 0
  Includes m n = All (λ e. lookup e.0 n ≡ some e.1) m

  insert-fresh :
      (i k : Text) (v : V) (m : List (Text × V))
      → All (λ j. j ≢ i) (keys m)
      → k ≢ i
      → All (λ j. j ≢ i) (keys (insert k v m))
  unfolding insert
  insert-fresh i k v [] h n = (n, tt)
  insert-fresh i k v ((j, w) ∷ m) (h, hs) n = ground (arith, insert-fresh i k v m hs n)

  pub insert-IsMap : (k : Text) (v : V) (m : List (Text × V)) → IsMap m → IsMap (insert k v m)
  unfolding insert
  insert-IsMap k v [] h = (tt, tt)
  insert-IsMap k v ((j, w) ∷ m) (h, hs) =
      ground (arith, insert-IsMap k v m hs, insert-fresh j k v m h)

  pub insert_all-IsMap : (src dst : List (Text × V)) → IsMap dst → IsMap (insert_all src dst)
  unfolding insert_all
  insert_all-IsMap [] dst h = h
  insert_all-IsMap ((k, v) ∷ src) dst h =
      insert_all-IsMap src (insert k v dst) (insert-IsMap k v dst h)

  Includes-cons :
      (k : Text) (v : V) (m n : List (Text × V))
      → All (λ j. j ≢ k) (keys m)
      → Includes m n
      → Includes m ((k, v) ∷ n)
  unfolding lookup
  Includes-cons k v [] n h i = tt
  Includes-cons k v ((j, w) ∷ m) n (h, hs) (e, i) = (ground arith, Includes-cons k v m n hs i)

  pub Includes-refl : (m : List (Text × V)) → IsMap m → Includes m m
  unfolding lookup
  Includes-refl [] h = tt
  Includes-refl ((k, v) ∷ m) (h, hs) = (ground arith, Includes-cons k v m m h (Includes-refl m hs))

  -- An entry of an included map is read from the including one.
  pub lookup-Includes :
      (k : Text) (v : V) (m n : List (Text × V))
      → Includes m n
      → lookup k m ≡ some v
      → lookup k n ≡ some v
  unfolding lookup
  lookup-Includes k v [] n i e = cc
  lookup-Includes k v ((j, w) ∷ m) n (h, i) e = ground (arith, lookup-Includes k v m n i)
