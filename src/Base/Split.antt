-- ===== src/Base/Split.antt =====
-- `strings.Split` at a separator of one byte, as Go's standard library documents it.
use Prim.Native.Nat.{ℕ}
use mathlib.Core.Path.{◌≡◌, refl}
use mathlib.Core.Logic.{◌≢◌}
use mathlib.Core.List.{List, [], ◌∷◌, ◌++◌}
use native.Mathlib.Omega.{arith}
use lite_mesh.Base.Tests.{◌==◌, if◌then◌else◌}
use mathlib.Core.Option.{none}
use lite_mesh.Base.Lists.{All, get_elem?}
use lite_mesh.Base.Bytes.{Text}

-- No byte of the text is `c`.
abbrev pub Lacks : ℕ → Text → Type 0
Lacks c = All (λ b. b ≢ c)

abbrev pub grow : ℕ → List Text → List Text
grow c [] = (c ∷ []) ∷ []
grow c (p ∷ ps) = (c ∷ p) ∷ ps

unfoldable pub split : ℕ → Text → List Text
split sep [] = [] ∷ []
split sep (c ∷ s) = let rest = split sep s in if c == sep then [] ∷ rest else grow c rest

pub split-Lacks : (sep : ℕ) (a : Text) → Lacks sep a → split sep a ≡ a ∷ []
unfolding split
split-Lacks sep [] h = refl
split-Lacks sep (c ∷ a) (h, hs) = ground (arith, split-Lacks sep a hs)

pub split-append : (sep : ℕ) (a b : Text) → Lacks sep a → split sep (a ++ sep ∷ b) ≡ a ∷ split sep b
unfolding split
split-append sep [] b h = ground arith
split-append sep (c ∷ a) b (h, hs) = ground (arith, split-append sep a b hs)

split-first : (sep : ℕ) (s : Text) → get_elem? (split sep s) 0 ≢ none
unfolding split
split-first sep [] e = ground arith
split-first sep (c ∷ s) e = ground (arith, split-first sep s)

grow-second : (c : ℕ) (ps : List Text) → get_elem? (grow c ps) 1 ≡ get_elem? ps 1
grow-second c [] = refl
grow-second c (p ∷ ps) = refl

pub split-second : (sep : ℕ) (s : Text) → get_elem? (split sep s) 1 ≡ none → Lacks sep s
unfolding split
split-second sep [] e = tt
split-second sep (c ∷ s) e = (
  ground (arith, split-first sep s),
  ground (arith, split-first sep s, grow-second c (split sep s), split-second sep s),
)
