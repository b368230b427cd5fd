-- ===== src/Base/Decimal.antt =====
-- The verb `%d` of `fmt.Sprintf`, at unsigned and at signed integers.
use Prim.Native.Nat.{ℕ, zero, suc, ◌+◌, ◌-◌, ◌*◌, ◌/◌, ◌%◌, ◌≤◌, ◌<◌}
use mathlib.Core.Path.{◌≡◌, refl, sym, ap, ◌∙◌}
use mathlib.Core.Logic.{◌≢◌}
use mathlib.Core.List.{[], ◌∷◌, ◌++◌}
use native.Mathlib.Omega.{arith}
use lite_mesh.Base.Tests.{ltb, if◌then◌else◌}
use lite_mesh.Base.Lists.{length, length-append, All, All-append, Ends, Ends-append}
use lite_mesh.Base.Bytes.{Text}
use lite_mesh.Base.Split.{Lacks}

-- `negsuc n` is -(n + 1).
pub data ℤ : Type 0 where
  pos : ℕ → ℤ
  negsuc : ℕ → ℤ

-- The first argument bounds the number of digits.
digits : ℕ → ℕ → Text
digits zero n = []
digits (suc fuel) n =
    let front = digits fuel (n / 10) in
    let last = (b'0' + n % 10) ∷ [] in if ltb n 10 then last else front ++ last

unfoldable pub format : ℕ → Text
unfolding digits
format n = digits (suc n) n

unfoldable pub format_int : ℤ → Text
unfolding format
format_int (pos n) = format n
format_int (negsuc n) = b'-' ∷ format (suc n)

value : ℕ → Text → ℕ
value n [] = n
value n (c ∷ s) = value (n * 10 + (c - b'0')) s

value-append : (n : ℕ) (s : Text) (c : ℕ) → value n (s ++ c ∷ []) ≡ value n s * 10 + (c - b'0')
unfolding value
value-append n [] c = refl
value-append n (d ∷ s) c = value-append (n * 10 + (d - b'0')) s c

value-one : (c : ℕ) → value 0 (c ∷ []) ≡ c - b'0'
unfolding value
value-one c = omega arith

value-digits : (fuel n : ℕ) → n < fuel → value 0 (digits fuel n) ≡ n
unfolding digits
value-digits zero n h = elim h [ ]
value-digits (suc fuel) n h = ground (
  arith,
  value-digits fuel (n / 10),
  value-append 0 (digits fuel (n / 10)) (b'0' + n % 10),
  value-one (b'0' + n % 10),
)

-- A decimal text spells one number only.
pub format-injective : (a b : ℕ) → format a ≡ format b → a ≡ b
unfolding format
format-injective a b e =
    sym (value-digits (suc a) a (omega arith))
    ∙ ap (value 0) e
    ∙ value-digits (suc b) b (omega arith)

abbrev pub IsDigit : ℕ → Type 0
IsDigit c = (b'0' ≤ c) × (c ≤ b'9')

digits-IsDigit : (fuel n : ℕ) → All IsDigit (digits fuel n)
unfolding digits
digits-IsDigit zero n = tt
digits-IsDigit (suc fuel) n = ground (
  arith,
  All-append IsDigit (digits fuel (n / 10)) ((b'0' + n % 10) ∷ []) (digits-IsDigit fuel (n / 10))
      (omega arith),
)

IsDigit-Lacks : (s : Text) → All IsDigit s → Lacks b'-' s
IsDigit-Lacks [] h = tt
IsDigit-Lacks (c ∷ s) (h, hs) = (omega arith, IsDigit-Lacks s hs)

-- A decimal text of an unsigned integer holds no dash.
pub format-Lacks : (n : ℕ) → Lacks b'-' (format n)
unfolding format
format-Lacks n = IsDigit-Lacks _ (digits-IsDigit (suc n) n)

negative-ne : (n : ℕ) (s t : Text) → Lacks b'-' s → s ≢ b'-' ∷ t
negative-ne n [] t h e = cc
negative-ne n (c ∷ s) t (h, hs) e = ground arith

pub format_int-injective : (a b : ℤ) → format_int a ≡ format_int b → a ≡ b
unfolding format_int
format_int-injective (pos a) (pos b) e = ap pos (format-injective a b e)
format_int-injective (pos a) (negsuc b) e = absurd (negative-ne a (format a) _ (format-Lacks a) e)
format_int-injective (negsuc a) (pos b) e =
    absurd (negative-ne b (format b) _ (format-Lacks b) (sym e))
format_int-injective (negsuc a) (negsuc b) e = ground (arith, format-injective (suc a) (suc b))

-- `10 ^ k`.
abbrev pub ten_to : ℕ → ℕ
ten_to zero = 1
ten_to (suc k) = 10 * ten_to k

digits-length : (fuel k n : ℕ) → n < ten_to (suc k) → length (digits fuel n) ≤ suc k
unfolding digits
digits-length zero k n h = omega arith
digits-length (suc fuel) zero n h = ground arith
digits-length (suc fuel) (suc k) n h = ground (
  arith,
  digits-length fuel k (n / 10) (omega arith),
  length-append (digits fuel (n / 10)) ((b'0' + n % 10) ∷ []),
)

-- A number of at most `k + 1` digits is written with as many.
pub length-format : (k n : ℕ) → n < ten_to (suc k) → length (format n) ≤ suc k
unfolding format
length-format k n h = digits-length (suc n) k n h

pub format-IsDigit : (n : ℕ) → All IsDigit (format n)
unfolding format
format-IsDigit n = digits-IsDigit (suc n) n

digits-Ends : (fuel n : ℕ) → Ends IsDigit (digits (suc fuel) n)
unfolding digits
digits-Ends fuel n =
    ground (arith, Ends-append IsDigit (digits fuel (n / 10)) ((b'0' + n % 10) ∷ []) (omega arith))

pub format-Ends : (n : ℕ) → Ends IsDigit (format n)
unfolding format
format-Ends n = digits-Ends n n
