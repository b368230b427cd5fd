-- ===== src/GoFlag.antt =====
-- `flag.Parse` of Go's standard library, as it is documented. The flags of a program are a record `F`,
-- and `find_flag` stands for the calls that declare them.
use lite_mesh.Base.{
  ℕ, Text, text_dec, codes, List, [], ◌∷◌, Option, none, some, Bool, true, false, ◌||◌, ite, ◌==◌,
  if◌then◌else◌,
}

-- A flag of type string takes a value; one of type bool needs none.
pub data FlagKind (F : Type 0) : Type 0 where
  text_flag : (Text → F → F) → FlagKind F
  bool_flag : (Bool → F → F) → FlagKind F
  unknown : FlagKind F

-- The name of a flag, and its value if the argument holds `=`.
abbrev cons_name : ℕ → Text × Option Text → Text × Option Text
cons_name c (name, value) = (c ∷ name, value)

split_value : Text → Text × Option Text
split_value [] = ([], none)
split_value (c ∷ s) =
    let rest = split_value s in if c == b'=' then ([], some s) else cons_name c rest

-- What an argument is: a word that ends the flags, the terminator `--`, or a flag's text.
pub data Word : Type 0 where
  plain : Word
  terminator : Word
  named : Text → Word

dashed : Text → Word
dashed [] = plain
dashed (c ∷ s) =
    if c == b'-' then (elim s [ [] ↦ terminator | d ∷ r ↦ named (d ∷ r) ]) else named (c ∷ s)

word : Text → Word
unfolding dashed
word [] = plain
word (c ∷ s) = if c == b'-' then dashed s else plain

-- `none` is a flag syntax that the library refuses.
flag_name : Text → Option (Text × Option Text)
unfolding split_value
flag_name [] = none
flag_name (c ∷ s) = if (c == b'-') || (c == b'=') then none else some (cons_name c (split_value s))

member : Text → List Text → Bool
member v [] = false
member v (t ∷ ts) = ite (text_dec v t) true (member v ts)

parse_bool : Text → Option Bool
unfolding member
parse_bool v =
    if member v
      (codes "1" ∷ codes "t" ∷ codes "T" ∷ codes "true" ∷ codes "TRUE" ∷ codes "True" ∷ [])
    then some true
    else if member v
        (codes "0" ∷ codes "f" ∷ codes "F" ∷ codes "false" ∷ codes "FALSE" ∷ codes "False" ∷ [])
    then some false
    else none

-- What one argument does: it ends the flags, it is refused, or it sets a flag, alone or together with
-- the argument behind it.
pub data Step (F : Type 0) : Type 0 where
  stop refuse : Step F
  took_one took_two : F → Step F

module _ {F : Type 0} where
  set_bool : (Bool → F → F) → Option Bool → F → Step F
  set_bool set none f = refuse
  set_bool set (some b) f = took_one (set b f)

  set_flag : FlagKind F → (value next : Option Text) → F → Step F
  unfolding set_bool parse_bool
  set_flag (text_flag set) (some v) next f = took_one (set v f)
  set_flag (text_flag set) none (some v) f = took_two (set v f)
  set_flag (text_flag set) none none f = refuse
  set_flag (bool_flag set) (some v) next f = set_bool set (parse_bool v) f
  set_flag (bool_flag set) none next f = took_one (set true f)
  set_flag unknown value next f = refuse

  module _ (find_flag : Text → FlagKind F) where
    set_named : Option (Text × Option Text) → Option Text → F → Step F
    unfolding set_flag
    set_named none next f = refuse
    set_named (some (name, value)) next f = set_flag (find_flag name) value next f

    step : Word → Option Text → F → Step F
    unfolding set_named flag_name
    step plain next f = stop
    step terminator next f = stop
    step (named s) next f = set_named (flag_name s) next f

    abbrev last : F → Step F → Option F
    last f stop = some f
    last f refuse = none
    last f (took_one g) = some g
    last f (took_two g) = some g

    -- `flag.Parse`; `none` ends the process, as `flag.ExitOnError` does.
    unfoldable pub parse_flags : List Text → F → Option F
    unfolding step word
    parse_flags [] f = some f
    parse_flags (a ∷ []) f = last f (step (word a) none f)
    parse_flags (a ∷ v ∷ rest) f = elim (step (word a) (some v) f) [
      | stop ↦ some f
      | refuse ↦ none
      | took_one g ↦ parse_flags (v ∷ rest) g
      | took_two g ↦ parse_flags rest g
    ]
