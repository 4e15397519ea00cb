-- ===== src/Shared/Text.antt =====
-- The functions of Go's `strings` package that the program calls, over Unicode texts. `to_lower`
-- maps the letters A to Z, as `strings.ToLower` does on ASCII texts.
pub mod Split
pub mod Lower
pub mod Prefix
pub mod Replace
use Prim.Native.Nat.{ℕ, zero, suc, ◌+◌, ◌<◌, compare, Ordering}
use Prim.Native.Char.{Char, code, char, IsScalar}
use Prim.Native.String.{String, [], ◌∷◌, ◌++◌ as ◌<>◌, count}
use mathlib.Core.Path.{◌≡◌}
use mathlib.Core.Bool.{Bool, true, false, ◌&&◌, ◌||◌}
use mathlib.Core.Logic.{dite}
use mathlib.Core.Option.{Option, none, some}
use mathlib.Core.List.{List, [], ◌∷◌}
use native.Mathlib.Omega.{arith}
use native.Mathlib.Decide.{dec_lt}
use iam2kube.Shared.Basics.{nat_eq, if◌then◌else◌}

abbrev pub char_eq : Char → Char → Bool
char_eq c d = nat_eq (code c) (code d)

-- What follows the prefix, when the text has it.
unfoldable pub strip_prefix : String → String → Option String
strip_prefix [] s = some s
strip_prefix (c ∷ p) [] = none
strip_prefix (c ∷ p) (d ∷ s) = if char_eq c d then strip_prefix p s else none

-- `strings.HasPrefix(s, prefix)`
unfoldable pub has_prefix : String → String → Bool
unfolding strip_prefix
has_prefix s prefix = elim (strip_prefix prefix s) [ none ↦ false | some _ ↦ true ]

-- `strings.TrimPrefix(s, prefix)`
unfoldable pub trim_prefix : String → String → String
unfolding strip_prefix
trim_prefix s prefix = elim (strip_prefix prefix s) [ none ↦ s | some rest ↦ rest ]

-- `strings.Contains(s, substr)`
unfoldable pub contains : String → String → Bool
unfolding has_prefix
contains [] sub = has_prefix [] sub
contains (c ∷ s) sub = has_prefix (c ∷ s) sub || contains s sub

-- `strings.Replace(s, old, new, -1)` for a text `old` that is not empty: `skip` counts the
-- characters of a match that are still to be passed over.
replace_from : String → String → ℕ → String → String
replace_from old new skip [] = []
replace_from old new (suc skip) (c ∷ s) = replace_from old new skip s
replace_from old new zero (c ∷ s) =
    let found : String = new <> replace_from old new (Prim.Native.Nat.pred (count old)) s in
    let other : String = c ∷ replace_from old new zero s in
    if has_prefix (c ∷ s) old then found else other

unfoldable pub replace : String → String → String → String
unfolding replace_from
replace s old new = replace_from old new zero s

abbrev push_head : Char → List String → List String
push_head c [] = (c ∷ []) ∷ []
push_head c (x ∷ xs) = (c ∷ x) ∷ xs

-- `strings.Split(s, sep)` for a separator of one character
unfoldable pub split : String → Char → List String
split [] sep = [] ∷ []
split (c ∷ s) sep = let rest = split s sep in if char_eq c sep then [] ∷ rest else push_head c rest

-- `strings.Join(parts, sep)`
unfoldable pub join : List String → String → String
join [] sep = []
join (x ∷ []) sep = x
join (x ∷ y ∷ xs) sep = x <> (sep <> join (y ∷ xs) sep)

IsScalar_of_lt : (n : ℕ) → n < 55296 → IsScalar n
IsScalar_of_lt n h = let e : compare n 55296 ≡ Ordering.lt = ground arith in rw e tt

unfoldable pub lower_char : Char → Char
unfolding dec_lt IsScalar_of_lt
lower_char c =
    dite (dec_lt 64 (code c))
      (λ _.
        dite (dec_lt (code c) 91)
          (λ h. char (code c + 32) (IsScalar_of_lt (code c + 32) (omega arith))) (λ _. c))
      (λ _. c)

-- `strings.ToLower(s)`
unfoldable pub to_lower : String → String
unfolding lower_char
to_lower [] = []
to_lower (c ∷ s) = lower_char c ∷ to_lower s
