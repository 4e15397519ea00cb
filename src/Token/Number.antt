-- ===== src/Token/Number.antt =====
-- `strconv.Atoi`: a text of decimal digits with an optional sign, in the range of a 64-bit `int`.
use Prim.Native.Char.{code}
use Prim.Native.String.{String, [], ◌∷◌}
use iam2kube.Shared.{
  ℕ, zero, suc, ◌+◌, ◌-◌, ◌*◌, ◌&&◌, Option, none, some, ltb, leb, nat_eq, if◌then◌else◌,
}
use iam2kube.Shared.Int.{ℤ, pos, negsuc}

-- The digits, read from the left onto what is already read.
digits_from : ℕ → String → Option ℕ
digits_from n [] = some n
digits_from n (c ∷ s) =
    let rest = digits_from (n * 10 + (code c - b'0')) s in
    if leb b'0' (code c) && leb (code c) b'9' then rest else none

digits : String → Option ℕ
digits [] = none
digits (c ∷ s) = digits_from 0 (c ∷ s)

-- `-n`, as an integer.
abbrev negative : ℕ → ℤ
negative zero = pos 0
negative (suc n) = negsuc n

-- 2 ^ 63
abbrev cutoff : ℕ
cutoff = 9_223_372_036_854_775_808

abbrev in_range : Option ℕ → Option ℤ
in_range none = none
in_range (some n) = if ltb n cutoff then some (pos n) else none

abbrev in_range_negative : Option ℕ → Option ℤ
in_range_negative none = none
in_range_negative (some n) = if leb n cutoff then some (negative n) else none

unfoldable pub atoi : String → Option ℤ
unfolding digits digits_from
atoi [] = none
atoi (c ∷ s) =
    if nat_eq (code c) b'-'
    then in_range_negative (digits s)
    else if nat_eq (code c) b'+'
    then in_range (digits s)
    else in_range (digits (c ∷ s))
