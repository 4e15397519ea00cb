-- ===== src/Shared/Text/Replace.antt =====
-- Laws of `strings.Replace` and `strings.Contains`.
use Prim.Native.Char.{Char}
use Prim.Native.String.{String, [], ◌∷◌, ◌++◌ as ◌<>◌}
use mathlib.Core.Path.{◌≡◌, refl, ap}
use mathlib.Core.Bool.{true, false, ◌&&◌}
use mathlib.Core.Logic.{inl, inr}
use native.Mathlib.Omega.{arith}
use text.Mathlib.TextLemmas.{nil-append, cons-append, length-nil, length-cons}
use iam2kube.Shared.Basics.{Bool-cases}
use iam2kube.Shared.Text.{char_eq, has_prefix, contains, replace_from, replace}
use iam2kube.Shared.Text.Split.{Free}

-- A text that does not contain `old` is left as it is.
pub replace_of_absent : (s old new : String) → contains s old ≡ false → replace s old new ≡ s
unfolding replace contains
replace_of_absent [] old new h = refl
replace_of_absent (c ∷ s) old new h =
    let here : has_prefix (c ∷ s) old ≡ false = ground arith in
    let rest : contains s old ≡ false = ground arith in
    rw here (ap (λ t. c ∷ t) (replace_of_absent s old new rest))

has_prefix-cons :
    (c d : Char) (p s : String) → has_prefix (d ∷ s) (c ∷ p) ≡ (char_eq c d && has_prefix s p)
unfolding has_prefix
has_prefix-cons c d p s = ground arith

has_prefix_nil : (s : String) → has_prefix s [] ≡ true
unfolding has_prefix
has_prefix_nil s = refl

-- A text that does not begin with `p` does not begin with anything longer.
has_prefix_longer : (s p q : String) → has_prefix s p ≡ false → has_prefix s (p <> q) ≡ false
has_prefix_longer s [] q h = absurd (unfold has_prefix in ground arith)
has_prefix_longer [] (c ∷ p) q h = rw cons-append (unfold has_prefix in refl)
has_prefix_longer (d ∷ s) (c ∷ p) q h =
    rw cons-append (rw has_prefix-cons (longer (has_prefix_longer s p q) (rw has_prefix-cons at h)))
  where
    longer :
        (has_prefix s p ≡ false → has_prefix s (p <> q) ≡ false)
        → (char_eq c d && has_prefix s p) ≡ false
        → (char_eq c d && has_prefix s (p <> q)) ≡ false
    longer ih e = elim (Bool-cases (char_eq c d)) [
      | inl same ↦ rw same (ih (rw same at e))
      | inr differs ↦ rw differs
    ]

-- A text that does not contain `p` does not contain anything longer.
pub contains_longer : (s p q : String) → contains s p ≡ false → contains s (p <> q) ≡ false
unfolding contains
contains_longer [] p q h = has_prefix_longer [] p q h
contains_longer (c ∷ s) p q h =
    ground
      (arith, has_prefix_longer (c ∷ s) p q (ground arith), contains_longer s p q (ground arith))

-- Replacing one character by a text without it leaves none of it.
replace_from_char-Free :
    (c d : Char) (s : String) → char_eq d c ≡ false → Free c (replace_from (c ∷ []) (d ∷ []) 0 s)
unfolding replace_from
replace_from_char-Free c d [] h = tt
replace_from_char-Free c d (x ∷ s) h = elim (Bool-cases (char_eq c x)) [
  | inl e ↦
      rw (has_prefix-cons, e, has_prefix_nil s)
        (rw (cons-append, nil-append, length-cons c "", length-nil)
          (h, replace_from_char-Free c d s h))
  | inr e ↦ rw (has_prefix-cons, e) (ground arith, replace_from_char-Free c d s h)
]

pub replace_char-Free :
    (c d : Char) (s : String) → char_eq d c ≡ false → Free c (replace s (c ∷ []) (d ∷ []))
unfolding replace
replace_char-Free c d s h = replace_from_char-Free c d s h
