-- ===== src/Shared/Text/Lower.antt =====
-- Laws of `strings.ToLower`.
use Prim.Native.Nat.{◌<◌, ◌+◌}
use Prim.Native.Char.{Char, code}
use Prim.Native.String.{String, [], ◌∷◌, ◌++◌ as ◌<>◌}
use mathlib.Core.Path.{◌≡◌, refl}
use mathlib.Core.Logic.{dif_pos, dif_neg, ◌⊎◌, inl, inr}
use native.Mathlib.Omega.{arith}
use native.Mathlib.Decide.{dec_lt}
use native.Mathlib.Bridge.{le_prop}
use text.Mathlib.TextLemmas.{nil-append, cons-append}
use mathlib.Core.Path.{sym, ap, ◌∙◌}
use mathlib.Core.List.{List, map}
use iam2kube.Shared.Basics.{Bool-cases}
use iam2kube.Shared.Text.{char_eq, push_head, split, lower_char, to_lower}
use iam2kube.Shared.Text.Split.{Free}

-- Either the character is a capital letter, which moves up by 32, or it stays.
lower_char_cases :
    (c : Char)
    → ((64 < code c) × (code c < 91) × (code (lower_char c) ≡ code c + 32))
      ⊎ (((code c < 65) ⊎ (90 < code c)) × (lower_char c ≡ c))
lower_char_cases c = elim (dec_lt 64 (code c)) [
  | no n ↦ inr (inl (omega arith), unfold lower_char in rw (dif_neg _ n))
  | yes p ↦ elim (dec_lt (code c) 91) [
    | no n ↦
        inr (inr (omega arith), unfold lower_char in rw (dif_pos _ le_prop p) (rw (dif_neg _ n)))
    | yes q ↦ inl (p, q, unfold lower_char in rw (dif_pos _ le_prop p) (rw (dif_pos _ le_prop q)))
  ]
]

pub lower_char_idem : (c : Char) → lower_char (lower_char c) ≡ lower_char c
lower_char_idem c = elim (lower_char_cases c) [
  | inr (_, e) ↦ rw e e
  | inl (p, q, e) ↦ elim (lower_char_cases (lower_char c)) [
    | inr (_, e') ↦ e'
    | inl (p', q', e') ↦ absurd (omega arith)
  ]
]

-- Lowering a lowered text changes nothing.
pub to_lower_idem : (s : String) → to_lower (to_lower s) ≡ to_lower s
unfolding to_lower
to_lower_idem [] = refl
to_lower_idem (c ∷ s) = cc (lower_char_idem c, to_lower_idem s)

pub to_lower-append : (s t : String) → to_lower (s <> t) ≡ to_lower s <> to_lower t
unfolding to_lower
to_lower-append [] t = rw (nil-append, nil-append)
to_lower-append (c ∷ s) t = rw (cons-append, cons-append, to_lower-append s t)

-- A separator is told from the other characters in either case.
char_eq-lower_char : (c sep : Char) → code sep < 65 → char_eq (lower_char c) sep ≡ char_eq c sep
char_eq-lower_char c sep h = elim (lower_char_cases c) [
  | inr (_, e) ↦ ap (λ d. char_eq d sep) e
  | inl (p, q, e) ↦ ground arith
]

pub to_lower-Free : (sep : Char) (s : String) → code sep < 65 → Free sep s → Free sep (to_lower s)
unfolding to_lower
to_lower-Free sep [] h free = tt
to_lower-Free sep (c ∷ s) h (e, free) = (char_eq-lower_char c sep h ∙ e, to_lower-Free sep s h free)

to_lower-push_head :
    (c : Char) (xs : List String)
    → map to_lower (push_head c xs) ≡ push_head (lower_char c) (map to_lower xs)
unfolding to_lower
to_lower-push_head c List.[] = refl
to_lower-push_head c (List.◌∷◌ x xs) = refl

pub split-to_lower :
    (s : String) (sep : Char) → code sep < 65 → split (to_lower s) sep ≡ map to_lower (split s sep)
unfolding split to_lower
split-to_lower [] sep h = refl
split-to_lower (c ∷ s) sep h = elim (Bool-cases (char_eq c sep)) [
  | inl e ↦ rw (char_eq-lower_char c sep h, e) (ap (λ xs. List.◌∷◌ [] xs) (split-to_lower s sep h))
  | inr e ↦
      rw (char_eq-lower_char c sep h, e)
        (ap (push_head (lower_char c)) (split-to_lower s sep h)
          ∙ sym (to_lower-push_head c (split s sep)))
]
