-- ===== src/Shared/Text/Prefix.antt =====
-- Laws of `strings.HasPrefix` and `strings.TrimPrefix`.
use Prim.Native.String.{String, [], ◌∷◌, ◌++◌ as ◌<>◌}
use mathlib.Core.Path.{◌≡◌}
use mathlib.Core.Bool.{true}
use mathlib.Core.Logic.{inl, inr}
use mathlib.Core.Option.{some}
use native.Mathlib.Omega.{arith}
use text.Mathlib.TextLemmas.{nil-append, cons-append}
use iam2kube.Shared.Basics.{Bool-cases, Option-cases}
use iam2kube.Shared.Text.{char_eq, strip_prefix, has_prefix, trim_prefix}
use iam2kube.Shared.Text.Split.{char_eq_refl, char_eq_sound}

pub strip_prefix-append : (p s : String) → strip_prefix p (p <> s) ≡ some s
unfolding strip_prefix
strip_prefix-append [] s = rw nil-append
strip_prefix-append (c ∷ p) s = rw cons-append (rw (char_eq_refl c) (strip_prefix-append p s))

pub strip_prefix_sound : (p s r : String) → strip_prefix p s ≡ some r → s ≡ p <> r
unfolding strip_prefix
strip_prefix_sound [] s r h = rw nil-append (ground arith)
strip_prefix_sound (c ∷ p) [] r h = cc
strip_prefix_sound (c ∷ p) (d ∷ s) r h = elim (Bool-cases (char_eq c d)) [
  | inl e ↦ rw (cons-append, char_eq_sound c d e, strip_prefix_sound p s r (rw e at h))
  | inr e ↦ absurd (ground arith)
]

-- A text has a prefix exactly when it is the prefix and what `TrimPrefix` leaves.
pub has_prefix_sound : (s p : String) → has_prefix s p ≡ true → s ≡ p <> trim_prefix s p
has_prefix_sound s p h = elim (Option-cases (strip_prefix p s)) [
  | inl e ↦ absurd (unfold has_prefix in ground arith)
  | inr (r, e) ↦ unfold trim_prefix in rw (e, trim_prefix) (strip_prefix_sound p s r e)
]

pub has_prefix-append : (p s : String) → has_prefix (p <> s) p ≡ true
unfolding has_prefix
has_prefix-append p s = rw (strip_prefix-append p s, has_prefix)

pub trim_prefix-append : (p s : String) → trim_prefix (p <> s) p ≡ s
unfolding trim_prefix
trim_prefix-append p s = rw (strip_prefix-append p s, trim_prefix)
