-- ===== src/Shared/Text/Split.antt =====
-- `strings.Split` and `strings.Join` are inverse to each other where a part holds no separator.
use Prim.Native.Char.{Char}
use Prim.Native.String.{String, [], ◌∷◌, ◌++◌ as ◌<>◌}
use mathlib.Core.Path.{◌≡◌, refl, ap, ◌∙◌}
use mathlib.Core.Bool.{true, false}
use mathlib.Core.Logic.{inl, inr}
use mathlib.Core.List.{List, [], ◌∷◌, ◌++◌}
use native.Mathlib.Omega.{arith}
use text.Mathlib.TextEquality.{Char-path}
use text.Mathlib.TextLemmas.{nil-append, cons-append, append_assoc}
use iam2kube.Shared.Basics.{All, Bool-cases}
use iam2kube.Shared.Text.{char_eq, push_head, split, join}

-- The text does not hold the character.
abbrev pub Free : Char → String → Type 0
Free sep [] = Unit
Free sep (c ∷ s) = (char_eq c sep ≡ false) × Free sep s

pub char_eq_refl : (c : Char) → char_eq c c ≡ true
char_eq_refl c = ground arith

pub char_eq_sound : (c d : Char) → char_eq c d ≡ true → c ≡ d
char_eq_sound c d h = Char-path c d (ground arith)

abbrev pub NotNil : List String → Type 0
NotNil [] = ⊥
NotNil (x ∷ xs) = Unit

pub split-NotNil : (s : String) (sep : Char) → NotNil (split s sep)
unfolding split
split-NotNil [] sep = tt
split-NotNil (c ∷ s) sep = elim (Bool-cases (char_eq c sep)) [
  | inl e ↦ rw e tt
  | inr e ↦ rw e (push (split s sep))
]
  where
    push : (xs : List String) → NotNil (push_head c xs)
    push [] = tt
    push (x ∷ xs) = tt

join-push_head :
    (c : Char) (sep : String) (xs : List String)
    → NotNil xs
    → join (push_head c xs) sep ≡ c ∷ join xs sep
unfolding join
join-push_head c sep (x ∷ []) h = refl
join-push_head c sep (x ∷ y ∷ xs) h = cons-append c x _
join-push_head c sep [] h = elim h [ ]

join-nil : (sep : String) (xs : List String) → NotNil xs → join ([] ∷ xs) sep ≡ sep <> join xs sep
unfolding join
join-nil sep [] h = elim h [ ]
join-nil sep (x ∷ xs) h = nil-append _

-- Joining what was split gives the text back.
pub join-split : (s : String) (sep : Char) → join (split s sep) (sep ∷ []) ≡ s
unfolding split
join-split [] sep = unfold join in refl
join-split (c ∷ s) sep = elim (Bool-cases (char_eq c sep)) [
  | inl e ↦ rw e (
      join-nil (sep ∷ []) (split s sep) (split-NotNil s sep)
      ∙ rw (join-split s sep, cons-append, nil-append, char_eq_sound c sep e))
  | inr e ↦ rw e (
      join-push_head c (sep ∷ []) (split s sep) (split-NotNil s sep)
      ∙ ap (λ t. c ∷ t) (join-split s sep))
]

-- A text with no separator is one part.
pub split_of_Free : (s : String) (sep : Char) → Free sep s → split s sep ≡ s ∷ []
unfolding split
split_of_Free [] sep h = refl
split_of_Free (c ∷ s) sep (e, h) = rw (e, split_of_Free s sep h)

-- Up to the first separator stands the first part.
pub split-append :
    (x s : String) (sep : Char) → Free sep x → split (x <> (sep ∷ s)) sep ≡ x ∷ split s sep
unfolding split
split-append [] s sep h = rw (nil-append, char_eq_refl sep)
split-append (c ∷ x) s sep (e, h) = rw cons-append (rw (e, split-append x s sep h))

-- Every part of a split text is free of the separator.
pub split-Free : (s : String) (sep : Char) → All (Free sep) (split s sep)
unfolding split
split-Free [] sep = (tt, tt)
split-Free (c ∷ s) sep = elim (Bool-cases (char_eq c sep)) [
  | inl e ↦ rw e (tt, split-Free s sep)
  | inr e ↦ rw e (push (split s sep) e (split-Free s sep))
]
  where
    push :
        (xs : List String)
        → char_eq c sep ≡ false
        → All (Free sep) xs
        → All (Free sep) (push_head c xs)
    push [] e h = ((e, tt), tt)
    push (x ∷ xs) e (h, k) = ((e, h), k)

-- After the last separator stands the last part.
pub split-append_last :
    (r x : String) (sep : Char) → Free sep x → split (r <> (sep ∷ x)) sep ≡ split r sep ++ (x ∷ [])
unfolding split
split-append_last [] x sep h = rw (nil-append, char_eq_refl sep) (rw (split_of_Free x sep h))
split-append_last (c ∷ r) x sep h = rw cons-append (elim (Bool-cases (char_eq c sep)) [
  | inl e ↦ rw e (rw (split-append_last r x sep h))
  | inr e ↦ rw e (rw (split-append_last r x sep h) (push (split r sep) (split-NotNil r sep)))
])
  where
    push :
        (xs : List String) → NotNil xs → push_head c (xs ++ (x ∷ [])) ≡ push_head c xs ++ (x ∷ [])
    push [] h = elim h [ ]
    push (y ∷ ys) h = refl

-- The parts before the last, joined, then a separator and the last part.
pub join-append_last :
    (xs : List String) (x sep : String)
    → NotNil xs
    → join (xs ++ (x ∷ [])) sep ≡ join xs sep <> (sep <> x)
unfolding join
join-append_last [] x sep h = elim h [ ]
join-append_last (y ∷ []) x sep h = refl
join-append_last (y ∷ z ∷ xs) x sep h = rw (join-append_last (z ∷ xs) x sep tt) (simp append_assoc)
