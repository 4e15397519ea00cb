-- ===== src/Shared/Basics.antt =====
-- Boolean tests, the conditional, case splits, and lists over the native numbers.
use Prim.Native.Nat.{ℕ, suc, compare, Ordering}
use Prim.Native.String.{String}
use mathlib.Core.Path.{◌≡◌, refl, subst}
use mathlib.Core.Bool.{◌&&◌, Bool, true, false, ◌||◌}
use mathlib.Core.Logic.{◌⊎◌, inl, inr, ◌≢◌}
use mathlib.Core.Option.{Option, none, some}
use mathlib.Core.List.{List, [], ◌∷◌, ◌++◌}
use native.Mathlib.Omega.{arith}
use text.Mathlib.Text.{◌==◌}
use text.Mathlib.TextEquality.{eq_iff}
use text.Mathlib.TextPositions.{eq_refl}

abbrev pub ltb : ℕ → ℕ → Bool
ltb a b = elim (compare a b) [ Ordering.lt ↦ true | _ ↦ false ]

abbrev pub leb : ℕ → ℕ → Bool
leb a b = elim (compare a b) [ Ordering.gt ↦ false | _ ↦ true ]

abbrev pub nat_eq : ℕ → ℕ → Bool
nat_eq a b = elim (compare a b) [ Ordering.eq ↦ true | _ ↦ false ]

infix 1 if◌then◌else◌
abbrev pub if◌then◌else◌ {ℓ} : {A : Type ℓ} → Bool → A → A → A
if true then x else y = x
if false then x else y = y

pub Bool-cases : (b : Bool) → (b ≡ true) ⊎ (b ≡ false)
Bool-cases true = inl refl
Bool-cases false = inr refl

-- What holds of two values holds of the one that a test chooses.
pub one_of {ℓ κ} :
    {A : Type ℓ} (b : Bool) (x y : A) (P : A → Type κ) → P x → P y → P (if b then x else y)
one_of true x y P h k = h
one_of false x y P h k = k

-- A comparison of texts, decided.
pub str_cases : (s t : String) → (((s == t) ≡ true) × (s ≡ t)) ⊎ (((s == t) ≡ false) × (s ≢ t))
str_cases s t = elim (Bool-cases (s == t)) [
  | inl e ↦ inl (e, (eq_iff s t).0 e)
  | inr e ↦ inr (e, λ p. ground (arith, eq_iff s t))
]

pub str_eq_refl : (s : String) → (s == s) ≡ true
str_eq_refl = eq_refl

pub str_eq_of_ne : (s t : String) → s ≢ t → (s == t) ≡ false
str_eq_of_ne s t h = ground (arith, eq_iff s t)

module _ {ℓ} {A : Type ℓ} where
  pub Option-cases : (o : Option A) → (o ≡ none) ⊎ ((a : A) × (o ≡ some a))
  Option-cases none = inl refl
  Option-cases (some a) = inr (a, refl)

  abbrev pub length : List A → ℕ
  length [] = 0
  length (x ∷ xs) = suc (length xs)

  abbrev pub all_of : (A → Bool) → List A → Bool
  all_of p [] = true
  all_of p (x ∷ xs) = p x && all_of p xs

  abbrev pub any : (A → Bool) → List A → Bool
  any p [] = false
  any p (x ∷ xs) = p x || any p xs

  abbrev pub All {κ} : (A → Type κ) → List A → Type κ
  All P [] = Unit
  All P (x ∷ xs) = P x × All P xs

  pub All-append {κ} : (P : A → Type κ) (xs ys : List A) → All P xs → All P ys → All P (xs ++ ys)
  All-append P [] ys h k = k
  All-append P (x ∷ xs) ys (p, h) k = (p, All-append P xs ys h k)

-- Membership in a list of texts, as a test.
abbrev pub member : List String → String → Bool
member [] s = false
member (x ∷ xs) s = x == s || member xs s

-- What holds for all entries holds for a member.
pub All-member {ℓ} :
    (P : String → Type ℓ) (xs : List String) (x : String) → All P xs → member xs x ≡ true → P x
All-member P [] x _ h = absurd (ground arith)
All-member P (y ∷ ys) x (p, ps) h = elim (str_cases y x) [
  | inl (_, e) ↦ subst P e p
  | inr (apart, _) ↦ All-member P ys x ps (ground arith)
]
