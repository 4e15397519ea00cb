-- ===== src/Token/Query/Laws.antt =====
-- Which queries are accepted, and which values the checks then read.
use iam2kube.Shared.{
  String, ◌≡◌, refl, ◌↔◌, Bool, true, false, none, some, List, [], ◌∷◌, ok, if◌then◌else◌, All,
  arith, inl, inr, Bool-cases, ◌∙◌,
}
use iam2kube.Shared.Text.{to_lower}
use iam2kube.Shared.Assoc.{lookup, insert, lookup-insert}
use iam2kube.Token.Query.{Values, is_whitelisted, lower_params}
use text.Mathlib.Text.{◌==◌}
use text.Mathlib.TextEquality.{eq_iff}

-- A listed key, in any case, with exactly one value.
abbrev pub IsAllowed : String × List String → Type 0
IsAllowed (key, values) = (is_whitelisted key ≡ true) × ((value : String) × (values ≡ value ∷ []))

lower_params_total :
    (values : Values) (lowered : List (String × String))
    → All IsAllowed values
    → (params : List (String × String)) × (lower_params values lowered ≡ ok params)
unfolding lower_params
lower_params_total [] lowered h = (lowered, refl)
lower_params_total ((key, []) ∷ rest) lowered ((m, (value, e)), h) = absurd (ground arith)
lower_params_total ((key, v ∷ w ∷ vs) ∷ rest) lowered ((m, (value, e)), h) = absurd (ground arith)
lower_params_total ((key, v ∷ []) ∷ rest) lowered ((m, (value, e)), h) =
    let (params, done) = lower_params_total rest (insert (to_lower key) v lowered) h in
    (params, rw m done)

lower_params-IsAllowed :
    (values : Values) (lowered params : List (String × String))
    → lower_params values lowered ≡ ok params
    → All IsAllowed values
unfolding lower_params
lower_params-IsAllowed [] lowered params h = tt
lower_params-IsAllowed ((key, []) ∷ rest) lowered params h = absurd (ground arith)
lower_params-IsAllowed ((key, v ∷ w ∷ vs) ∷ rest) lowered params h = absurd (ground arith)
lower_params-IsAllowed ((key, v ∷ []) ∷ rest) lowered params h =
    elim (Bool-cases (is_whitelisted key)) [
      | inr e ↦ absurd (ground arith)
      | inl e ↦ (
        (e, (v, refl)),
        lower_params-IsAllowed rest (insert (to_lower key) v lowered) params
            (rw (e, lower_params) at h),
      )
    ]

-- A query is accepted exactly when each of its keys is listed, in any case, and has one value.
pub lower_params_iff :
    (values : Values)
    → ((params : List (String × String)) × (lower_params values [] ≡ ok params))
      ↔ All IsAllowed values
lower_params_iff values =
    (λ (params, h). lower_params-IsAllowed values [] params h, lower_params_total values [])

-- The key stands in the query, in some case.
abbrev pub has_key : String → Values → Bool
has_key key [] = false
has_key key ((k, _) ∷ rest) = if to_lower k == key then true else has_key key rest

-- No two keys are the same up to case.
abbrev pub HasDistinctKeys : Values → Type 0
HasDistinctKeys [] = Unit
HasDistinctKeys ((k, _) ∷ rest) = (has_key (to_lower k) rest ≡ false) × HasDistinctKeys rest

lookup-lower_params_absent :
    (key : String) (values : Values) (lowered params : List (String × String))
    → lower_params values lowered ≡ ok params
    → has_key key values ≡ false
    → lookup key params ≡ lookup key lowered
unfolding lower_params
lookup-lower_params_absent key [] lowered params h a = ground arith
lookup-lower_params_absent key ((k, []) ∷ rest) lowered params h a = absurd (ground arith)
lookup-lower_params_absent key ((k, v ∷ w ∷ vs) ∷ rest) lowered params h a = absurd (ground arith)
lookup-lower_params_absent key ((k, v ∷ []) ∷ rest) lowered params h a =
    elim (Bool-cases (is_whitelisted k)) [
      | inr e ↦ absurd (ground arith)
      | inl e ↦
          lookup-lower_params_absent key rest (insert (to_lower k) v lowered) params
            (rw (e, lower_params) at h) (ground arith)
          ∙ ground (arith, lookup-insert (to_lower k) key v lowered)
    ]

-- The value of a key is what the checks read under the key in lower case.
abbrev pub IsRead : List (String × String) → String × List String → Type 0
IsRead params (key, values) =
    (value : String) × (values ≡ value ∷ []) × (lookup (to_lower key) params ≡ some value)

lower_params-All :
    (values : Values) (lowered params : List (String × String))
    → lower_params values lowered ≡ ok params
    → HasDistinctKeys values
    → All (IsRead params) values
unfolding lower_params
lower_params-All [] lowered params h d = tt
lower_params-All ((k, []) ∷ rest) lowered params h d = absurd (ground arith)
lower_params-All ((k, v ∷ w ∷ vs) ∷ rest) lowered params h d = absurd (ground arith)
lower_params-All ((k, v ∷ []) ∷ rest) lowered params h (fresh, d) =
    elim (Bool-cases (is_whitelisted k)) [
      | inr e ↦ absurd (ground arith)
      | inl e ↦
          let h' : lower_params rest (insert (to_lower k) v lowered) ≡ ok params =
            rw (e, lower_params) at h in
          (
            (
              v,
              refl,
              lookup-lower_params_absent (to_lower k) rest (insert (to_lower k) v lowered) params h'
                    fresh
                  ∙ ground (
                    arith,
                    lookup-insert (to_lower k) (to_lower k) v lowered,
                    eq_iff (to_lower k) (to_lower k),
                  ),
            ),
            lower_params-All rest (insert (to_lower k) v lowered) params h' d,
          )
    ]

-- Where no two keys are the same up to case, the checks read every value of the query, whatever
-- the order of the loop, and nothing under any other key.
pub lower_params-IsRead :
    (values : Values) (params : List (String × String))
    → lower_params values [] ≡ ok params
    → HasDistinctKeys values
    → All (IsRead params) values
      × ((key : String) → has_key key values ≡ false → lookup key params ≡ none)
unfolding lookup
lower_params-IsRead values params h d = (
  lower_params-All values [] params h d,
  λ key absent. lookup-lower_params_absent key values [] params h absent,
)
