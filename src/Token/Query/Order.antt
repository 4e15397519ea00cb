-- ===== src/Token/Query/Order.antt =====
-- The order in which the loop of `Verify` meets the query, which Go leaves open, does not matter.
use iam2kube.Shared.{
  String, ◌≡◌, refl, sym, ap, ◌∙◌, Bool, true, false, not, ◌&&◌, some, List, [], ◌∷◌, ok, All, any,
  arith, inl, inr, Bool-cases,
}
use mathlib.Core.List.{Perm, Permᴰ}
use mathlib.Core.Logic.{∥∥₁_elim}
use mathlib.Core.Path.{ap₂}
use iam2kube.Shared.Text.{to_lower}
use iam2kube.Shared.Assoc.{lookup}
use iam2kube.Token.Query.{Values, is_whitelisted, lower_params}
use iam2kube.Token.Query.Laws.{
  IsAllowed, IsRead, HasDistinctKeys, has_key, lower_params_iff, lower_params-IsRead,
}
use text.Mathlib.Text.{◌==◌}
use text.Mathlib.TextEquality.{eq_iff}

module _ {ℓ} {A : Type ℓ} (p : A → Bool) where
  any-Permᴰ : {xs ys : List A} → Permᴰ xs ys → any p xs ≡ any p ys
  any-Permᴰ Permᴰ.nil = refl
  any-Permᴰ (Permᴰ.cons e h) = ground (arith, ap p e, any-Permᴰ h)
  any-Permᴰ (Permᴰ.swap e f) = ground (arith, ap p e, ap p f)
  any-Permᴰ (Permᴰ.trans h k) = any-Permᴰ h ∙ any-Permᴰ k

  pub any-Perm : {xs ys : List A} → Perm xs ys → any p xs ≡ any p ys
  any-Perm h = ∥∥₁_elim h (hlevel) (λ d. any-Permᴰ d)

-- An entry that is not listed, or that has not exactly one value.
abbrev is_refused : String × List String → Bool
is_refused (key, value ∷ []) = not (is_whitelisted key)
is_refused (key, _) = true

-- An entry that gives this value to the key, in some case.
abbrev reads : String → String → String × List String → Bool
reads key value (k, v ∷ []) = to_lower k == key && v == value
reads key value (k, _) = false

abbrev is_key : String → String × List String → Bool
is_key key (k, _) = to_lower k == key

has_key-any : (key : String) (values : Values) → has_key key values ≡ any (is_key key) values
has_key-any key [] = refl
has_key-any key ((k, _) ∷ rest) = ground (arith, has_key-any key rest)

is_refused_sound : (values : Values) → All IsAllowed values → any is_refused values ≡ false
is_refused_sound [] h = refl
is_refused_sound ((k, []) ∷ rest) ((_, (_, e)), h) = absurd (ground arith)
is_refused_sound ((k, v ∷ []) ∷ rest) ((m, _), h) = ground (arith, is_refused_sound rest h)
is_refused_sound ((k, v ∷ w ∷ vs) ∷ rest) ((_, (_, e)), h) = absurd (ground arith)

is_refused_complete : (values : Values) → any is_refused values ≡ false → All IsAllowed values
is_refused_complete [] h = tt
is_refused_complete ((k, []) ∷ rest) h = absurd (ground arith)
is_refused_complete ((k, v ∷ []) ∷ rest) h =
    ((ground arith, (v, refl)), is_refused_complete rest (ground arith))
is_refused_complete ((k, v ∷ w ∷ vs) ∷ rest) h = absurd (ground arith)

reads_sound :
    (params : List (String × String)) (key value : String) (values : Values)
    → All (IsRead params) values
    → any (reads key value) values ≡ true
    → lookup key params ≡ some value
reads_sound params key value [] h e = absurd (ground arith)
reads_sound params key value ((k, []) ∷ rest) ((_, e', _), h) e = absurd (ground arith)
reads_sound params key value ((k, v ∷ w ∷ vs) ∷ rest) ((_, e', _), h) e = absurd (ground arith)
reads_sound params key value ((k, v ∷ []) ∷ rest) ((u, e', l), h) e =
    elim (Bool-cases (reads key value (k, v ∷ []))) [
      | inr other ↦ reads_sound params key value rest h (ground arith)
      | inl this ↦ ground (arith, eq_iff (to_lower k) key, eq_iff v value)
    ]

reads_complete :
    (params : List (String × String)) (key : String) (values : Values)
    → All (IsRead params) values
    → any (is_key key) values ≡ true
    → (value : String) × (any (reads key value) values ≡ true)
reads_complete params key [] h e = absurd (ground arith)
reads_complete params key ((k, []) ∷ rest) ((_, e', _), h) e = absurd (ground arith)
reads_complete params key ((k, v ∷ w ∷ vs) ∷ rest) ((_, e', _), h) e = absurd (ground arith)
reads_complete params key ((k, v ∷ []) ∷ rest) (_, h) e = elim (Bool-cases (to_lower k == key)) [
  | inl this ↦ (v, ground (arith, eq_iff v v))
  | inr other ↦
      let (value, found) = reads_complete params key rest h (ground arith) in
      (value, ground (arith, found))
]

-- Whether no two keys are the same up to case, as a test.
distinct_keys : Values → Bool
distinct_keys [] = true
distinct_keys ((k, _) ∷ rest) = not (any (is_key (to_lower k)) rest) && distinct_keys rest

distinct_keys_sound : (values : Values) → distinct_keys values ≡ true → HasDistinctKeys values
unfolding distinct_keys
distinct_keys_sound [] h = tt
distinct_keys_sound ((k, _) ∷ rest) h =
    (has_key-any (to_lower k) rest ∙ ground arith, distinct_keys_sound rest (ground arith))

distinct_keys_complete : (values : Values) → HasDistinctKeys values → distinct_keys values ≡ true
unfolding distinct_keys
distinct_keys_complete [] h = refl
distinct_keys_complete ((k, _) ∷ rest) (fresh, h) =
    ground (arith, has_key-any (to_lower k) rest, distinct_keys_complete rest h)

distinct_keys-swap :
    (x y : String × List String) (rest : Values)
    → distinct_keys (x ∷ y ∷ rest) ≡ distinct_keys (y ∷ x ∷ rest)
unfolding distinct_keys
distinct_keys-swap (k, _) (j, _) rest =
    ground (arith, eq_iff (to_lower k) (to_lower j), eq_iff (to_lower j) (to_lower k))

distinct_keys-Permᴰ : {xs ys : Values} → Permᴰ xs ys → distinct_keys xs ≡ distinct_keys ys
unfolding distinct_keys
distinct_keys-Permᴰ Permᴰ.nil = refl
distinct_keys-Permᴰ (Permᴰ.cons {a = a} {b = b} {l₁ = xs} e h) = ground (
  arith,
  ap (λ (x : String × List String). any (is_key (to_lower x.0)) xs) e,
  any-Permᴰ (is_key (to_lower b.0)) h,
  distinct_keys-Permᴰ h,
)
distinct_keys-Permᴰ (Permᴰ.swap {a = a} {b = b} {l = l} e f) =
    distinct_keys-swap a b l ∙ ap₂ (λ y x. distinct_keys (y ∷ x ∷ l)) f e
distinct_keys-Permᴰ (Permᴰ.trans h k) = distinct_keys-Permᴰ h ∙ distinct_keys-Permᴰ k

pub HasDistinctKeys-Perm : (xs ys : Values) → Perm xs ys → HasDistinctKeys xs → HasDistinctKeys ys
HasDistinctKeys-Perm xs ys same h =
    distinct_keys_sound ys
      (sym (∥∥₁_elim same (hlevel) (λ d. distinct_keys-Permᴰ d)) ∙ distinct_keys_complete xs h)

-- Two orders of one query whose keys differ by more than case: where one is accepted the other is,
-- and the checks read the same value under every key.
pub lower_params-Perm :
    (values other : Values) (params : List (String × String))
    → Perm values other
    → HasDistinctKeys values
    → lower_params values [] ≡ ok params
    → (params' : List (String × String)) × (lower_params other [] ≡ ok params')
      × ((key : String) → lookup key params' ≡ lookup key params)
lower_params-Perm values other params same distinct h =
    let distinct' = HasDistinctKeys-Perm values other same distinct in
    let allowed = is_refused_complete other (
      sym (any-Perm is_refused same)
      ∙ is_refused_sound values ((lower_params_iff values).0 (params, h))) in
    let (params', h') = (lower_params_iff other).1 allowed in
    let (read, absent) = lower_params-IsRead values params h distinct in
    let (read', absent') = lower_params-IsRead other params' h' distinct' in
    (
      params',
      h',
      λ key. elim (Bool-cases (any (is_key key) values)) [
        | inr none_has ↦
            absent' key (has_key-any key other ∙ sym (any-Perm (is_key key) same) ∙ none_has)
            ∙ sym (absent key (has_key-any key values ∙ none_has))
        | inl has ↦
            let (value, found) = reads_complete params key values read has in
            reads_sound params' key value other read'
              (sym (any-Perm (reads key value) same) ∙ found)
            ∙ sym (reads_sound params key value values read found)
      ],
    )
