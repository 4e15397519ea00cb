-- ===== src/Shared/Assoc.antt =====
-- Go maps with text keys, as association lists. A write replaces the entry of its key, a read of
-- an absent key gives nothing, and `delete` drops the entry.
use Prim.Native.String.{String}
use mathlib.Core.Path.{◌≡◌, refl}
use mathlib.Core.Option.{Option, none, some}
use mathlib.Core.List.{List, [], ◌∷◌}
use native.Mathlib.Omega.{arith}
use text.Mathlib.Text.{◌==◌}
use text.Mathlib.TextEquality.{eq_iff}
use Prim.Native.Nat.{◌+◌}
use iam2kube.Shared.Basics.{length, if◌then◌else◌}

module _ {ℓ} {V : Type ℓ} where
  -- `m[key]`, with whether it is there
  unfoldable pub lookup : String → List (String × V) → Option V
  lookup key [] = none
  lookup key ((first, value) ∷ rest) = if first == key then some value else lookup key rest

  -- `m[key] = value`: the entry is replaced in its place, or stands last.
  unfoldable pub insert : String → V → List (String × V) → List (String × V)
  insert key value [] = (key, value) ∷ []
  insert key value ((first, old) ∷ rest) =
      let unchanged = (first, old) ∷ insert key value rest in
      if first == key then (key, value) ∷ rest else unchanged

  unfoldable pub delete : String → List (String × V) → List (String × V)
  delete k [] = []
  delete k ((j, w) ∷ m) = let rest = delete k m in if j == k then rest else (j, w) ∷ rest

  -- No key has two entries.
  abbrev pub NodupKeys : List (String × V) → Type ℓ
  NodupKeys [] = Unit
  NodupKeys ((k, _) ∷ m) = (lookup k m ≡ none) × NodupKeys m

  -- Reading after a write
  pub lookup-insert :
      (written read : String) (value : V) (m : List (String × V))
      → lookup read (insert written value m)
        ≡ (if written == read then some value else lookup read m)
  unfolding lookup insert
  lookup-insert written read value [] = refl
  lookup-insert written read value ((first, _) ∷ rest) = ground (
    arith,
    lookup-insert written read value rest,
    eq_iff first read,
    eq_iff written read,
    eq_iff first written,
  )

  pub lookup-delete :
      (k j : String) (m : List (String × V))
      → lookup j (delete k m) ≡ (if k == j then none else lookup j m)
  unfolding lookup delete
  lookup-delete k j [] = ground arith
  lookup-delete k j ((i, w) ∷ m) =
      ground (arith, eq_iff k j, eq_iff i k, eq_iff i j, lookup-delete k j m)

  pub insert-NodupKeys :
      (k : String) (v : V) (m : List (String × V)) → NodupKeys m → NodupKeys (insert k v m)
  unfolding insert lookup
  insert-NodupKeys k v [] _ = (refl, tt)
  insert-NodupKeys k v ((j, w) ∷ m) (fresh, u) =
      ground (arith, eq_iff j k, eq_iff k j, insert-NodupKeys k v m u, lookup-insert k j v m)

  pub delete-NodupKeys : (k : String) (m : List (String × V)) → NodupKeys m → NodupKeys (delete k m)
  unfolding delete
  delete-NodupKeys k [] _ = tt
  delete-NodupKeys k ((j, w) ∷ m) (fresh, u) =
      ground (arith, delete-NodupKeys k m u, lookup-delete k j m)

  -- A write makes the map one entry larger at most, and exactly when the key is new.
  pub length-insert :
      (k : String) (v : V) (m : List (String × V))
      → length (insert k v m) ≡ (elim (lookup k m) [ none ↦ length m + 1 | some _ ↦ length m ])
  unfolding insert lookup
  length-insert k v [] = refl
  length-insert k v ((j, w) ∷ m) = ground (arith, length-insert k v m)
