-- ===== src/Mapper/Last.antt =====
-- The last entry of a list with a given key: what a Go map holds after the list was stored in order.
use iam2kube.Shared.{
  String, ◌≡◌, refl, Bool, false, Option, none, some, List, [], ◌∷◌, if◌then◌else◌, arith,
}
use iam2kube.Shared.Assoc.{lookup, insert, lookup-insert}
use text.Mathlib.Text.{◌==◌}

-- The later answer, if there is one.
abbrev pub later {ℓ} : {A : Type ℓ} → Option A → Option A → Option A
later none o = o
later (some a) o = some a

abbrev pub has_key : Option String → String → Bool
has_key none key = false
has_key (some c) key = c == key

unfoldable pub find_last {ℓ} : {V : Type ℓ} → (V → Option String) → String → List V → Option V
find_last key_of key [] = none
find_last key_of key (m ∷ ms) =
    later (find_last key_of key ms) (if has_key (key_of m) key then some m else none)

-- Storing a list of values, each under its key.
unfoldable pub store_all {ℓ} :
    {V : Type ℓ} → (V → String) → List (String × V) → List V → List (String × V)
store_all key_of stored [] = stored
store_all key_of stored (m ∷ ms) = store_all key_of (insert (key_of m) m stored) ms

pub lookup-store_all {ℓ} :
    {V : Type ℓ} (key_of : V → String) (key : String) (stored : List (String × V)) (ms : List V)
    → lookup key (store_all key_of stored ms)
      ≡ later (find_last (λ m. some (key_of m)) key ms) (lookup key stored)
unfolding store_all find_last
lookup-store_all key_of key stored [] = refl
lookup-store_all key_of key stored (m ∷ ms) = ground (
  arith,
  lookup-store_all key_of key (insert (key_of m) m stored) ms,
  lookup-insert (key_of m) key m stored,
)
