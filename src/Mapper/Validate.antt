-- ===== src/Mapper/Validate.antt =====
-- What `ValidateBackendMode` accepts.
use iam2kube.Shared.{
  ◌≤◌, String, ◌≡◌, ◌≢◌, refl, ◌↔◌, true, false, List, [], ◌∷◌, length, member, All, arith,
}
use text.Mathlib.TextEquality.{eq_iff}
use iam2kube.Mapper.{invalid_modes, distinct, validate_backend_mode, is_valid_mode}

-- No mode stands twice.
abbrev pub IsDistinct : List String → Type 0
IsDistinct [] = Unit
IsDistinct (mode ∷ modes) = (member modes mode ≡ false) × IsDistinct modes

member-distinct :
    (modes : List String) (mode : String) → member (distinct modes) mode ≡ member modes mode
unfolding distinct
member-distinct [] mode = refl
member-distinct (m ∷ modes) mode =
    ground (arith, eq_iff m mode, member-distinct modes mode, member-distinct modes m)

length-distinct-le : (modes : List String) → length (distinct modes) ≤ length modes
unfolding distinct
length-distinct-le [] = omega arith
length-distinct-le (m ∷ modes) = ground (arith, length-distinct-le modes)

distinct-length_iff :
    (modes : List String) → (length modes ≡ length (distinct modes)) ↔ IsDistinct modes
unfolding distinct
distinct-length_iff [] = ground arith
distinct-length_iff (m ∷ modes) =
    ground (arith, distinct-length_iff modes, length-distinct-le modes, member-distinct modes m)

invalid_modes_iff :
    (modes : List String)
    → (invalid_modes modes ≡ []) ↔ All (λ mode. is_valid_mode mode ≡ true) modes
unfolding invalid_modes
invalid_modes_iff [] = ground arith
invalid_modes_iff (m ∷ modes) = ground (arith, invalid_modes_iff modes)

-- No error is returned exactly when there is a mode, each is one of the five, and none is repeated.
pub validate_backend_mode_iff :
    (modes : List String)
    → (validate_backend_mode modes ≡ [])
      ↔ ((modes ≢ []) × All (λ mode. is_valid_mode mode ≡ true) modes × IsDistinct modes)
unfolding validate_backend_mode
validate_backend_mode_iff [] = ground arith
validate_backend_mode_iff (m ∷ modes) =
    ground (arith, invalid_modes_iff (m ∷ modes), distinct-length_iff (m ∷ modes))
