-- ===== src/Mapper.antt =====
-- pkg/mapper/mapper.go: the interface of the backends, and the check of the backend modes.
pub mod Last
pub mod File
pub mod ConfigMap
pub mod Crd
pub mod Validate
mod Tests
use iam2kube.Shared.{
  ℕ, String, Bool, true, false, Option, none, some, List, [], ◌∷◌, ◌++◌, Result, ok, err, nat_eq,
  length, not, member, if◌then◌else◌,
}
use iam2kube.Shared.Assoc.{lookup}
use iam2kube.Config.{IdentityMapping}
use text.Mathlib.Text.{◌==◌}

abbrev pub mode_file : String
mode_file = "File"

abbrev pub mode_config_map : String
mode_config_map = "ConfigMap"

abbrev pub mode_mounted_file : String
mode_mounted_file = "MountedFile"

abbrev pub mode_eks_config_map : String
mode_eks_config_map = "EKSConfigMap"

abbrev pub mode_crd : String
mode_crd = "CRD"

-- `ValidBackendModeChoices`
abbrev pub valid_backend_mode_choices : List String
valid_backend_mode_choices =
    mode_file ∷ mode_config_map ∷ mode_mounted_file ∷ mode_eks_config_map ∷ mode_crd ∷ []

-- `DeprecatedBackendModeChoices`: each old mode, and its replacement.
abbrev pub deprecated_backend_mode_choices : List (String × String)
deprecated_backend_mode_choices =
    (mode_file, mode_mounted_file) ∷ (mode_config_map, mode_eks_config_map) ∷ []

-- What `Map` returns besides a mapping: `ErrNotMapped`, or a failure of the backend.
pub data MapError : Type 0 where
  not_mapped : MapError
  failed : String → MapError

-- The interface `Mapper`, without `Start`, at one moment: the answers that a backend gives.
pub record Mapper : Type 0 where
  pub name : String
  pub map_arn : String → Result MapError IdentityMapping
  pub is_account_allowed : String → Bool

pub data ModeError : Type 0 where
  not_valid : String → ModeError
  has_duplicates : List String → ModeError
  none_given : ModeError

-- `validModes.Has(mode)`
unfoldable pub is_valid_mode : String → Bool
is_valid_mode mode = member valid_backend_mode_choices mode

-- The first loop of `ValidateBackendMode`
invalid_modes : List String → List ModeError
invalid_modes [] = []
invalid_modes (mode ∷ modes) =
    let rest = invalid_modes modes in
    if not (is_valid_mode mode) then not_valid mode ∷ rest else rest

-- The second loop: the warnings that it logs, each mode with its replacement.
unfoldable pub deprecation_warnings : List String → List (String × String)
unfolding lookup
deprecation_warnings [] = []
deprecation_warnings (mode ∷ modes) =
    let rest = deprecation_warnings modes in
    elim (lookup mode deprecated_backend_mode_choices) [
      | none ↦ rest
      | some replacement ↦ (mode, replacement) ∷ rest
    ]

-- `sets.NewString(modes...)`: each mode once.
distinct : List String → List String
distinct [] = []
distinct (mode ∷ modes) =
    let rest = distinct modes in if member rest mode then rest else mode ∷ rest

unfoldable pub validate_backend_mode : List String → List ModeError
unfolding invalid_modes distinct is_valid_mode
validate_backend_mode modes =
    invalid_modes modes
    ++ ((if not (nat_eq (length modes) (length (distinct modes)))
          then has_duplicates modes ∷ []
          else [])
        ++ (if nat_eq (length modes) 0 then none_given ∷ [] else []))
