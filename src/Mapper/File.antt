-- ===== src/Mapper/File.antt =====
-- pkg/mapper/file/mapper.go: the mappings of the server's configuration file.
pub mod Laws
pub mod Roles
use iam2kube.Shared.{
  String, Bool, true, false, Option, none, some, List, [], ◌∷◌, Result, ok, err, ◌>>=◌, map_err,
}
use iam2kube.Shared.Text.{to_lower}
use iam2kube.Shared.Assoc.{lookup, insert}
use iam2kube.Config.{Config, IdentityMapping, RoleMapping, UserMapping}
use iam2kube.Arn.{ArnError, canonicalize}
use iam2kube.Arn.Format.{Sdk}
use iam2kube.Mapper.{Mapper, MapError, not_mapped, mode_mounted_file}

pub record FileMapper : Type 0 where
  pub lowercase_role_map : List (String × RoleMapping)
  pub lowercase_user_map : List (String × UserMapping)
  pub account_map : List (String × Bool)

-- `NewFileMapperWithMaps`
abbrev pub new_file_mapper_with_maps :
    List (String × RoleMapping) → List (String × UserMapping) → List (String × Bool) → FileMapper
new_file_mapper_with_maps roles users accounts = record {
  lowercase_role_map = roles;
  lowercase_user_map = users;
  account_map = accounts;
}

-- The loops over `cfg.RoleMappings` and `cfg.UserMappings`, which differ in the field that holds
-- the mapping's ARN: each mapping is stored under its canonical ARN in lower case.
module _ (sdk : Sdk) {V : Type 0} (arn_of : V → String) where
  add_mappings : List (String × V) → List V → Result ArnError (List (String × V))
  add_mappings stored [] = ok stored
  add_mappings stored (m ∷ ms) = do
    canonicalized ← canonicalize sdk (to_lower (arn_of m))
    add_mappings (insert canonicalized m stored) ms

-- The loop over `cfg.AutoMappedAWSAccounts`
add_accounts : List (String × Bool) → List String → List (String × Bool)
add_accounts accounts [] = accounts
add_accounts accounts (m ∷ ms) = add_accounts (insert m true accounts) ms

unfoldable pub new_file_mapper : Sdk → Config → Result ArnError FileMapper
unfolding add_mappings add_accounts canonicalize to_lower insert
new_file_mapper sdk cfg = do
  roles ← add_mappings sdk RoleMapping.role_arn [] cfg.role_mappings
  users ← add_mappings sdk UserMapping.user_arn [] cfg.user_mappings
  ok (new_file_mapper_with_maps roles users (add_accounts [] cfg.auto_mapped_aws_accounts))

-- `FileMapper.Map`
file_map : FileMapper → String → Result MapError IdentityMapping
unfolding to_lower lookup
file_map m arn =
    let canonical = to_lower arn in
    elim (lookup canonical m.lowercase_role_map) [
      | some r ↦ ok (record { identity_arn = canonical; username = r.username; groups = r.groups })
      | none ↦ elim (lookup canonical m.lowercase_user_map) [
        | some u ↦
            ok (record { identity_arn = canonical; username = u.username; groups = u.groups })
        | none ↦ err not_mapped
      ]
    ]

-- `FileMapper.IsAccountAllowed`: reading an absent key gives `false`.
file_is_account_allowed : FileMapper → String → Bool
unfolding lookup
file_is_account_allowed m account = elim (lookup account m.account_map) [
  | none ↦ false
  | some b ↦ b
]

-- The methods of a `*FileMapper`, as the interface.
unfoldable pub file_mapper : FileMapper → Mapper
unfolding file_map file_is_account_allowed
file_mapper m = record {
  name = mode_mounted_file;
  map_arn = file_map m;
  is_account_allowed = file_is_account_allowed m;
}
