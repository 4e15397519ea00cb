-- ===== src/Mapper/File/Roles.antt =====
-- A role of the configuration is found under its canonical name in any letter case.
use iam2kube.Shared.{
  String, ◌≡◌, refl, ap, ◌∙◌, false, Option, none, some, List, [], ◌∷◌, ◌++◌, ok, All, str_eq_refl,
}
use iam2kube.Shared.Text.{to_lower}
use iam2kube.Config.{RoleMapping, Config}
use iam2kube.Arn.{canonicalize}
use iam2kube.Arn.Format.{Sdk, ParsesArns}
use iam2kube.Arn.Case.{canonicalize-to_lower}
use iam2kube.Mapper.Last.{has_key, find_last}
use iam2kube.Mapper.File.{FileMapper, new_file_mapper, file_mapper}
use iam2kube.Mapper.File.Laws.{canonical_key, configured, file_map-configured}

find_last-none :
    {V : Type 0} (key_of : V → Option String) (key : String) (vs : List V)
    → All (λ x. has_key (key_of x) key ≡ false) vs
    → find_last key_of key vs ≡ none
unfolding find_last
find_last-none key_of key [] _ = refl
find_last-none key_of key (v ∷ vs) (e, rest) = rw (e, find_last-none key_of key vs rest) refl

-- The last entry with a key, where none after it has the key.
find_last-last :
    {V : Type 0} (key_of : V → Option String) (key : String) (before after : List V) (v : V)
    → key_of v ≡ some key
    → All (λ x. has_key (key_of x) key ≡ false) after
    → find_last key_of key (before ++ (v ∷ after)) ≡ some v
unfolding find_last
find_last-last key_of key [] after v named apart =
    rw (find_last-none key_of key after apart, named) (rw (str_eq_refl key) refl)
find_last-last key_of key (b ∷ before) after v named apart =
    rw (find_last-last key_of key before after v named apart) refl

module _ (sdk : Sdk) (laws : ParsesArns sdk)
    (lower : All (λ partition. to_lower partition ≡ partition) sdk.partitions) (cfg : Config)
    {m : FileMapper} (made : new_file_mapper sdk cfg ≡ ok m) where
  -- A mapper that was made from a configuration maps every name that is, up to letter case, the
  -- canonical form of the name of a role entry to that entry's username and groups, where no later
  -- role entry has the same canonical form up to letter case.
  pub file_map-role :
      (before after : List RoleMapping) (r : RoleMapping) (c arn : String)
      → cfg.role_mappings ≡ before ++ (r ∷ after)
      → canonicalize sdk r.role_arn ≡ ok c
      → All (λ x. has_key (canonical_key sdk RoleMapping.role_arn x) (to_lower c) ≡ false) after
      → to_lower arn ≡ to_lower c
      → (file_mapper m).map_arn arn
        ≡ ok (record { identity_arn = to_lower c; username = r.username; groups = r.groups })
  unfolding configured
  file_map-role before after r c arn split accepted apart same =
      let key : canonical_key sdk RoleMapping.role_arn r ≡ some (to_lower c) =
        rw (canonicalize-to_lower sdk laws lower r.role_arn c accepted, canonical_key) refl in
      let found : find_last (canonical_key sdk RoleMapping.role_arn) (to_lower arn)
            cfg.role_mappings
          ≡ some r =
        rw (same, split)
          (find_last-last (canonical_key sdk RoleMapping.role_arn) (to_lower c) before after r key
            apart) in
      file_map-configured sdk cfg made arn
      ∙ rw (found, configured)
          (ap (λ x. ok (record { identity_arn = x; username = r.username; groups = r.groups }))
            same)
