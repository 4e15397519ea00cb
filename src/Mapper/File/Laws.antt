-- ===== src/Mapper/File/Laws.antt =====
-- The file mapper answers as the configuration file says: the last mapping of an ARN wins, roles
-- come before users, and accounts are those listed.
use iam2kube.Shared.{
  String, ◌≡◌, refl, ◌∙◌, ◌↔◌, Bool, true, Option, none, some, List, [], ◌∷◌, Result, ok, err,
  >>=-eq-ok, if◌then◌else◌, arith, member, All,
}
use iam2kube.Shared.Text.{to_lower}
use iam2kube.Shared.Assoc.{lookup, insert, lookup-insert}
use iam2kube.Config.{Config, IdentityMapping, RoleMapping, UserMapping}
use iam2kube.Arn.{canonicalize}
use iam2kube.Arn.Format.{Sdk}
use iam2kube.Mapper.{MapError, not_mapped}
use iam2kube.Mapper.Last.{later, find_last}
use iam2kube.Mapper.File.{
  FileMapper, new_file_mapper_with_maps, add_mappings, add_accounts, new_file_mapper, file_map,
  file_is_account_allowed, file_mapper,
}

module _ (sdk : Sdk) {V : Type 0} (arn_of : V → String) where
  -- The canonical form of a mapping's ARN.
  abbrev pub canonical_key : V → Option String
  canonical_key m = elim (canonicalize sdk (to_lower (arn_of m))) [ ok c ↦ some c | err _ ↦ none ]

  later_step :
      (key c : String) (m : V) (stored : List (String × V)) (ms : List V)
      → canonicalize sdk (to_lower (arn_of m)) ≡ ok c
      → later (find_last canonical_key key ms) (lookup key (insert c m stored))
        ≡ later (find_last canonical_key key (m ∷ ms)) (lookup key stored)
  unfolding find_last
  later_step key c m stored ms e = ground (arith, lookup-insert c key m stored)

  lookup-add_mappings :
      (key : String) (stored : List (String × V)) (ms : List V) {all : List (String × V)}
      → add_mappings sdk arn_of stored ms ≡ ok all
      → lookup key all ≡ later (find_last canonical_key key ms) (lookup key stored)
  unfolding add_mappings find_last
  lookup-add_mappings key stored [] h = ground arith
  lookup-add_mappings key stored (m ∷ ms) h =
      let (c, e, h') = >>=-eq-ok (canonicalize sdk (to_lower (arn_of m))) _ h in
      lookup-add_mappings key (insert c m stored) ms h' ∙ later_step key c m stored ms e

  -- The loop ends with an error exactly when some ARN of the list has no canonical form.
  add_mappings_total :
      (stored : List (String × V)) (ms : List V)
      → All (λ m. (c : String) × (canonicalize sdk (to_lower (arn_of m)) ≡ ok c)) ms
      → (all : List (String × V)) × (add_mappings sdk arn_of stored ms ≡ ok all)
  unfolding add_mappings
  add_mappings_total stored [] h = (stored, refl)
  add_mappings_total stored (m ∷ ms) ((c, e), h) =
      let (all, e') = add_mappings_total (insert c m stored) ms h in (all, rw (e) e')

  add_mappings_sound :
      (stored : List (String × V)) (ms : List V) {all : List (String × V)}
      → add_mappings sdk arn_of stored ms ≡ ok all
      → All (λ m. (c : String) × (canonicalize sdk (to_lower (arn_of m)) ≡ ok c)) ms
  unfolding add_mappings
  add_mappings_sound stored [] h = tt
  add_mappings_sound stored (m ∷ ms) h =
      let (c, e, h') = >>=-eq-ok (canonicalize sdk (to_lower (arn_of m))) _ h in
      ((c, e), add_mappings_sound (insert c m stored) ms h')

lookup-add_accounts :
    (key : String) (accounts : List (String × Bool)) (ms : List String)
    → lookup key (add_accounts accounts ms)
      ≡ (if member ms key then some true else lookup key accounts)
unfolding add_accounts
lookup-add_accounts key accounts [] = refl
lookup-add_accounts key accounts (m ∷ ms) =
    rw (lookup-add_accounts key (insert m true accounts) ms, lookup-insert m key true accounts)
      (ground arith)

-- What the configuration says of an ARN.
unfoldable pub configured : Sdk → Config → String → Result MapError IdentityMapping
configured sdk cfg arn =
    let key = to_lower arn in
    elim (find_last (canonical_key sdk RoleMapping.role_arn) key cfg.role_mappings) [
      | some r ↦ ok (record { identity_arn = key; username = r.username; groups = r.groups })
      | none ↦ elim (find_last (canonical_key sdk UserMapping.user_arn) key cfg.user_mappings) [
        | some u ↦ ok (record { identity_arn = key; username = u.username; groups = u.groups })
        | none ↦ err not_mapped
      ]
    ]

-- The maps of a new mapper, read at any key.
made_maps :
    (sdk : Sdk) (cfg : Config) {m : FileMapper}
    → new_file_mapper sdk cfg ≡ ok m
    → (key : String)
    → (lookup key m.lowercase_role_map
        ≡ find_last (canonical_key sdk RoleMapping.role_arn) key cfg.role_mappings)
      × (lookup key m.lowercase_user_map
          ≡ find_last (canonical_key sdk UserMapping.user_arn) key cfg.user_mappings)
      × (lookup key m.account_map
          ≡ (if member cfg.auto_mapped_aws_accounts key then some true else none))
unfolding new_file_mapper lookup
made_maps sdk cfg {m} made key =
    let (roles, e1, h1) =
      >>=-eq-ok (add_mappings sdk RoleMapping.role_arn [] cfg.role_mappings) _ made in
    let (users, e2, h2) =
      >>=-eq-ok (add_mappings sdk UserMapping.user_arn [] cfg.user_mappings) _ h1 in
    let same : new_file_mapper_with_maps roles users (add_accounts [] cfg.auto_mapped_aws_accounts)
        ≡ m =
      ground arith in
    (
      rw (← same)
          (lookup-add_mappings sdk RoleMapping.role_arn key [] cfg.role_mappings e1 ∙ ground arith),
      rw (← same)
          (lookup-add_mappings sdk UserMapping.user_arn key [] cfg.user_mappings e2 ∙ ground arith),
      rw (← same) (lookup-add_accounts key [] cfg.auto_mapped_aws_accounts),
    )

module _ (sdk : Sdk) (cfg : Config) {m : FileMapper} (made : new_file_mapper sdk cfg ≡ ok m) where
  -- A mapper that was made from a configuration maps an ARN, in any case, as the last role entry
  -- with its canonical form says, else as the last such user entry; with neither it is not mapped.
  pub file_map-configured : (arn : String) → (file_mapper m).map_arn arn ≡ configured sdk cfg arn
  unfolding file_mapper configured file_map
  file_map-configured arn =
      let (roles, users, _) = made_maps sdk cfg made (to_lower arn) in
      rw (roles, file_map) (ground (arith, users))

  -- A mapper that was made from a configuration allows exactly the accounts that are listed there.
  pub file_is_account_allowed-configured :
      (account : String)
      → (file_mapper m).is_account_allowed account ≡ member cfg.auto_mapped_aws_accounts account
  unfolding file_mapper file_is_account_allowed
  file_is_account_allowed-configured account =
      let (_, _, accounts) = made_maps sdk cfg made account in
      rw (accounts, file_is_account_allowed) (ground arith)

-- Every ARN of the configuration has a canonical form.
abbrev pub HasCanonicalArns : Sdk → Config → Type 0
HasCanonicalArns sdk cfg =
    All (λ (r : RoleMapping). (c : String) × (canonicalize sdk (to_lower r.role_arn) ≡ ok c))
      cfg.role_mappings
    × All (λ (u : UserMapping). (c : String) × (canonicalize sdk (to_lower u.user_arn) ≡ ok c))
        cfg.user_mappings

-- A mapper is made exactly when every ARN of the configuration has a canonical form.
pub new_file_mapper_iff :
    (sdk : Sdk) (cfg : Config)
    → ((m : FileMapper) × (new_file_mapper sdk cfg ≡ ok m)) ↔ HasCanonicalArns sdk cfg
unfolding new_file_mapper
new_file_mapper_iff sdk cfg = (to, from)
  where
    to : (m : FileMapper) × (new_file_mapper sdk cfg ≡ ok m) → HasCanonicalArns sdk cfg
    to (m, made) =
        let (roles, e1, h1) =
          >>=-eq-ok (add_mappings sdk RoleMapping.role_arn [] cfg.role_mappings) _ made in
        let (users, e2, h2) =
          >>=-eq-ok (add_mappings sdk UserMapping.user_arn [] cfg.user_mappings) _ h1 in
        (
          add_mappings_sound sdk RoleMapping.role_arn [] cfg.role_mappings e1,
          add_mappings_sound sdk UserMapping.user_arn [] cfg.user_mappings e2,
        )

    from : HasCanonicalArns sdk cfg → (m : FileMapper) × (new_file_mapper sdk cfg ≡ ok m)
    from (r, u) =
        let (roles, e1) = add_mappings_total sdk RoleMapping.role_arn [] cfg.role_mappings r in
        let (users, e2) = add_mappings_total sdk UserMapping.user_arn [] cfg.user_mappings u in
        (
          new_file_mapper_with_maps roles users (add_accounts [] cfg.auto_mapped_aws_accounts),
          rw (e1, e2),
        )
