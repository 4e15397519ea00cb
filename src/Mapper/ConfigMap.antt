-- ===== src/Mapper/ConfigMap.antt =====
-- pkg/mapper/configmap: the mappings of the `aws-auth` config map, kept up to date by watch events.
-- The YAML and JSON decoders are libraries, so they are a parameter.
pub mod Laws
pub mod Answers
pub mod Connect
use iam2kube.Shared.{
  String, Bool, true, false, Option, none, some, List, [], ◌∷◌, ◌++◌, Result, ok, err,
  if◌then◌else◌,
}
use iam2kube.Shared.Text.{to_lower}
use iam2kube.Shared.Assoc.{lookup, insert}
use iam2kube.Config.{IdentityMapping, RoleMapping, UserMapping}
use iam2kube.Mapper.{Mapper, MapError, not_mapped, mode_eks_config_map}
use text.Mathlib.Text.{◌==◌}

-- `MapStore`, without its lock and its client.
pub record MapStore : Type 0 where
  pub users : List (String × UserMapping)
  pub roles : List (String × RoleMapping)
  pub aws_accounts : List (String × Unit {0})

-- `utilyaml.ToJSON`, and the decoders into lists of mappings and of accounts. A decoder that fails
-- may have filled a part of the list.
pub record Decoders : Type 0 where
  pub to_json : String → Result String String
  pub unmarshal_users : String → List UserMapping × Option String
  pub unmarshal_roles : String → List RoleMapping × Option String
  pub unmarshal_accounts : String → List String × Option String

-- What `parseMap` returns: the lists, and the errors of `ErrParsingMap`.
pub record Parsed : Type 0 where
  pub user_mappings : List UserMapping
  pub role_mappings : List RoleMapping
  pub aws_accounts : List String
  pub errors : List String

-- `errs = append(errs, err)` when there is an error.
abbrev errors_of : Option String → List String
errors_of none = []
errors_of (some e) = e ∷ []

-- One list of mappings: absent, not YAML, or decoded.
decode_list :
    {V : Type 0}
    → (String → Result String String)
    → (String → List V × Option String)
    → Option String
    → List V × List String
decode_list to_json unmarshal none = ([], [])
decode_list to_json unmarshal (some text) = elim (to_json text) [
  | err e ↦ ([], e ∷ [])
  | ok json ↦ let (values, failure) = unmarshal json in (values, errors_of failure)
]

-- `parseMap`
unfoldable pub parse_map : Decoders → List (String × String) → Parsed
unfolding decode_list lookup
parse_map d m =
    let (users, e1) = decode_list d.to_json d.unmarshal_users (lookup "mapUsers" m) in
    let (roles, e2) = decode_list d.to_json d.unmarshal_roles (lookup "mapRoles" m) in
    let (accounts, e3) =
      decode_list (λ text. ok text) d.unmarshal_accounts (lookup "mapAccounts" m) in
    record {
      user_mappings = users;
      role_mappings = roles;
      aws_accounts = accounts;
      errors = e1 ++ (e2 ++ e3);
    }

save_users : List (String × UserMapping) → List UserMapping → List (String × UserMapping)
save_users saved [] = saved
save_users saved (user ∷ users) = save_users (insert (to_lower user.user_arn) user saved) users

save_roles : List (String × RoleMapping) → List RoleMapping → List (String × RoleMapping)
save_roles saved [] = saved
save_roles saved (role ∷ roles) = save_roles (insert (to_lower role.role_arn) role saved) roles

save_accounts : List (String × Unit {0}) → List String → List (String × Unit {0})
save_accounts saved [] = saved
save_accounts saved (account ∷ accounts) = save_accounts (insert account tt saved) accounts

-- `saveMap`: the three maps are made anew.
unfoldable pub save_map : List UserMapping → List RoleMapping → List String → MapStore → MapStore
unfolding save_users save_roles save_accounts insert to_lower
save_map users roles accounts ms = record ms {
  users = save_users [] users;
  roles = save_roles [] roles;
  aws_accounts = save_accounts [] accounts;
}

-- What the watch channel delivers. An added and a modified object are treated alike.
pub data Object : Type 0 where
  config_map : String → List (String × String) → Object
  other : Object

pub data WatchEvent : Type 0 where
  error deleted unknown : WatchEvent
  added modified : Object → WatchEvent

-- An added or modified object
on_change : Decoders → Object → MapStore → MapStore
on_change d other ms = ms
on_change d (config_map name content) ms =
    let parsed = parse_map d content in
    if name == "aws-auth"
    then save_map parsed.user_mappings parsed.role_mappings parsed.aws_accounts ms
    else ms

-- One round of the loop of `startLoadConfigMap` over the result channel.
pub on_event : Decoders → WatchEvent → MapStore → MapStore
unfolding on_change parse_map save_map
on_event d error ms = ms
on_event d deleted ms = save_map [] [] [] ms
on_event d (added o) ms = on_change d o ms
on_event d (modified o) ms = on_change d o ms
on_event d unknown ms = ms

-- The loop, over the events that the channel delivers.
unfoldable pub watch : Decoders → List WatchEvent → MapStore → MapStore
unfolding on_event
watch d [] ms = ms
watch d (e ∷ es) ms = watch d es (on_event d e ms)

-- `UserMapping`, `RoleMapping` and `AWSAccount`; `none` stands for `UserNotFound`, `RoleNotFound`.
user_mapping : MapStore → String → Option UserMapping
user_mapping ms arn = lookup arn ms.users

role_mapping : MapStore → String → Option RoleMapping
role_mapping ms arn = lookup arn ms.roles

aws_account : MapStore → String → Bool
aws_account ms id = elim (lookup id ms.aws_accounts) [ none ↦ false | some _ ↦ true ]

-- `ConfigMapMapper.Map`
config_map_map : MapStore → String → Result MapError IdentityMapping
config_map_map ms arn =
    let canonical = to_lower arn in
    elim (role_mapping ms canonical) [
      | some r ↦ ok (record { identity_arn = canonical; username = r.username; groups = r.groups })
      | none ↦ elim (user_mapping ms canonical) [
        | some u ↦
            ok (record { identity_arn = canonical; username = u.username; groups = u.groups })
        | none ↦ err not_mapped
      ]
    ]

-- The methods of a `ConfigMapMapper`, as the interface.
unfoldable pub config_map_mapper : MapStore → Mapper
unfolding config_map_map role_mapping user_mapping aws_account lookup to_lower
config_map_mapper ms = record {
  name = mode_eks_config_map;
  map_arn = config_map_map ms;
  is_account_allowed = aws_account ms;
}

-- `MapStore{}`, before the first event.
abbrev pub empty_store : MapStore
empty_store = record { users = []; roles = []; aws_accounts = [] }
