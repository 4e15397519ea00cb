-- ===== src/Mapper/ConfigMap/Laws.antt =====
-- The config map mapper answers as the last event says, whatever came before it.
use iam2kube.Shared.{
  String, ◌≡◌, refl, Option, none, some, List, [], ◌∷◌, Result, ok, err, if◌then◌else◌, arith,
  member,
}
use text.Mathlib.Text.{◌==◌}
use iam2kube.Shared.Text.{to_lower}
use iam2kube.Shared.Assoc.{lookup, insert, lookup-insert}
use iam2kube.Config.{IdentityMapping, RoleMapping, UserMapping}
use iam2kube.Mapper.{MapError, not_mapped}
use iam2kube.Mapper.Last.{later, find_last}
use iam2kube.Mapper.ConfigMap.{
  MapStore, Decoders, Parsed, parse_map, save_users, save_roles, save_accounts, save_map,
  config_map, other, WatchEvent, error, deleted, unknown, added, modified, on_event, watch,
  config_map_mapper, empty_store,
}

lookup-save_users :
    (key : String) (saved : List (String × UserMapping)) (users : List UserMapping)
    → lookup key (save_users saved users)
      ≡ later (find_last (λ u. some (to_lower u.user_arn)) key users) (lookup key saved)
unfolding save_users find_last
lookup-save_users key saved [] = refl
lookup-save_users key saved (u ∷ users) = ground (
  arith,
  lookup-save_users key (insert (to_lower u.user_arn) u saved) users,
  lookup-insert (to_lower u.user_arn) key u saved,
)

lookup-save_roles :
    (key : String) (saved : List (String × RoleMapping)) (roles : List RoleMapping)
    → lookup key (save_roles saved roles)
      ≡ later (find_last (λ r. some (to_lower r.role_arn)) key roles) (lookup key saved)
unfolding save_roles find_last
lookup-save_roles key saved [] = refl
lookup-save_roles key saved (r ∷ roles) = ground (
  arith,
  lookup-save_roles key (insert (to_lower r.role_arn) r saved) roles,
  lookup-insert (to_lower r.role_arn) key r saved,
)

lookup-save_accounts :
    (key : String) (saved : List (String × Unit {0})) (accounts : List String)
    → lookup key (save_accounts saved accounts)
      ≡ (if member accounts key then some tt else lookup key saved)
unfolding save_accounts
lookup-save_accounts key saved [] = refl
lookup-save_accounts key saved (a ∷ accounts) =
    ground
      (arith, lookup-save_accounts key (insert a tt saved) accounts, lookup-insert a key tt saved)

-- What three lists of the config map say of an ARN.
unfoldable pub listed :
    List UserMapping → List RoleMapping → String → Result MapError IdentityMapping
listed users roles arn =
    let key = to_lower arn in
    elim (find_last (λ (r : RoleMapping). some (to_lower r.role_arn)) key roles) [
      | some r ↦ ok (record { identity_arn = key; username = r.username; groups = r.groups })
      | none ↦ elim (find_last (λ (u : UserMapping). some (to_lower u.user_arn)) key users) [
        | some u ↦ ok (record { identity_arn = key; username = u.username; groups = u.groups })
        | none ↦ err not_mapped
      ]
    ]

-- The content that an event leaves in force: of a change of `aws-auth`, of a deletion, or none.
unfoldable pub in_force : Decoders → WatchEvent → Option Parsed
in_force d (added (config_map name content)) =
    if name == "aws-auth" then some (parse_map d content) else none
in_force d (modified (config_map name content)) =
    if name == "aws-auth" then some (parse_map d content) else none
in_force d deleted =
    some (record { user_mappings = []; role_mappings = []; aws_accounts = []; errors = [] })
in_force d _ = none

-- The content that a history of events leaves in force.
unfoldable pub last_in_force : Decoders → List WatchEvent → Option Parsed
last_in_force d [] = none
last_in_force d (e ∷ es) = later (last_in_force d es) (in_force d e)

-- The store that holds some content.
abbrev pub store_of : Parsed → MapStore
store_of p = save_map p.user_mappings p.role_mappings p.aws_accounts empty_store

on_event-in_force :
    (d : Decoders) (e : WatchEvent) (ms : MapStore)
    → on_event d e ms ≡ (elim (in_force d e) [ none ↦ ms | some p ↦ store_of p ])
unfolding on_event in_force
on_event-in_force d error ms = refl
on_event-in_force d deleted ms = refl
on_event-in_force d unknown ms = refl
on_event-in_force d (added other) ms = refl
on_event-in_force d (modified other) ms = refl
on_event-in_force d (added (config_map name content)) ms = ground arith
on_event-in_force d (modified (config_map name content)) ms = ground arith

-- After any history the store holds the last content that came into force, and nothing of what
-- came before; with none, it is the store at the start.
pub watch-last_in_force :
    (d : Decoders) (events : List WatchEvent) (ms : MapStore)
    → watch d events ms ≡ (elim (last_in_force d events) [ none ↦ ms | some p ↦ store_of p ])
unfolding watch last_in_force
watch-last_in_force d [] ms = refl
watch-last_in_force d (e ∷ es) ms =
    ground (arith, watch-last_in_force d es (on_event d e ms), on_event-in_force d e ms)

pub config_map_map-listed :
    (p : Parsed) (arn : String)
    → (config_map_mapper (store_of p)).map_arn arn ≡ listed p.user_mappings p.role_mappings arn
unfolding config_map_mapper save_map listed
config_map_map-listed p arn = ground (
  arith,
  lookup-save_roles (to_lower arn) [] p.role_mappings,
  lookup-save_users (to_lower arn) [] p.user_mappings,
)

pub aws_account-listed :
    (p : Parsed) (account : String)
    → (config_map_mapper (store_of p)).is_account_allowed account ≡ member p.aws_accounts account
unfolding config_map_mapper save_map
aws_account-listed p account = ground (arith, lookup-save_accounts account [] p.aws_accounts)
