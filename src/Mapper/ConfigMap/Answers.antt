-- ===== src/Mapper/ConfigMap/Answers.antt =====
-- The config map mapper answers by the content that the last event left, read entry by entry.
use iam2kube.Shared.{
  String, ◌≡◌, refl, Option, none, some, List, [], ◌∷◌, Result, ok, err, if◌then◌else◌, arith,
  member, ap, ◌∙◌, inl, inr, Option-cases, Result-cases,
}
use text.Mathlib.Text.{◌==◌}
use mathlib.Core.Path.{ap₂}
use mathlib.Core.Option
use iam2kube.Shared.Assoc.{lookup}
use iam2kube.Config.{IdentityMapping, RoleMapping, UserMapping}
use iam2kube.Mapper.{MapError, not_mapped}
use iam2kube.Mapper.Last.{later}
use iam2kube.Mapper.ConfigMap.{
  MapStore, Decoders, parse_map, config_map, other, WatchEvent, error, deleted, unknown, added,
  modified, watch, decode_list, config_map_mapper, empty_store,
}
use iam2kube.Mapper.ConfigMap.Laws.{
  listed, in_force, last_in_force, store_of, watch-last_in_force, config_map_map-listed,
  aws_account-listed,
}

-- The content of a config map that an event leaves in force, as it was delivered: a deletion leaves
-- an empty one, and an event of another object leaves none.
pub content_of : WatchEvent → Option (List (String × String))
content_of (added (config_map name content)) = if name == "aws-auth" then some content else none
content_of (modified (config_map name content)) = if name == "aws-auth" then some content else none
content_of deleted = some []
content_of _ = none

pub last_content : List WatchEvent → Option (List (String × String))
last_content [] = none
last_content (e ∷ es) = later (last_content es) (content_of e)

module _ (d : Decoders) where
  -- The mappings of users that a content lists: those of its entry `mapUsers`, which is YAML, as far
  -- as they can be decoded.
  pub users_in : List (String × String) → List UserMapping
  users_in content = elim (lookup "mapUsers" content) [
    | none ↦ []
    | some yaml ↦ elim (d.to_json yaml) [ err _ ↦ [] | ok json ↦ (d.unmarshal_users json).0 ]
  ]

  -- Those of roles, in `mapRoles`.
  pub roles_in : List (String × String) → List RoleMapping
  roles_in content = elim (lookup "mapRoles" content) [
    | none ↦ []
    | some yaml ↦ elim (d.to_json yaml) [ err _ ↦ [] | ok json ↦ (d.unmarshal_roles json).0 ]
  ]

  -- The accounts, in `mapAccounts`, whose text goes to the decoder as it is.
  pub accounts_in : List (String × String) → List String
  accounts_in content = elim (lookup "mapAccounts" content) [
    | none ↦ []
    | some text ↦ (d.unmarshal_accounts text).0
  ]

  parse_map-users :
      (content : List (String × String)) → (parse_map d content).user_mappings ≡ users_in content
  unfolding parse_map users_in decode_list
  parse_map-users content = elim (Option-cases (lookup "mapUsers" content)) [
    | inl e ↦ rw (users_in, e) refl
    | inr (yaml, e) ↦ elim (Result-cases (d.to_json yaml)) [
      | inl (_, f) ↦ rw (users_in, e, decode_list, f) refl
      | inr (_, f) ↦ rw (users_in, e, decode_list, f) refl
    ]
  ]

  parse_map-roles :
      (content : List (String × String)) → (parse_map d content).role_mappings ≡ roles_in content
  unfolding parse_map roles_in decode_list
  parse_map-roles content = elim (Option-cases (lookup "mapRoles" content)) [
    | inl e ↦ rw (roles_in, e) refl
    | inr (yaml, e) ↦ elim (Result-cases (d.to_json yaml)) [
      | inl (_, f) ↦ rw (roles_in, e, decode_list, f) refl
      | inr (_, f) ↦ rw (roles_in, e, decode_list, f) refl
    ]
  ]

  parse_map-accounts :
      (content : List (String × String)) → (parse_map d content).aws_accounts ≡ accounts_in content
  unfolding parse_map accounts_in
  parse_map-accounts content = elim (Option-cases (lookup "mapAccounts" content)) [
    | inl e ↦ rw (accounts_in, e) refl
    | inr (_, e) ↦ rw (accounts_in, e) refl
  ]

  -- The answers that a content gives; with none in force, no ARN is mapped and no account allowed.
  pub answers : Option (List (String × String)) → String → Result MapError IdentityMapping
  answers none arn = err not_mapped
  answers (some content) arn = listed (users_in content) (roles_in content) arn

  pub accounts_of : Option (List (String × String)) → List String
  accounts_of none = []
  accounts_of (some content) = accounts_in content

  -- The store of a content in force
  abbrev store_with : Option (List (String × String)) → MapStore
  store_with none = empty_store
  store_with (some content) = store_of (parse_map d content)

  in_force-content :
      (e : WatchEvent) → in_force d e ≡ Option.map (λ content. parse_map d content) (content_of e)
  unfolding in_force content_of parse_map
  in_force-content error = refl
  in_force-content deleted = refl
  in_force-content unknown = refl
  in_force-content (added other) = refl
  in_force-content (modified other) = refl
  in_force-content (added (config_map name content)) = ground arith
  in_force-content (modified (config_map name content)) = ground arith

  last_in_force-content :
      (events : List WatchEvent)
      → last_in_force d events ≡ Option.map (λ content. parse_map d content) (last_content events)
  unfolding last_in_force last_content
  last_in_force-content [] = refl
  last_in_force-content (e ∷ es) = ground (arith, last_in_force-content es, in_force-content e)

  watch-store_with :
      (events : List WatchEvent) → watch d events empty_store ≡ store_with (last_content events)
  watch-store_with events = elim (Option-cases (last_content events)) [
    | inl e ↦
        ground (arith, e, watch-last_in_force d events empty_store, last_in_force-content events)
    | inr (_, e) ↦
        ground (arith, e, watch-last_in_force d events empty_store, last_in_force-content events)
  ]

  answers_at :
      (content : Option (List (String × String))) (arn account : String)
      → let mapper = config_map_mapper (store_with content) in
        (mapper.map_arn arn ≡ answers content arn)
        × (mapper.is_account_allowed account ≡ member (accounts_of content) account)
  unfolding config_map_mapper answers accounts_of lookup
  answers_at none arn account = (refl, refl)
  answers_at (some content) arn account = (
    config_map_map-listed (parse_map d content) arn
        ∙ ap₂ (λ users roles. listed users roles arn) (parse_map-users content)
            (parse_map-roles content),
    aws_account-listed (parse_map d content) account
        ∙ ap (λ accounts. member accounts account) (parse_map-accounts content),
  )

  -- After any history of events, from an empty store, the mapper answers by the content of `aws-auth`
  -- that the last of them left: an ARN has the last mapping under its lower case in `mapRoles`, or
  -- else in `mapUsers`, and an account is allowed if `mapAccounts` lists it. With no such content,
  -- or after a deletion, nothing is mapped and no account allowed.
  pub watch-answers :
      (events : List WatchEvent) (arn account : String)
      → let mapper = config_map_mapper (watch d events empty_store) in
        (mapper.map_arn arn ≡ answers (last_content events) arn)
        × (mapper.is_account_allowed account ≡ member (accounts_of (last_content events)) account)
  watch-answers events arn account =
      rw (watch-store_with events) (answers_at (last_content events) arn account)
