-- ===== src/Server/Mapping.antt =====
-- pkg/server/server.go: `doMapping`, the search through the backends in their order.
pub mod Order
use iam2kube.Shared.{
  String, Bool, true, false, Option, none, some, List, [], ◌∷◌, ◌++◌, Result, ok, err, map_err,
  if◌then◌else◌,
}
use iam2kube.Shared.Text.{to_lower}
use iam2kube.Config.{IdentityMapping}
use iam2kube.Token.{Identity}
use iam2kube.Mapper.{Mapper, MapError, not_mapped, failed}
use iam2kube.Server.Render.{RenderError, render_templates}

pub data MappingError : Type 0 where
  render_failed : String → RenderError → MappingError
  -- The aggregate of the failures of backends, each with the backend's name.
  backends_failed : List (String × String) → MappingError
  arn_not_mapped : MappingError

-- `errs = append(errs, …)` unless the error is `ErrNotMapped`
abbrev pub note_error : String → MapError → List (String × String) → List (String × String)
note_error name not_mapped errs = errs
note_error name (failed e) errs = errs ++ ((name, e) ∷ [])

-- After the loop
abbrev pub none_mapped : List (String × String) → MappingError
none_mapped [] = arn_not_mapped
none_mapped (e ∷ errs) = backends_failed (e ∷ errs)

module _ (private_dns_name : String → Result String String) (identity : Identity) where
  -- A mapping is found: its templates are rendered.
  pub found : Mapper → IdentityMapping → Result MappingError (String × List String)
  found m mapping =
      map_err (render_failed m.name) (render_templates private_dns_name mapping identity)

  -- The loop over `h.mappers`
  pub search_mappers :
      String → List (String × String) → List Mapper → Result MappingError (String × List String)
  search_mappers arn errs [] = err (none_mapped errs)
  search_mappers arn errs (m ∷ ms) = elim (m.map_arn arn) [
    | ok mapping ↦ found m mapping
    | err e ↦
        let next = search_mappers arn (note_error m.name e errs) ms in
        if m.is_account_allowed identity.account_id then ok (identity.canonical_arn, []) else next
  ]

  unfoldable pub do_mapping : List Mapper → Result MappingError (String × List String)
  unfolding search_mappers found
  do_mapping mappers = search_mappers (to_lower identity.canonical_arn) [] mappers
