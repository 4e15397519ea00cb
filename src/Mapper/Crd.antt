-- ===== src/Mapper/Crd.antt =====
-- pkg/mapper/crd/mapper.go, pkg/mapper/crd/controller/controller.go and the types of
-- pkg/mapper/crd/apis: mappings kept as Kubernetes resources. The informer's cache, the lister and
-- the client are client-go's, so they are a parameter.
pub mod Sync
pub mod Controller
mod Tests
use iam2kube.Shared.{
  String, Bool, true, false, not, Option, none, some, List, [], ◌∷◌, ◌++◌, Result, ok, err, ◌>>=◌,
  if◌then◌else◌, member,
}
use iam2kube.Shared.Text.{to_lower}
use iam2kube.Config.{IdentityMapping}
use iam2kube.Arn.{ArnError, canonicalize}
use iam2kube.Arn.Format.{Sdk}
use iam2kube.Mapper.{Mapper, MapError, not_mapped, failed, mode_crd}
use text.Mathlib.Text.{◌==◌}

pub record IamIdentityMappingSpec : Type 0 where
  pub arn : String
  pub username : String
  pub groups : List String

pub record IamIdentityMappingStatus : Type 0 where
  pub canonical_arn : String
  pub user_id : String

-- `IAMIdentityMapping`; of its metadata the name.
pub record IamIdentityMapping : Type 0 where
  pub name : String
  pub spec : IamIdentityMappingSpec
  pub status : IamIdentityMappingStatus

-- What the cache of an informer holds, by its dynamic type.
pub data Object : Type 0 where
  identity : IamIdentityMapping → Object
  other : Object

-- `IndexIAMIdentityMappingByCanonicalArn`
unfoldable pub index_by_canonical_arn : Object → List String
index_by_canonical_arn other = []
index_by_canonical_arn (identity m) =
    if m.status.canonical_arn == "" then [] else m.status.canonical_arn ∷ []

-- `ByIndex` of the index "canonicalARN".
pub record Indexer : Type 0 where
  pub by_canonical_arn : String → Result String (List Object)

-- The loop of `Map`: the first object that is a mapping.
first_identity : List Object → Option IamIdentityMapping
first_identity [] = none
first_identity (identity m ∷ objects) = some m
first_identity (other ∷ objects) = first_identity objects

-- `CRDMapper.Map`
crd_map : Indexer → String → Result MapError IdentityMapping
crd_map index arn =
    let canonical = to_lower arn in
    elim (index.by_canonical_arn canonical) [
      | err e ↦ err (failed e)
      | ok objects ↦ elim (first_identity objects) [
        | none ↦ err not_mapped
        | some m ↦ ok (record {
          identity_arn = canonical;
          username = m.spec.username;
          groups = m.spec.groups;
        })
      ]
    ]

-- The methods of a `CRDMapper`, as the interface.
unfoldable pub crd_mapper : Indexer → Mapper
unfolding crd_map first_identity to_lower
crd_mapper index = record {
  name = mode_crd;
  map_arn = crd_map index;
  is_account_allowed = λ account. false;
}
