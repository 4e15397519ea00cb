-- ===== src/Token/Cache.antt =====
-- pkg/token/filecache.go: the cached credentials, by cluster, profile and role. Times are
-- nanoseconds from Go's zero time on.
pub mod Laws
pub mod Location
pub mod Provider
mod Tests
use iam2kube.Shared.{ℕ, String, Bool, Option, none, some, List, [], ◌∷◌, ltb}
use iam2kube.Shared.Assoc.{lookup, insert}

-- `credentials.Value` of the SDK.
pub record Credential : Type 0 where
  pub access_key_id : String
  pub secret_access_key : String
  pub session_token : String
  pub provider_name : String

-- `cachedCredential`; its clock is an argument of what reads it.
pub record CachedCredential : Type 0 where
  pub credential : Credential
  pub expiration : ℕ

-- The zero values of both
abbrev pub no_credential : Credential
no_credential = record {
  access_key_id = "";
  secret_access_key = "";
  session_token = "";
  provider_name = "";
}

abbrev pub zero_cached : CachedCredential
zero_cached = record { credential = no_credential; expiration = 0 }

-- `cachedCredential.IsExpired`
abbrev pub is_expired : CachedCredential → ℕ → Bool
is_expired c now = ltb c.expiration now

abbrev pub RoleMap : Type 0
RoleMap = List (String × CachedCredential)

abbrev pub ProfileMap : Type 0
ProfileMap = List (String × RoleMap)

-- `cacheFile`, its one field.
abbrev pub CacheFile : Type 0
CacheFile = List (String × ProfileMap)

pub record CacheKey : Type 0 where
  pub cluster_id : String
  pub profile : String
  pub role_arn : String

-- The first use of a key makes an empty map for it.
unfoldable pub ensure : {V : Type 0} → String → List (String × List V) → List V
ensure key m = elim (lookup key m) [ none ↦ [] | some inner ↦ inner ]

-- `cacheFile.Put`
unfoldable pub put : CacheFile → CacheKey → CachedCredential → CacheFile
unfolding ensure
put clusters key cached =
    let profiles = ensure key.cluster_id clusters in
    let roles = ensure key.profile profiles in
    insert key.cluster_id (insert key.profile (insert key.role_arn cached roles) profiles) clusters

-- The last read of `Get`: a missing role gives the zero value.
unfoldable pub get_role : String → RoleMap → CachedCredential
get_role role roles = elim (lookup role roles) [ none ↦ zero_cached | some cached ↦ cached ]

-- `cacheFile.Get`
unfoldable pub get : CacheFile → CacheKey → CachedCredential
unfolding get_role
get clusters key = elim (lookup key.cluster_id clusters) [
  | none ↦ zero_cached
  | some profiles ↦ elim (lookup key.profile profiles) [
    | none ↦ zero_cached
    | some roles ↦ get_role key.role_arn roles
  ]
]
