-- ===== src/Token/Cache/Location.antt =====
-- pkg/token/filecache.go: where the cache file stands, and the expiry that a provider tells.
use iam2kube.Shared.{ℕ, String, ◌<>◌, Bool, Option, none, some, if◌then◌else◌}
use iam2kube.Config.Paths.{clean}
use iam2kube.Token.Cache.Provider.{FileCacheProvider}
use text.Mathlib.Text.{◌==◌}

-- The operating system, and the variables of the environment.
pub record Environment : Type 0 where
  pub is_windows : Bool
  pub variable : String → Option String

-- `Getenv`: the empty text for a variable that is not set.
abbrev get_variable : Option String → String
get_variable none = ""
get_variable (some value) = value

-- `UserHomeDir`
unfoldable pub user_home_dir : Environment → String
user_home_dir env =
    if env.is_windows
    then get_variable (env.variable "USERPROFILE")
    else get_variable (env.variable "HOME")

-- `CacheFilename`, where paths are written with slashes.
unfoldable pub cache_filename : Environment → String
unfolding user_home_dir clean
cache_filename env = elim (env.variable "AWS_IAM_AUTHENTICATOR_CACHE_FILE") [
  | some filename ↦ filename
  | none ↦
      let home = user_home_dir env in
      let below : String = ".kube/cache/aws-iam-authenticator/credentials.yaml" in
      if home == "" then clean below else clean (home <> ("/" <> below))
]

-- `ExpiresAt`
pub expires_at_of : FileCacheProvider → ℕ
expires_at_of p = p.cached_credential.expiration
