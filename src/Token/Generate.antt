-- ===== src/Token/Generate.antt =====
-- pkg/token/token.go: `GetWithOptions` and `GetWithSTS`. Sessions and clients of STS are the AWS
-- SDK's, so their types and what is done with them are parameters; the cache file is explicit.
pub mod Fresh
pub mod Short
pub mod Session
pub mod Client
pub mod Options
mod Tests
use iam2kube.Shared.{
  ℕ, ◌+◌, ◌-◌, String, ◌<>◌, Bool, true, false, Option, none, some, List, [], ◌∷◌, Result, ok, err,
  ◌>>=◌, map_err, if◌then◌else◌, not, ltb, len,
}
use iam2kube.Shared.Text.{split}
use iam2kube.Arn.Format.{colon}
use iam2kube.Token.{
  Token, GetTokenOptions, presigned_url_expiration, minute, v1_prefix, request_presign_param,
}
use iam2kube.Token.Cache.{CacheKey}
use iam2kube.Token.Cache.Provider.{
  Yaml, Disk, Faults, FileCacheProvider, NewProblem, nil_info, new_file_cache_provider,
}
use text.Mathlib.Text.{◌==◌}

-- What the setters put into an `AssumeRoleProvider`; none leaves the SDK's default.
pub record AssumeRole : Type 0 where
  pub external_id : Option String
  pub role_session_name : Option String

-- What is used of the AWS SDK. `presign` signs a request for the caller's identity with the cluster
-- id in its header, to expire after a time.
pub record Aws (Session Client : Type 0) : Type 0 where
  pub new_session : Result String Session
  pub with_region : Session → String → Session
  pub has_credentials : Session → Bool
  pub with_cache : Session → FileCacheProvider → Session
  pub new_client : Session → Client
  pub assume_role : Session → String → AssumeRole → Client
  pub caller_user_id : Client → Result String String
  pub presign : Client → String → ℕ → Result String String
  pub default_profile : String

-- `generator`
pub record Generator : Type 0 where
  pub forward_session_name : Bool
  pub cache : Bool

-- The environment of a run: the variable AWS_PROFILE and the cache file, with its libraries.
pub record Surroundings : Type 0 where
  pub aws_profile : String
  pub yaml : Yaml
  pub faults : Faults
  pub disk : Option Disk

pub data GenerateError : Type 0 where
  cluster_id_required cache_panics : GenerateError
  no_session caller_failed presign_failed : String → GenerateError

-- `if len(userIDParts) == 2`: the session name of a federated identity.
pub forwarded_name : String → Option String
forwarded_name user_id = elim (split user_id colon) [ u ∷ s ∷ [] ↦ some s | _ ↦ none ]

-- A text of an option, where it is given.
abbrev pub given : String → Option String
given s = if s == "" then none else some s

module _ {Session Client : Type 0} (aws : Aws Session Client) (encode : String → String) where
  -- `GetWithSTS`, at a time.
  unfoldable pub get_with_sts : ℕ → String → Client → Result GenerateError Token
  get_with_sts now cluster_id client = do
    url ← map_err presign_failed (aws.presign client cluster_id request_presign_param)
    ok (record {
      token = v1_prefix <> encode url;
      expiration = now + (presigned_url_expiration - minute);
    })

  -- A cache that cannot be used is left out, but for the panic on a nil `FileInfo`.
  abbrev pub without_cache : Session → NewProblem → Result GenerateError Session
  without_cache session nil_info = err cache_panics
  without_cache session _ = ok session

  -- The block under `g.cache`
  pub use_cache : Surroundings → GetTokenOptions → Session → Result GenerateError Session
  use_cache env options session =
      let profile = if ltb 0 (len env.aws_profile) then env.aws_profile else aws.default_profile in
      let key : CacheKey = record {
        cluster_id = options.cluster_id;
        profile = profile;
        role_arn = options.assume_role_arn;
      } in
      elim (new_file_cache_provider env.yaml env.faults (aws.has_credentials session) key
        env.disk) [
          | ok provider ↦ ok (aws.with_cache session provider)
          | err e ↦ without_cache session e
        ]

  -- The block that builds a session where none is given.
  pub build_session : Generator → Surroundings → GetTokenOptions → Result GenerateError Session
  build_session g env options = do
    session ← map_err no_session aws.new_session
    let in_region = if options.region == "" then session else aws.with_region session options.region
    let with_credentials = use_cache env options in_region
    if g.cache then with_credentials else ok in_region

  -- The session name of the assumed role.
  pub role_session_name :
      Generator → GetTokenOptions → Client → Result GenerateError (Option String)
  role_session_name g options client =
      if g.forward_session_name
      then map_err caller_failed (aws.caller_user_id client)
        >>= (λ user_id. ok (forwarded_name user_id))
      else ok (given options.session_name)

  -- The client of the session, or of the role that it assumes.
  pub choose_client : Generator → GetTokenOptions → Session → Result GenerateError Client
  choose_client g options session =
      if options.assume_role_arn == ""
      then ok (aws.new_client session)
      else role_session_name g options (aws.new_client session) >>= (λ name. ok (
          aws.assume_role session options.assume_role_arn (record {
            external_id = given options.assume_role_external_id;
            role_session_name = name;
          })))

  -- What follows once there is a session.
  pub token_for : Generator → ℕ → GetTokenOptions → Session → Result GenerateError Token
  token_for g now options session = do
    client ← choose_client g options session
    get_with_sts now options.cluster_id client

  -- `GetWithOptions`; the session of the options is an argument of its own, and the second component
  -- is the session that the options hold afterwards.
  unfoldable pub get_with_options :
      Generator
      → Surroundings
      → ℕ
      → GetTokenOptions
      → Option Session
      → Result GenerateError Token × Option Session
  unfolding token_for build_session use_cache choose_client role_session_name forwarded_name
      get_with_sts
  get_with_options g env now options session =
      if options.cluster_id == "" then (err cluster_id_required, session) else elim session [
        | some s ↦ (token_for g now options s, some s)
        | none ↦ elim (build_session g env options) [
          | err e ↦ (err e, none)
          | ok s ↦ (token_for g now options s, some s)
        ]
      ]
