-- ===== src/Ec2Provider/Session.antt =====
-- pkg/ec2provider/ec2provider.go: `New` and `newSession`. What the SDK finds of a region in its
-- configuration and in the metadata of the instance is a parameter.
use iam2kube.Shared.{ℕ, ◌*◌, String, Option, none, some, [], Result, ok, err, if◌then◌else◌}
use iam2kube.Shared.Int.{ℤ}
use iam2kube.Config.Files.{Failure, exits, panics}
use iam2kube.Httputil.{Client, new_rate_limited_client}
use iam2kube.Ec2Provider.{Provider}
use text.Mathlib.Text.{◌==◌}

-- The region of a new session, where there is a session, and that of the instance.
pub record Regions : Type 0 where
  pub session_region : Result String String
  pub metadata_region : Result String String

-- `AssumeRoleProvider`; its client of STS has its own HTTP client, or none.
pub record AssumedRole : Type 0 where
  pub role_arn : String
  pub http_client : Option Client
  pub duration_seconds : ℕ

-- What is filled in of the session of the EC2 client.
pub record Session : Type 0 where
  pub region : String
  pub credentials : Option AssumedRole

-- A failure to make the rate limited client is logged, and the client is nil.
abbrev client_of : Result ℤ Client → Option Client
client_of (ok client) = some client
client_of (err _) = none

-- The part of `newSession` that finds the region.
pub find_region : Regions → Result Failure String
find_region regions = elim regions.session_region [
  | err _ ↦ err panics
  | ok region ↦
      if region == ""
      then (elim regions.metadata_region [ err e ↦ err (exits e) | ok found ↦ ok found ])
      else ok region
]

-- The credentials of the role, where one is given.
pub role_credentials : String → ℤ → ℤ → Option AssumedRole
role_credentials role_arn qps burst =
    if role_arn == ""
    then none
    else some (record {
      role_arn = role_arn;
      http_client = client_of (new_rate_limited_client qps burst);
      duration_seconds = 60 * 60;
    })

unfoldable pub new_session : Regions → String → ℤ → ℤ → Result Failure Session
unfolding find_region role_credentials
new_session regions role_arn qps burst = elim (find_region regions) [
  | err e ↦ err e
  | ok region ↦ ok (record { region = region; credentials = role_credentials role_arn qps burst })
]

-- `New`: the session of the client, and two empty maps.
unfoldable pub new_provider : Regions → String → ℤ → ℤ → Result Failure (Session × Provider)
new_provider regions role_arn qps burst = elim (new_session regions role_arn qps burst) [
  | err e ↦ err e
  | ok session ↦ ok (session, record { private_dns_cache = []; in_flight = [] })
]
