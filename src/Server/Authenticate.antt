-- ===== src/Server/Authenticate.antt =====
-- pkg/server/server.go: `authenticateEndpoint`. The decoder of a token review is a parameter; logs
-- and the measured durations are left out, the metric's label is kept.
pub mod Grants
use iam2kube.Shared.{
  ℕ, String, ◌<>◌, Bool, true, false, not, Option, none, some, List, [], ◌∷◌, Result, ok, err,
  if◌then◌else◌, member,
}
use iam2kube.Token.{Identity}
use iam2kube.Token.Verify.{TokenError, format_error, sts_error}
use iam2kube.Mapper.{Mapper}
use iam2kube.Server.Mapping.{MappingError, do_mapping}
use text.Mathlib.Text.{◌==◌}

-- The metric's labels; the code spells the fourth without its first "n".
pub data Metric : Type 0 where
  malformed_request invalid_token sts_failure unknown_user success : Metric

pub record UserInfo : Type 0 where
  pub username : String
  pub uid : String
  pub groups : List String
  pub extra : List (String × List String)

-- A plain text, the static deny review, or the review of a user.
pub data Body : Type 0 where
  message : String → Body
  deny : Body
  granted : UserInfo → Body

pub record Outcome : Type 0 where
  pub status : ℕ
  pub metric : Metric
  pub body : Body

pub record HttpRequest : Type 0 where
  pub method : String
  pub body : Option String

-- `handler`; `verify` is its verifier, and `decode` reads the token out of a token review.
pub record Handler : Type 0 where
  pub decode : String → Result String String
  pub verify : String → Result TokenError Identity
  pub private_dns_name : String → Result String String
  pub mappers : List Mapper
  pub scrubbed_accounts : List String

-- `isLoggableIdentity`
is_loggable_identity : Handler → Identity → Bool
is_loggable_identity h identity = not (member h.scrubbed_accounts identity.account_id)

-- The user of a granted review
unfoldable pub user_info : Handler → Identity → String → List String → UserInfo
unfolding is_loggable_identity
user_info h identity username groups =
    if is_loggable_identity h identity
    then record {
      username = username;
      uid = "aws-iam-authenticator:" <> (identity.account_id <> (":" <> identity.user_id));
      groups = groups;
      extra =
          ("arn", identity.arn ∷ [])
          ∷ ("canonicalArn", identity.canonical_arn ∷ [])
          ∷ ("sessionName", identity.session_name ∷ [])
          ∷ ("accessKeyId", identity.access_key_id ∷ [])
          ∷ [];
    }
    else record {
      username = username;
      uid = "aws-iam-authenticator:administrative:" <> username;
      groups = groups;
      extra = [];
    }

abbrev pub verify_metric : TokenError → Metric
verify_metric (sts_error _) = sts_failure
verify_metric (format_error _) = invalid_token

-- The part after the token is known
answer_token : Handler → String → Outcome
answer_token h token = elim (h.verify token) [
  | err e ↦ record { status = 403; metric = verify_metric e; body = deny }
  | ok identity ↦ elim (do_mapping h.private_dns_name identity h.mappers) [
    | err _ ↦ record { status = 403; metric = unknown_user; body = deny }
    | ok (username, groups) ↦ record {
      status = 200;
      metric = success;
      body = granted (user_info h identity username groups);
    }
  ]
]

-- The part that reads the body
answer_body : Handler → Option String → Outcome
answer_body h none = record {
  status = 400;
  metric = malformed_request;
  body = message "expected a request body";
}
answer_body h (some content) = elim (h.decode content) [
  | err _ ↦ record {
    status = 400;
    metric = malformed_request;
    body = message "expected a request body to be a TokenReview";
  }
  | ok token ↦ answer_token h token
]

unfoldable pub authenticate_endpoint : Handler → HttpRequest → Outcome
unfolding answer_body answer_token
authenticate_endpoint h req =
    if not (req.method == "POST")
    then record { status = 405; metric = malformed_request; body = message "expected POST" }
    else answer_body h req.body
