-- ===== src/Token.antt =====
-- pkg/token/token.go: the identities, tokens and errors of the authenticator.
pub mod Number
pub mod Query
pub mod Verify
pub mod Cache
pub mod Generate
pub mod Hosts
use iam2kube.Shared.{ℕ, String, List, ◌*◌, [], ◌∷◌}

-- What `Verify` returns on success.
pub record Identity : Type 0 where
  pub arn : String
  pub canonical_arn : String
  pub account_id : String
  pub user_id : String
  pub session_name : String
  pub access_key_id : String

pub record Token : Type 0 where
  pub token : String
  pub expiration : ℕ

-- `GetTokenOptions`, without the session.
pub record GetTokenOptions : Type 0 where
  pub region : String
  pub cluster_id : String
  pub assume_role_arn : String
  pub assume_role_external_id : String
  pub session_name : String

-- A second, in the nanoseconds of `time.Duration`.
abbrev pub second : ℕ
second = 1_000_000_000

abbrev pub minute : ℕ
minute = 60 * second

abbrev pub request_presign_param : ℕ
request_presign_param = 60

abbrev pub presigned_url_expiration : ℕ
presigned_url_expiration = 15 * minute

abbrev pub v1_prefix : String
v1_prefix = "k8s-aws-v1."

abbrev pub max_token_len_bytes : ℕ
max_token_len_bytes = 1024 * 4

abbrev pub cluster_id_header : String
cluster_id_header = "x-k8s-aws-id"

abbrev pub date_header_format : String
date_header_format = "20060102T150405Z"

-- `parameterWhitelist`
abbrev pub parameter_whitelist : List String
parameter_whitelist =
    "action" ∷ "version" ∷ "x-amz-algorithm" ∷ "x-amz-credential" ∷ "x-amz-date" ∷ "x-amz-expires"
    ∷ "x-amz-security-token" ∷ "x-amz-signature" ∷ "x-amz-signedheaders" ∷ []
