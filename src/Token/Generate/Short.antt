-- ===== src/Token/Generate/Short.antt =====
-- pkg/token/token.go: `Get`, `GetWithRole` and `GetWithRoleForSession`.
use iam2kube.Shared.{ℕ, String, Option, none, Result}
use iam2kube.Token.{Token, GetTokenOptions}
use iam2kube.Token.Generate.{Aws, Generator, Surroundings, GenerateError, get_with_options}

-- The options of a token for a cluster, under a role.
abbrev pub role_options : String → String → GetTokenOptions
role_options cluster_id role_arn = record {
  region = "";
  cluster_id = cluster_id;
  assume_role_arn = role_arn;
  assume_role_external_id = "";
  session_name = "";
}

module _ {Session Client : Type 0} (aws : Aws Session Client) (encode : String → String) where
  unfoldable pub get_with_role_for_session :
      Generator
      → Surroundings
      → ℕ
      → String
      → String
      → Option Session
      → Result GenerateError Token × Option Session
  get_with_role_for_session g env now cluster_id role_arn session =
      get_with_options aws encode g env now (role_options cluster_id role_arn) session

  unfoldable pub get_with_role :
      Generator → Surroundings → ℕ → String → String → Result GenerateError Token
  get_with_role g env now cluster_id role_arn =
      (get_with_options aws encode g env now (role_options cluster_id role_arn) none).0

  -- `Get`
  unfoldable pub get_token : Generator → Surroundings → ℕ → String → Result GenerateError Token
  get_token g env now cluster_id =
      (get_with_options aws encode g env now (role_options cluster_id "") none).0

-- What `FormatJSON` fills in of an `ExecCredential`.
pub record ExecCredential : Type 0 where
  pub api_version : String
  pub kind : String
  pub expiration_timestamp : ℕ
  pub token : String

-- `FormatJSON`; the first argument is `json.Marshal`, whose error is dropped.
unfoldable pub format_json : (ExecCredential → String × Option String) → Token → String
format_json marshal t =
    (marshal (record {
      api_version = "client.authentication.k8s.io/v1alpha1";
      kind = "ExecCredential";
      expiration_timestamp = t.expiration;
      token = t.token;
    })).0
