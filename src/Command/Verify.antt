-- ===== src/Command/Verify.antt =====
-- cmd/aws-iam-authenticator/verify.go: the command that verifies a token and prints its identity.
use iam2kube.Shared.{ℕ, String, Result, ok, err, if◌then◌else◌}
use iam2kube.Arn.Format.{Sdk}
use iam2kube.Token.{Identity}
use iam2kube.Token.Verify.{Parsers, Request, Response, TokenError, verify}
use iam2kube.Token.Hosts.{Endpoints, new_verifier}
use iam2kube.Command.Root.{Viper}
use text.Mathlib.Text.{◌==◌}

pub data VerifyFailure : Type 0 where
  no_token no_cluster_id : VerifyFailure
  not_verified : TokenError → VerifyFailure

pub data Printed : Type 0 where
  as_json as_struct : Identity → Printed

-- `Run` of the command: the identity, and the form in which it is printed.
unfoldable pub verify_run :
    Sdk
    → Parsers
    → Endpoints
    → (Request → Result String Response)
    → Viper
    → ℕ
    → Result VerifyFailure Printed
verify_run sdk parsers endpoints send viper now =
    if viper.get_string "token" == ""
    then err no_token
    else if viper.get_string "clusterID" == ""
    then err no_cluster_id
    else elim (verify sdk parsers
        (new_verifier endpoints send (viper.get_string "clusterID") (viper.get_string "partition"))
        now (viper.get_string "token")) [
          | err e ↦ err (not_verified e)
          | ok id ↦ ok (if viper.get_string "output" == "json" then as_json id else as_struct id)
        ]
