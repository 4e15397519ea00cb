-- ===== src/Command/Token.antt =====
-- cmd/aws-iam-authenticator/token.go: the command that prints a token.
use iam2kube.Shared.{ℕ, String, Bool, not, ◌&&◌, none, Result, ok, err, if◌then◌else◌}
use iam2kube.Token.{Token, GetTokenOptions}
use iam2kube.Token.Generate.{Aws, Generator, Surroundings, GenerateError, get_with_options}
use iam2kube.Command.Root.{Viper}
use text.Mathlib.Text.{◌==◌}

pub data TokenFailure : Type 0 where
  no_cluster_id two_session_names : TokenFailure
  not_generated : GenerateError → TokenFailure

-- `NewGenerator`
abbrev pub new_generator : Bool → Bool → Generator
new_generator forward_session_name cache = record {
  forward_session_name = forward_session_name;
  cache = cache;
}

abbrev pub token_options : Viper → GetTokenOptions
token_options viper = record {
  region = viper.get_string "region";
  cluster_id = viper.get_string "clusterID";
  assume_role_arn = viper.get_string "role";
  assume_role_external_id = viper.get_string "externalID";
  session_name = viper.get_string "sessionName";
}

module _ {Session Client : Type 0} (aws : Aws Session Client) (encode : String → String)
    (format_json : Token → String) where
  -- What is printed of a token.
  abbrev pub printed : Viper → Token → String
  printed viper token = if viper.get_bool "tokenOnly" then token.token else format_json token

  -- `Run` of the command: what it prints.
  unfoldable pub token_run : Viper → Surroundings → ℕ → Result TokenFailure String
  token_run viper env now =
      if viper.get_string "clusterID" == ""
      then err no_cluster_id
      else if viper.get_bool "forwardSessionName" && not (viper.get_string "sessionName" == "")
      then err two_session_names
      else elim (get_with_options aws encode
          (new_generator (viper.get_bool "forwardSessionName") (viper.get_bool "cache")) env now
          (token_options viper) none).0 [
            | err e ↦ err (not_generated e)
            | ok token ↦ ok (printed viper token)
          ]
