-- ===== src/Command/Init.antt =====
-- cmd/aws-iam-authenticator/init.go: the command that generates the files of a server in the working
-- directory.
pub mod Laws
use iam2kube.Shared.{String, List, Result, ok, err}
use iam2kube.Config.{Config}
use iam2kube.Config.Files.{Crypto, System, Files, Failure}
use iam2kube.Config.Kubeconfig.{generate_files}
use iam2kube.Command.Root.{Viper, ConfigError, get_config}

pub data InitFailure : Type 0 where
  no_config : ConfigError → InitFailure
  not_initialized : Failure → InitFailure

-- `localCfg`
unfoldable pub local_config : Config → Config
local_config c = record c {
  generate_kubeconfig_path = "aws-iam-authenticator.kubeconfig";
  state_dir = "./";
}

-- `Run` of the command
unfoldable pub init_run :
    List String → Crypto → System → Viper → Files → Result InitFailure (Unit {0}) × Files
unfolding local_config
init_run partitions crypto system viper files = elim (get_config partitions viper) [
  | err e ↦ (err (no_config e), files)
  | ok c ↦
      let (result, after) = generate_files crypto system (local_config c) files in
      elim result [ err e ↦ (err (not_initialized e), after) | ok _ ↦ (ok tt, after) ]
]
