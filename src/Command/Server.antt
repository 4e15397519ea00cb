-- ===== src/Command/Server.antt =====
-- cmd/aws-iam-authenticator/server.go: the command that runs the server. The start of a backend is a
-- parameter; serving is Server/Serve.
pub mod Laws
use iam2kube.Shared.{String, Option, none, some, List, [], ◌∷◌, Result, ok, err}
use iam2kube.Arn.Format.{Sdk}
use iam2kube.Config.{Config}
use iam2kube.Config.Files.{Crypto, System, Files, Failure}
use iam2kube.Mapper.{Mapper}
use iam2kube.Server.Chain.{ChainError, Makers, build_mapper_chain}
use iam2kube.Server.Start.{Outside, Server, new_server}
use iam2kube.Command.Root.{Viper, ConfigError, get_config}

-- Each ends the process.
pub data ServeFailure : Type 0 where
  no_config : ConfigError → ServeFailure
  no_chain : ChainError → ServeFailure
  not_started : String → ServeFailure
  no_server : Failure → ServeFailure

-- The loop that starts the backends: the name of the first that does not start.
unfoldable pub start_mappers : (Mapper → Option String) → List Mapper → Option String
start_mappers starts [] = none
start_mappers starts (m ∷ ms) = elim (starts m) [
  | some _ ↦ some m.name
  | none ↦ start_mappers starts ms
]

module _ (outside : Outside) (makers : Makers) (starts : Mapper → Option String) (crypto : Crypto)
    (system : System) where
  -- The part that has a configuration and its backends.
  unfoldable pub serve_mappers : Config → List Mapper → Files → Result ServeFailure Server × Files
  serve_mappers c mappers files = elim (start_mappers starts mappers) [
    | some name ↦ (err (not_started name), files)
    | none ↦
        let (server, after) = new_server outside crypto system c mappers files in
        elim server [ err e ↦ (err (no_server e), after) | ok s ↦ (ok s, after) ]
  ]

  -- `Run` of the command, up to the server that it runs.
  unfoldable pub server_run : Viper → Files → Result ServeFailure Server × Files
  unfolding serve_mappers
  server_run viper files = elim (get_config outside.arns.partitions viper) [
    | err e ↦ (err (no_config e), files)
    | ok c ↦ elim (build_mapper_chain outside.arns makers c) [
      | err e ↦ (err (no_chain e), files)
      | ok mappers ↦ serve_mappers c mappers files
    ]
  ]
