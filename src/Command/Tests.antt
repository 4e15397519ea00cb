-- ===== src/Command/Tests.antt =====
-- Runs of the commands, and their theorems at a concrete configuration.
use iam2kube.Shared.{
  String, ◌≡◌, ◌↔◌, refl, true, false, Option, none, some, List, [], ◌∷◌, ok, err, if◌then◌else◌,
  arith, str_eq_of_ne, member,
}
use iam2kube.Shared.Int.{pos}
use iam2kube.Config.{Config}
use iam2kube.Config.Files.{Certificate, get_or_create_certificate, write_file}
use iam2kube.Config.Kubeconfig.{generate_files, create_kubeconfig}
use iam2kube.Config.Paths.{cert_path, key_path}
use iam2kube.Config.Generated.{IsTrusted}
use iam2kube.Config.Tests.{crypto_at, quiet}
use iam2kube.Mapper.{validate_backend_mode}
use iam2kube.Server.Chain.{Makers, creation_failed, client_error, build_mapper_chain}
use iam2kube.Server.Start.Tests.{outside}
use iam2kube.Command.Flags.{Default, one, many, server_cmd, bound_flag, default_value}
use iam2kube.Command.Root.{Viper, get_config, filled_config}
use iam2kube.Command.Root.Laws.{Reads, AnswersDefaults, get_config_iff, get_config-defaults}
use iam2kube.Command.Server.{server_run, no_chain}
use iam2kube.Command.Server.Laws.{failed_mode, server_run-no_chain}
use iam2kube.Command.Init.{local_config, init_run}
use iam2kube.Command.Init.Laws.{init_run-IsTrusted}
use text.Mathlib.Text.{◌==◌}
use text.Mathlib.TextEquality.{eq_iff}

abbrev text_of : Option Default → String
text_of (some (one value)) = value
text_of _ = ""

abbrev texts_of : Option Default → List String
texts_of (some (many values)) = values
texts_of _ = []

-- Viper, where nothing is given but the cluster id.
abbrev pub viper : Viper
viper = record {
  get_string = λ key. if key == "clusterID" then "cluster" else text_of (default_value key);
  get_int = λ key. pos 0;
  get_bool = λ key. false;
  get_string_slice = λ key. texts_of (default_value key);
  unmarshal_roles = λ key. ok [];
  unmarshal_users = λ key. ok [];
  unmarshal_accounts = λ key. ok [];
}

viper-AnswersDefaults : AnswersDefaults viper
viper-AnswersDefaults = record {
  answers_text = λ key value apart h. rw (str_eq_of_ne key "clusterID" apart, h) refl;
  answers_texts = λ key values h. rw h refl;
}

-- The flag of `init` for the address is not the one that answers for its key.
binding_tests :
    (bound_flag "server.address"
      ≡ some (record { command = server_cmd; name = "address"; default = one "127.0.0.1" }))
    × (bound_flag "server.mapRoles" ≡ none)
unfolding bound_flag
binding_tests = (refl, refl)

abbrev pub default_config : Config
default_config = filled_config viper [] [] []

configured : get_config ("aws" ∷ []) viper ≡ ok default_config
unfolding get_config default_value validate_backend_mode
configured = refl

get_config_iff_example :
    (get_config ("aws" ∷ []) viper ≡ ok default_config) ↔ Reads ("aws" ∷ []) viper default_config
get_config_iff_example = get_config_iff ("aws" ∷ []) viper default_config

get_config-defaults_example : get_config ("aws" ∷ []) viper ≡ ok default_config
get_config-defaults_example =
    get_config-defaults ("aws" ∷ []) viper [] [] [] viper-AnswersDefaults refl
      (λ e. absurd (ground (arith, e, eq_iff "cluster" ""))) refl refl refl

initialized : (init_run ("aws" ∷ []) (crypto_at 1 "key") quiet viper []).0 ≡ ok tt
unfolding init_run get_config default_value validate_backend_mode generate_files
    get_or_create_certificate write_file cert_path key_path create_kubeconfig
initialized = refl

init_run-IsTrusted_example :
    (c : Config) × (get_config ("aws" ∷ []) viper ≡ ok c)
    × (cert : Certificate) × (cert_path (local_config c) ≡ "cert.pem")
    × (key_path (local_config c) ≡ "key.pem")
    × IsTrusted
        (crypto_at 1 "key")
        quiet
        (local_config c)
        (init_run ("aws" ∷ []) (crypto_at 1 "key") quiet viper []).1
        cert
init_run-IsTrusted_example =
    init_run-IsTrusted ("aws" ∷ []) (crypto_at 1 "key") quiet viper [] initialized

-- A server whose one backend cannot reach the API server.
abbrev crd_viper : Viper
crd_viper = record viper {
  get_string_slice = λ key. if key == "server.backendMode" then "CRD" ∷ [] else [];
}

abbrev pub unreachable : Makers
unreachable = record {
  new_map_store = λ c. err "unreachable";
  new_indexer = λ c. err "unreachable";
}

stopped :
    (server_run outside unreachable (λ m. none) (crypto_at 1 "key") quiet crd_viper []).0
    ≡ err (no_chain (creation_failed "CRD" (client_error "unreachable")))
unfolding server_run get_config default_value validate_backend_mode build_mapper_chain
stopped = refl

server_run-no_chain_example :
    (c : Config) × (get_config outside.arns.partitions crd_viper ≡ ok c)
    × (mode : String) × (failed_mode (creation_failed "CRD" (client_error "unreachable"))
        ≡ some mode)
    × (member c.backend_mode mode ≡ true)
server_run-no_chain_example =
    server_run-no_chain outside unreachable (λ m. none) (crypto_at 1 "key") quiet crd_viper []
      (creation_failed "CRD" (client_error "unreachable")) stopped
