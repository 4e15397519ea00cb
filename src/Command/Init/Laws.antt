-- ===== src/Command/Init/Laws.antt =====
-- What the files of `init` are for.
use iam2kube.Shared.{String, ◌≡◌, refl, List, ok, Result-cases, inl, inr, arith}
use mathlib.Core.Path.{sym, subst}
use iam2kube.Config.{Config}
use iam2kube.Config.Paths.{cert_path, key_path}
use iam2kube.Config.Files.{Certificate, Crypto, System, Files}
use iam2kube.Config.Generated.{IsApart, IsTrusted, generate_files-IsTrusted}
use iam2kube.Config.Kubeconfig.{generate_files}
use iam2kube.Command.Root.{Viper, get_config}
use iam2kube.Command.Init.{local_config, init_run}
use text.Mathlib.TextEquality.{eq_iff}

local_config-IsApart : (c : Config) → IsApart (local_config c)
unfolding local_config cert_path key_path
local_config-IsApart c = (
  λ e. absurd (ground (arith, e, eq_iff "aws-iam-authenticator.kubeconfig" "cert.pem")),
  λ e. absurd (ground (arith, e, eq_iff "aws-iam-authenticator.kubeconfig" "key.pem")),
)

-- Where `init` succeeds, there was a configuration, and the working directory holds a key pair, with
-- a kubeconfig that names the server's URL and that pair's certificate as its authority.
pub init_run-IsTrusted :
    (partitions : List String) (crypto : Crypto) (system : System) (viper : Viper) (files : Files)
    → (init_run partitions crypto system viper files).0 ≡ ok tt
    → (c : Config) × (get_config partitions viper ≡ ok c)
      × (cert : Certificate) × (cert_path (local_config c) ≡ "cert.pem")
      × (key_path (local_config c) ≡ "key.pem")
      × IsTrusted crypto system
          (local_config c)
          (init_run partitions crypto system viper files).1
          cert
unfolding init_run local_config cert_path key_path
init_run-IsTrusted partitions crypto system viper files h =
    elim (Result-cases (get_config partitions viper)) [
      | inr (_, e) ↦ absurd (ground arith)
      | inl (c, e) ↦
          let made = generate_files crypto system (local_config c) files in
          let went : made.0 ≡ ok tt = ground (arith, e) in
          let same : (init_run partitions crypto system viper files).1 ≡ made.1 =
            ground (arith, e, went) in
          let (cert, _, trusted) =
            generate_files-IsTrusted crypto system (local_config c) files (local_config-IsApart c)
              went in
          (
            c,
            e,
            cert,
            refl,
            refl,
            subst (λ after. IsTrusted crypto system (local_config c) after cert) (sym same) trusted,
          )
    ]
