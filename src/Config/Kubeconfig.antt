-- ===== src/Config/Kubeconfig.antt =====
-- pkg/config/kubeconfig.go and pkg/config/config.go: the kubeconfig that is written for the API
-- server, and the generation of all files.
use iam2kube.Shared.{String, ◌<>◌, Option, none, some, [], ◌∷◌, Result, ok, err}
use iam2kube.Config.{Config}
use iam2kube.Config.Paths.{server_url}
use iam2kube.Config.Files.{
  Certificate, Crypto, System, Files, Failure, failed, panics, exits, write_file,
  load_existing_certificate, cert_to_pem_base64, get_or_create_certificate,
}

pub record KubeconfigParams : Type 0 where
  pub server_url_text : String
  pub certificate_authority_base64 : String

-- `webhookKubeconfigTemplate`: its texts before, between and after the two parameters.
abbrev pub kubeconfig_start : String
kubeconfig_start =
    "\n"
    <> ("# clusters refers to the remote service.\n"
        <> ("clusters:\n"
            <> ("  - name: aws-iam-authenticator\n"
                <> ("    cluster:\n" <> ("      certificate-authority-data: ")))))

abbrev pub kubeconfig_middle : String
kubeconfig_middle = "\n" <> ("      server: ")

abbrev pub kubeconfig_users : String
kubeconfig_users =
    "# users refers to the API Server's webhook configuration\n"
    <> ("# (we don't need to authenticate the API server).\n"
        <> ("users:\n"
            <> ("  - name: apiserver\n"
                <> ("# kubeconfig files require a context. Provide one for the API Server.\n"
                    <> ("current-context: webhook\n"
                        <> ("contexts:\n"
                            <> ("- name: webhook\n"
                                <> ("  context:\n"
                                    <> ("    cluster: aws-iam-authenticator\n"
                                        <> ("    user: apiserver\n"))))))))))

abbrev pub kubeconfig_end : String
kubeconfig_end = "\n" <> kubeconfig_users

-- The template, executed
unfoldable pub kubeconfig_text : KubeconfigParams → String
kubeconfig_text p =
    kubeconfig_start
    <> (p.certificate_authority_base64
        <> (kubeconfig_middle <> (p.server_url_text <> kubeconfig_end)))

-- `writeTo`
unfoldable pub write_to :
    System → KubeconfigParams → String → Files → Result String (Unit {0}) × Files
unfolding kubeconfig_text
write_to system p output_path files = write_file system output_path (kubeconfig_text p) files

-- The first certificate of a chain is read: a nil certificate and an empty chain are panics.
abbrev pub first_certificate : Option Certificate → Option String
first_certificate none = none
first_certificate (some cert) = elim cert.certificate [ [] ↦ none | der ∷ _ ↦ some der ]

abbrev pub webhook_params : Crypto → Config → String → KubeconfigParams
webhook_params crypto c der = record {
  server_url_text = server_url c;
  certificate_authority_base64 = cert_to_pem_base64 crypto der;
}

-- `CreateKubeconfig`: a failed write ends the process.
unfoldable pub create_kubeconfig :
    Crypto → System → Config → Files → Result Failure (Unit {0}) × Files
unfolding write_to
create_kubeconfig crypto system c files = elim (load_existing_certificate crypto system c files) [
  | err e ↦ (err (failed e), files)
  | ok cert ↦ elim (first_certificate cert) [
    | none ↦ (err panics, files)
    | some der ↦
        let (written, after) =
          write_to system (webhook_params crypto c der) c.generate_kubeconfig_path files in
        elim written [ err e ↦ (err (exits e), after) | ok _ ↦ (ok tt, after) ]
  ]
]

-- What `GenerateFiles` makes of how `CreateKubeconfig` ends.
abbrev pub kubeconfig_failure : Failure → Failure
kubeconfig_failure (failed _) = failed "could not generate a webhook kubeconfig"
kubeconfig_failure panics = panics
kubeconfig_failure (exits e) = exits e

-- `GenerateFiles`
unfoldable pub generate_files : Crypto → System → Config → Files → Result Failure (Unit {0}) × Files
generate_files crypto system c files =
    let (cert, with_pair) = get_or_create_certificate crypto system c files in
    elim cert [
      | err _ ↦ (err (failed "could not load/generate a certificate"), with_pair)
      | ok _ ↦
          let (result, after) = create_kubeconfig crypto system c with_pair in
          elim result [ err e ↦ (err (kubeconfig_failure e), after) | ok _ ↦ (ok tt, after) ]
    ]
