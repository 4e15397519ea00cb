-- ===== src/Config/Generated.antt =====
-- What the generated files hold.
use iam2kube.Shared.{
  String, ◌<>◌, List, [], ◌∷◌, ◌≡◌, ◌≢◌, refl, ◌∙◌, none, some, ok, err, Result-cases, Option-cases,
  inl, inr, arith, str_eq_of_ne, str_eq_refl,
}
use iam2kube.Shared.Assoc.{lookup, insert, lookup-insert}
use iam2kube.Config.{Config}
use iam2kube.Config.Paths.{cert_path, key_path, server_url}
use iam2kube.Config.Files.{
  Certificate, Crypto, System, Files, exits, panics, read_file, load_key_pair, write_file,
  cert_to_pem_base64, get_or_create_certificate,
}
use text.Mathlib.TextLemmas.{append_assoc}
use iam2kube.Config.Existing.{IsOnDisk, get_or_create-IsOnDisk, load_existing-IsOnDisk}
use iam2kube.Config.Kubeconfig.{
  kubeconfig_text, webhook_params, kubeconfig_users, first_certificate, create_kubeconfig,
  generate_files, write_to,
}

-- The kubeconfig is a file of its own.
abbrev pub IsApart : Config → Type 0
IsApart c = (c.generate_kubeconfig_path ≢ cert_path c) × (c.generate_kubeconfig_path ≢ key_path c)

-- A text with a cluster entry of the webhook's name that has this authority and this server.
abbrev pub HasCluster : String → String → String → Type 0
HasCluster text authority server =
    (before : String) × (after : String) × (text
      ≡ before
        <> ("clusters:\n  - name: aws-iam-authenticator\n    cluster:\n      certificate-authority-data: "
            <> (authority <> ("\n      server: " <> (server <> ("\n" <> after))))))

-- The kubeconfig on the disk has the server's URL, and for its authority the first certificate of
-- the pair that is on the disk with it, in PEM and base64.
abbrev pub IsTrusted : Crypto → System → Config → Files → Certificate → Type 0
IsTrusted crypto system c files cert =
    IsOnDisk crypto system c files cert
    × ((der : String) × (rest : List String) × (cert.certificate ≡ der ∷ rest)
        × (text : String) × (lookup c.generate_kubeconfig_path files ≡ some text)
        × HasCluster text (crypto.base64 (crypto.pem "CERTIFICATE" der)) (server_url c))

kubeconfig_text-HasCluster :
    (crypto : Crypto) (c : Config) (der : String)
    → HasCluster
        (kubeconfig_text (webhook_params crypto c der))
        (crypto.base64 (crypto.pem "CERTIFICATE" der))
        (server_url c)
unfolding kubeconfig_text cert_to_pem_base64
kubeconfig_text-HasCluster crypto c der = (
  "\n# clusters refers to the remote service.\n",
  kubeconfig_users,
  append_assoc "\n# clusters refers to the remote service.\n"
      "clusters:\n  - name: aws-iam-authenticator\n    cluster:\n      certificate-authority-data: "
      _,
)

first_certificate_lem :
    (cert : Certificate) (der : String)
    → first_certificate (some cert) ≡ some der
    → (rest : List String) × (cert.certificate ≡ der ∷ rest)
first_certificate_lem cert der h = by_chain cert.certificate refl
  where
    by_chain :
        (ders : List String)
        → cert.certificate ≡ ders
        → (rest : List String) × (cert.certificate ≡ der ∷ rest)
    by_chain [] e = absurd (ground arith)
    by_chain (first ∷ rest) e = (rest, ground arith)

read_file-insert :
    (system : System) (files : Files) (path text other : String)
    → path ≢ other
    → read_file system (insert path text files) other ≡ read_file system files other
read_file-insert system files path text other apart =
    ground (arith, lookup-insert path other text files, str_eq_of_ne path other apart)

-- A write beside the pair leaves it on the disk.
IsOnDisk-insert :
    (crypto : Crypto) (system : System) (c : Config) (files : Files) (cert : Certificate)
    (path text : String)
    → path ≢ cert_path c
    → path ≢ key_path c
    → IsOnDisk crypto system c files cert
    → IsOnDisk crypto system c (insert path text files) cert
unfolding load_key_pair
IsOnDisk-insert crypto system c files cert path text cert_apart key_apart h =
    rw
      (
        read_file-insert system files path text (cert_path c) cert_apart,
        read_file-insert system files path text (key_path c) key_apart,
        load_key_pair,
      )
      h

write_file_ok :
    (system : System) (path text : String) (files : Files)
    → (write_file system path text files).0 ≡ ok tt
    → (write_file system path text files).1 ≡ insert path text files
unfolding write_file
write_file_ok system path text files h = ground arith

-- How `CreateKubeconfig` ends, for a pair that is on the disk.
pub create_kubeconfig-there :
    (crypto : Crypto) (system : System) (c : Config) (files : Files) (cert : Certificate)
    (der : String)
    → IsOnDisk crypto system c files cert
    → first_certificate (some cert) ≡ some der
    → let text = kubeconfig_text (webhook_params crypto c der) in
      let written = write_file system c.generate_kubeconfig_path text files in
      create_kubeconfig crypto system c files
      ≡ (elim written.0 [ err e ↦ (err (exits e), written.1) | ok _ ↦ (ok tt, written.1) ])
unfolding create_kubeconfig write_to
create_kubeconfig-there crypto system c files cert der there first =
    rw (load_existing-IsOnDisk crypto system c files cert there, create_kubeconfig, first) refl

create_kubeconfig-panics :
    (crypto : Crypto) (system : System) (c : Config) (files : Files) (cert : Certificate)
    → IsOnDisk crypto system c files cert
    → first_certificate (some cert) ≡ none
    → create_kubeconfig crypto system c files ≡ (err panics, files)
unfolding create_kubeconfig
create_kubeconfig-panics crypto system c files cert there e =
    rw (load_existing-IsOnDisk crypto system c files cert there, create_kubeconfig, e) refl

pub create_kubeconfig-IsTrusted :
    (crypto : Crypto) (system : System) (c : Config) (files : Files) (cert : Certificate)
    → IsApart c
    → IsOnDisk crypto system c files cert
    → (create_kubeconfig crypto system c files).0 ≡ ok tt
    → IsTrusted crypto system c (create_kubeconfig crypto system c files).1 cert
create_kubeconfig-IsTrusted crypto system c files cert (cert_apart, key_apart) there h =
    elim (Option-cases (first_certificate (some cert))) [
      | inl e ↦ absurd (ground (arith, create_kubeconfig-panics crypto system c files cert there e))
      | inr (der, e) ↦
          let path = c.generate_kubeconfig_path in
          let text = kubeconfig_text (webhook_params crypto c der) in
          let run = create_kubeconfig-there crypto system c files cert der there e in
          let first = first_certificate_lem cert der e in
          elim (Result-cases (write_file system path text files).0) [
            | inr (_, e') ↦ absurd (ground arith)
            | inl (_, e') ↦
                let after : (create_kubeconfig crypto system c files).1 ≡ insert path text files =
                  ground (arith, write_file_ok system path text files) in
                rw after (
                  IsOnDisk-insert crypto system c files cert path text cert_apart key_apart there,
                  (
                    der,
                    first.0,
                    first.1,
                    text,
                    lookup-insert path path text files ∙ rw (str_eq_refl path) refl,
                    kubeconfig_text-HasCluster crypto c der,
                  ),
                )
          ]
    ]

-- Where `GenerateFiles` succeeds, there is a certificate on the disk, and the kubeconfig names the
-- server's URL and that certificate's first block as its authority. The path of the kubeconfig is
-- not that of the certificate or of the key.
pub generate_files-IsTrusted :
    (crypto : Crypto) (system : System) (c : Config) (files : Files)
    → IsApart c
    → (generate_files crypto system c files).0 ≡ ok tt
    → (cert : Certificate) × ((get_or_create_certificate crypto system c files).0 ≡ ok cert)
      × IsTrusted crypto system c (generate_files crypto system c files).1 cert
unfolding generate_files
generate_files-IsTrusted crypto system c files apart h =
    let (result, with_pair) = get_or_create_certificate crypto system c files in
    elim (Result-cases (get_or_create_certificate crypto system c files).0) [
      | inr (_, e) ↦ absurd (ground arith)
      | inl (cert, e) ↦
          let there =
            get_or_create-IsOnDisk crypto system c files cert with_pair (ground (arith, e)) in
          let made = create_kubeconfig crypto system c with_pair in
          let went : made.0 ≡ ok tt = ground (arith, e) in
          let same : (generate_files crypto system c files).1 ≡ made.1 = ground (arith, e) in
          (
            cert,
            e,
            rw same (create_kubeconfig-IsTrusted crypto system c with_pair cert apart there went),
          )
    ]
