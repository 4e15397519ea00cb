-- ===== src/Config/Fresh.antt =====
-- The generation of files in a directory that has no certificate yet.
use iam2kube.Shared.{
  ℕ, String, ◌≡◌, refl, sym, ◌∙◌, false, none, some, [], ◌∷◌, ok, arith, str_eq_of_ne, str_eq_refl,
}
use iam2kube.Shared.Assoc.{lookup, insert, lookup-insert}
use iam2kube.Config.{Config}
use iam2kube.Config.Paths.{cert_path, key_path}
use iam2kube.Config.Distinct.{cert_path-key_path}
use iam2kube.Config.Files.{
  Certificate, Crypto, System, Files, read_file, load_key_pair, write_file, template,
  load_existing_certificate, self_sign_certificate, save_key_pair, get_or_create_certificate,
  serial_number_limit,
}
use iam2kube.Config.Existing.{IsOnDisk}
use iam2kube.Config.Generated.{create_kubeconfig-there}
use iam2kube.Config.Kubeconfig.{kubeconfig_text, webhook_params, create_kubeconfig, generate_files}

-- No call of the operating system fails.
pub record Works (system : System) : Type 0 where
  pub stats : (path : String) → system.stat_denied path ≡ false
  pub reads : (path : String) → system.read_fails path ≡ none
  pub opens : (path : String) → system.open_fails path ≡ none
  pub writes : (path : String) → system.write_fails path ≡ none

-- The cryptography makes this certificate and this key, and reads them back as a pair.
pub record Signs (crypto : Crypto) (c : Config) (der key : String) (cert : Certificate)
    : Type 0 where
  pub serial : ℕ
  pub makes_key : crypto.generate_key ≡ ok key
  pub makes_serial : crypto.random_int serial_number_limit ≡ ok serial
  pub makes_cert : crypto.create_certificate (template crypto c serial) key ≡ ok der
  pub reads_pair :
      crypto.x509_key_pair (crypto.pem "CERTIFICATE" der) (crypto.pem "RSA PRIVATE KEY" key)
      ≡ ok cert
  pub has_first : cert.certificate ≡ der ∷ []

-- The two files of a new pair.
abbrev pub saved_pair : Crypto → Config → String → String → Files → Files
saved_pair crypto c der key files =
    insert (key_path c) (crypto.pem "RSA PRIVATE KEY" key)
      (insert (cert_path c) (crypto.pem "CERTIFICATE" der) files)

write_file-Works :
    (system : System) (path text : String) (files : Files)
    → Works system
    → write_file system path text files ≡ (ok tt, insert path text files)
unfolding write_file
write_file-Works system path text files works =
    rw (works.opens path, works.writes path, write_file) refl

read_file-there :
    (system : System) (files : Files) (path text : String)
    → Works system
    → lookup path files ≡ some text
    → read_file system files path ≡ ok text
read_file-there system files path text works h = ground (arith, works.reads path)

saved_pair-IsOnDisk :
    (crypto : Crypto) (system : System) (c : Config) (der key : String) (cert : Certificate)
    (files : Files)
    → Works system
    → Signs crypto c der key cert
    → IsOnDisk crypto system c (saved_pair crypto c der key files) cert
unfolding load_key_pair
saved_pair-IsOnDisk crypto system c der key cert files works signs =
    let with_cert = insert (cert_path c) (crypto.pem "CERTIFICATE" der) files in
    let has_key : lookup (key_path c) (saved_pair crypto c der key files)
        ≡ some (crypto.pem "RSA PRIVATE KEY" key) =
      lookup-insert (key_path c) (key_path c) (crypto.pem "RSA PRIVATE KEY" key) with_cert
      ∙ rw (str_eq_refl (key_path c)) refl in
    let has_cert : lookup (cert_path c) (saved_pair crypto c der key files)
        ≡ some (crypto.pem "CERTIFICATE" der) =
      lookup-insert (key_path c) (cert_path c) (crypto.pem "RSA PRIVATE KEY" key) with_cert
      ∙ rw
          (
            str_eq_of_ne (key_path c) (cert_path c) (λ e. cert_path-key_path c (sym e)),
            lookup-insert (cert_path c) (cert_path c) (crypto.pem "CERTIFICATE" der) files,
            str_eq_refl (cert_path c),
          )
          refl in
    let pair = saved_pair crypto c der key files in
    let cert_text =
      read_file-there system pair (cert_path c) (crypto.pem "CERTIFICATE" der) works has_cert in
    let key_text =
      read_file-there system pair (key_path c) (crypto.pem "RSA PRIVATE KEY" key) works has_key in
    rw (cert_text, load_key_pair, key_text, signs.reads_pair) refl

pub get_or_create-fresh :
    (crypto : Crypto) (system : System) (c : Config) (der key : String) (cert : Certificate)
    (files : Files)
    → Works system
    → Signs crypto c der key cert
    → lookup (cert_path c) files ≡ none
    → get_or_create_certificate crypto system c files ≡ (ok cert, saved_pair crypto c der key files)
unfolding get_or_create_certificate load_existing_certificate self_sign_certificate save_key_pair
get_or_create-fresh crypto system c der key cert files works signs missing =
    let absent : load_existing_certificate crypto system c files ≡ ok none =
      ground (arith, missing, works.stats (cert_path c)) in
    let signed : self_sign_certificate crypto c ≡ ok (der, key) =
      rw (signs.makes_key, signs.makes_serial, signs.makes_cert, self_sign_certificate) refl in
    let with_cert = insert (cert_path c) (crypto.pem "CERTIFICATE" der) files in
    let first = write_file-Works system (cert_path c) (crypto.pem "CERTIFICATE" der) files works in
    let second =
      write_file-Works system (key_path c) (crypto.pem "RSA PRIVATE KEY" key) with_cert works in
    let saved : save_key_pair crypto system c (der, key) files
        ≡ (ok cert, saved_pair crypto c der key files) =
      rw
        (
          first,
          save_key_pair,
          first,
          second,
          first,
          second,
          saved_pair-IsOnDisk crypto system c der key cert files works signs,
        )
        refl in
    rw (absent, get_or_create_certificate, signed, saved) refl

-- In a directory without a certificate, where no call of the system fails and the cryptography makes
-- a certificate and a key that it reads back as a pair, `GenerateFiles` succeeds: it writes the
-- certificate, the key and the kubeconfig for that certificate, and nothing else.
pub generate_files-fresh :
    (crypto : Crypto) (system : System) (c : Config) (der key : String) (cert : Certificate)
    (files : Files)
    → Works system
    → Signs crypto c der key cert
    → lookup (cert_path c) files ≡ none
    → generate_files crypto system c files ≡ (
      ok tt,
      insert c.generate_kubeconfig_path
          (kubeconfig_text (webhook_params crypto c der))
          (saved_pair crypto c der key files),
    )
unfolding generate_files
generate_files-fresh crypto system c der key cert files works signs missing =
    let pair = saved_pair crypto c der key files in
    let text = kubeconfig_text (webhook_params crypto c der) in
    let there = saved_pair-IsOnDisk crypto system c der key cert files works signs in
    let made = get_or_create-fresh crypto system c der key cert files works signs missing in
    let written = write_file-Works system c.generate_kubeconfig_path text pair works in
    let config : create_kubeconfig crypto system c pair
        ≡ (ok tt, insert c.generate_kubeconfig_path text pair) =
      create_kubeconfig-there crypto system c pair cert der there (rw signs.has_first refl)
      ∙ rw (written, written) refl in
    rw (made, generate_files, made, config, made, config) refl
