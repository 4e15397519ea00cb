-- ===== src/Config/Existing.antt =====
-- The certificate of a server is the one on its disk, and a pair that is there is kept.
use iam2kube.Shared.{
  String, ◌≡◌, ◌≢◌, refl, ◌∙◌, false, none, some, ok, Result-cases, Option-cases, inl, inr, arith,
  str_eq_of_ne, >>=-eq-ok,
}
use iam2kube.Shared.Assoc.{lookup, insert, lookup-insert}
use iam2kube.Config.{Config}
use iam2kube.Config.Paths.{cert_path, key_path}
use iam2kube.Config.Files.{
  Certificate, Crypto, System, Files, is_missing, read_file, load_key_pair, write_file,
  load_existing_certificate, self_sign_certificate, save_key_pair, get_or_create_certificate,
}

-- The two files hold this certificate.
abbrev pub IsOnDisk : Crypto → System → Config → Files → Certificate → Type 0
IsOnDisk crypto system c files cert =
    load_key_pair crypto system files (cert_path c) (key_path c) ≡ ok cert

read_file-there :
    (system : System) (files : Files) (path content : String)
    → read_file system files path ≡ ok content
    → is_missing system files path ≡ false
read_file-there system files path content h = ground arith

-- What is on the disk is what is loaded.
pub load_existing-IsOnDisk :
    (crypto : Crypto) (system : System) (c : Config) (files : Files) (cert : Certificate)
    → IsOnDisk crypto system c files cert
    → load_existing_certificate crypto system c files ≡ ok (some cert)
unfolding load_existing_certificate
load_existing-IsOnDisk crypto system c files cert h =
    let (a, read_cert, more) =
      >>=-eq-ok (read_file system files (cert_path c)) _ (unfold load_key_pair in h) in
    let (b, read_key, _) = >>=-eq-ok (read_file system files (key_path c)) _ more in
    rw
      (
        read_file-there system files (cert_path c) a read_cert,
        read_file-there system files (key_path c) b read_key,
        h,
      )
      refl

-- What is loaded is on the disk.
pub IsOnDisk-load_existing :
    (crypto : Crypto) (system : System) (c : Config) (files : Files) (cert : Certificate)
    → load_existing_certificate crypto system c files ≡ ok (some cert)
    → IsOnDisk crypto system c files cert
unfolding load_existing_certificate
IsOnDisk-load_existing crypto system c files cert h = ground arith

save_key_pair-IsOnDisk :
    (crypto : Crypto) (system : System) (c : Config) (pair : String × String) (files : Files)
    (cert : Certificate) (after : Files)
    → save_key_pair crypto system c pair files ≡ (ok cert, after)
    → IsOnDisk crypto system c after cert
unfolding save_key_pair
save_key_pair-IsOnDisk crypto system c pair files cert after h = ground arith

-- The certificate that is returned is the one on the disk afterwards.
pub get_or_create-IsOnDisk :
    (crypto : Crypto) (system : System) (c : Config) (files : Files) (cert : Certificate)
    (after : Files)
    → get_or_create_certificate crypto system c files ≡ (ok cert, after)
    → IsOnDisk crypto system c after cert
unfolding get_or_create_certificate
get_or_create-IsOnDisk crypto system c files cert after h =
    ground
      (arith, IsOnDisk-load_existing crypto system c files, save_key_pair-IsOnDisk crypto system c)

-- Two runs that read key pairs in the same way load the same.
load_key_pair-same :
    (crypto later : Crypto) (system : System) (files : Files) (cert_file key_file : String)
    → ((cert key : String) → later.x509_key_pair cert key ≡ crypto.x509_key_pair cert key)
    → load_key_pair later system files cert_file key_file
      ≡ load_key_pair crypto system files cert_file key_file
unfolding load_key_pair
load_key_pair-same crypto later system files cert_file key_file same =
    elim (Result-cases (read_file system files cert_file)) [
      | inr (_, e) ↦ rw (e, load_key_pair) refl
      | inl (cert, e) ↦ elim (Result-cases (read_file system files key_file)) [
        | inr (_, e') ↦ rw (e, e', load_key_pair) refl
        | inl (key, e') ↦ rw (e, e', load_key_pair) (same cert key)
      ]
    ]

-- A server that is started again has the certificate of its first start, and writes no file: for
-- the first call that succeeds, any later one, with other random numbers and at another time, that
-- reads key pairs in the same way.
pub get_or_create-again :
    (crypto later : Crypto) (system : System) (c : Config) (files : Files) (cert : Certificate)
    (after : Files)
    → ((cert key : String) → later.x509_key_pair cert key ≡ crypto.x509_key_pair cert key)
    → get_or_create_certificate crypto system c files ≡ (ok cert, after)
    → get_or_create_certificate later system c after ≡ (ok cert, after)
unfolding get_or_create_certificate
get_or_create-again crypto later system c files cert after same h =
    let there = get_or_create-IsOnDisk crypto system c files cert after h in
    let found : IsOnDisk later system c after cert =
      load_key_pair-same crypto later system after (cert_path c) (key_path c) same ∙ there in
    rw (load_existing-IsOnDisk later system c after cert found, get_or_create_certificate) refl

write_file-other :
    (system : System) (path content : String) (files : Files) (other : String)
    → path ≢ other
    → lookup other (write_file system path content files).1 ≡ lookup other files
unfolding write_file
write_file-other system path content files other apart =
    elim (Option-cases (system.open_fails path)) [
      | inr (_, e) ↦ rw (e, write_file) refl
      | inl opens ↦ elim (Option-cases (system.write_fails path)) [
        | inr ((part, _), e) ↦ rw (opens, e, write_file) (other_entry part)
        | inl e ↦ rw (opens, e, write_file) (other_entry content)
      ]
    ]
  where
    other_entry : (text : String) → lookup other (insert path text files) ≡ lookup other files
    other_entry text = lookup-insert path other text files ∙ rw (str_eq_of_ne path other apart) refl

pub save_key_pair-other :
    (crypto : Crypto) (system : System) (c : Config) (pair : String × String) (files : Files)
    (other : String)
    → cert_path c ≢ other
    → key_path c ≢ other
    → lookup other (save_key_pair crypto system c pair files).1 ≡ lookup other files
unfolding save_key_pair
save_key_pair-other crypto system c (cert_bytes, key_bytes) files other cert_apart key_apart =
    let saved = write_file system (cert_path c) (crypto.pem "CERTIFICATE" cert_bytes) files in
    ground (
      arith,
      write_file-other system (cert_path c) (crypto.pem "CERTIFICATE" cert_bytes) files other
          cert_apart,
      write_file-other system (key_path c) (crypto.pem "RSA PRIVATE KEY" key_bytes) saved.1 other
          key_apart,
    )

not_missing :
    (crypto : Crypto) (system : System) (c : Config) (files : Files) (cert key : String)
    → lookup (cert_path c) files ≡ some cert
    → lookup (key_path c) files ≡ some key
    → load_existing_certificate crypto system c files ≢ ok none
unfolding load_existing_certificate
not_missing crypto system c files cert key has_cert has_key h = absurd (ground (arith, h))

-- A key pair whose two files are there is never overwritten, not even one that cannot be loaded: no
-- file at all is changed.
pub get_or_create-keeps :
    (crypto : Crypto) (system : System) (c : Config) (files : Files) (cert key : String)
    → lookup (cert_path c) files ≡ some cert
    → lookup (key_path c) files ≡ some key
    → (get_or_create_certificate crypto system c files).1 ≡ files
unfolding get_or_create_certificate
get_or_create-keeps crypto system c files cert key has_cert has_key =
    elim (Result-cases (load_existing_certificate crypto system c files)) [
      | inr (_, e) ↦ rw (e, get_or_create_certificate) refl
      | inl (some _, e) ↦ rw (e, get_or_create_certificate) refl
      | inl (none, e) ↦ absurd (not_missing crypto system c files cert key has_cert has_key e)
    ]

-- No file but the two of the pair is changed.
pub get_or_create-other :
    (crypto : Crypto) (system : System) (c : Config) (files : Files) (other : String)
    → cert_path c ≢ other
    → key_path c ≢ other
    → lookup other (get_or_create_certificate crypto system c files).1 ≡ lookup other files
unfolding get_or_create_certificate
get_or_create-other crypto system c files other cert_apart key_apart =
    elim (Result-cases (load_existing_certificate crypto system c files)) [
      | inr (_, e) ↦ rw (e, get_or_create_certificate) refl
      | inl (some _, e) ↦ rw (e, get_or_create_certificate) refl
      | inl (none, e) ↦ elim (Result-cases (self_sign_certificate crypto c)) [
        | inr (_, e') ↦ rw (e, e', get_or_create_certificate) refl
        | inl (pair, e') ↦
            rw (e, e', get_or_create_certificate)
              (save_key_pair-other crypto system c pair files other cert_apart key_apart)
      ]
    ]
