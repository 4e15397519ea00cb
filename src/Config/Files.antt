-- ===== src/Config/Files.antt =====
-- pkg/config/certs.go, pkg/config/kubeconfig.go and pkg/config/config.go: the files of a server. The
-- file system is a map from paths to contents that each function returns changed; cryptography,
-- encodings and the parser of IP addresses are parameters. Logs and permission bits are left out.
use iam2kube.Shared.{
  ℕ, ◌+◌, String, Bool, true, false, not, Option, none, some, List, [], ◌∷◌, ◌++◌, Result, ok, err,
  ◌>>=◌, nat_eq, if◌then◌else◌, ◌||◌, ◌&&◌,
}
use iam2kube.Shared.Assoc.{lookup, insert}
use iam2kube.Config.{Config}
use iam2kube.Config.Paths.{cert_path, key_path}

-- `tls.Certificate`: the chain of DER certificates, and the private key.
pub record Certificate : Type 0 where
  pub certificate : List String
  pub private_key : String

-- A `net.IP` that is there, by its 16 bytes.
abbrev pub Ip : Type 0
Ip = List ℕ

pub data KeyUsage : Type 0 where
  key_encipherment digital_signature cert_sign : KeyUsage

pub data ExtKeyUsage : Type 0 where
  server_auth : ExtKeyUsage

-- What is filled in of an `x509.Certificate`; an address may be a nil `net.IP`.
pub record Template : Type 0 where
  pub serial_number : ℕ
  pub common_name : String
  pub not_before : ℕ
  pub not_after : ℕ
  pub key_usage : List KeyUsage
  pub ext_key_usage : List ExtKeyUsage
  pub basic_constraints_valid : Bool
  pub is_ca : Bool
  pub ip_addresses : List (Option Ip)
  pub dns_names : List String

-- What is used of Go's packages for cryptography and encodings. A key is its PKCS #1 bytes;
-- `serial_number` takes the limit of the number; `x509_key_pair` reads the contents of the two files.
pub record Crypto : Type 0 where
  pub generate_key : Result String String
  pub random_int : ℕ → Result String ℕ
  pub now : ℕ
  pub create_certificate : Template → String → Result String String
  pub pem : String → String → String
  pub base64 : String → String
  pub x509_key_pair : String → String → Result String Certificate
  pub parse_ip : String → Option Ip

-- What the operating system does with a path: `Stat` may fail for another reason than a missing
-- file, and reading and opening may fail. A write that fails leaves a part of the content.
pub record System : Type 0 where
  pub stat_denied : String → Bool
  pub read_fails : String → Option String
  pub open_fails : String → Option String
  pub write_fails : String → Option (String × String)

abbrev pub Files : Type 0
Files = List (String × String)

-- How a function ends without a value: an error, a panic, or the end of the process.
pub data Failure : Type 0 where
  failed : String → Failure
  panics : Failure
  exits : String → Failure

-- `time.Hour * 24 * 365 * 100`, in nanoseconds
abbrev pub cert_lifetime : ℕ
cert_lifetime = 3_153_600_000_000_000_000

abbrev pub ip_eq : Ip → Ip → Bool
ip_eq [] [] = true
ip_eq [] (_ ∷ _) = false
ip_eq (_ ∷ _) [] = false
ip_eq (x ∷ xs) (y ∷ ys) = nat_eq x y && ip_eq xs ys

-- 0.0.0.0 and ::, each in 16 bytes
abbrev pub ipv4_zero : Ip
ipv4_zero = 0 ∷ 0 ∷ 0 ∷ 0 ∷ 0 ∷ 0 ∷ 0 ∷ 0 ∷ 0 ∷ 0 ∷ 255 ∷ 255 ∷ 0 ∷ 0 ∷ 0 ∷ 0 ∷ []

abbrev pub ipv6_unspecified : Ip
ipv6_unspecified = 0 ∷ 0 ∷ 0 ∷ 0 ∷ 0 ∷ 0 ∷ 0 ∷ 0 ∷ 0 ∷ 0 ∷ 0 ∷ 0 ∷ 0 ∷ 0 ∷ 0 ∷ 0 ∷ []

-- `IsUnspecified`, which a nil address is not.
abbrev pub is_unspecified : Option Ip → Bool
is_unspecified none = false
is_unspecified (some ip) = ip_eq ip ipv4_zero || ip_eq ip ipv6_unspecified

-- `addrIP.Equal(ip)` where `ip` is not nil
abbrev pub equals : Option Ip → Ip → Bool
equals none ip = false
equals (some addr) ip = ip_eq addr ip

-- The addresses of the template before the hostname is looked at.
abbrev pub address_names : Option Ip → List (Option Ip)
address_names addr = if not (is_unspecified addr) then addr ∷ [] else []

-- The addresses and names of the template.
unfoldable pub template_names : Option Ip → Option Ip → String → List (Option Ip) × List String
template_names addr (some ip) hostname =
    (if not (equals addr ip) then address_names addr ++ (some ip ∷ []) else address_names addr, [])
template_names addr none hostname = (address_names addr, hostname ∷ [])

-- The template of `selfSignCertificate`
unfoldable pub template : Crypto → Config → ℕ → Template
unfolding template_names
template crypto c serial =
    let (ips, names) =
      template_names (crypto.parse_ip c.address) (crypto.parse_ip c.hostname) c.hostname in
    record {
      serial_number = serial;
      common_name = "aws-iam-authenticator";
      not_before = crypto.now;
      not_after = crypto.now + cert_lifetime;
      key_usage = key_encipherment ∷ digital_signature ∷ cert_sign ∷ [];
      ext_key_usage = server_auth ∷ [];
      basic_constraints_valid = true;
      is_ca = true;
      ip_addresses = ips;
      dns_names = names;
    }

-- 2 ^ 128
abbrev pub serial_number_limit : ℕ
serial_number_limit = 340_282_366_920_938_463_463_374_607_431_768_211_456

-- `selfSignCertificate`: the bytes of the certificate and of the key.
unfoldable pub self_sign_certificate : Crypto → Config → Result String (String × String)
unfolding template
self_sign_certificate crypto c = do
  private_key ← crypto.generate_key
  serial ← crypto.random_int serial_number_limit
  cert_bytes ← crypto.create_certificate (template crypto c serial) private_key
  ok (cert_bytes, private_key)

-- `certToPEMBase64`
unfoldable pub cert_to_pem_base64 : Crypto → String → String
cert_to_pem_base64 crypto der = crypto.base64 (crypto.pem "CERTIFICATE" der)

-- A file is opened, cut to nothing, and written: the files after it.
unfoldable pub write_file : System → String → String → Files → Result String (Unit {0}) × Files
unfolding insert
write_file system path content files = elim (system.open_fails path) [
  | some e ↦ (err e, files)
  | none ↦ elim (system.write_fails path) [
    | some (part, e) ↦ (err e, insert path part files)
    | none ↦ (ok tt, insert path content files)
  ]
]

-- `os.IsNotExist` of the error of `os.Stat`
abbrev pub is_missing : System → Files → String → Bool
is_missing system files path = elim (lookup path files) [
  | some _ ↦ false
  | none ↦ not (system.stat_denied path)
]

-- `os.ReadFile`
abbrev pub read_file : System → Files → String → Result String String
read_file system files path = elim (system.read_fails path) [
  | some e ↦ err e
  | none ↦ elim (lookup path files) [ none ↦ err "no such file" | some content ↦ ok content ]
]

-- `tls.LoadX509KeyPair`
unfoldable pub load_key_pair : Crypto → System → Files → String → String → Result String Certificate
unfolding lookup
load_key_pair crypto system files cert_file key_file = do
  cert ← read_file system files cert_file
  key ← read_file system files key_file
  crypto.x509_key_pair cert key

-- `LoadExistingCertificate`: no error and no certificate where a file is missing.
unfoldable pub load_existing_certificate :
    Crypto → System → Config → Files → Result String (Option Certificate)
unfolding load_key_pair lookup
load_existing_certificate crypto system c files =
    if is_missing system files (cert_path c) || is_missing system files (key_path c)
    then ok none
    else load_key_pair crypto system files (cert_path c) (key_path c) >>= (λ cert. ok (some cert))

-- The part of `GetOrCreateCertificate` that saves a new pair, and loads it.
unfoldable pub save_key_pair :
    Crypto → System → Config → String × String → Files → Result String Certificate × Files
save_key_pair crypto system c (cert_bytes, key_bytes) files =
    let (saved, with_cert) =
      write_file system (cert_path c) (crypto.pem "CERTIFICATE" cert_bytes) files in
    elim saved [
      | err e ↦ (err e, with_cert)
      | ok _ ↦
          let (saved_key, with_key) =
            write_file system (key_path c) (crypto.pem "RSA PRIVATE KEY" key_bytes) with_cert in
          elim saved_key [
            | err e ↦ (err e, with_key)
            | ok _ ↦ (load_key_pair crypto system with_key (cert_path c) (key_path c), with_key)
          ]
    ]

-- `GetOrCreateCertificate`: the certificate, and the files after it.
unfoldable pub get_or_create_certificate :
    Crypto → System → Config → Files → Result String Certificate × Files
unfolding load_existing_certificate save_key_pair self_sign_certificate
get_or_create_certificate crypto system c files =
    elim (load_existing_certificate crypto system c files) [
      | err e ↦ (err e, files)
      | ok (some cert) ↦ (ok cert, files)
      | ok none ↦ elim (self_sign_certificate crypto c) [
        | err e ↦ (err e, files)
        | ok pair ↦ save_key_pair crypto system c pair files
      ]
    ]
