-- ===== src/Config/Paths.antt =====
-- pkg/config/config.go and pkg/config/certs.go: the addresses of a server and the paths of its
-- files, with what is used of Go's packages strconv, net, net/url and path/filepath.
use Prim.Native.Char.{Char, code}
use Prim.Native.String.{String, [], ◌∷◌}
use iam2kube.Shared.{
  ℕ, zero, suc, ◌+◌, ◌/◌, ◌%◌, ◌<>◌, Bool, true, false, ◌&&◌, ◌||◌, List, [], ◌∷◌, ltb, leb,
  if◌then◌else◌,
}
use iam2kube.Shared.Int.{ℤ, pos, negsuc}
use iam2kube.Shared.Text.{char_eq, split, contains}
use iam2kube.Config.{Config}
use text.Mathlib.Text.{◌==◌}

-- The n-th character of a text.
abbrev pick : ℕ → String → String
pick n [] = ""
pick zero (c ∷ s) = c ∷ []
pick (suc n) (c ∷ s) = pick n s

-- The decimal digits of a number that has at most so many.
pub decimal : ℕ → ℕ → String
decimal zero n = ""
decimal (suc digits) n = elim (ltb n 10) [
  | true ↦ pick n "0123456789"
  | false ↦ decimal digits (n / 10) <> pick (n % 10) "0123456789"
]

-- `strconv.Itoa`: a 64-bit integer has at most 19 digits.
unfoldable pub itoa : ℤ → String
unfolding decimal
itoa (pos n) = decimal 19 n
itoa (negsuc n) = "-" <> decimal 19 (n + 1)

-- `net.JoinHostPort`
unfoldable pub join_host_port : String → String → String
unfolding contains
join_host_port host port =
    if contains host ":" then "[" <> (host <> ("]:" <> port)) else host <> (":" <> port)

-- `Config.ServerAddr`
unfoldable pub server_addr : Config → String
unfolding join_host_port itoa
server_addr c = join_host_port c.hostname (itoa c.host_port)

-- `Config.ListenAddr`
unfoldable pub listen_addr : Config → String
unfolding join_host_port itoa
listen_addr c = join_host_port c.address (itoa c.host_port)

-- The characters that net/url leaves as they are in a host.
abbrev pub host_marks : String
host_marks = "-_.~!$&'()*+,;=:[]<>\""

holds : Char → String → Bool
holds c [] = false
holds c (d ∷ s) = char_eq d c || holds c s

abbrev pub is_between : ℕ → ℕ → ℕ → Bool
is_between low high n = leb low n && leb n high

pub is_plain : Char → Bool
unfolding holds
is_plain c =
    is_between b'a' b'z' (code c)
    || is_between b'A' b'Z' (code c)
    || is_between b'0' b'9' (code c)
    || holds c host_marks

-- The bytes of a character in UTF-8.
utf8 : ℕ → List ℕ
utf8 n =
    if ltb n 128
    then n ∷ []
    else if ltb n 2048
    then (192 + n / 64) ∷ (128 + n % 64) ∷ []
    else if ltb n 65536
    then (224 + n / 4096) ∷ (128 + n / 64 % 64) ∷ (128 + n % 64) ∷ []
    else (240 + n / 262144) ∷ (128 + n / 4096 % 64) ∷ (128 + n / 64 % 64) ∷ (128 + n % 64) ∷ []

percent : List ℕ → String
percent [] = ""
percent (b ∷ bs) =
    "%" <> (pick (b / 16) "0123456789ABCDEF" <> (pick (b % 16) "0123456789ABCDEF" <> percent bs))

-- net/url's `escape` of a host
unfoldable pub escape_host : String → String
unfolding is_plain utf8 percent
escape_host [] = ""
escape_host (c ∷ s) =
    let rest = escape_host s in if is_plain c then c ∷ rest else percent (utf8 (code c)) <> rest

-- `Config.ServerURL`
unfoldable pub server_url : Config → String
unfolding escape_host server_addr
server_url c = "https://" <> (escape_host (server_addr c) <> "/authenticate")

-- `filepath.Clean`: the parts that are kept so far, the last one first.
abbrev pub pop : Bool → List String → List String
pop rooted [] = if rooted then [] else ".." ∷ []
pop rooted (part ∷ parts) = if part == ".." then ".." ∷ part ∷ parts else parts

abbrev pub clean_part : Bool → List String → String → List String
clean_part rooted kept part =
    if part == "" || part == "."
    then kept
    else if part == ".."
    then pop rooted kept
    else part ∷ kept

unfoldable pub clean_parts : Bool → List String → List String → List String
clean_parts rooted kept [] = kept
clean_parts rooted kept (part ∷ parts) = clean_parts rooted (clean_part rooted kept part) parts

abbrev pub path_of : List String → String
path_of [] = ""
path_of (part ∷ []) = part
path_of (part ∷ before ∷ parts) = path_of (before ∷ parts) <> ("/" <> part)

abbrev pub finish_path : Bool → String → String
finish_path true path = "/" <> path
finish_path false path = if path == "" then "." else path

abbrev pub is_rooted : String → Bool
is_rooted [] = false
is_rooted (c ∷ s) = char_eq c "/"

unfoldable pub clean : String → String
unfolding clean_parts split
clean path =
    let rooted = is_rooted path in
    finish_path rooted (path_of (clean_parts rooted [] (split path "/")))

-- `filepath.Join` of a directory and a name
unfoldable pub join_path : String → String → String
unfolding clean
join_path dir name = if dir == "" then clean name else clean (dir <> ("/" <> name))

abbrev pub cert_filename : String
cert_filename = "cert.pem"

abbrev pub key_filename : String
key_filename = "key.pem"

-- `Config.certPath`, and `CertPath` for other packages.
unfoldable pub cert_path : Config → String
unfolding join_path
cert_path c = join_path c.state_dir cert_filename

-- `Config.keyPath`, and `KeyPath` for other packages.
unfoldable pub key_path : Config → String
unfolding join_path
key_path c = join_path c.state_dir key_filename
