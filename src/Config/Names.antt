-- ===== src/Config/Names.antt =====
-- Which names the self-signed certificate is valid for.
use iam2kube.Shared.{
  ℕ, String, ◌≡◌, refl, ◌∙◌, Bool, true, false, not, all_of, ◌&&◌, Option, none, some, [], ◌∷◌, any,
  member, str_eq_refl, Option-cases, inl, inr, arith,
}
use iam2kube.Config.{Config}
use iam2kube.Config.Files.{
  Ip, Crypto, Template, template, template_names, ip_eq, is_unspecified, equals,
}

-- An address in a certificate is an address: a certificate with an empty one cannot be parsed.
abbrev pub is_address : Option Ip → Bool
is_address none = false
is_address (some _) = true

-- A client that connects to a name can parse the certificate, and finds the name in it: an address
-- among the addresses, any other name among the DNS names.
unfoldable pub covers : Crypto → String → Template → Bool
covers crypto name t = all_of is_address t.ip_addresses && (elim (crypto.parse_ip name) [
  | none ↦ member t.dns_names name
  | some ip ↦ any (λ addr. equals addr ip) t.ip_addresses
])

ip_eq_refl : (ip : Ip) → ip_eq ip ip ≡ true
ip_eq_refl [] = refl
ip_eq_refl (b ∷ bs) = ground (arith, ip_eq_refl bs)

names_ip :
    (addr : Option Ip) (ip : Ip) (hostname : String)
    → (all_of is_address (template_names addr (some ip) hostname).0
        && any (λ a. equals a ip) (template_names addr (some ip) hostname).0)
      ≡ (is_address addr && not (is_unspecified addr && equals addr ip))
unfolding template_names
names_ip none ip hostname = ground (arith, ip_eq_refl ip)
names_ip (some addr) ip hostname = ground (arith, ip_eq_refl ip)

names_dns :
    (addr : Option Ip) (hostname : String)
    → (all_of is_address (template_names addr none hostname).0
        && member (template_names addr none hostname).1 hostname)
      ≡ is_address addr
unfolding template_names
names_dns none hostname = ground (arith, str_eq_refl hostname)
names_dns (some addr) hostname = ground (arith, str_eq_refl hostname)

-- The self-signed certificate can be parsed and is valid for the configured hostname exactly where
-- the address to bind to is an IP literal, and the hostname is not that very address while it is an
-- unspecified one, such as 0.0.0.0.
pub template-covers :
    (crypto : Crypto) (c : Config) (serial : ℕ)
    → covers crypto c.hostname (template crypto c serial) ≡ (
        is_address (crypto.parse_ip c.address) && (elim (crypto.parse_ip c.hostname) [
          | none ↦ true
          | some ip ↦
              not (
                is_unspecified (crypto.parse_ip c.address) && equals (crypto.parse_ip c.address) ip)
        ]))
unfolding covers template template_names
template-covers crypto c serial = elim (Option-cases (crypto.parse_ip c.hostname)) [
  | inl e ↦
      rw (e, covers, template, e) (names_dns (crypto.parse_ip c.address) c.hostname ∙ ground arith)
  | inr (ip, e) ↦ rw (e, covers, template, e) (names_ip (crypto.parse_ip c.address) ip c.hostname)
]
