-- ===== src/Server/Start/Trust.antt =====
-- The kubeconfig that a server leaves is one for the certificate that it serves.
use iam2kube.Shared.{
  ◌≡◌, sym, Bool, true, false, List, [], ◌∷◌, ok, Result-cases, Bool-cases, inl, inr, arith,
  if◌then◌else◌,
}
use iam2kube.Shared.Assoc.{lookup}
use mathlib.Core.Path.{subst}
use iam2kube.Config.{Config}
use iam2kube.Config.Files.{Certificate, Crypto, System, Files, get_or_create_certificate}
use iam2kube.Config.Existing.{IsOnDisk, get_or_create-IsOnDisk, get_or_create-other}
use iam2kube.Config.Kubeconfig.{create_kubeconfig}
use iam2kube.Config.Generated.{IsApart, IsTrusted, create_kubeconfig-IsTrusted}
use iam2kube.Mapper.{Mapper}
use iam2kube.Server.Start.{Outside, Server, configure_client, open_listener, new_server}

-- The certificates of a server that was made.
open_listener-certificates :
    (outside : Outside) (c : Config) (mappers : List Mapper) (cert : Certificate) (s : Server)
    → open_listener outside c mappers cert ≡ ok s
    → s.listener.certificates ≡ cert ∷ []
unfolding open_listener
open_listener-certificates outside c mappers cert s h = ground arith

-- What a start leaves on the disk for its certificate: the pair, and a kubeconfig for it, or the
-- kubeconfig that was there.
abbrev pub Leaves : Crypto → System → Config → Files → Certificate → Files → Type 0
Leaves crypto system c files cert after =
    IsOnDisk crypto system c after cert
    × (if c.kubeconfig_pregenerated
        then lookup c.generate_kubeconfig_path after ≡ lookup c.generate_kubeconfig_path files
        else IsTrusted crypto system c after cert)

-- The branch of a test that holds or does not.
choose :
    (P Q : Type 0) (b chosen : Bool) → b ≡ chosen → (if chosen then P else Q) → if b then P else Q
choose P Q b chosen e h = subst (λ x. if x then P else Q) (sym e) h

configure_client-Leaves :
    (crypto : Crypto) (system : System) (c : Config) (files with_pair : Files) (cert : Certificate)
    → IsApart c
    → IsOnDisk crypto system c with_pair cert
    → lookup c.generate_kubeconfig_path with_pair ≡ lookup c.generate_kubeconfig_path files
    → (configure_client crypto system c with_pair).0 ≡ ok tt
    → Leaves crypto system c files cert (configure_client crypto system c with_pair).1
unfolding configure_client
configure_client-Leaves crypto system c files with_pair cert apart there same h =
    let made = create_kubeconfig crypto system c with_pair in
    elim (Bool-cases c.kubeconfig_pregenerated) [
      | inl e ↦
          let after : (configure_client crypto system c with_pair).1 ≡ with_pair =
            ground (arith, e) in
          subst (Leaves crypto system c files cert) (sym after)
            (there, choose _ _ c.kubeconfig_pregenerated true e same)
      | inr e ↦
          let went : made.0 ≡ ok tt = ground (arith, e) in
          let after : (configure_client crypto system c with_pair).1 ≡ made.1 =
            ground (arith, e, went) in
          let trusted =
            create_kubeconfig-IsTrusted crypto system c with_pair cert apart there went in
          subst (Leaves crypto system c files cert) (sym after)
            (trusted.0, choose _ _ c.kubeconfig_pregenerated false e trusted)
    ]

-- A server that is made serves one certificate, which is the one on the disk. Unless the kubeconfig
-- was generated before, the kubeconfig that is left has that certificate as its authority, and the
-- server's URL; if it was, its file is not touched. The path of the kubeconfig is not that of the
-- certificate or of the key.
pub new_server-Leaves :
    (outside : Outside) (crypto : Crypto) (system : System) (c : Config) (mappers : List Mapper)
    (files : Files) (s : Server)
    → IsApart c
    → (new_server outside crypto system c mappers files).0 ≡ ok s
    → (cert : Certificate) × (s.listener.certificates ≡ cert ∷ [])
      × Leaves crypto system c files cert (new_server outside crypto system c mappers files).1
unfolding new_server
new_server-Leaves outside crypto system c mappers files s (cert_apart, key_apart) h =
    let (_, with_pair) = get_or_create_certificate crypto system c files in
    elim (Result-cases (get_or_create_certificate crypto system c files).0) [
      | inr (_, e) ↦ absurd (ground arith)
      | inl (cert, e) ↦
          let there =
            get_or_create-IsOnDisk crypto system c files cert with_pair (ground (arith, e)) in
          let kept =
            get_or_create-other crypto system c files c.generate_kubeconfig_path
              (λ x. cert_apart (sym x)) (λ x. key_apart (sym x)) in
          let configured = configure_client crypto system c with_pair in
          let went : configured.0 ≡ ok tt = ground (arith, e) in
          let served : open_listener outside c mappers cert ≡ ok s = ground (arith, e, went) in
          let same : (new_server outside crypto system c mappers files).1 ≡ configured.1 =
            ground (arith, e, went) in
          (
            cert,
            open_listener-certificates outside c mappers cert s served,
            subst (Leaves crypto system c files cert) (sym same) (
                configure_client-Leaves crypto system c files with_pair cert (cert_apart, key_apart)
                  there kept went),
          )
    ]
