-- ===== src/Token/Hosts/Laws.antt =====
-- Which hosts a new verifier accepts.
use text.Mathlib.Text.{◌==◌}
use text.Mathlib.TextEquality.{eq_iff}
use iam2kube.Shared.{
  String, ◌≡◌, refl, Bool, true, false, ◌||◌, Option, none, some, List, [], ◌∷◌, Result, ok, member,
  ◌↔◌, inl, inr, arith, Bool-cases, Option-cases, Result-cases, str_cases, any,
}
use iam2kube.Shared.Assoc.{lookup}
use iam2kube.Token.Verify.{Request, Response}
use iam2kube.Token.Hosts.{
  Partition, Endpoints, find_partition, host_of, add_host, hosts_of, new_verifier, verify_host,
}

-- An endpoint of a list resolves to a URL of this host.
abbrev pub Resolves : Endpoints → String → List String → Type 0
Resolves sdk host es =
    (endpoint : String) × (member es endpoint ≡ true)
    × (url : String) × (sdk.resolve_endpoint endpoint ≡ ok url)
    × (sdk.hostname url ≡ ok host)

member-add_host :
    (o : Option String) (hosts : List String) (h : String)
    → member (add_host o hosts) h
      ≡ (elim o [ none ↦ member hosts h | some x ↦ x == h || member hosts h ])
member-add_host none hosts h = refl
member-add_host (some x) hosts h = elim (Bool-cases (member hosts x)) [
  | inr e ↦ rw e refl
  | inl e ↦ elim (str_cases x h) [
    | inr (apart, _) ↦ rw (e, apart) refl
    | inl (same, p) ↦ rw (e, same) (rw (← p) e)
  ]
]

-- A test for the same, over a list.
abbrev pub resolves : Endpoints → String → String → Bool
resolves sdk host e = elim (host_of sdk e) [ none ↦ false | some x ↦ x == host ]

member-hosts_of :
    (sdk : Endpoints) (es hosts : List String) (h : String)
    → member (hosts_of sdk hosts es) h ≡ (any (resolves sdk h) es || member hosts h)
unfolding hosts_of
member-hosts_of sdk [] hosts h = refl
member-hosts_of sdk (e ∷ es) hosts h = ground (
  arith,
  member-hosts_of sdk es (add_host (host_of sdk e) hosts) h,
  member-add_host (host_of sdk e) hosts h,
)

resolves_sound :
    (sdk : Endpoints) (h e : String)
    → resolves sdk h e ≡ true
    → (url : String) × (sdk.resolve_endpoint e ≡ ok url) × (sdk.hostname url ≡ ok h)
resolves_sound sdk h e r = elim (Result-cases (sdk.resolve_endpoint e)) [
  | inr (_, f) ↦ absurd (unfold host_of in ground arith)
  | inl (url, f) ↦ elim (Result-cases (sdk.hostname url)) [
    | inr (_, g) ↦ absurd (unfold host_of in ground arith)
    | inl (x, g) ↦ (url, f, unfold host_of in ground (arith, eq_iff x h))
  ]
]

any_sound :
    (sdk : Endpoints) (h : String) (es : List String)
    → any (resolves sdk h) es ≡ true
    → Resolves sdk h es
any_sound sdk h [] a = absurd (ground arith)
any_sound sdk h (e ∷ es) a = elim (Bool-cases (resolves sdk h e)) [
  | inl r ↦ let (url, f, g) = resolves_sound sdk h e r in (e, ground (arith, eq_iff e e), url, f, g)
  | inr r ↦
      let (x, m, url, f, g) = any_sound sdk h es (ground arith) in (x, ground arith, url, f, g)
]

any_complete :
    (sdk : Endpoints) (h : String) (es : List String) (e url : String)
    → member es e ≡ true
    → sdk.resolve_endpoint e ≡ ok url
    → sdk.hostname url ≡ ok h
    → any (resolves sdk h) es ≡ true
any_complete sdk h [] e url m f g = absurd (ground arith)
any_complete sdk h (x ∷ es) e url m f g = elim (str_cases x e) [
  | inl (_, p) ↦ rw p (unfold host_of in ground (arith, f, g, eq_iff h h))
  | inr (apart, _) ↦ ground (arith, any_complete sdk h es e url (ground arith) f g)
]

-- A new verifier accepts exactly the hosts that an endpoint of STS in the first partition with the
-- given id resolves to; where there is no such partition, or it has no STS, it accepts none.
pub verify_host_iff :
    (sdk : Endpoints) (send : Request → Result String Response)
    (cluster_id partition_id host : String)
    → (verify_host (new_verifier sdk send cluster_id partition_id) host ≡ ok tt) ↔ (
        (p : Partition) × (find_partition partition_id sdk.partitions ≡ some p)
        × (es : List String) × (lookup "sts" p.services ≡ some es)
        × Resolves sdk host es)
unfolding verify_host new_verifier
verify_host_iff sdk send cluster_id partition_id host = (to, from)
  where
    to :
        verify_host (new_verifier sdk send cluster_id partition_id) host ≡ ok tt
        → (p : Partition) × (find_partition partition_id sdk.partitions ≡ some p)
          × (es : List String) × (lookup "sts" p.services ≡ some es)
          × Resolves sdk host es
    to h = elim (Option-cases (find_partition partition_id sdk.partitions)) [
      | inl e ↦ absurd (ground arith)
      | inr (p, e) ↦ elim (Option-cases (lookup "sts" p.services)) [
        | inl f ↦ absurd (ground arith)
        | inr (es, f) ↦
            (p, e, es, f, any_sound sdk host es (ground (arith, member-hosts_of sdk es [] host)))
      ]
    ]

    from :
        (p : Partition) × (find_partition partition_id sdk.partitions ≡ some p)
          × (es : List String) × (lookup "sts" p.services ≡ some es)
          × Resolves sdk host es
        → verify_host (new_verifier sdk send cluster_id partition_id) host ≡ ok tt
    from (p, e, es, f, (x, m, url, g, g')) =
        ground (arith, member-hosts_of sdk es [] host, any_complete sdk host es x url m g g')
