-- ===== src/Token/Cache/Laws.antt =====
-- Reading the cache after a write.
use text.Mathlib.Text.{◌==◌}
use iam2kube.Shared.{
  String, ◌≡◌, refl, Bool, ◌&&◌, List, if◌then◌else◌, arith, str_cases, Option-cases, inl, inr,
}
use iam2kube.Shared.Assoc.{lookup, insert, lookup-insert}
use iam2kube.Token.Cache.{
  CachedCredential, CacheFile, ProfileMap, RoleMap, CacheKey, ensure, put, get_role, get,
}

-- The two keys name the same entry.
abbrev pub same_key : CacheKey → CacheKey → Bool
same_key k j = k.cluster_id == j.cluster_id && (k.profile == j.profile && k.role_arn == j.role_arn)

ensure-insert :
    {V : Type 0} (written read : String) (v : List V) (m : List (String × List V))
    → ensure read (insert written v m) ≡ (if written == read then v else ensure read m)
unfolding ensure
ensure-insert written read v m = ground (arith, lookup-insert written read v m)

get_role-insert :
    (written read : String) (c : CachedCredential) (m : RoleMap)
    → get_role read (insert written c m) ≡ (if written == read then c else get_role read m)
unfolding get_role
get_role-insert written read c m = ground (arith, lookup-insert written read c m)

-- A missing map reads as an empty one.
get-ensure :
    (cache : CacheFile) (k : CacheKey)
    → get cache k ≡ get_role k.role_arn (ensure k.profile (ensure k.cluster_id cache))
unfolding get ensure get_role lookup
get-ensure cache k = elim (Option-cases (lookup k.cluster_id cache)) [
  | inl e ↦ rw (e, get, ensure, get_role) refl
  | inr (profiles, e) ↦ elim (Option-cases (lookup k.profile profiles)) [
    | inl f ↦ rw (e, get, ensure) (rw (f, get_role) refl)
    | inr (roles, f) ↦ rw (e, get, ensure) (rw f refl)
  ]
]

profile-insert :
    (k j : CacheKey) (c : CachedCredential) (m : ProfileMap)
    → get_role j.role_arn
        (ensure j.profile (insert k.profile (insert k.role_arn c (ensure k.profile m)) m))
      ≡ (if k.profile == j.profile && k.role_arn == j.role_arn
          then c
          else get_role j.role_arn (ensure j.profile m))
profile-insert k j c m =
    rw (ensure-insert k.profile j.profile (insert k.role_arn c (ensure k.profile m)) m)
      (elim (str_cases k.profile j.profile) [
        | inr (e, _) ↦ rw e refl
        | inl (e, same) ↦
            rw (e, get_role-insert k.role_arn j.role_arn c (ensure k.profile m)) (rw same refl)
      ])

-- What is put is got under its own key; every other key gets what it got before.
pub get-put :
    (cache : CacheFile) (k j : CacheKey) (cached : CachedCredential)
    → get (put cache k cached) j ≡ (if same_key k j then cached else get cache j)
unfolding put
get-put cache k j cached =
    let profiles = ensure k.cluster_id cache in
    let written =
      insert k.profile (insert k.role_arn cached (ensure k.profile profiles)) profiles in
    rw
      (
        get-ensure (put cache k cached) j,
        get-ensure cache j,
        ensure-insert k.cluster_id j.cluster_id written cache,
      )
      (elim (str_cases k.cluster_id j.cluster_id) [
        | inr (e, _) ↦ rw e refl
        | inl (e, same) ↦ rw (e, profile-insert k j cached profiles) (rw same refl)
      ])
