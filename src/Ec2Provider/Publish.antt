-- ===== src/Ec2Provider/Publish.antt =====
-- What an answer of the EC2 API leaves in the cache and in the set of requests in flight.
use text.Mathlib.Text.{◌==◌}
use text.Mathlib.TextEquality.{eq_iff}
use iam2kube.Shared.{
  ◌≡◌, refl, ap, ◌∙◌, String, Option, none, some, List, [], ◌∷◌, Result, ok, err, if◌then◌else◌,
  member, arith, Bool-cases, inl, inr,
}
use iam2kube.Shared.Assoc.{lookup, lookup-insert, lookup-delete}
use iam2kube.Mapper.Last.{later}
use iam2kube.Ec2Provider.{
  Provider, Instance, Output, set_private_dns_name_cache, unset_request_in_flight, cache_instances,
  cache_reservations, unset_all, get_private_dns_and_publish_to_cache, visit, find_instance,
  find_in_reservations, LookupError, not_found, end_lookup,
}

-- The name of the last instance of an answer with this id.
pub last_name : String → List Instance → Option String
last_name id [] = none
last_name id (i ∷ is) =
    later (last_name id is) (if i.instance_id == id then some i.private_dns_name else none)

pub described : String → Output → Option String
described id [] = none
described id (is ∷ output) = later (described id output) (last_name id is)

lookup-cache_instances :
    (id : String) (is : List Instance) (p : Provider)
    → lookup id (cache_instances is p).private_dns_cache
      ≡ later (last_name id is) (lookup id p.private_dns_cache)
unfolding cache_instances last_name set_private_dns_name_cache
lookup-cache_instances id [] p = refl
lookup-cache_instances id (i ∷ is) p = ground (
  arith,
  lookup-cache_instances id is (set_private_dns_name_cache i.instance_id i.private_dns_name p),
  lookup-insert i.instance_id id i.private_dns_name p.private_dns_cache,
)

in_flight-cache_instances :
    (is : List Instance) (p : Provider) → (cache_instances is p).in_flight ≡ p.in_flight
unfolding cache_instances set_private_dns_name_cache
in_flight-cache_instances [] p = refl
in_flight-cache_instances (i ∷ is) p =
    in_flight-cache_instances is (set_private_dns_name_cache i.instance_id i.private_dns_name p)

lookup-cache_reservations :
    (id : String) (output : Output) (p : Provider)
    → lookup id (cache_reservations output p).private_dns_cache
      ≡ later (described id output) (lookup id p.private_dns_cache)
unfolding cache_reservations described
lookup-cache_reservations id [] p = refl
lookup-cache_reservations id (is ∷ output) p = ground (
  arith,
  lookup-cache_reservations id output (cache_instances is p),
  lookup-cache_instances id is p,
)

in_flight-cache_reservations :
    (output : Output) (p : Provider) → (cache_reservations output p).in_flight ≡ p.in_flight
unfolding cache_reservations
in_flight-cache_reservations [] p = refl
in_flight-cache_reservations (is ∷ output) p =
    in_flight-cache_reservations output (cache_instances is p) ∙ in_flight-cache_instances is p

lookup-unset_all :
    (id : String) (ids : List String) (p : Provider)
    → (lookup id (unset_all ids p).in_flight
        ≡ (if member ids id then none else lookup id p.in_flight))
      × ((unset_all ids p).private_dns_cache ≡ p.private_dns_cache)
unfolding unset_all unset_request_in_flight
lookup-unset_all id [] p = (refl, refl)
lookup-unset_all id (x ∷ ids) p =
    ground
      (arith, lookup-unset_all id ids (unset_request_in_flight x p), lookup-delete x id p.in_flight)

-- What a batch was told of an id: nothing where the call failed.
abbrev pub told : String → Result String Output → Option String
told id (err _) = none
told id (ok output) = described id output

-- After a batch no id of it is in flight, whether the call failed or not and whether the instance
-- was described; the others are in flight as before. The cache has the last name that the answer
-- gives for an id, and keeps what it had for every id that the answer does not describe.
pub publish_effects :
    (r : Result String Output) (ids : List String) (p : Provider) (id : String)
    → let after = get_private_dns_and_publish_to_cache r ids p in
      (lookup id after.in_flight ≡ (if member ids id then none else lookup id p.in_flight))
      × (lookup id after.private_dns_cache ≡ later (told id r) (lookup id p.private_dns_cache))
unfolding get_private_dns_and_publish_to_cache
publish_effects (err e) ids p id =
    let (flight, cache) = lookup-unset_all id ids p in (flight, ap (lookup id) cache)
publish_effects (ok output) ids p id =
    let (flight, cache) = lookup-unset_all id ids (cache_reservations output p) in
    (
      ground (arith, flight, in_flight-cache_reservations output p),
      ap (lookup id) cache ∙ lookup-cache_reservations id output p,
    )

-- What a lookup finds, from the name found so far.
abbrev pub Finds : String → Option String → String × Provider → String × Provider → Type 0
Finds id m (name, p) (name', q) =
    (name' ≡ (elim m [ none ↦ name | some n ↦ n ]))
    × (lookup id q.in_flight ≡ (elim m [ none ↦ lookup id p.in_flight | some _ ↦ none ]))
    × (lookup id q.private_dns_cache ≡ later m (lookup id p.private_dns_cache))

find_instance-Finds :
    (id : String) (is : List Instance) (name : String) (p : Provider)
    → Finds id (last_name id is) (name, p) (find_instance id is (name, p))
unfolding find_instance last_name visit unset_request_in_flight set_private_dns_name_cache
find_instance-Finds id [] name p = (refl, refl, refl)
find_instance-Finds id (i ∷ is) name p = elim (Bool-cases (i.instance_id == id)) [
  | inr e ↦ ground (arith, find_instance-Finds id is name p)
  | inl e ↦
      let q = unset_request_in_flight id (set_private_dns_name_cache id i.private_dns_name p) in
      ground (
        arith,
        find_instance-Finds id is i.private_dns_name q,
        lookup-delete id id p.in_flight,
        lookup-insert id id i.private_dns_name p.private_dns_cache,
        eq_iff id id,
      )
]

find_in_reservations-Finds :
    (id : String) (output : Output) (name : String) (p : Provider)
    → Finds id (described id output) (name, p) (find_in_reservations id output (name, p))
unfolding find_in_reservations described
find_in_reservations-Finds id [] name p = (refl, refl, refl)
find_in_reservations-Finds id (is ∷ output) name p =
    let (n, q) = find_instance id is (name, p) in
    ground (arith, find_instance-Finds id is name p, find_in_reservations-Finds id output n q)

-- The test of the name at the end of a lookup.
answer_of :
    (m : Option String) (name : String) (q : Provider)
    → name ≡ (elim m [ none ↦ "" | some n ↦ n ])
    → let last : Result LookupError String × Provider =
        if name == "" then (err not_found, q) else (ok name, q) in
      (last.0
        ≡ (elim m [ none ↦ err not_found | some n ↦ if n == "" then err not_found else ok n ]))
      × (last.1 ≡ q)
answer_of none name q h = rw h (refl, refl)
answer_of (some n) name q h = elim (Bool-cases (n == "")) [
  | inl e ↦ rw (h, e) (refl, refl)
  | inr e ↦ rw (h, e) (refl, refl)
]

-- The answer of a lookup whose API call succeeded is the last name that the call gives for its id,
-- and an error where there is none or it is empty. The id stops being in flight, and the cache gets
-- the name, only where the instance is described; else both stay as they were.
pub end_lookup_effects :
    (id : String) (output : Output) (p : Provider)
    → let (answer, after) = end_lookup id (ok output) p in
      (answer ≡ (elim (described id output) [
        | none ↦ err not_found
        | some name ↦ if name == "" then err not_found else ok name
      ]))
      × (lookup id after.in_flight
          ≡ (elim (described id output) [ none ↦ lookup id p.in_flight | some _ ↦ none ]))
      × (lookup id after.private_dns_cache
          ≡ later (described id output) (lookup id p.private_dns_cache))
unfolding end_lookup
end_lookup_effects id output p =
    let (name, q) = find_in_reservations id output ("", p) in
    let (found, flight, cache) = find_in_reservations-Finds id output "" p in
    let (answer, same) = answer_of (described id output) name q found in
    (
      answer,
      ap (λ (x : Provider). lookup id x.in_flight) same ∙ flight,
      ap (λ (x : Provider). lookup id x.private_dns_cache) same ∙ cache,
    )
