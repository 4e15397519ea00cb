-- ===== src/Ec2Provider/Lookup/Alone.antt =====
-- A lookup and a batch that nothing comes between.
use iam2kube.Shared.{
  ℕ, zero, suc, String, ◌≡◌, refl, ap, sym, ◌∙◌, Bool, true, false, List, [], ◌∷◌, ◌++◌, map,
  Result, ok, err, if◌then◌else◌, Bool-cases, inl, inr, Option-cases, ltb,
}
use iam2kube.Ec2Provider.{
  Provider, Instance, Output, Next, answers, waits, queues, asks, begin_lookup, end_lookup,
  LookupError, not_found, get_private_dns_name_cache, is_request_in_flight,
  get_request_in_flight_size, set_request_in_flight, max_allowed_inflight_request, visit,
  find_instance, find_in_reservations, cache_instances, cache_reservations, unset_all,
  get_private_dns_and_publish_to_cache, set_private_dns_name_cache, unset_request_in_flight,
}
use iam2kube.Ec2Provider.Lookup.{
  Write, unsets, apply_write, Answer, found, fails, gave_up, Place, reads_cache, reads_flight,
  marks, counts, sends, asks_api, sleeps, settles, returned, go, total_iteration_for_wait_interval,
  instance_writes, output_writes, last_instance, last_output, place_after, answer_of_name,
}
use text.Mathlib.Text.{◌==◌}
use iam2kube.Ec2Provider.System.{publish_instances, publish_output, batch_writes}

-- The maps after some writes
abbrev pub apply_writes : List Write → Provider → Provider
apply_writes [] p = p
apply_writes (w ∷ ws) p = apply_writes ws (apply_write w p)

-- The place at which the first part of a lookup ends.
abbrev pub place_of : Next → Place
place_of (answers name) = returned (found name)
place_of waits = sleeps total_iteration_for_wait_interval
place_of queues = sends
place_of asks = asks_api

-- Turns of a lookup up to the wait, the send, the call of the API or the end, at most so many.
abbrev pub is_stop : Place → Bool
is_stop reads_cache = false
is_stop reads_flight = false
is_stop marks = false
is_stop counts = false
is_stop _ = true

unfoldable pub begin_alone : ℕ → String → Place → Provider → Place × Provider
begin_alone zero id place p = (place, p)
begin_alone (suc n) id place p =
    let rest = begin_alone n id (go id place p).0 (go id place p).1 in
    if is_stop place then (place, p) else rest

begin_lookup-alone :
    (id : String) (p : Provider)
    → begin_alone 4 id reads_cache p ≡ (place_of (begin_lookup id p).0, (begin_lookup id p).1)
unfolding begin_alone begin_lookup go
begin_lookup-alone id p = elim (Option-cases (get_private_dns_name_cache id p)) [
  | inr (name, cached) ↦ rw (cached, begin_lookup) refl
  | inl missing ↦ elim (Bool-cases (is_request_in_flight id p)) [
    | inl flies ↦ rw (missing, begin_lookup, flies) refl
    | inr apart ↦
        elim (Bool-cases (
          ltb max_allowed_inflight_request
            (get_request_in_flight_size (set_request_in_flight id p)))) [
              | inl many ↦ rw (missing, begin_lookup, apart, many) refl
              | inr few ↦ rw (missing, begin_lookup, apart, few) refl
            ]
  ]
]

apply_writes-append :
    (xs ys : List Write) (p : Provider)
    → apply_writes (xs ++ ys) p ≡ apply_writes ys (apply_writes xs p)
apply_writes-append [] ys p = refl
apply_writes-append (x ∷ xs) ys p = apply_writes-append xs ys (apply_write x p)

find_instance-alone :
    (id : String) (is : List Instance) (name : String) (p : Provider)
    → find_instance id is (name, p)
      ≡ (last_instance id is name, apply_writes (instance_writes id is) p)
unfolding find_instance visit last_instance instance_writes apply_write
find_instance-alone id [] name p = refl
find_instance-alone id (i ∷ is) name p = elim (Bool-cases (i.instance_id == id)) [
  | inl e ↦ rw e (
      find_instance-alone id is i.private_dns_name
        (unset_request_in_flight id (set_private_dns_name_cache id i.private_dns_name p)))
  | inr e ↦ rw e (find_instance-alone id is name p)
]

find_in_reservations-alone :
    (id : String) (output : Output) (name : String) (p : Provider)
    → find_in_reservations id output (name, p)
      ≡ (last_output id output name, apply_writes (output_writes id output) p)
unfolding find_in_reservations last_output output_writes
find_in_reservations-alone id [] name p = refl
find_in_reservations-alone id (is ∷ output) name p =
    ap (find_in_reservations id output) (find_instance-alone id is name p)
    ∙ find_in_reservations-alone id output (last_instance id is name)
        (apply_writes (instance_writes id is) p)
    ∙ ap (λ q. (last_output id output (last_instance id is name), q))
        (sym (apply_writes-append (instance_writes id is) (output_writes id output) p))

-- The answer that a result stands for.
abbrev pub answer_of : Result LookupError String → Answer
answer_of (ok name) = found name
answer_of (err e) = fails e

-- A lookup that has its answer, up to its end.
abbrev pub finish_alone : Place → Provider → Answer × Provider
finish_alone (settles ws answer) p = (answer, apply_writes ws p)
finish_alone _ p = (gave_up, p)

-- The test of the name at the end
tested : String × Provider → Answer × Provider
tested (name, q) =
    let last : Result LookupError String × Provider =
      if name == "" then (err not_found, q) else (ok name, q) in
    (answer_of last.0, last.1)

name_test : (name : String) (q : Provider) → tested (name, q) ≡ (answer_of_name name, q)
unfolding tested
name_test name q = elim (Bool-cases (name == "")) [ inl e ↦ rw e refl | inr e ↦ rw e refl ]

end_lookup-alone :
    (id : String) (result : Result String Output) (p : Provider)
    → finish_alone (place_after id result) p
      ≡ (answer_of (end_lookup id result p).0, (end_lookup id result p).1)
unfolding place_after end_lookup apply_write tested
end_lookup-alone id (err e) p = refl
end_lookup-alone id (ok output) p =
    sym (name_test (last_output id output "") (apply_writes (output_writes id output) p))
    ∙ sym (ap tested (find_in_reservations-alone id output "" p))

cache_instances-alone :
    (is : List Instance) (p : Provider)
    → apply_writes (publish_instances is) p ≡ cache_instances is p
unfolding publish_instances cache_instances apply_write
cache_instances-alone [] p = refl
cache_instances-alone (i ∷ is) p =
    cache_instances-alone is (set_private_dns_name_cache i.instance_id i.private_dns_name p)

cache_reservations-alone :
    (output : Output) (p : Provider)
    → apply_writes (publish_output output) p ≡ cache_reservations output p
unfolding publish_output cache_reservations
cache_reservations-alone [] p = refl
cache_reservations-alone (is ∷ output) p =
    apply_writes-append (publish_instances is) (publish_output output) p
    ∙ ap (apply_writes (publish_output output)) (cache_instances-alone is p)
    ∙ cache_reservations-alone output (cache_instances is p)

unset_all-alone :
    (ids : List String) (p : Provider) → apply_writes (map unsets ids) p ≡ unset_all ids p
unfolding unset_all apply_write
unset_all-alone [] p = refl
unset_all-alone (id ∷ ids) p = unset_all-alone ids (unset_request_in_flight id p)

batch_writes-alone :
    (ids : List String) (result : Result String Output) (p : Provider)
    → apply_writes (batch_writes ids result) p ≡ get_private_dns_and_publish_to_cache result ids p
unfolding batch_writes get_private_dns_and_publish_to_cache
batch_writes-alone ids (err _) p = unset_all-alone ids p
batch_writes-alone ids (ok output) p =
    apply_writes-append (publish_output output) (map unsets ids) p
    ∙ ap (apply_writes (map unsets ids)) (cache_reservations-alone output p)
    ∙ unset_all-alone ids (cache_reservations output p)

-- The single turns and the whole functions agree where nothing comes between the turns: a lookup
-- stops within four turns at the place that `begin_lookup` gives, with the maps that it gives; once it
-- has the answer of the API it returns what `end_lookup` returns, with the maps that that leaves; and
-- a batch leaves the maps that `get_private_dns_and_publish_to_cache` leaves.
pub lookup_alone :
    (result : Result String Output) (id : String) (ids : List String) (p : Provider)
    → (begin_alone 4 id reads_cache p ≡ (place_of (begin_lookup id p).0, (begin_lookup id p).1))
      × (finish_alone (place_after id result) p
          ≡ (answer_of (end_lookup id result p).0, (end_lookup id result p).1))
      × (apply_writes (batch_writes ids result) p
          ≡ get_private_dns_and_publish_to_cache result ids p)
lookup_alone result id ids p =
    (begin_lookup-alone id p, end_lookup-alone id result p, batch_writes-alone ids result p)
