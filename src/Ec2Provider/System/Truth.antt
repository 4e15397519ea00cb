-- ===== src/Ec2Provider/System/Truth.antt =====
-- Every name that is cached or returned is one that the API gave for its id.
pub mod Answers
pub mod Runs
use iam2kube.Shared.{
  ℕ, zero, suc, String, ◌≡◌, refl, Bool, true, false, Option, none, some, List, [], ◌∷◌, ◌++◌, map,
  Result, ok, err, All, All-append, arith, if◌then◌else◌, Bool-cases, Option-cases, str_cases,
  one_of, ltb, inl, inr, ◌⊎◌,
}
use mathlib.Core.Path.{subst, sym}
use iam2kube.Shared.Assoc.{lookup, lookup-insert}
use iam2kube.Ec2Provider.{
  Provider, Instance, Output, get_private_dns_name_cache, set_private_dns_name_cache,
  set_request_in_flight, unset_request_in_flight, is_request_in_flight, get_request_in_flight_size,
  max_allowed_inflight_request,
}
use iam2kube.Ec2Provider.Lookup.{
  Write, caches, unsets, apply_write, Answer, found, fails, gave_up, Place, reads_cache,
  reads_flight, marks, counts, sends, asks_api, sleeps, settles, returned, or_answer, go,
  place_after, instance_writes, output_writes, last_instance, last_output, answer_of_name,
  total_iteration_for_wait_interval,
}
use iam2kube.Ec2Provider.System.{
  Lookup, Batch, asks, publishes, World, Event, looks_up, goes_on, answers_lookup, loops,
  answers_batch, writes, get_elem?, set, is_blocked, is_asking, turn_lookup, move_lookup,
  answer_lookup, started, turn_loop, publish_instances, publish_output, batch_writes, answered,
  next_write, write_batch, step, run, new_world,
}

module _ {ℓ κ} {A : Type ℓ} (P : A → Type κ) where
  pub All-set : (xs : List A) (n : ℕ) (y : A) → All P xs → P y → All P (set xs n y)
  All-set [] n y h k = tt
  All-set (x ∷ xs) zero y (p, h) k = (k, h)
  All-set (x ∷ xs) (suc n) y (p, h) k = (p, All-set xs n y h k)

  pub All-get_elem? : (xs : List A) (n : ℕ) (x : A) → get_elem? xs n ≡ some x → All P xs → P x
  All-get_elem? [] n x e h = absurd (ground arith)
  All-get_elem? (y ∷ xs) zero x e (p, h) = subst P (ground arith) p
  All-get_elem? (y ∷ xs) (suc n) x e (p, h) = All-get_elem? xs n x e h

-- `Says id name`: the API may give this name for this id.
module _ (Says : String → String → Type 0) where
  abbrev pub CacheSays : Provider → Type 0
  CacheSays p = (id name : String) → get_private_dns_name_cache id p ≡ some name → Says id name

  abbrev pub WriteSays : Write → Type 0
  WriteSays (caches id name) = Says id name
  WriteSays (unsets id) = Unit

  abbrev pub AnswerSays : String → Answer → Type 0
  AnswerSays id (found name) = Says id name
  AnswerSays id (fails _) = Unit
  AnswerSays id gave_up = Unit

  abbrev pub PlaceSays : String → Place → Type 0
  PlaceSays id (settles ws answer) = All WriteSays ws × AnswerSays id answer
  PlaceSays id (returned answer) = AnswerSays id answer
  PlaceSays id _ = Unit

  abbrev pub LookupSays : Lookup → Type 0
  LookupSays t = PlaceSays t.id t.place

  abbrev pub BatchSays : Batch → Type 0
  BatchSays (asks ids) = Unit
  BatchSays (publishes ws) = All WriteSays ws

  abbrev pub InstanceSays : Instance → Type 0
  InstanceSays i = Says i.instance_id i.private_dns_name

  abbrev pub ResultSays : Result String Output → Type 0
  ResultSays (err _) = Unit
  ResultSays (ok output) = All (λ is. All InstanceSays is) output

  -- An answer of the API gives for each instance a name that it may give.
  abbrev pub EventSays : Event → Type 0
  EventSays (answers_lookup _ result) = ResultSays result
  EventSays (answers_batch _ result) = ResultSays result
  EventSays _ = Unit

  pub record WorldSays (w : World) : Type 0 where
    pub cached : CacheSays w.provider
    pub lookups : All LookupSays w.lookups
    pub batches : All BatchSays w.batches

  pub apply_write-CacheSays :
      (w : Write) (p : Provider) → CacheSays p → WriteSays w → CacheSays (apply_write w p)
  unfolding apply_write get_private_dns_name_cache set_private_dns_name_cache
      unset_request_in_flight
  apply_write-CacheSays (unsets _) p says said other text h = says other text h
  apply_write-CacheSays (caches id name) p says said other text h = elim (str_cases id other) [
    | inl (e, same) ↦
        let value : name ≡ text = ground (arith, lookup-insert id other name p.private_dns_cache) in
        subst (λ x. Says x text) same (subst (Says id) value said)
    | inr (e, _) ↦ says other text (ground (arith, lookup-insert id other name p.private_dns_cache))
  ]

  or_answer-says :
      (own : String) (p : Provider) (next : Place)
      → CacheSays p
      → PlaceSays own next
      → PlaceSays own (or_answer (get_private_dns_name_cache own p) next)
  or_answer-says own p next says h = elim (Option-cases (get_private_dns_name_cache own p)) [
    | inl e ↦ rw e h
    | inr (name, e) ↦ rw e (says own name e)
  ]

  pub go-says :
      (own : String) (place : Place) (p : Provider)
      → CacheSays p
      → PlaceSays own place
      → let (next, q, _) = go own place p in CacheSays q × PlaceSays own next
  unfolding go
  go-says own reads_cache p says h = (says, or_answer-says own p reads_flight says tt)
  go-says own reads_flight p says h = (
    says,
    one_of (is_request_in_flight own p) (sleeps total_iteration_for_wait_interval) marks
        (PlaceSays own) tt tt,
  )
  go-says own marks p says h = (says, tt)
  go-says own counts p says h = (
    says,
    one_of (ltb max_allowed_inflight_request (get_request_in_flight_size p)) sends asks_api
        (PlaceSays own) tt tt,
  )
  go-says own sends p says h = (says, tt)
  go-says own asks_api p says h = (says, tt)
  go-says own (sleeps zero) p says h = (says, tt)
  go-says own (sleeps (suc n)) p says h = (says, or_answer-says own p (sleeps n) says tt)
  go-says own (settles [] answer) p says (_, h) = (says, h)
  go-says own (settles (w ∷ ws) answer) p says ((first, more), h) =
      (apply_write-CacheSays w p says first, (more, h))
  go-says own (returned answer) p says h = (says, h)
