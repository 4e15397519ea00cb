-- ===== src/Ec2Provider/System/Truth/Runs.antt =====
-- Every name that is cached or returned in any run is one that the API gave for its id.
use iam2kube.Shared.{
  ℕ, String, ◌≡◌, Option, none, some, List, [], ◌∷◌, Result, All, All-append, arith, Option-cases,
  one_of, inl, inr,
}
use mathlib.Core.Path.{subst}
use iam2kube.Shared.Assoc.{lookup}
use iam2kube.Ec2Provider.{Output, get_private_dns_name_cache}
use iam2kube.Ec2Provider.Lookup.{found, reads_cache, returned, go, place_after}
use iam2kube.Ec2Provider.System.{
  Lookup, World, Event, looks_up, goes_on, answers_lookup, loops, answers_batch, writes, get_elem?,
  is_blocked, is_asking, turn_lookup, move_lookup, answer_lookup, started, turn_loop, answered,
  next_write, write_batch, step, run, new_world,
}
use iam2kube.Ec2Provider.System.Truth.{
  All-set, All-get_elem?, PlaceSays, LookupSays, BatchSays, ResultSays, CacheSays, EventSays,
  WorldSays, go-says,
}
use iam2kube.Ec2Provider.System.Truth.Answers.{place_after-says, answered-says, next_write-says}

module _ (Says : String → String → Type 0) where
  move_lookup-WorldSays :
      (n : ℕ) (t : Lookup) (w : World)
      → get_elem? w.lookups n ≡ some t
      → WorldSays Says w
      → WorldSays Says (move_lookup n t w)
  unfolding move_lookup
  move_lookup-WorldSays n t w at says =
      let h = All-get_elem? (LookupSays Says) w.lookups n t at says.lookups in
      let (cached, next) = go-says Says t.id t.place w.provider says.cached h in
      record {
        cached = cached;
        lookups =
            All-set (LookupSays Says) w.lookups n
              (record { id = t.id; place = (go t.id t.place w.provider).0 }) says.lookups next;
        batches = says.batches;
      }

  answer_lookup-WorldSays :
      (n : ℕ) (t : Lookup) (result : Result String Output) (w : World)
      → ResultSays Says result
      → WorldSays Says w
      → WorldSays Says (answer_lookup n t result w)
  unfolding answer_lookup
  answer_lookup-WorldSays n t result w said says =
      one_of (is_asking t.place) _ w (WorldSays Says)
        (record {
          cached = says.cached;
          lookups =
              All-set (LookupSays Says) w.lookups n
                (record { id = t.id; place = place_after t.id result }) says.lookups
                (place_after-says Says t.id result said);
          batches = says.batches;
        })
        says

  started-says : (batch : Option (List String)) → All (BatchSays Says) (started batch)
  started-says none = tt
  started-says (some ids) = (tt, tt)

  step-WorldSays :
      (e : Event) (w : World) → EventSays Says e → WorldSays Says w → WorldSays Says (step e w)
  unfolding step turn_lookup turn_loop write_batch
  step-WorldSays (looks_up id) w said says = record {
    cached = says.cached;
    lookups =
        All-append (LookupSays Says) w.lookups (record { id = id; place = reads_cache } ∷ [])
          says.lookups (tt, tt);
    batches = says.batches;
  }
  step-WorldSays (goes_on n) w said says = elim (Option-cases (get_elem? w.lookups n)) [
    | inl e ↦ rw (e, step) says
    | inr (t, e) ↦
        rw (e, step)
          (one_of (is_blocked t.place w.channel) w (move_lookup n t w) (WorldSays Says) says
            (move_lookup-WorldSays n t w e says))
  ]
  step-WorldSays (answers_lookup n result) w said says =
      elim (Option-cases (get_elem? w.lookups n)) [
        | inl e ↦ rw (e, step) says
        | inr (t, e) ↦ rw (e, step) (answer_lookup-WorldSays n t result w said says)
      ]
  step-WorldSays (loops end_time restart_time) w said says = record {
    cached = says.cached;
    lookups = says.lookups;
    batches = All-append (BatchSays Says) w.batches (started _) says.batches (started-says _);
  }
  step-WorldSays (answers_batch n result) w said says =
      elim (Option-cases (get_elem? w.batches n)) [
        | inl e ↦ rw (e, step) says
        | inr (b, e) ↦
            rw (e, step)
              (record {
                cached = says.cached;
                lookups = says.lookups;
                batches = All-set (BatchSays Says) w.batches n (answered b result) says.batches (
                    answered-says Says b result
                      (All-get_elem? (BatchSays Says) w.batches n b e says.batches) said);
              })
      ]
  step-WorldSays (writes n) w said says = elim (Option-cases (get_elem? w.batches n)) [
    | inl e ↦ rw (e, step) says
    | inr (b, e) ↦
        let h = All-get_elem? (BatchSays Says) w.batches n b e says.batches in
        let (cached, next) = next_write-says Says b w.provider says.cached h in
        rw (e, step)
          (record {
            cached = cached;
            lookups = says.lookups;
            batches =
                All-set (BatchSays Says) w.batches n (next_write b w.provider).0 says.batches next;
          })
  ]

  run-WorldSays :
      (es : List Event) (w : World)
      → All (EventSays Says) es
      → WorldSays Says w
      → WorldSays Says (run es w)
  unfolding run
  run-WorldSays [] w said says = says
  run-WorldSays (e ∷ es) w (first, said) says =
      run-WorldSays es (step e w) said (step-WorldSays e w first says)

  new_world-WorldSays : (now : ℕ) → WorldSays Says (new_world now)
  unfolding get_private_dns_name_cache lookup
  new_world-WorldSays now = record {
    cached = λ id name h. absurd (ground arith);
    lookups = tt;
    batches = tt;
  }

-- Every name in the cache is one that the API may give for its id.
pub run-CacheSays :
    (Says : String → String → Type 0) (now : ℕ) (es : List Event)
    → All (EventSays Says) es
    → CacheSays Says (run es (new_world now)).provider
run-CacheSays Says now es said =
    (run-WorldSays Says es (new_world now) said (new_world-WorldSays Says now)).cached

-- Whatever lookups and batches run in whatever order, a name that a lookup returns is one that the
-- API may give for the very id that was looked up, where its answers, to lookups and to batches, give
-- for every instance a name that it may give.
pub run-returned :
    (Says : String → String → Type 0) (now : ℕ) (es : List Event) (n : ℕ) (t : Lookup)
    (name : String)
    → All (EventSays Says) es
    → get_elem? (run es (new_world now)).lookups n ≡ some t
    → t.place ≡ returned (found name)
    → Says t.id name
run-returned Says now es n t name said at ended =
    let says = run-WorldSays Says es (new_world now) said (new_world-WorldSays Says now) in
    subst (PlaceSays Says t.id) ended
      (All-get_elem? (LookupSays Says) (run es (new_world now)).lookups n t at says.lookups)
