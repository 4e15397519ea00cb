-- ===== src/Ec2Provider/System/Invariant.antt =====
-- Every request in flight is taken care of, whatever the order of the events.
use iam2kube.Shared.{
  ℕ, String, ◌≡◌, true, ◌||◌, some, List, [], ◌∷◌, ◌++◌, Result, any, member, arith, if◌then◌else◌,
  Option-cases, one_of, inl, inr,
}
use iam2kube.Shared.Assoc.{lookup}
use iam2kube.Ec2Provider.{Provider, Output, BatchLoop, Tick, receive, turn, is_request_in_flight}
use iam2kube.Ec2Provider.Lookup.{reads_cache, go, place_after}
use iam2kube.Ec2Provider.System.{
  Lookup, Batch, asks, publishes, World, Event, looks_up, goes_on, answers_lookup, loops,
  answers_batch, writes, get_elem?, set, head, tail, is_blocked, turn_lookup, move_lookup,
  forgotten, answer_lookup, started, turn_loop, answered, next_write, write_batch, step, run,
  new_world,
}
use iam2kube.Ec2Provider.System.Cared.{
  lookup_cares, batch_cares, is_cared, any-append, any-set, member-append, apply_write-in_flight,
  go-cares, answer-cares, batch_writes-cares,
}

abbrev pub IsCared : World → Type 0
IsCared w = (id : String) → is_request_in_flight id w.provider ≡ true → is_cared id w ≡ true

move_lookup-IsCared :
    (n : ℕ) (t : Lookup) (w : World)
    → get_elem? w.lookups n ≡ some t
    → IsCared w
    → IsCared (move_lookup n t w)
unfolding move_lookup is_cared
move_lookup-IsCared n t w at cared id h =
    let (next, q, sent) = go t.id t.place w.provider in
    let (kept, new) = go-cares id t.id t.place w.provider h in
    ground (
      arith,
      cared id,
      kept,
      new,
      any-set (lookup_cares id) w.lookups n t (record { id = t.id; place = next }) at,
      member-append w.channel sent id,
    )

turn_lookup-IsCared :
    (n : ℕ) (t : Lookup) (w : World)
    → get_elem? w.lookups n ≡ some t
    → IsCared w
    → IsCared (turn_lookup n t w)
unfolding turn_lookup
turn_lookup-IsCared n t w at cared =
    one_of (is_blocked t.place w.channel) w (move_lookup n t w) IsCared cared
      (move_lookup-IsCared n t w at cared)

answer_lookup-IsCared :
    (n : ℕ) (t : Lookup) (result : Result String Output) (w : World)
    → get_elem? w.lookups n ≡ some t
    → IsCared w
    → IsCared (answer_lookup n t result w)
unfolding answer_lookup is_cared
answer_lookup-IsCared n t result w at cared id h = ground (
  arith,
  cared id,
  any-set (lookup_cares id) w.lookups n t (record { id = t.id; place = place_after t.id result })
      at,
  answer-cares id t.id result,
  member-append (forgotten t.id result) w.undescribed id,
)

turn-cares :
    (tick : Tick) (loop : BatchLoop) (id : String)
    → (member (turn tick loop).0.instance_id_list id
        || any (batch_cares id) (started (turn tick loop).1))
      ≡ member (receive loop.instance_id_list tick.received) id
unfolding turn
turn-cares tick loop id = ground arith

member-receive :
    (ids channel : List String) (id : String)
    → (member (receive ids (head channel)) id || member (tail channel) id)
      ≡ (member ids id || member channel id)
member-receive ids [] id = ground arith
member-receive ids (x ∷ channel) id = ground (arith, member-append ids (x ∷ []) id)

turn_loop-IsCared :
    (end_time restart_time : ℕ) (w : World)
    → IsCared w
    → IsCared (turn_loop end_time restart_time w)
unfolding turn_loop is_cared
turn_loop-IsCared end_time restart_time w cared id h =
    let tick : Tick = record {
      received = head w.channel;
      end_time = end_time;
      restart_time = restart_time;
    } in
    ground (
      arith,
      cared id h,
      turn-cares tick w.loop id,
      member-receive w.loop.instance_id_list w.channel id,
      any-append (batch_cares id) w.batches (started (turn tick w.loop).1),
    )

answered-cares :
    (id : String) (b : Batch) (result : Result String Output)
    → (if batch_cares id b then batch_cares id (answered b result) else true) ≡ true
answered-cares id (asks ids) result = batch_writes-cares id ids result
answered-cares id (publishes ws) result = ground arith

answer_batch-IsCared :
    (n : ℕ) (b : Batch) (result : Result String Output) (w : World)
    → get_elem? w.batches n ≡ some b
    → IsCared w
    → IsCared (record w { batches = set w.batches n (answered b result) })
unfolding is_cared
answer_batch-IsCared n b result w at cared id h = ground (
  arith,
  cared id h,
  any-set (batch_cares id) w.batches n b (answered b result) at,
  answered-cares id b result,
)

next_write-cares :
    (id : String) (b : Batch) (p : Provider)
    → is_request_in_flight id (next_write b p).1 ≡ true
    → (is_request_in_flight id p ≡ true)
      × ((if batch_cares id b then batch_cares id (next_write b p).0 else true) ≡ true)
next_write-cares id (asks ids) p h = ground arith
next_write-cares id (publishes []) p h = ground arith
next_write-cares id (publishes (w ∷ ws)) p h = ground (arith, apply_write-in_flight w p id)

write_batch-IsCared :
    (n : ℕ) (b : Batch) (w : World)
    → get_elem? w.batches n ≡ some b
    → IsCared w
    → IsCared (write_batch n b w)
unfolding write_batch is_cared
write_batch-IsCared n b w at cared id h =
    let (was, kept) = next_write-cares id b w.provider h in
    ground (
      arith,
      cared id was,
      kept,
      any-set (batch_cares id) w.batches n b (next_write b w.provider).0 at,
    )

looks_up-IsCared :
    (id : String) (w : World)
    → IsCared w
    → IsCared (record w { lookups = w.lookups ++ (record { id = id; place = reads_cache } ∷ []) })
unfolding is_cared
looks_up-IsCared id w cared other h = ground (
  arith,
  cared other h,
  any-append (lookup_cares other) w.lookups (record { id = id; place = reads_cache } ∷ []),
)

step-IsCared : (e : Event) (w : World) → IsCared w → IsCared (step e w)
unfolding step
step-IsCared (looks_up id) w cared = looks_up-IsCared id w cared
step-IsCared (goes_on n) w cared = elim (Option-cases (get_elem? w.lookups n)) [
  | inl e ↦ rw (e, step) cared
  | inr (t, e) ↦ rw (e, step) (turn_lookup-IsCared n t w e cared)
]
step-IsCared (answers_lookup n result) w cared = elim (Option-cases (get_elem? w.lookups n)) [
  | inl e ↦ rw (e, step) cared
  | inr (t, e) ↦ rw (e, step) (answer_lookup-IsCared n t result w e cared)
]
step-IsCared (loops end_time restart_time) w cared = turn_loop-IsCared end_time restart_time w cared
step-IsCared (answers_batch n result) w cared = elim (Option-cases (get_elem? w.batches n)) [
  | inl e ↦ rw (e, step) cared
  | inr (b, e) ↦ rw (e, step) (answer_batch-IsCared n b result w e cared)
]
step-IsCared (writes n) w cared = elim (Option-cases (get_elem? w.batches n)) [
  | inl e ↦ rw (e, step) cared
  | inr (b, e) ↦ rw (e, step) (write_batch-IsCared n b w e cared)
]

run-IsCared : (es : List Event) (w : World) → IsCared w → IsCared (run es w)
unfolding run
run-IsCared [] w cared = cared
run-IsCared (e ∷ es) w cared = run-IsCared es (step e w) (step-IsCared e w cared)

new_world-IsCared : (now : ℕ) → IsCared (new_world now)
unfolding is_request_in_flight lookup
new_world-IsCared now id h = absurd (ground arith)

-- Whatever lookups, batches and answers of the API come in whatever order, each id whose request is
-- in flight is taken care of: a lookup has marked it and will queue it, ask for it or end its
-- request, or it is in the channel, in the batch loop or in a batch, or it is one of those that the
-- API did not describe to a lookup that asked for it.
pub run_in_flight-is_cared :
    (now : ℕ) (es : List Event) (id : String)
    → is_request_in_flight id (run es (new_world now)).provider ≡ true
    → is_cared id (run es (new_world now)) ≡ true
run_in_flight-is_cared now es id = run-IsCared es (new_world now) (new_world-IsCared now) id
