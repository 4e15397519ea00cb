-- ===== src/Ec2Provider/System.antt =====
-- pkg/ec2provider/ec2provider.go: the lookups of `GetPrivateDNSName`, the batch loop and the batches
-- that it starts, all running at once. An event is one step of one of them; an event that cannot
-- happen changes nothing. The channel is a queue of at most 8000 ids.
pub mod Cared
pub mod Invariant
pub mod Truth
mod Tests
use iam2kube.Shared.{
  ℕ, zero, suc, String, Bool, true, false, not, ◌&&◌, Option, none, some, List, [], ◌∷◌, ◌++◌, map,
  Result, ok, err, ltb, length, if◌then◌else◌,
}
use iam2kube.Ec2Provider.{Provider, Instance, Output, BatchLoop, Tick, turn}
use iam2kube.Ec2Provider.Lookup.{
  Write, caches, unsets, apply_write, Place, reads_cache, sends, asks_api, go, place_after,
  output_writes,
}

abbrev pub max_channel_size : ℕ
max_channel_size = 8000

-- A call of `GetPrivateDNSName`
pub record Lookup : Type 0 where
  pub id : String
  pub place : Place

-- A call of `getPrivateDnsAndPublishToCache`: it waits for the API, or has these writes to do.
pub data Batch : Type 0 where
  asks : List String → Batch
  publishes : List Write → Batch

-- `undescribed` has the ids of the lookups whose call succeeded without describing the instance; the
-- program has no such record, and nothing reads it.
pub record World : Type 0 where
  pub provider : Provider
  pub channel : List String
  pub loop : BatchLoop
  pub batches : List Batch
  pub lookups : List Lookup
  pub undescribed : List String

pub data Event : Type 0 where
  looks_up : String → Event
  goes_on : ℕ → Event
  answers_lookup : ℕ → Result String Output → Event
  loops : ℕ → ℕ → Event
  answers_batch : ℕ → Result String Output → Event
  writes : ℕ → Event

module _ {ℓ} {A : Type ℓ} where
  abbrev pub get_elem? : List A → ℕ → Option A
  get_elem? [] n = none
  get_elem? (x ∷ xs) zero = some x
  get_elem? (x ∷ xs) (suc n) = get_elem? xs n

  abbrev pub set : List A → ℕ → A → List A
  set [] n y = []
  set (x ∷ xs) zero y = y ∷ xs
  set (x ∷ xs) (suc n) y = x ∷ set xs n y

abbrev pub head : List String → Option String
head [] = none
head (id ∷ ids) = some id

abbrev pub tail : List String → List String
tail [] = []
tail (id ∷ ids) = ids

-- A send to a full channel blocks.
abbrev pub is_blocked : Place → List String → Bool
is_blocked sends channel = not (ltb (length channel) max_channel_size)
is_blocked _ channel = false

abbrev pub is_asking : Place → Bool
is_asking asks_api = true
is_asking _ = false

-- A turn of the n-th lookup, which may be blocked
unfoldable pub move_lookup : ℕ → Lookup → World → World
unfolding go
move_lookup n t w =
    let (place, provider, sent) = go t.id t.place w.provider in
    record w {
      provider = provider;
      channel = w.channel ++ sent;
      lookups = set w.lookups n (record { id = t.id; place = place });
    }

unfoldable pub turn_lookup : ℕ → Lookup → World → World
unfolding move_lookup
turn_lookup n t w =
    let moved = move_lookup n t w in if is_blocked t.place w.channel then w else moved

-- Whether an answer leaves the id of the lookup in flight.
abbrev pub forgotten : String → Result String Output → List String
forgotten id (err _) = []
forgotten id (ok output) = elim (output_writes id output) [ [] ↦ id ∷ [] | _ ∷ _ ↦ [] ]

-- The API answers the n-th lookup.
unfoldable pub answer_lookup : ℕ → Lookup → Result String Output → World → World
unfolding place_after
answer_lookup n t result w =
    if is_asking t.place
    then record w {
      lookups = set w.lookups n (record { id = t.id; place = place_after t.id result });
      undescribed = forgotten t.id result ++ w.undescribed;
    }
    else w

abbrev pub started : Option (List String) → List Batch
started none = []
started (some ids) = asks ids ∷ []

-- A turn of the batch loop, which takes an id of the channel where there is one.
unfoldable pub turn_loop : ℕ → ℕ → World → World
unfolding turn
turn_loop end_time restart_time w =
    let tick : Tick = record {
      received = head w.channel;
      end_time = end_time;
      restart_time = restart_time;
    } in
    let (loop, batch) = turn tick w.loop in
    record w { channel = tail w.channel; loop = loop; batches = w.batches ++ started batch }

-- The writes of a batch
unfoldable pub publish_instances : List Instance → List Write
publish_instances [] = []
publish_instances (i ∷ is) = caches i.instance_id i.private_dns_name ∷ publish_instances is

unfoldable pub publish_output : Output → List Write
publish_output [] = []
publish_output (is ∷ output) = publish_instances is ++ publish_output output

unfoldable pub batch_writes : List String → Result String Output → List Write
unfolding publish_output publish_instances
batch_writes ids (err _) = map unsets ids
batch_writes ids (ok output) = publish_output output ++ map unsets ids

-- The API answers a batch.
abbrev pub answered : Batch → Result String Output → Batch
answered (asks ids) result = publishes (batch_writes ids result)
answered (publishes ws) result = publishes ws

-- A batch does its next write.
abbrev pub next_write : Batch → Provider → Batch × Provider
next_write (asks ids) p = (asks ids, p)
next_write (publishes []) p = (publishes [], p)
next_write (publishes (w ∷ ws)) p = (publishes ws, apply_write w p)

unfoldable pub write_batch : ℕ → Batch → World → World
unfolding apply_write
write_batch n b w =
    let (next, provider) = next_write b w.provider in
    record w { provider = provider; batches = set w.batches n next }

unfoldable pub step : Event → World → World
unfolding turn_lookup answer_lookup turn_loop batch_writes write_batch
step (looks_up id) w = record w {
  lookups = w.lookups ++ (record { id = id; place = reads_cache } ∷ []);
}
step (goes_on n) w = elim (get_elem? w.lookups n) [ none ↦ w | some t ↦ turn_lookup n t w ]
step (answers_lookup n result) w = elim (get_elem? w.lookups n) [
  | none ↦ w
  | some t ↦ answer_lookup n t result w
]
step (loops end_time restart_time) w = turn_loop end_time restart_time w
step (answers_batch n result) w = elim (get_elem? w.batches n) [
  | none ↦ w
  | some b ↦ record w { batches = set w.batches n (answered b result) }
]
step (writes n) w = elim (get_elem? w.batches n) [ none ↦ w | some b ↦ write_batch n b w ]

-- Any sequence of events
unfoldable pub run : List Event → World → World
unfolding step
run [] w = w
run (e ∷ es) w = run es (step e w)

-- A new provider at a time
abbrev pub new_world : ℕ → World
new_world now = record {
  provider = record { private_dns_cache = []; in_flight = [] };
  channel = [];
  loop = record { start_time = now; instance_id_list = [] };
  batches = [];
  lookups = [];
  undescribed = [];
}
