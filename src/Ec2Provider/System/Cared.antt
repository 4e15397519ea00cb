-- ===== src/Ec2Provider/System/Cared.antt =====
-- Who takes care of a request in flight.
use iam2kube.Shared.{
  ℕ, zero, suc, String, ◌≡◌, refl, Bool, true, false, ◌||◌, ◌&&◌, some, List, [], ◌∷◌, ◌++◌, map,
  Result, ok, err, any, member, arith, if◌then◌else◌, str_eq_refl, Bool-cases, inl, inr,
}
use iam2kube.Shared.Assoc.{lookup-insert, lookup-delete}
use iam2kube.Ec2Provider.{
  Provider, Instance, Output, is_request_in_flight, set_request_in_flight, unset_request_in_flight,
  set_private_dns_name_cache,
}
use iam2kube.Ec2Provider.Lookup.{
  Write, caches, unsets, apply_write, Place, reads_cache, reads_flight, marks, counts, sends,
  asks_api, sleeps, settles, returned, go, place_after, output_writes, instance_writes,
}
use iam2kube.Ec2Provider.System.{
  Lookup, Batch, asks, publishes, World, forgotten, batch_writes, publish_output, get_elem?, set,
}
use text.Mathlib.Text.{◌==◌}
use text.Mathlib.TextEquality.{eq_iff}

-- The writes end the request of the id.
abbrev pub unsets_id : String → Write → Bool
unsets_id id (caches _ _) = false
unsets_id id (unsets other) = other == id

abbrev pub ends : String → List Write → Bool
ends id ws = any (unsets_id id) ws

-- A lookup that has marked its id, and will send it, ask for it, or end its request.
abbrev pub place_cares : String → String → Place → Bool
place_cares id own counts = own == id
place_cares id own sends = own == id
place_cares id own asks_api = own == id
place_cares id own (settles ws _) = ends id ws
place_cares id own _ = false

abbrev pub lookup_cares : String → Lookup → Bool
lookup_cares id t = place_cares id t.id t.place

abbrev pub batch_cares : String → Batch → Bool
batch_cares id (asks ids) = member ids id
batch_cares id (publishes ws) = ends id ws

-- A lookup, the channel, the batch loop or a batch takes care of the id, or it was left behind by a
-- lookup whose answer did not describe it.
unfoldable pub is_cared : String → World → Bool
is_cared id w =
    any (lookup_cares id) w.lookups
    || (member w.channel id
        || (member w.loop.instance_id_list id
            || (any (batch_cares id) w.batches || member w.undescribed id)))

module _ {ℓ} {A : Type ℓ} (p : A → Bool) where
  pub any-append : (xs ys : List A) → any p (xs ++ ys) ≡ (any p xs || any p ys)
  any-append [] ys = refl
  any-append (x ∷ xs) ys = ground (arith, any-append xs ys)

  -- Where an element is replaced, the test is passed by some element if it was and the new one
  -- passes it where the old one did, and if the new one passes it.
  pub any-set :
      (xs : List A) (n : ℕ) (x y : A)
      → get_elem? xs n ≡ some x
      → (if any p xs && (if p x then p y else true) || p y then any p (set xs n y) else true) ≡ true
  any-set [] n x y h = absurd (ground arith)
  any-set (z ∷ xs) zero x y h = ground arith
  any-set (z ∷ xs) (suc n) x y h = ground (arith, any-set xs n x y)

pub member-append :
    (xs ys : List String) (id : String) → member (xs ++ ys) id ≡ (member xs id || member ys id)
member-append [] ys id = refl
member-append (x ∷ xs) ys id = ground (arith, member-append xs ys id)

-- One write: an id that is in flight after it was so before, and the write did not end it.
pub apply_write-in_flight :
    (w : Write) (p : Provider) (id : String)
    → is_request_in_flight id (apply_write w p)
      ≡ (if unsets_id id w then false else is_request_in_flight id p)
unfolding apply_write is_request_in_flight unset_request_in_flight set_private_dns_name_cache
apply_write-in_flight (caches _ _) p id = refl
apply_write-in_flight (unsets other) p id = ground (arith, lookup-delete other id p.in_flight)

pub set_request-in_flight :
    (own : String) (p : Provider) (id : String)
    → is_request_in_flight id (set_request_in_flight own p)
      ≡ (if own == id then true else is_request_in_flight id p)
unfolding is_request_in_flight set_request_in_flight
set_request-in_flight own p id = ground (arith, lookup-insert own id true p.in_flight)

-- A turn of a lookup, for an id that is in flight after it: the lookup still takes care of it if it
-- did, or sends it; and if it was not in flight before, the lookup takes care of it now.
pub go-cares :
    (id own : String) (place : Place) (p : Provider)
    → let (next, q, sent) = go own place p in
      is_request_in_flight id q ≡ true
      → ((if place_cares id own place then place_cares id own next || member sent id else true)
          ≡ true)
        × ((is_request_in_flight id p || place_cares id own next) ≡ true)
unfolding go
go-cares id own reads_cache p h = ground arith
go-cares id own reads_flight p h = ground arith
go-cares id own marks p h = ground (arith, set_request-in_flight own p id)
go-cares id own counts p h = ground arith
go-cares id own sends p h = ground arith
go-cares id own asks_api p h = ground arith
go-cares id own (sleeps zero) p h = ground arith
go-cares id own (sleeps (suc n)) p h = ground arith
go-cares id own (settles [] answer) p h = ground arith
go-cares id own (settles (w ∷ ws) answer) p h = ground (arith, apply_write-in_flight w p id)
go-cares id own (returned answer) p h = ground arith

-- No writes, or some that end the request of the id.
abbrev ends_or_none : String → List Write → Bool
ends_or_none id [] = true
ends_or_none id (w ∷ ws) = ends id (w ∷ ws)

ends_or_none-append :
    (id : String) (xs ys : List Write)
    → ends_or_none id xs ≡ true
    → ends_or_none id ys ≡ true
    → ends_or_none id (xs ++ ys) ≡ true
ends_or_none-append id [] ys h k = k
ends_or_none-append id (x ∷ xs) ys h k = ground (arith, any-append (unsets_id id) xs ys)

instance_writes-ends :
    (id : String) (is : List Instance) → ends_or_none id (instance_writes id is) ≡ true
unfolding instance_writes
instance_writes-ends id [] = refl
instance_writes-ends id (i ∷ is) = elim (Bool-cases (i.instance_id == id)) [
  | inl e ↦ rw e (rw (str_eq_refl id) refl)
  | inr e ↦ rw e (instance_writes-ends id is)
]

output_writes-ends :
    (id : String) (output : Output) → ends_or_none id (output_writes id output) ≡ true
unfolding output_writes
output_writes-ends id [] = refl
output_writes-ends id (is ∷ output) =
    ends_or_none-append id (instance_writes id is) (output_writes id output)
      (instance_writes-ends id is) (output_writes-ends id output)

-- An id that the API was to answer and did not describe is left behind; any other answer leaves the
-- lookup to end its request.
pub answer-cares :
    (id own : String) (result : Result String Output)
    → (if own == id
        then place_cares id own (place_after own result) || member (forgotten own result) id
        else true)
      ≡ true
unfolding place_after
answer-cares id own (err e) = ground (arith, eq_iff own id)
answer-cares id own (ok output) = ground (arith, eq_iff own id, output_writes-ends own output)

ends-map_unsets : (id : String) (ids : List String) → ends id (map unsets ids) ≡ member ids id
ends-map_unsets id [] = refl
ends-map_unsets id (x ∷ ids) = ground (arith, ends-map_unsets id ids)

-- A batch that has its answer ends the request of each of its ids.
pub batch_writes-cares :
    (id : String) (ids : List String) (result : Result String Output)
    → (if member ids id then ends id (batch_writes ids result) else true) ≡ true
unfolding batch_writes
batch_writes-cares id ids (err e) = ground (arith, ends-map_unsets id ids)
batch_writes-cares id ids (ok output) = ground (
  arith,
  ends-map_unsets id ids,
  any-append (unsets_id id) (publish_output output) (map unsets ids),
)
