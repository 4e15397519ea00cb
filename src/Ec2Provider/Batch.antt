-- ===== src/Ec2Provider/Batch.antt =====
-- The loop that gathers ids into batches: nothing is lost, and the size of a batch is bounded.
use iam2kube.Shared.{
  ℕ, ◌+◌, ◌≤◌, ◌≡◌, refl, sym, ap, ◌∙◌, String, true, false, Option, none, some, List, [], ◌∷◌,
  ◌++◌, All, length, arith, Bool-cases, Option-cases, inl, inr,
}
use mathlib.Core.List.{append-nil, append_assoc}
use iam2kube.Ec2Provider.{
  BatchLoop, Tick, receive, is_due, turn, start_ec2_describe_batch_processing,
}

-- All ids of some batches, in order.
pub concat : List (List String) → List String
concat [] = []
concat (b ∷ bs) = b ++ concat bs

-- The ids that the turns received, in order.
pub received_ids : List Tick → List String
received_ids [] = []
received_ids (t ∷ ts) = receive [] t.received ++ received_ids ts

receive-append : (ids : List String) (r : Option String) → receive ids r ≡ ids ++ receive [] r
receive-append ids none = sym (append-nil ids)
receive-append ids (some id) = refl

-- What a turn starts, before what it leaves.
abbrev pub batch_of : Option (List String) → List String
batch_of none = []
batch_of (some ids) = ids

turn-conserves :
    (t : Tick) (loop : BatchLoop)
    → batch_of (turn t loop).1 ++ (turn t loop).0.instance_id_list
      ≡ loop.instance_id_list ++ receive [] t.received
unfolding turn
turn-conserves t loop =
    elim (Bool-cases
      (is_due loop.start_time t.end_time (receive loop.instance_id_list t.received))) [
        | inl e ↦ rw e (append-nil _ ∙ receive-append loop.instance_id_list t.received)
        | inr e ↦ rw e (receive-append loop.instance_id_list t.received)
      ]

concat-step :
    (t : Tick) (ts : List Tick) (loop : BatchLoop)
    → (concat (start_ec2_describe_batch_processing (t ∷ ts) loop).1
        ≡ batch_of (turn t loop).1
          ++ concat (start_ec2_describe_batch_processing ts (turn t loop).0).1)
      × ((start_ec2_describe_batch_processing (t ∷ ts) loop).0
          ≡ (start_ec2_describe_batch_processing ts (turn t loop).0).0)
unfolding start_ec2_describe_batch_processing concat
concat-step t ts loop = elim (Option-cases (turn t loop).1) [
  | inl e ↦ rw (e, start_ec2_describe_batch_processing) (refl, refl)
  | inr (ids, e) ↦ rw (e, start_ec2_describe_batch_processing) (refl, refl)
]

-- Over any number of turns every id that is received goes into exactly one batch or is still
-- waiting, and the order is kept.
pub batch_conserves :
    (ticks : List Tick) (loop : BatchLoop)
    → concat (start_ec2_describe_batch_processing ticks loop).1
        ++ (start_ec2_describe_batch_processing ticks loop).0.instance_id_list
      ≡ loop.instance_id_list ++ received_ids ticks
unfolding start_ec2_describe_batch_processing concat received_ids
batch_conserves [] loop = sym (append-nil loop.instance_id_list)
batch_conserves (t ∷ ts) loop =
    let next = (turn t loop).0 in
    let (batches, last) = concat-step t ts loop in
    ap
      (λ (l : List String).
        l ++ (start_ec2_describe_batch_processing (t ∷ ts) loop).0.instance_id_list)
      batches
    ∙ ap
        (λ (l : BatchLoop).
          (batch_of (turn t loop).1 ++ concat (start_ec2_describe_batch_processing ts next).1)
          ++ l.instance_id_list)
        last
    ∙ append_assoc (batch_of (turn t loop).1)
        (concat (start_ec2_describe_batch_processing ts next).1) _
    ∙ ap (λ l. batch_of (turn t loop).1 ++ l) (batch_conserves ts next)
    ∙ sym (append_assoc (batch_of (turn t loop).1) next.instance_id_list (received_ids ts))
    ∙ ap (λ l. l ++ received_ids ts) (turn-conserves t loop)
    ∙ append_assoc loop.instance_id_list (receive [] t.received) (received_ids ts)

length-append : (xs ys : List String) → length (xs ++ ys) ≡ length xs + length ys
length-append [] ys = omega arith
length-append (x ∷ xs) ys = omega (arith, length-append xs ys)

-- The sizes that a batch may have.
abbrev pub HasBatchSize : List String → Type 0
HasBatchSize ids = (1 ≤ length ids) × (length ids ≤ 101)

receive-size :
    (ids : List String) (r : Option String) → length ids ≤ 100 → length (receive ids r) ≤ 101
receive-size ids none h = omega arith
receive-size ids (some id) h = omega (arith, length-append ids (id ∷ []))

due_size : (a b : ℕ) (ids : List String) → is_due a b ids ≡ true → 1 ≤ length ids
unfolding is_due
due_size a b ids h = ground arith

not_due_size : (a b : ℕ) (ids : List String) → is_due a b ids ≡ false → length ids ≤ 100
unfolding is_due
not_due_size a b ids h = ground arith

-- A batch that is started, if any.
abbrev pub AllSized : Option (List String) → Type 0
AllSized none = Unit
AllSized (some ids) = HasBatchSize ids

turn_sizes :
    (t : Tick) (loop : BatchLoop)
    → length loop.instance_id_list ≤ 100
    → AllSized (turn t loop).1 × (length (turn t loop).0.instance_id_list ≤ 100)
unfolding turn
turn_sizes t loop h =
    elim (Bool-cases
      (is_due loop.start_time t.end_time (receive loop.instance_id_list t.received))) [
        | inl e ↦
            rw e ((due_size _ _ _ e, receive-size loop.instance_id_list t.received h), omega arith)
        | inr e ↦ rw e (tt, not_due_size _ _ _ e)
      ]

sizes_step :
    (loop : BatchLoop) (batches : List (List String)) (batch : Option (List String))
    → AllSized batch
    → All HasBatchSize batches
    → length loop.instance_id_list ≤ 100
    → let all : BatchLoop × List (List String) = elim batch [
      | none ↦ (loop, batches)
      | some ids ↦ (loop, ids ∷ batches)
    ] in
      All HasBatchSize all.1 × (length all.0.instance_id_list ≤ 100)
sizes_step loop batches none _ rest left = (rest, left)
sizes_step loop batches (some ids) sized rest left = ((sized, rest), left)

-- From at most 100 waiting ids on, every batch has 1 to 101 ids, and never more than 100 are left
-- waiting after a turn.
pub batch_sizes :
    (ticks : List Tick) (loop : BatchLoop)
    → length loop.instance_id_list ≤ 100
    → All HasBatchSize (start_ec2_describe_batch_processing ticks loop).1
      × (length (start_ec2_describe_batch_processing ticks loop).0.instance_id_list ≤ 100)
unfolding start_ec2_describe_batch_processing
batch_sizes [] loop h = (tt, h)
batch_sizes (t ∷ ts) loop h =
    let (sized, few) = turn_sizes t loop h in
    let (rest, left) = batch_sizes ts (turn t loop).0 few in
    sizes_step _ _ (turn t loop).1 sized rest left
