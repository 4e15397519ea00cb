-- ===== src/Ec2Provider/Lookup/Ends.antt =====
-- A lookup comes to an end of its own in a bounded number of turns.
use iam2kube.Shared.{
  ℕ, zero, suc, ◌+◌, ◌≤◌, ◌<◌, String, ◌≡◌, refl, Bool, true, false, ◌||◌, List, [], ◌∷◌, length,
  arith, inl, inr, ◌⊎◌,
}
use iam2kube.Ec2Provider.{Provider}
use iam2kube.Ec2Provider.Lookup.{
  Place, reads_cache, reads_flight, marks, counts, sends, asks_api, sleeps, settles, returned, go,
}

-- It has returned, or waits for the API, or has an id to queue, after which it starts anew.
abbrev pub is_resting : Place → Bool
is_resting (returned _) = true
is_resting asks_api = true
is_resting sends = true
is_resting _ = false

-- The turns that are left at most.
abbrev pub turns_left : Place → ℕ
turns_left reads_cache = 103
turns_left reads_flight = 102
turns_left marks = 2
turns_left counts = 1
turns_left sends = 0
turns_left asks_api = 0
turns_left (sleeps n) = n + 1
turns_left (settles ws _) = length ws + 1
turns_left (returned _) = 0

-- Whether a lookup comes to rest in its turns, for the maps that it meets at each.
unfoldable pub comes_to_rest : String → Place → List Provider → Bool
comes_to_rest id place [] = is_resting place
comes_to_rest id place (p ∷ ps) = is_resting place || comes_to_rest id (go id place p).0 ps

turns_left-go :
    (id : String) (place : Place) (p : Provider)
    → (is_resting place ≡ true) ⊎ (turns_left (go id place p).0 < turns_left place)
unfolding go
turns_left-go id reads_cache p = inr (ground arith)
turns_left-go id reads_flight p = inr (ground arith)
turns_left-go id marks p = inr (ground arith)
turns_left-go id counts p = inr (ground arith)
turns_left-go id sends p = inl refl
turns_left-go id asks_api p = inl refl
turns_left-go id (sleeps zero) p = inr (ground arith)
turns_left-go id (sleeps (suc n)) p = inr (ground arith)
turns_left-go id (settles [] answer) p = inr (ground arith)
turns_left-go id (settles (w ∷ ws) answer) p = inr (ground arith)
turns_left-go id (returned answer) p = inl refl

rests_at_zero : (place : Place) → turns_left place ≤ 0 → is_resting place ≡ true
rests_at_zero sends _ = refl
rests_at_zero asks_api _ = refl
rests_at_zero (returned _) _ = refl
rests_at_zero reads_cache h = absurd (ground arith)
rests_at_zero reads_flight h = absurd (ground arith)
rests_at_zero marks h = absurd (ground arith)
rests_at_zero counts h = absurd (ground arith)
rests_at_zero (sleeps n) h = absurd (ground arith)
rests_at_zero (settles ws _) h = absurd (ground arith)

-- Whatever the maps hold at each of its turns, a lookup returns, asks the API or queues its id within
-- 103 turns of its start, within n + 1 turns of a wait loop that has n turns left, and within one turn
-- more than the writes that it has to do.
pub comes_to_rest_within :
    (id : String) (place : Place) (ps : List Provider)
    → turns_left place ≤ length ps
    → comes_to_rest id place ps ≡ true
unfolding comes_to_rest
comes_to_rest_within id place [] enough = rests_at_zero place enough
comes_to_rest_within id place (p ∷ ps) enough = elim (turns_left-go id place p) [
  | inl e ↦ rw e refl
  | inr less ↦ ground (arith, comes_to_rest_within id (go id place p).0 ps (omega arith))
]
