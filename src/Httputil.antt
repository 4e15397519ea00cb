-- ===== src/Httputil.antt =====
-- pkg/httputil/client.go: the rate limited client. Limiters and clients are Go's, so a client is what
-- it is made of, and the wait of a limiter is a parameter.
use iam2kube.Shared.{
  zero, suc, String, Bool, true, false, Option, none, some, Result, ok, err, if◌then◌else◌,
}
use iam2kube.Shared.Int.{ℤ, pos, negsuc}

-- Go's default client, or one whose transport waits for a limiter.
pub data Client : Type 0 where
  default_client : Client
  rate_limited : ℤ → ℤ → Client

abbrev pub is_zero : ℤ → Bool
is_zero (pos zero) = true
is_zero (pos (suc n)) = false
is_zero (negsuc n) = false

-- `n < 1`
abbrev pub is_below_one : ℤ → Bool
is_below_one (pos zero) = true
is_below_one (pos (suc n)) = false
is_below_one (negsuc n) = true

-- `NewRateLimitedClient`; the error quotes the burst.
unfoldable pub new_rate_limited_client : ℤ → ℤ → Result ℤ Client
new_rate_limited_client qps burst =
    if is_zero qps
    then ok default_client
    else if is_below_one burst
    then err burst
    else ok (rate_limited qps burst)

-- `RoundTrip`: a request whose wait fails is not sent.
unfoldable pub round_trip :
    {Request Response : Type 0}
    → (Request → Option String)
    → (Request → Result String Response)
    → Request
    → Result String Response
round_trip wait send request = elim (wait request) [ some e ↦ err e | none ↦ send request ]
