-- ===== src/Server/Serve.antt =====
-- pkg/server/server.go: what a server that was made answers, and `Run`. The multiplexer matches a
-- path that it has cleaned; the page of the metrics is the Prometheus client's, a parameter over the
-- labels observed so far. Durations are left out. Requests are taken in the order in which they
-- observe their label.
pub mod Laws
mod Tests
use iam2kube.Shared.{ℕ, String, none, some, List, [], ◌∷◌, map, Result}
use iam2kube.Shared.Assoc.{lookup}
use iam2kube.Arn.Format.{Sdk}
use iam2kube.Config.Files.{Failure, exits}
use iam2kube.Mapper.{Mapper}
use iam2kube.Token.Verify.{Parsers, verify}
use iam2kube.Server.Authenticate.{Metric, Outcome, HttpRequest, Handler, authenticate_endpoint}
use iam2kube.Server.Start.{Endpoint, authenticate, metrics, healthz, ServerHandler, Server}

-- What a request finds: the clock, the names that the EC2 provider gives during it, and each backend
-- as it answers by then.
pub record Moment : Type 0 where
  pub now : ℕ
  pub private_dns_name : String → Result String String
  pub current : Mapper → Mapper

pub record WebRequest : Type 0 where
  pub path : String
  pub http : HttpRequest

-- The answer of the webhook, or a status with a text.
pub data Reply : Type 0 where
  reviews : Outcome → Reply
  plain : ℕ → String → Reply

-- `ServeHTTP` of `healthzHandler`, which listens on a port of its own and looks at no request.
abbrev pub healthz_handler : Reply
healthz_handler = plain 200 "ok"

module _ (sdk : Sdk) (parsers : Parsers) (decode : String → Result String String)
    (page : List Metric → String) where
  -- The webhook of a handler at a moment
  abbrev pub webhook : ServerHandler → Moment → Handler
  webhook h moment = record {
    decode = decode;
    verify = verify sdk parsers h.verifier moment.now;
    private_dns_name = moment.private_dns_name;
    mappers = map moment.current h.mappers;
    scrubbed_accounts = h.scrubbed_accounts;
  }

  -- What an endpoint answers, and the labels after it.
  unfoldable pub answer_endpoint :
      ServerHandler → Moment → HttpRequest → List Metric → Endpoint → Reply × List Metric
  answer_endpoint h moment req observed authenticate =
      let outcome = authenticate_endpoint (webhook h moment) req in
      (reviews outcome, outcome.metric ∷ observed)
  answer_endpoint h moment req observed metrics = (plain 200 (page observed), observed)
  answer_endpoint h moment req observed healthz = (plain 200 "ok", observed)

  unfoldable pub serve : ServerHandler → Moment → WebRequest → List Metric → Reply × List Metric
  unfolding answer_endpoint
  serve h moment req observed = elim (lookup req.path h.routes) [
    | none ↦ (plain 404 "404 page not found\n", observed)
    | some endpoint ↦ answer_endpoint h moment req.http observed endpoint
  ]

  unfoldable pub serve_all :
      ServerHandler → List (Moment × WebRequest) → List Metric → List Reply × List Metric
  serve_all h [] observed = ([], observed)
  serve_all h ((moment, req) ∷ reqs) observed =
      let (reply, after) = serve h moment req observed in
      let (replies, last) = serve_all h reqs after in (reply ∷ replies, last)

  -- `Run`: the replies until the listener fails with an error, which ends the process. The channel
  -- that it is given is not read.
  unfoldable pub run_server : Server → List (Moment × WebRequest) → String → List Reply × Failure
  unfolding serve_all
  run_server s reqs error = ((serve_all s.handler reqs []).0, exits error)
