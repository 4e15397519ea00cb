-- ===== src/Token/Verify.antt =====
-- pkg/token/token.go: `Verify`. Base64, URL and date parsing, the HTTP client and the JSON decoder
-- are a parameter; the checks, their order and the identity are the code's.
pub mod Checks
pub mod Accepts
pub mod Offline
pub mod Order
pub mod Tests
use iam2kube.Shared.{
  ℕ, ◌+◌, ◌≤◌, String, ◌<>◌, len, ◌≡◌, ◌≢◌, Bool, true, false, not, ◌||◌, Option, none, some, List,
  [], ◌∷◌, Result, ok, err, ◌>>=◌, ◌>>◌, refuse, map_err, if◌then◌else◌, member, ltb, leb, nat_eq,
}
use iam2kube.Shared.Int.{ℤ, pos, negsuc}
use iam2kube.Shared.Text.{split, has_prefix, trim_prefix}
use iam2kube.Arn.{ArnError, canonicalize, slash, first_part}
use iam2kube.Arn.Format.{Sdk, colon}
use iam2kube.Token.{
  Identity, presigned_url_expiration, v1_prefix, max_token_len_bytes, cluster_id_header,
}
use iam2kube.Token.Number.{atoi}
use iam2kube.Token.Query.{
  Values, FormatProblem, too_large, missing_prefix, bad_base64, bad_url, unexpected_scheme,
  unexpected_host, unexpected_path, malformed_query, unexpected_action, cluster_id_not_signed,
  invalid_expires, missing_date, bad_date, expired, lower_params, get, has_signed_cluster_id_header,
}
use text.Mathlib.Text.{◌==◌}

-- The fields of a `url.URL` that `Verify` reads, and its `String()`.
pub record Url : Type 0 where
  pub scheme : String
  pub host : String
  pub path : String
  pub raw_query : String
  pub text : String

-- `http.NewRequest("GET", …)` with its headers.
pub record Request : Type 0 where
  pub method : String
  pub url : String
  pub headers : List (String × String)

-- The status, and the body or the error of reading it.
pub record Response : Type 0 where
  pub status_code : ℕ
  pub body : Result String String

-- `getCallerIdentityWrapper`
pub record CallerIdentity : Type 0 where
  pub account : String
  pub arn : String
  pub user_id : String

-- Problems with the answer of STS, one constructor for each message of an `STSError`.
pub data StsProblem : Type 0 where
  get_failed read_failed : String → StsProblem
  bad_status : ℕ → String → StsProblem
  bad_json : String → StsProblem
  bad_arn : ArnError → StsProblem
  malformed_user_id : String → StsProblem

pub data TokenError : Type 0 where
  format_error : FormatProblem → TokenError
  sts_error : StsProblem → TokenError

-- The parsers of Go's libraries. Times are nanoseconds since the year 0.
pub record Parsers : Type 0 where
  pub decode_base64 : String → Result String String
  pub parse_url : String → Result String Url
  pub parse_query : String → Option Values
  pub parse_time : String → Result String ℕ
  pub unmarshal : String → Result String CallerIdentity

-- `tokenVerifier`; its HTTP client is `send`.
pub record Verifier : Type 0 where
  pub send : Request → Result String Response
  pub cluster_id : String
  pub valid_sts_hostnames : List String

-- What the checks of a token leave for the request.
pub record Checked : Type 0 where
  pub url : Url
  pub access_key_id : String

-- `err != nil || expires < 0 || expires > 900`
pub bad_expires : Option ℤ → Bool
bad_expires none = true
bad_expires (some (negsuc _)) = true
bad_expires (some (pos n)) = ltb 900 n

-- The request with its two headers
abbrev pub request_for : String → Url → Request
request_for cluster_id url = record {
  method = "GET";
  url = url.text;
  headers = (cluster_id_header, cluster_id) ∷ ("accept", "application/json") ∷ [];
}

module _ (p : Parsers) where
  -- The token is taken apart into its URL.
  pub parse_token : String → Result FormatProblem Url
  parse_token token = do
    refuse (ltb max_token_len_bytes (len token)) too_large
    refuse (not (has_prefix token v1_prefix)) missing_prefix
    bytes ← map_err bad_base64 (p.decode_base64 (trim_prefix token v1_prefix))
    map_err bad_url (p.parse_url bytes)

  -- Scheme, host and path
  pub check_url : List String → Url → Result FormatProblem (Unit {0})
  check_url hosts url = do
    refuse (not (url.scheme == "https")) (unexpected_scheme url.scheme)
    refuse (not (member hosts url.host)) (unexpected_host url.host)
    refuse (not (url.path == "/")) unexpected_path

  -- `url.ParseQuery`, and the loop over its values
  pub read_params : Url → Result FormatProblem (List (String × String))
  read_params url = elim (p.parse_query url.raw_query) [
    | none ↦ err malformed_query
    | some values ↦ lower_params values []
  ]

  -- Action, signed headers, expiry and date
  pub check_params : ℕ → List (String × String) → Result FormatProblem (Unit {0})
  check_params now params = do
    refuse (not (get params "action" == "GetCallerIdentity")) unexpected_action
    refuse (not (has_signed_cluster_id_header params)) cluster_id_not_signed
    refuse (bad_expires (atoi (get params "x-amz-expires"))) invalid_expires
    refuse (get params "x-amz-date" == "") missing_date
    date ← map_err (bad_date (get params "x-amz-date")) (p.parse_time (get params "x-amz-date"))
    refuse (ltb (date + presigned_url_expiration) now) (expired date)

  -- All that `Verify` does before it sends its request.
  pub check_token : List String → ℕ → String → Result FormatProblem Checked
  check_token hosts now token = do
    url ← parse_token token
    check_url hosts url
    params ← read_params url
    check_params now params
    ok (record {
      url = url;
      access_key_id = first_part (split (get params "x-amz-credential") slash);
    })

  -- Status and body of the answer
  pub read_response : Response → Result StsProblem CallerIdentity
  read_response response = do
    body ← map_err read_failed response.body
    refuse (not (nat_eq response.status_code 200)) (bad_status response.status_code body)
    map_err bad_json (p.unmarshal body)

-- `UserID:SessionName`, or `UserID` alone
pub split_user_id : String → Result StsProblem (String × String)
split_user_id user_id = elim (split user_id colon) [
  | u ∷ [] ↦ ok (u, "")
  | u ∷ s ∷ [] ↦ ok (u, s)
  | _ ↦ err (malformed_user_id user_id)
]

-- The answer of STS, as an identity
pub identify : Sdk → String → CallerIdentity → Result StsProblem Identity
identify sdk access_key_id caller = do
  canonical ← map_err bad_arn (canonicalize sdk caller.arn)
  (user_id, session_name) ← split_user_id caller.user_id
  ok (record {
    arn = caller.arn;
    canonical_arn = canonical;
    account_id = caller.account;
    user_id = user_id;
    session_name = session_name;
    access_key_id = access_key_id;
  })

module _ (sdk : Sdk) (p : Parsers) where
  -- All that `Verify` does from its request on.
  pub ask_sts : Verifier → Checked → Result StsProblem Identity
  ask_sts v checked = do
    response ← map_err get_failed (v.send (request_for v.cluster_id checked.url))
    caller ← read_response p response
    identify sdk checked.access_key_id caller

  unfoldable pub verify : Verifier → ℕ → String → Result TokenError Identity
  verify v now token = do
    checked ← map_err format_error (check_token p v.valid_sts_hostnames now token)
    map_err sts_error (ask_sts v checked)
