-- ===== src/Token/Verify/Tests.antt =====
-- Runs of `Verify`, and its theorems at a concrete token.
use iam2kube.Shared.{
  ℕ, ◌*◌, String, ◌<>◌, ◌≡◌, refl, ◌↔◌, none, some, Option, List, [], arith, ◌∷◌, Result, ok, err,
  if◌then◌else◌,
}
use iam2kube.Shared.Int.{pos, negsuc}
use iam2kube.Shared.Text.{has_prefix, trim_prefix, split, to_lower}
use iam2kube.Shared.Assoc.{lookup, insert}
use iam2kube.Arn.{canonicalize}
use iam2kube.Arn.Example.{sdk, parse}
use iam2kube.Token.{Identity, minute}
use iam2kube.Token.Number.{atoi}
use iam2kube.Token.Query.{
  Values, missing_prefix, expired, unexpected_host, lower_params, get, has_signed_cluster_id_header,
  is_whitelisted,
}
use iam2kube.Token.Query.Laws.{HasDistinctKeys}
use iam2kube.Token.Verify.{
  Url, TokenError, format_error, sts_error, bad_status, Parsers, Verifier, bad_expires, parse_token,
  check_url, read_params, check_params, check_token, read_response, split_user_id, identify,
  ask_sts, verify,
}
use iam2kube.Token.Verify.Checks.{Encodes}
use iam2kube.Token.Verify.Accepts.{Verified, verify_iff}
use iam2kube.Token.Verify.Offline.{verify_offline}
use iam2kube.Token.Verify.Order.{with_query, Reorders, verify-Perm}
use mathlib.Core.List.Perm
use text.Mathlib.Text.{◌==◌}

abbrev query : Values
query =
    ("Action", "GetCallerIdentity" ∷ [])
    ∷ ("X-Amz-Credential", "AKIA/20200102/us-east-1" ∷ [])
    ∷ ("X-Amz-Date", "20200102T030405Z" ∷ [])
    ∷ ("X-Amz-Expires", "60" ∷ [])
    ∷ ("X-Amz-SignedHeaders", "host;x-k8s-aws-id" ∷ [])
    ∷ []

-- A library of parsers that knows one URL in full and a few others.
abbrev url_on : String → Url
url_on host = record {
  scheme = "https";
  host = host;
  path = "/";
  raw_query = "q";
  text = "https://" <> (host <> "/?q");
}

abbrev pub parsers : Parsers
parsers = record {
  decode_base64 = λ s. ok s;
  parse_url = λ s. ok (url_on s);
  parse_query = λ s.
      if s == "q"
      then some query
      else if s == "Action=a&action=b"
      then some (("Action", "a" ∷ []) ∷ ("action", "b" ∷ []) ∷ [])
      else none;
  parse_time = λ s. if s == "20200102T030405Z" then ok (1000 * minute) else err "bad date";
  unmarshal = λ s.
      if s == "json"
      then ok (record {
        account = "1";
        arn = "arn:aws:sts::1:assumed-role/Admin/ann";
        user_id = "AROA:ann";
      })
      else err "bad json";
}

abbrev pub answering : ℕ → Verifier
answering status = record {
  send = λ request. ok (record { status_code = status; body = ok "json" });
  cluster_id = "cluster";
  valid_sts_hostnames = "sts.amazonaws.com" ∷ [];
}

abbrev pub ann : Identity
ann = record {
  arn = "arn:aws:sts::1:assumed-role/Admin/ann";
  canonical_arn = "arn:aws:iam::1:role/Admin";
  account_id = "1";
  user_id = "AROA";
  session_name = "ann";
  access_key_id = "AKIA";
}

run : ℕ → ℕ → String → Result TokenError Identity
unfolding verify check_token ask_sts parse_token check_url read_params check_params read_response
    identify split_user_id bad_expires has_prefix trim_prefix lower_params is_whitelisted get
    has_signed_cluster_id_header atoi split to_lower lookup insert canonicalize parse
run status now token = verify sdk parsers (answering status) now token

verify_tests :
    (run 200 (1015 * minute) "k8s-aws-v1.sts.amazonaws.com" ≡ ok ann)
    × (run 200 (1016 * minute) "k8s-aws-v1.sts.amazonaws.com"
        ≡ err (format_error (expired (1000 * minute))))
    × (run 200 (1000 * minute) "k8s-aws-v2.sts.amazonaws.com" ≡ err (format_error missing_prefix))
    × (run 200 (1000 * minute) "k8s-aws-v1.example.com"
        ≡ err (format_error (unexpected_host "example.com")))
    × (run 403 (1000 * minute) "k8s-aws-v1.sts.amazonaws.com"
        ≡ err (sts_error (bad_status 403 "json")))
unfolding run
verify_tests = (refl, refl, refl, refl, refl)

atoi_tests :
    (atoi "60" ≡ some (pos 60))
    × (atoi "+9" ≡ some (pos 9))
    × (atoi "-1" ≡ some (negsuc 0))
    × (atoi "" ≡ none)
    × (atoi "1x" ≡ none)
    × (atoi "9223372036854775808" ≡ none)
unfolding atoi
atoi_tests = (refl, refl, refl, refl, refl, refl)

pub accepted :
    verify sdk parsers (answering 200) (1015 * minute) "k8s-aws-v1.sts.amazonaws.com" ≡ ok ann
unfolding run
accepted = refl

verify_iff_example :
    (verify sdk parsers (answering 200) (1015 * minute) "k8s-aws-v1.sts.amazonaws.com" ≡ ok ann)
    ↔ Verified sdk parsers (answering 200) (1015 * minute) "k8s-aws-v1.sts.amazonaws.com" ann
verify_iff_example =
    verify_iff sdk parsers (answering 200) (1015 * minute) "k8s-aws-v1.sts.amazonaws.com" ann

refused : verify sdk parsers (answering 200) 0 "token" ≡ err (format_error missing_prefix)
unfolding run
refused = refl

verify_offline_example :
    verify sdk parsers (answering 500) 0 "token" ≡ err (format_error missing_prefix)
verify_offline_example =
    verify_offline sdk parsers (answering 200) (answering 500) 0 "token" missing_prefix refl refused

-- Another run meets the first two entries in the other order.
abbrev swapped : Values
swapped =
    ("X-Amz-Credential", "AKIA/20200102/us-east-1" ∷ [])
    ∷ ("Action", "GetCallerIdentity" ∷ [])
    ∷ ("X-Amz-Date", "20200102T030405Z" ∷ [])
    ∷ ("X-Amz-Expires", "60" ∷ [])
    ∷ ("X-Amz-SignedHeaders", "host;x-k8s-aws-id" ∷ [])
    ∷ []

-- What the other run makes of the same queries.
other : String → Option Values
other s =
    if s == "q"
    then some swapped
    else if s == "Action=a&action=b"
    then some (("action", "b" ∷ []) ∷ ("Action", "a" ∷ []) ∷ [])
    else none

swapped-Reorders : Reorders parsers other (url_on "sts.amazonaws.com")
unfolding other to_lower
swapped-Reorders = record {
  values = query;
  parses = refl;
  reordered = swapped;
  parses_other = refl;
  same_entries =
      Perm.swap ("X-Amz-Credential", "AKIA/20200102/us-east-1" ∷ [])
        ("Action", "GetCallerIdentity" ∷ []) _;
  distinct = (refl, (refl, (refl, (refl, (refl, tt)))));
}

encodes : Encodes parsers "k8s-aws-v1.sts.amazonaws.com" (url_on "sts.amazonaws.com")
unfolding has_prefix trim_prefix
encodes = ("sts.amazonaws.com", omega arith, refl, refl, refl)

verify-Perm_example :
    (verify sdk parsers (answering 200) (1015 * minute) "k8s-aws-v1.sts.amazonaws.com" ≡ ok ann) ↔ (
      verify sdk
        (with_query parsers other)
        (answering 200)
        (1015 * minute)
        "k8s-aws-v1.sts.amazonaws.com"
      ≡ ok ann)
verify-Perm_example =
    verify-Perm sdk parsers other (answering 200) (1015 * minute) "k8s-aws-v1.sts.amazonaws.com"
      (url_on "sts.amazonaws.com") ann encodes swapped-Reorders

abbrev short_query : Values
short_query = ("Action", "GetCallerIdentity" ∷ []) ∷ ("X-Amz-Expires", "60" ∷ []) ∷ []

abbrev short_params : List (String × String)
short_params = ("action", "GetCallerIdentity") ∷ ("x-amz-expires", "60") ∷ []

short_lowered : lower_params short_query [] ≡ ok short_params
unfolding run
short_lowered = refl

short_distinct : HasDistinctKeys short_query
unfolding to_lower
short_distinct = (refl, (refl, tt))

-- A query with one key in two spellings: the last in the order of the loop is what is read, and Go
-- leaves that order open.
case_matters :
    (lower_params (("Action", "a" ∷ []) ∷ ("action", "b" ∷ []) ∷ []) [] ≡ ok (("action", "b") ∷ []))
    × (lower_params (("action", "b" ∷ []) ∷ ("Action", "a" ∷ []) ∷ []) []
        ≡ ok (("action", "a") ∷ []))
unfolding run
case_matters = (refl, refl)
