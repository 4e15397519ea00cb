-- ===== src/Token/Verify/Order.antt =====
-- Go's order of the query does not matter to `Verify`.
use iam2kube.Shared.{ℕ, String, ◌≡◌, ◌↔◌, [], refl, sym, ap, ◌∙◌, Option, some, List, ok, arith}
use mathlib.Core.List.{Perm}
use mathlib.Core.List.Perm
use mathlib.Core.Option.{some-injective}
use iam2kube.Shared.Text.{split}
use iam2kube.Shared.Assoc.{lookup}
use iam2kube.Arn.{slash, first_part}
use iam2kube.Arn.Format.{Sdk}
use iam2kube.Token.{Identity}
use iam2kube.Token.Query.{Values, get, lower_params, has_signed_cluster_id_header}
use iam2kube.Token.Query.Laws.{HasDistinctKeys}
use iam2kube.Token.Query.Order.{lower_params-Perm, HasDistinctKeys-Perm}
use iam2kube.Token.Verify.{Url, Parsers, Verifier, verify}
use iam2kube.Token.Verify.Checks.{Encodes, IsFresh, parse_token_complete}
use iam2kube.Token.Verify.Accepts.{verify_iff}

-- The parsers of another run, which meets the queries in another order.
abbrev pub with_query : Parsers → (String → Option Values) → Parsers
with_query p other = record p { parse_query = other }

-- The other run reads the query of this URL as the same entries, in whatever order; no two of its
-- keys differ by case alone.
pub record Reorders (p : Parsers) (other : String → Option Values) (u : Url) : Type 0 where
  pub values : Values
  pub parses : p.parse_query u.raw_query ≡ some values
  pub reordered : Values
  pub parses_other : other u.raw_query ≡ some reordered
  pub same_entries : Perm values reordered
  pub distinct : HasDistinctKeys values

pub get-same :
    (params params' : List (String × String))
    → ((key : String) → lookup key params' ≡ lookup key params)
    → (key : String) → get params' key ≡ get params key
unfolding get
get-same params params' same key = rw (same key, get) refl

pub IsFresh-same :
    (p : Parsers) (now : ℕ) (params params' : List (String × String))
    → ((key : String) → get params' key ≡ get params key)
    → IsFresh p now params
    → IsFresh p now params'
unfolding has_signed_cluster_id_header
IsFresh-same p now params params' same h =
    rw (same "action", same "x-amz-signedheaders", same "x-amz-expires", same "x-amz-date") h

-- A token has one URL.
Encodes-unique :
    (p : Parsers) (token : String) (u w : Url) → Encodes p token u → Encodes p token w → u ≡ w
Encodes-unique p token u w h k =
    ground (arith, parse_token_complete p token u h, parse_token_complete p token w k)

-- One half: what is accepted in one order is accepted in the other.
verify-Perm_half :
    (sdk : Sdk) (p : Parsers) (other : String → Option Values) (v : Verifier) (now : ℕ)
    (token : String) (u : Url) (id : Identity)
    → Encodes p token u
    → Reorders p other u
    → verify sdk p v now token ≡ ok id
    → verify sdk (with_query p other) v now token ≡ ok id
verify-Perm_half sdk p other v now token u id encodes order h =
    let verified = (verify_iff sdk p v now token id).0 h in
    let passes = verified.passes in
    let same_url = Encodes-unique p token verified.checked.url u passes.encodes encodes in
    let (values, parsed, lowered) = passes.queries in
    let same_values : values ≡ order.values =
      some-injective _ _
        (sym parsed ∙ ap (λ (w : Url). p.parse_query w.raw_query) same_url ∙ order.parses) in
    let (params, lowered', same) =
      lower_params-Perm order.values order.reordered passes.params order.same_entries order.distinct
        (ap (λ vs. lower_params vs []) (sym same_values) ∙ lowered) in
    let gets = get-same passes.params params same in
    (verify_iff sdk (with_query p other) v now token id).1 (record {
      checked = verified.checked;
      passes = record {
        params = params;
        encodes = passes.encodes;
        scheme = passes.scheme;
        host = passes.host;
        path = passes.path;
        queries = (
          order.reordered,
          ap (λ (w : Url). other w.raw_query) same_url ∙ order.parses_other,
          lowered',
        );
        fresh = IsFresh-same p now passes.params params gets passes.fresh;
        access_key_id =
            passes.access_key_id
            ∙ ap (λ s. first_part (split s slash)) (sym (gets "x-amz-credential"));
      };
      caller = verified.caller;
      answers = verified.answers;
      identifies = verified.identifies;
    })

-- The same two orders, the other way round.
turned :
    (p : Parsers) (other : String → Option Values) (u : Url)
    → Reorders p other u
    → Reorders (with_query p other) p.parse_query u
turned p other u order = record {
  values = order.reordered;
  parses = order.parses_other;
  reordered = order.values;
  parses_other = order.parses;
  same_entries = Perm.symm order.same_entries;
  distinct = HasDistinctKeys-Perm order.values order.reordered order.same_entries order.distinct;
}

-- Two runs that meet the query of a token's URL in two orders verify the token alike: for an
-- identity, the one accepts the token for it if and only if the other does. No two keys of that
-- query differ by case alone; of other queries nothing is asked.
pub verify-Perm :
    (sdk : Sdk) (p : Parsers) (other : String → Option Values) (v : Verifier) (now : ℕ)
    (token : String) (u : Url) (id : Identity)
    → Encodes p token u
    → Reorders p other u
    → (verify sdk p v now token ≡ ok id) ↔ (verify sdk (with_query p other) v now token ≡ ok id)
verify-Perm sdk p other v now token u id encodes order = (
  verify-Perm_half sdk p other v now token u id encodes order,
  verify-Perm_half sdk (with_query p other) p.parse_query v now token u id encodes
      (turned p other u order),
)
