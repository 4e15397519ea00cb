-- ===== src/Token/Query.antt =====
-- pkg/token/token.go: the query parameters of a pre-signed URL, checked and put in lower case.
-- `url.Values` is a list of keys, each with its values, in the order in which a run ranges over
-- the map; Go leaves that order open.
pub mod Laws
pub mod Order
use Prim.Native.Char.{Char}
use iam2kube.Shared.{
  ℕ, String, ◌≡◌, Bool, true, false, Option, none, some, List, [], ◌∷◌, Result, ok, err, ◌>>=◌,
  if◌then◌else◌, member, any,
}
use iam2kube.Shared.Text.{to_lower, split}
use iam2kube.Shared.Assoc.{lookup, insert}
use iam2kube.Token.{parameter_whitelist, cluster_id_header}
use text.Mathlib.Text.{◌==◌}

-- `url.Values`
abbrev pub Values : Type 0
Values = List (String × List String)

-- Why a token is not properly formatted: one constructor for each message of a `FormatError`.
pub data FormatProblem : Type 0 where
  too_large missing_prefix : FormatProblem
  bad_base64 bad_url : String → FormatProblem
  unexpected_scheme unexpected_host : String → FormatProblem
  unexpected_path malformed_query : FormatProblem
  not_whitelisted : String → FormatProblem
  multiple_values unexpected_action cluster_id_not_signed invalid_expires missing_date :
      FormatProblem
  bad_date : String → String → FormatProblem
  expired : ℕ → FormatProblem

-- `parameterWhitelist[strings.ToLower(key)]`
unfoldable pub is_whitelisted : String → Bool
unfolding to_lower
is_whitelisted key = member parameter_whitelist (to_lower key)

-- The loop of `Verify` over the parsed query: keys in lower case, each with its one value. A later
-- key that differs only in case replaces the value of an earlier one.
unfoldable pub lower_params :
    Values → List (String × String) → Result FormatProblem (List (String × String))
lower_params [] lowered = ok lowered
lower_params ((key, value ∷ []) ∷ rest) lowered =
    let next = lower_params rest (insert (to_lower key) value lowered) in
    if is_whitelisted key then next else err (not_whitelisted key)
lower_params ((key, _) ∷ rest) lowered =
    if is_whitelisted key then err multiple_values else err (not_whitelisted key)

-- `queryParamsLower.Get(key)`: the empty text where the key is absent.
unfoldable pub get : List (String × String) → String → String
get params key = elim (lookup key params) [ none ↦ "" | some value ↦ value ]

abbrev pub semicolon : Char
semicolon = ";"

-- `hasSignedClusterIDHeader`
unfoldable pub has_signed_cluster_id_header : List (String × String) → Bool
has_signed_cluster_id_header params =
    any (λ hdr. to_lower hdr == to_lower cluster_id_header)
      (split (get params "x-amz-signedheaders") semicolon)
