-- ===== src/Token/Verify/Offline.antt =====
-- Which errors `Verify` returns, and what they depend on.
use iam2kube.Shared.{
  ℕ, String, ◌<>◌, ◌≡◌, refl, ap, sym, ◌∙◌, ◌↔◌, ◌⊎◌, inl, inr, List, [], ◌∷◌, Result, ok, err,
  arith, Result-cases, All,
}
use mathlib.Core.Path.{subst, ap₂}
use iam2kube.Shared.Text.{split, join}
use iam2kube.Shared.Text.Split.{Free, split_of_Free, split-append, split-Free, join-split}
use iam2kube.Arn.Format.{Sdk, colon}
use iam2kube.Token.Query.{FormatProblem}
use iam2kube.Token.Verify.{
  StsProblem, malformed_user_id, format_error, sts_error, Parsers, Verifier, Checked, check_token,
  ask_sts, verify, split_user_id,
}
use text.Mathlib.TextLemmas.{nil-append, cons-append}

module _ (sdk : Sdk) (p : Parsers) (v : Verifier) (now : ℕ) (token : String) where
  -- A token is malformed exactly when one of the checks that precede the request fails.
  verify-format_iff :
      (e : FormatProblem)
      → (verify sdk p v now token ≡ err (format_error e))
        ↔ (check_token p v.valid_sts_hostnames now token ≡ err e)
  unfolding verify
  verify-format_iff e = (λ h. ground arith, λ h. ground arith)

  -- An STS error arises only for a token that passes the checks, from the answer to its request.
  verify-sts_iff :
      (e : StsProblem)
      → (verify sdk p v now token ≡ err (sts_error e)) ↔ (
          (checked : Checked) × (check_token p v.valid_sts_hostnames now token ≡ ok checked)
          × (ask_sts sdk p v checked ≡ err e))
  unfolding verify
  verify-sts_iff e = (to, from)
    where
      to :
          verify sdk p v now token ≡ err (sts_error e)
          → (checked : Checked) × (check_token p v.valid_sts_hostnames now token ≡ ok checked)
            × (ask_sts sdk p v checked ≡ err e)
      to h = elim (Result-cases (check_token p v.valid_sts_hostnames now token)) [
        | inr (_, c) ↦ absurd (ground arith)
        | inl (checked, c) ↦ (checked, c, ground arith)
      ]

      from :
          (checked : Checked) × (check_token p v.valid_sts_hostnames now token ≡ ok checked)
            × (ask_sts sdk p v checked ≡ err e)
          → verify sdk p v now token ≡ err (sts_error e)
      from (checked, c, a) = ground arith

-- Whether a token is malformed, and how, does not depend on the HTTP client or the cluster id.
pub verify_offline :
    (sdk : Sdk) (p : Parsers) (v w : Verifier) (now : ℕ) (token : String) (e : FormatProblem)
    → v.valid_sts_hostnames ≡ w.valid_sts_hostnames
    → verify sdk p v now token ≡ err (format_error e)
    → verify sdk p w now token ≡ err (format_error e)
verify_offline sdk p v w now token e same h = (verify-format_iff sdk p w now token e).1 (
    ap (λ hosts. check_token p hosts now token) (sym same)
    ∙ (verify-format_iff sdk p v now token e).0 h)

-- A user id is taken as it is where it holds no colon, and at its colon where it holds one.
split_user_id_complete :
    (t u s : String)
    → Free colon u
    → Free colon s
    → ((t ≡ u) × (s ≡ "")) ⊎ (t ≡ u <> (":" <> s))
    → split_user_id t ≡ ok (u, s)
unfolding split_user_id
split_user_id_complete t u s fu fs (inl (e, e')) =
    rw (e, e') (rw (split_of_Free u colon fu, split_user_id))
split_user_id_complete t u s fu fs (inr e) = rw e (
    rw (colon-append s, split_user_id)
      (rw (split-append u s colon fu ∙ ap (λ r. u ∷ r) (split_of_Free s colon fs), split_user_id)))
  where
    colon-append : (r : String) → ":" <> r ≡ String.◌∷◌ colon r
    colon-append r = cons-append ":" "" r ∙ ap (λ q. String.◌∷◌ ":" q) (nil-append r)

-- The parts of a user id, joined by colons again.
abbrev Parts : List String → String → Type 0
Parts parts t = (join parts ":" ≡ t) × All (Free colon) parts

abbrev pub Halves : String → String → String → Type 0
Halves t u s = Free colon u × Free colon s × (((t ≡ u) × (s ≡ "")) ⊎ (t ≡ u <> (":" <> s)))

user_id_of : String → List String → Result StsProblem (String × String)
user_id_of t (u ∷ []) = ok (u, "")
user_id_of t (u ∷ s ∷ []) = ok (u, s)
user_id_of t _ = err (malformed_user_id t)

user_id_of_sound :
    (t u s : String) (parts : List String)
    → Parts parts t
    → user_id_of t parts ≡ ok (u, s)
    → Halves t u s
unfolding user_id_of join
user_id_of_sound t u s [] h e = absurd (ground arith)
user_id_of_sound t u s (x ∷ []) (j, f) e =
    let e_u : x ≡ u = ground arith in
    let e_s : "" ≡ s = ground arith in
    (subst (Free colon) e_u f.0, subst (Free colon) e_s tt, inl (sym j ∙ e_u, sym e_s))
user_id_of_sound t u s (x ∷ y ∷ []) (j, f) e =
    let e_u : x ≡ u = ground arith in
    let e_s : y ≡ s = ground arith in
    (
      subst (Free colon) e_u f.0,
      subst (Free colon) e_s f.1.0,
      inr (sym j ∙ ap₂ (λ (a b : String). a <> (":" <> b)) e_u e_s),
    )
user_id_of_sound t u s (x ∷ y ∷ z ∷ xs) h e = absurd (ground arith)

split_user_id-user_id_of :
    (t : String) (parts : List String)
    → split t colon ≡ parts
    → split_user_id t ≡ user_id_of t parts
unfolding split_user_id user_id_of
split_user_id-user_id_of t [] e = rw (e, split_user_id)
split_user_id-user_id_of t (x ∷ []) e = rw (e, split_user_id)
split_user_id-user_id_of t (x ∷ y ∷ []) e = rw (e, split_user_id)
split_user_id-user_id_of t (x ∷ y ∷ z ∷ xs) e = rw (e, split_user_id)

-- A user id is accepted exactly when it holds at most one colon: the user id stands before it and
-- the session name after it; with no colon the session name is empty.
pub split_user_id_iff : (t u s : String) → (split_user_id t ≡ ok (u, s)) ↔ Halves t u s
split_user_id_iff t u s = (
  λ h.
      user_id_of_sound t u s (split t colon) (join-split t colon, split-Free t colon)
        (sym (split_user_id-user_id_of t (split t colon) refl) ∙ h),
  λ (fu, fs, shape). split_user_id_complete t u s fu fs shape,
)
