-- ===== src/Token/Verify/Accepts.antt =====
-- What a token must be, and what STS must answer, for `Verify` to return an identity.
use iam2kube.Shared.{ℕ, String, ◌≡◌, ok, arith, ◌↔◌, inl, inr, Result-cases}
use iam2kube.Arn.{canonicalize}
use iam2kube.Arn.Format.{Sdk}
use iam2kube.Token.{Identity}
use iam2kube.Token.Verify.{
  Url, Response, CallerIdentity, Parsers, Verifier, Checked, check_token, request_for,
  read_response, split_user_id, identify, ask_sts, verify,
}
use iam2kube.Token.Verify.Checks.{Passes, check_token_sound, check_token_complete}

module _ (p : Parsers) where
  read_response_iff :
      (response : Response) (caller : CallerIdentity)
      → (read_response p response ≡ ok caller) ↔ (
          (body : String) × (response.body ≡ ok body)
          × (response.status_code ≡ 200)
          × (p.unmarshal body ≡ ok caller))
  unfolding read_response
  read_response_iff response caller = (λ h. ground arith, λ h. ground arith)

  -- What STS answers a request with: status 200 and the identity of the caller.
  abbrev pub Answers : Verifier → Url → CallerIdentity → Type 0
  Answers v url caller =
      (response : Response) × (body : String) × (v.send (request_for v.cluster_id url)
        ≡ ok response)
      × (response.body ≡ ok body)
      × (response.status_code ≡ 200)
      × (p.unmarshal body ≡ ok caller)

-- The identity of a caller: its ARN in canonical form, and its user id in two parts at most.
pub record Identifies (sdk : Sdk) (caller : CallerIdentity) (access_key_id : String) (id : Identity)
    : Type 0 where
  pub arn : id.arn ≡ caller.arn
  pub canonical_arn : canonicalize sdk caller.arn ≡ ok id.canonical_arn
  pub account_id : id.account_id ≡ caller.account
  pub user_id : split_user_id caller.user_id ≡ ok (id.user_id, id.session_name)
  pub access_key : id.access_key_id ≡ access_key_id

identify_iff :
    (sdk : Sdk) (access_key_id : String) (caller : CallerIdentity) (id : Identity)
    → (identify sdk access_key_id caller ≡ ok id) ↔ Identifies sdk caller access_key_id id
unfolding identify
identify_iff sdk access_key_id caller id = (λ h. ground arith, λ h. ground arith)

module _ (sdk : Sdk) (p : Parsers) (v : Verifier) (now : ℕ) (token : String) (id : Identity) where
  -- Everything that stands behind a verified token.
  pub record Verified : Type 0 where
    pub checked : Checked
    pub passes : Passes p v.valid_sts_hostnames now token checked
    pub caller : CallerIdentity
    pub answers : Answers p v checked.url caller
    pub identifies : Identifies sdk caller checked.access_key_id id

  verify_sound : verify sdk p v now token ≡ ok id → Verified
  unfolding verify ask_sts
  verify_sound h = elim (Result-cases (check_token p v.valid_sts_hostnames now token)) [
    | inr (_, e) ↦ absurd (ground arith)
    | inl (checked, e) ↦ elim (Result-cases (v.send (request_for v.cluster_id checked.url))) [
      | inr (_, e1) ↦ absurd (ground arith)
      | inl (response, e1) ↦ elim (Result-cases (read_response p response)) [
        | inr (_, e2) ↦ absurd (ground arith)
        | inl (caller, e2) ↦
            let (body, b, status, u) = (read_response_iff p response caller).0 e2 in
            record {
              checked = checked;
              passes = check_token_sound p v.valid_sts_hostnames now token checked e;
              caller = caller;
              answers = (response, body, e1, b, status, u);
              identifies = (identify_iff sdk checked.access_key_id caller id).0 (ground arith);
            }
      ]
    ]
  ]

  verify_complete : Verified → verify sdk p v now token ≡ ok id
  unfolding verify ask_sts
  verify_complete h =
      let (response, body, e1, b, status, u) = h.answers in
      ground (
        arith,
        check_token_complete p v.valid_sts_hostnames now token h.checked h.passes,
        (read_response_iff p response h.caller).1 (body, b, status, u),
        (identify_iff sdk h.checked.access_key_id h.caller id).1 h.identifies,
      )

  -- `Verify` returns an identity exactly when the token passes every check, STS answers 200 to the
  -- request that carries the cluster id, and the answer identifies the caller.
  pub verify_iff : (verify sdk p v now token ≡ ok id) ↔ Verified
  verify_iff = (verify_sound, verify_complete)
