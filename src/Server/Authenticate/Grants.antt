-- ===== src/Server/Authenticate/Grants.antt =====
-- When the webhook grants, and how status, metric and body belong together.
use iam2kube.Shared.{
  String, ◌≡◌, ◌≢◌, ap, sym, ◌↔◌, true, Option, none, some, List, ok, arith, inl, inr, Result-cases,
  Option-cases, Bool-cases, str_cases, member,
}
use iam2kube.Token.{Identity}
use iam2kube.Token.Verify.{TokenError, format_error, sts_error}
use iam2kube.Server.Mapping.{do_mapping}
use iam2kube.Server.Authenticate.{
  Metric, malformed_request, unknown_user, success, UserInfo, message, deny, granted, Outcome,
  HttpRequest, Handler, user_info, verify_metric, answer_token, answer_body, authenticate_endpoint,
}
use text.Mathlib.Text.{◌==◌}

-- The outcome of a grant
abbrev pub grant : UserInfo → Outcome
grant user = record { status = 200; metric = success; body = granted user }

-- Which status, metric and body may stand together.
pub data IsConsistent : Outcome → Type 0 where
  grants : (user : UserInfo) → IsConsistent (grant user)
  refuses :
      (m : Metric)
      → m ≢ success
      → m ≢ malformed_request
      → IsConsistent (record { status = 403; metric = m; body = deny })
  bad_request :
      (t : String)
      → IsConsistent (record { status = 400; metric = malformed_request; body = message t })
  bad_method :
      (t : String)
      → IsConsistent (record { status = 405; metric = malformed_request; body = message t })

module _ (h : Handler) where
  -- What stands behind a grant: a POST with a token review, whose token is verified as an identity
  -- that the backends map.
  pub record Grants (req : HttpRequest) (user : UserInfo) : Type 0 where
    pub method : req.method ≡ "POST"
    pub content : String
    pub body : req.body ≡ some content
    pub token : String
    pub decoded : h.decode content ≡ ok token
    pub identity : Identity
    pub verified : h.verify token ≡ ok identity
    pub username : String
    pub groups : List String
    pub mapped : do_mapping h.private_dns_name identity h.mappers ≡ ok (username, groups)
    pub info : user ≡ user_info h identity username groups

  answer_token_granted :
      (token : String) (user : UserInfo)
      → (answer_token h token).body ≡ granted user
      → (identity : Identity) × (username : String) × (groups : List String) × (h.verify token
          ≡ ok identity)
        × (do_mapping h.private_dns_name identity h.mappers ≡ ok (username, groups))
        × (user ≡ user_info h identity username groups)
  unfolding answer_token
  answer_token_granted token user g = elim (Result-cases (h.verify token)) [
    | inr (e, failed) ↦ absurd (ground arith)
    | inl (identity, verified) ↦
        elim (Result-cases (do_mapping h.private_dns_name identity h.mappers)) [
          | inr (e, failed) ↦ absurd (ground arith)
          | inl ((username, groups), mapped) ↦
              (identity, username, groups, verified, mapped, ground arith)
        ]
  ]

  granted_sound :
      (req : HttpRequest) (user : UserInfo)
      → (authenticate_endpoint h req).body ≡ granted user
      → Grants req user
  granted_sound req user g = elim (str_cases req.method "POST") [
    | inr (e, _) ↦ absurd (unfold authenticate_endpoint in ground arith)
    | inl (e, post) ↦ elim (Option-cases req.body) [
      | inl empty ↦ absurd (unfold authenticate_endpoint in ground arith)
      | inr (content, given) ↦ elim (Result-cases (h.decode content)) [
        | inr (_, failed) ↦ absurd (unfold authenticate_endpoint in ground arith)
        | inl (token, decoded) ↦ build post content given token decoded (
            answer_token_granted token user (
              unfold authenticate_endpoint in
              rw (e, given, decoded, authenticate_endpoint, answer_body) at g))
      ]
    ]
  ]
    where
      build :
          req.method ≡ "POST"
          → (content : String) → req.body ≡ some content
          → (token : String) → h.decode content ≡ ok token
          → (identity : Identity) × (username : String) × (groups : List String) × (h.verify token
              ≡ ok identity)
            × (do_mapping h.private_dns_name identity h.mappers ≡ ok (username, groups))
            × (user ≡ user_info h identity username groups)
          → Grants req user
      build post content given token decoded (identity, username, groups, verified, mapped, eq) =
          record {
            method = post;
            content = content;
            body = given;
            token = token;
            decoded = decoded;
            identity = identity;
            verified = verified;
            username = username;
            groups = groups;
            mapped = mapped;
            info = eq;
          }

  granted_complete :
      (req : HttpRequest) (user : UserInfo)
      → Grants req user
      → authenticate_endpoint h req ≡ grant user
  unfolding authenticate_endpoint
  granted_complete req user g =
      rw (g.method, g.body, authenticate_endpoint)
        (rw (g.decoded, answer_body)
          (rw (g.verified, answer_token) (rw (g.mapped, answer_token) (ap grant (sym g.info)))))

  -- The webhook grants a user exactly to a POST whose body is a token review with a token that is
  -- verified as an identity which the backends map; the user is made of identity and mapping.
  pub granted_iff :
      (req : HttpRequest) (user : UserInfo)
      → (authenticate_endpoint h req ≡ grant user) ↔ Grants req user
  granted_iff req user =
      (λ e. granted_sound req user (ap (λ (o : Outcome). o.body) e), granted_complete req user)

  verify_metric_ne :
      (e : TokenError) → (verify_metric e ≢ success) × (verify_metric e ≢ malformed_request)
  verify_metric_ne (format_error _) = (λ e. cc, λ e. cc)
  verify_metric_ne (sts_error _) = (λ e. cc, λ e. cc)

  answer_token-IsConsistent : (token : String) → IsConsistent (answer_token h token)
  unfolding answer_token
  answer_token-IsConsistent token = elim (Result-cases (h.verify token)) [
    | inr (e, failed) ↦
        rw (failed, answer_token)
          (refuses (verify_metric e) (verify_metric_ne e).0 (verify_metric_ne e).1)
    | inl (identity, verified) ↦
        elim (Result-cases (do_mapping h.private_dns_name identity h.mappers)) [
          | inr (e, failed) ↦
              rw (verified, answer_token)
                (rw (failed, answer_token) (refuses unknown_user (λ e. cc) (λ e. cc)))
          | inl ((username, groups), mapped) ↦
              rw (verified, answer_token) (rw (mapped, answer_token) (grants _))
        ]
  ]

  answer_body-IsConsistent : (body : Option String) → IsConsistent (answer_body h body)
  unfolding answer_body
  answer_body-IsConsistent none = bad_request "expected a request body"
  answer_body-IsConsistent (some content) = elim (Result-cases (h.decode content)) [
    | inr (e, failed) ↦
        rw (failed, answer_body) (bad_request "expected a request body to be a TokenReview")
    | inl (token, decoded) ↦ rw (decoded, answer_body) (answer_token-IsConsistent token)
  ]

  -- Status 200 goes with success and a granted user, 403 with the deny review and the metric of a
  -- refusal, 400 and 405 with a message and the metric of a malformed request; nothing else occurs.
  pub authenticate-IsConsistent : (req : HttpRequest) → IsConsistent (authenticate_endpoint h req)
  authenticate-IsConsistent req = elim (Bool-cases (req.method == "POST")) [
    | inr e ↦ unfold authenticate_endpoint in rw e (bad_method "expected POST")
    | inl e ↦ unfold authenticate_endpoint in rw e (answer_body-IsConsistent req.body)
  ]

-- Two identities of scrubbed accounts with the same name and groups give the same user.
pub user_info_scrubbed :
    (h : Handler) (i j : Identity) (username : String) (groups : List String)
    → member h.scrubbed_accounts i.account_id ≡ true
    → member h.scrubbed_accounts j.account_id ≡ true
    → user_info h i username groups ≡ user_info h j username groups
unfolding user_info
user_info_scrubbed h i j username groups a b = ground arith
