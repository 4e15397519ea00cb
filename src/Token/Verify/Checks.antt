-- ===== src/Token/Verify/Checks.antt =====
-- What a token must be to pass the checks that `Verify` makes before it asks STS.
use iam2kube.Shared.{
  ℕ, ◌+◌, ◌*◌, ◌≤◌, String, len, ◌≡◌, ◌≢◌, refl, ap, ◌∙◌, true, false, Option, none, some, List, [],
  ok, member, arith, ◌↔◌, inl, inr, Result-cases,
}
use iam2kube.Shared.Int.{ℤ, pos, negsuc}
use iam2kube.Shared.Text.{split, has_prefix, trim_prefix}
use iam2kube.Arn.{slash, first_part}
use iam2kube.Token.{v1_prefix, minute}
use iam2kube.Token.Number.{atoi}
use iam2kube.Token.Query.{Values, lower_params, get, has_signed_cluster_id_header}
use iam2kube.Token.Verify.{
  Url, Parsers, Checked, bad_expires, parse_token, check_url, read_params, check_params,
  check_token,
}
use text.Mathlib.TextEquality.{eq_iff}

module _ (p : Parsers) where
  -- A token of at most 4096 bytes with the version prefix, and the URL that it encodes.
  abbrev pub Encodes : String → Url → Type 0
  Encodes token url =
      (bytes : String) × (len token ≤ 4096)
      × (has_prefix token v1_prefix ≡ true)
      × (p.decode_base64 (trim_prefix token v1_prefix) ≡ ok bytes)
      × (p.parse_url bytes ≡ ok url)

  parse_token_sound :
      (token : String) (url : Url) → parse_token p token ≡ ok url → Encodes token url
  unfolding parse_token
  parse_token_sound token url h = ground arith

  pub parse_token_complete :
      (token : String) (url : Url) → Encodes token url → parse_token p token ≡ ok url
  unfolding parse_token
  parse_token_complete token url (bytes, size, prefix, decoded, parsed) = ground arith

  check_url_iff :
      (hosts : List String) (url : Url)
      → (check_url p hosts url ≡ ok tt)
        ↔ ((url.scheme ≡ "https") × (member hosts url.host ≡ true) × (url.path ≡ "/"))
  unfolding check_url
  check_url_iff hosts url = ground (arith, eq_iff url.scheme "https", eq_iff url.path "/")

  abbrev pub IsFresh : ℕ → List (String × String) → Type 0
  IsFresh now params =
      (get params "action" ≡ "GetCallerIdentity")
      × (has_signed_cluster_id_header params ≡ true)
      × ((expires : ℕ) × (atoi (get params "x-amz-expires") ≡ some (pos expires)) × (expires ≤ 900))
      × (get params "x-amz-date" ≢ "")
      × ((date : ℕ) × (p.parse_time (get params "x-amz-date") ≡ ok date)
          × (now ≤ date + 15 * minute))

  bad_expires_iff :
      (o : Option ℤ)
      → (bad_expires o ≡ false) ↔ ((expires : ℕ) × (o ≡ some (pos expires)) × (expires ≤ 900))
  unfolding bad_expires
  bad_expires_iff none = (λ h. cc, λ h. ground arith)
  bad_expires_iff (some (negsuc n)) = (λ h. cc, λ h. ground arith)
  bad_expires_iff (some (pos n)) = (λ h. (n, refl, ground arith), λ h. ground arith)

  check_params_sound :
      (now : ℕ) (params : List (String × String))
      → check_params p now params ≡ ok tt
      → IsFresh now params
  unfolding check_params
  check_params_sound now params h = ground (
    arith,
    eq_iff (get params "action") "GetCallerIdentity",
    eq_iff (get params "x-amz-date") "",
    bad_expires_iff (atoi (get params "x-amz-expires")),
  )

  check_params_complete :
      (now : ℕ) (params : List (String × String))
      → IsFresh now params
      → check_params p now params ≡ ok tt
  unfolding check_params
  check_params_complete now params
        (action, signed, (expires, e, most), given, (date, parsed, fresh)) =
      ground (
        arith,
        eq_iff (get params "action") "GetCallerIdentity",
        eq_iff (get params "x-amz-date") "",
        (bad_expires_iff (atoi (get params "x-amz-expires"))).1 (expires, e, most),
      )

  -- The query, read as parameters in lower case.
  abbrev pub Queries : Url → List (String × String) → Type 0
  Queries url params =
      (values : Values) × (p.parse_query url.raw_query ≡ some values)
      × (lower_params values [] ≡ ok params)

  -- A token that passes every check that is made before STS is asked.
  pub record Passes (hosts : List String) (now : ℕ) (token : String) (checked : Checked)
      : Type 0 where
    pub params : List (String × String)
    pub encodes : Encodes token checked.url
    pub scheme : checked.url.scheme ≡ "https"
    pub host : member hosts checked.url.host ≡ true
    pub path : checked.url.path ≡ "/"
    pub queries : Queries checked.url params
    pub fresh : IsFresh now params
    pub access_key_id :
        checked.access_key_id ≡ first_part (split (get params "x-amz-credential") slash)

  read_params_sound :
      (url : Url) (params : List (String × String))
      → read_params p url ≡ ok params
      → Queries url params
  unfolding read_params
  read_params_sound url params h = ground arith

  check_token_stages :
      (hosts : List String) (now : ℕ) (token : String) (checked : Checked)
      → check_token p hosts now token ≡ ok checked
      → (url : Url) × (params : List (String × String)) × (parse_token p token ≡ ok url)
        × (check_url p hosts url ≡ ok tt)
        × (read_params p url ≡ ok params)
        × (check_params p now params ≡ ok tt)
        × (url ≡ checked.url)
        × (checked.access_key_id ≡ first_part (split (get params "x-amz-credential") slash))
  unfolding check_token
  check_token_stages hosts now token checked h = elim (Result-cases (parse_token p token)) [
    | inr (_, e1) ↦ absurd (ground arith)
    | inl (url, e1) ↦ elim (Result-cases (read_params p url)) [
      | inr (_, e3) ↦ absurd (ground arith)
      | inl (params, e3) ↦
          (url, params, e1, ground arith, e3, ground arith, ground arith, ground arith)
    ]
  ]

  pub check_token_sound :
      (hosts : List String) (now : ℕ) (token : String) (checked : Checked)
      → check_token p hosts now token ≡ ok checked
      → Passes hosts now token checked
  check_token_sound hosts now token checked h = go (check_token_stages hosts now token checked h)
    where
      go :
          (url : Url) × (params : List (String × String)) × (parse_token p token ≡ ok url)
            × (check_url p hosts url ≡ ok tt)
            × (read_params p url ≡ ok params)
            × (check_params p now params ≡ ok tt)
            × (url ≡ checked.url)
            × (checked.access_key_id ≡ first_part (split (get params "x-amz-credential") slash))
          → Passes hosts now token checked
      go (url, params, e1, e2, e3, e4, same, key) =
          let (scheme, host, path) = (check_url_iff hosts checked.url).0 (rw (← same) e2) in
          record {
            params = params;
            encodes = parse_token_sound token checked.url (e1 ∙ ap ok same);
            scheme = scheme;
            host = host;
            path = path;
            queries = read_params_sound checked.url params (rw (← same) e3);
            fresh = check_params_sound now params e4;
            access_key_id = key;
          }

  pub check_token_complete :
      (hosts : List String) (now : ℕ) (token : String) (checked : Checked)
      → Passes hosts now token checked
      → check_token p hosts now token ≡ ok checked
  unfolding check_token
  check_token_complete hosts now token checked h =
      let (values, parsed, lowered) = h.queries in
      let read : read_params p checked.url ≡ ok h.params =
        unfold read_params in rw (parsed, read_params) lowered in
      let key = h.access_key_id in
      ground (
        arith,
        parse_token_complete token checked.url h.encodes,
        (check_url_iff hosts checked.url).1 (h.scheme, h.host, h.path),
        check_params_complete now h.params h.fresh,
      )
