-- ===== src/Token/Generate/Client.antt =====
-- Which client of STS `GetWithOptions` signs with, said without its helpers.
use iam2kube.Shared.{
  String, ◌≡◌, ◌≢◌, refl, true, false, Option, none, some, List, [], ◌∷◌, ok, arith, Result-cases,
  Bool-cases, str_cases, str_eq_of_ne, inl, inr,
}
use iam2kube.Shared.Text.{split}
use iam2kube.Arn.Format.{colon}
use iam2kube.Token.{GetTokenOptions}
use iam2kube.Token.Generate.{
  Aws, Generator, choose_client, role_session_name, forwarded_name, given,
}
use mathlib.Core.Path.{subst}

-- A text that an option gives: none where it is empty.
pub data IsGiven (s : String) : Option String → Type 0 where
  gives : s ≢ "" → IsGiven s (some s)
  skips : s ≡ "" → IsGiven s none

given-IsGiven : (s : String) → IsGiven s (given s)
given-IsGiven s = elim (str_cases s "") [
  | inl (e, empty) ↦ rw e (skips empty)
  | inr (e, apart) ↦ rw e (gives apart)
]

IsGiven-given : (s : String) (o : Option String) → IsGiven s o → given s ≡ o
IsGiven-given s _ (gives apart) = ground (arith, str_eq_of_ne s "" apart)
IsGiven-given s _ (skips empty) = rw empty refl

-- The session name in the user id of a federated caller, which has exactly one colon.
pub data IsForwarded (user_id : String) : Option String → Type 0 where
  federated : (u s : String) → split user_id colon ≡ u ∷ s ∷ [] → IsForwarded user_id (some s)
  plain : ((u s : String) → split user_id colon ≢ u ∷ s ∷ []) → IsForwarded user_id none

forwarded_name-IsForwarded : (user_id : String) → IsForwarded user_id (forwarded_name user_id)
unfolding forwarded_name
forwarded_name-IsForwarded user_id = by_parts (split user_id colon) refl
  where
    by_parts :
        (parts : List String)
        → split user_id colon ≡ parts
        → IsForwarded user_id (forwarded_name user_id)
    by_parts [] e = rw (forwarded_name, e) (plain (λ u s h. ground arith))
    by_parts (u ∷ []) e = rw (forwarded_name, e) (plain (λ u s h. ground arith))
    by_parts (u ∷ s ∷ []) e = rw (forwarded_name, e) (federated u s e)
    by_parts (u ∷ s ∷ t ∷ rest) e = rw (forwarded_name, e) (plain (λ u s h. ground arith))

IsForwarded-unique :
    (user_id : String) (n m : Option String) → IsForwarded user_id n → IsForwarded user_id m → n ≡ m
IsForwarded-unique user_id _ _ (federated u s e) (federated u' s' e') = ground arith
IsForwarded-unique user_id _ _ (federated u s e) (plain apart) = absurd (apart u s e)
IsForwarded-unique user_id _ _ (plain apart) (federated u s e) = absurd (apart u s e)
IsForwarded-unique user_id _ _ (plain _) (plain _) = refl

module _ {Session Client : Type 0} (aws : Aws Session Client) (encode : String → String) where
  -- The session name of the role: of the caller where names are forwarded, or else of the options.
  pub data IsSessionName (g : Generator) (options : GetTokenOptions) (caller : Client)
      (name : Option String) : Type 0 where
    forwards :
        (user_id : String)
        → g.forward_session_name ≡ true
        → aws.caller_user_id caller ≡ ok user_id
        → IsForwarded user_id name
        → IsSessionName g options caller name
    takes :
        g.forward_session_name ≡ false
        → IsGiven options.session_name name
        → IsSessionName g options caller name

  -- The client of a session: its own, or where the options name a role that of the role, assumed
  -- from the session with the external id and the session name.
  pub data IsClient (g : Generator) (options : GetTokenOptions) (session : Session)
      (client : Client) : Type 0 where
    own :
        options.assume_role_arn ≡ ""
        → client ≡ aws.new_client session
        → IsClient g options session client
    assumes :
        (external_id name : Option String)
        → options.assume_role_arn ≢ ""
        → IsGiven options.assume_role_external_id external_id
        → IsSessionName g options (aws.new_client session) name
        → client
          ≡ aws.assume_role session options.assume_role_arn
              (record { external_id = external_id; role_session_name = name })
        → IsClient g options session client

  role_session_name_sound :
      (g : Generator) (options : GetTokenOptions) (caller : Client) (name : Option String)
      → role_session_name aws encode g options caller ≡ ok name
      → IsSessionName g options caller name
  unfolding role_session_name
  role_session_name_sound g options caller name h = elim (Bool-cases g.forward_session_name) [
    | inr e ↦ takes e (
        let same : given options.session_name ≡ name = ground (arith, e) in
        subst (IsGiven options.session_name) same (given-IsGiven options.session_name))
    | inl e ↦ elim (Result-cases (aws.caller_user_id caller)) [
      | inr (_, f) ↦ absurd (ground (arith, e, f))
      | inl (user_id, f) ↦
          let same : forwarded_name user_id ≡ name = ground (arith, e, f) in
          forwards user_id e f
            (subst (IsForwarded user_id) same (forwarded_name-IsForwarded user_id))
    ]
  ]

  role_session_name_complete :
      (g : Generator) (options : GetTokenOptions) (caller : Client) (name : Option String)
      → IsSessionName g options caller name
      → role_session_name aws encode g options caller ≡ ok name
  unfolding role_session_name
  role_session_name_complete g options caller name (takes e given) =
      ground (arith, e, IsGiven-given options.session_name name given)
  role_session_name_complete g options caller name (forwards user_id e f forwarded) =
      ground
        (arith, e, f, IsForwarded-unique user_id _ _ (forwarded_name-IsForwarded user_id) forwarded)

  pub choose_client_sound :
      (g : Generator) (options : GetTokenOptions) (session : Session) (client : Client)
      → choose_client aws encode g options session ≡ ok client
      → IsClient g options session client
  unfolding choose_client
  choose_client_sound g options session client h = elim (str_cases options.assume_role_arn "") [
    | inl (e, empty) ↦ own empty (ground (arith, e))
    | inr (e, apart) ↦
        let caller = aws.new_client session in
        elim (Result-cases (role_session_name aws encode g options caller)) [
          | inr (_, f) ↦ absurd (ground (arith, e, f))
          | inl (name, f) ↦
              assumes (given options.assume_role_external_id) name apart
                (given-IsGiven options.assume_role_external_id)
                (role_session_name_sound g options caller name f) (ground (arith, e, f))
        ]
  ]

  pub choose_client_complete :
      (g : Generator) (options : GetTokenOptions) (session : Session) (client : Client)
      → IsClient g options session client
      → choose_client aws encode g options session ≡ ok client
  unfolding choose_client
  choose_client_complete g options session client (own empty is) = rw (empty, is) refl
  choose_client_complete g options session client (assumes external_id name apart ext named is) =
      rw
        (
          str_eq_of_ne options.assume_role_arn "" apart,
          role_session_name_complete g options (aws.new_client session) name named,
          IsGiven-given options.assume_role_external_id external_id ext,
          is,
        )
        refl
