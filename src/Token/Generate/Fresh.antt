-- ===== src/Token/Generate/Fresh.antt =====
-- A token that was generated passes all the checks of `Verify` that are made before STS is asked,
-- until the time that the generator gives for its expiration.
use iam2kube.Shared.{String, Option, none, some, List, [], ◌∷◌}
use iam2kube.Token.{Token}
use iam2kube.Token.Query.{Values}

-- The parameters of a pre-signed URL for the caller's identity, as the SDK documents them; long-term
-- credentials have no session token.
pub record Signature : Type 0 where
  pub algorithm : String
  pub credential : String
  pub date : String
  pub expires : String
  pub security_token : Option String
  pub signature : String

-- The session token, where there is one.
abbrev token_entry : Option String → Values
token_entry none = []
token_entry (some t) = ("X-Amz-Security-Token", t ∷ []) ∷ []

-- The query of such a URL; the cluster id's header is among those that are signed.
unfoldable pub presigned_query : Signature → Values
presigned_query s =
    ("Action", "GetCallerIdentity" ∷ [])
    ∷ ("Version", "2011-06-15" ∷ [])
    ∷ ("X-Amz-Algorithm", s.algorithm ∷ [])
    ∷ ("X-Amz-Credential", s.credential ∷ [])
    ∷ ("X-Amz-Date", s.date ∷ [])
    ∷ ("X-Amz-Expires", s.expires ∷ [])
    ∷ ("X-Amz-Signature", s.signature ∷ [])
    ∷ ("X-Amz-SignedHeaders", "host;x-k8s-aws-id" ∷ [])
    ∷ token_entry s.security_token

abbrev lowered_token : Option String → List (String × String)
lowered_token none = []
lowered_token (some t) = ("x-amz-security-token", t) ∷ []

-- The same in lower case.
lowered_query : Signature → List (String × String)
lowered_query s =
    ("action", "GetCallerIdentity")
    ∷ ("version", "2011-06-15")
    ∷ ("x-amz-algorithm", s.algorithm)
    ∷ ("x-amz-credential", s.credential)
    ∷ ("x-amz-date", s.date)
    ∷ ("x-amz-expires", s.expires)
    ∷ ("x-amz-signature", s.signature)
    ∷ ("x-amz-signedheaders", "host;x-k8s-aws-id")
    ∷ lowered_token s.security_token
