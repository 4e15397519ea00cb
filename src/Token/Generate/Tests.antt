-- ===== src/Token/Generate/Tests.antt =====
-- Runs of the generator, and its theorems at a concrete session.
use iam2kube.Shared.{
  ◌↔◌, ◌*◌, String, ◌<>◌, ◌≡◌, ◌≢◌, refl, true, false, none, some, [], ◌∷◌, ok, err,
}
use iam2kube.Shared.Text.{split}
use iam2kube.Token.{Token, GetTokenOptions, minute}
use iam2kube.Token.Verify.{Url, Parsers}
use iam2kube.Token.Generate.{Aws, Generator, Surroundings, cluster_id_required, get_with_options}
use iam2kube.Token.Query.{Values}
use mathlib.Core.List.{Perm}
use mathlib.Core.List.Perm
use iam2kube.Token.Generate.Fresh.{Signature}
use iam2kube.Token.Generate.Options.{Signs, ComesFrom, get_with_options_iff}

-- Sessions are texts, and a client is the text of what it was made from.
abbrev aws : Aws String String
aws = record {
  new_session = ok "base";
  with_region = λ session region. session <> ("@" <> region);
  has_credentials = λ session. true;
  with_cache = λ session provider. session <> "+cache";
  new_client = λ session. session;
  assume_role = λ session role how.
      session
      <> (">" <> (role <> (":" <> (elim how.role_session_name [ none ↦ "" | some name ↦ name ]))));
  caller_user_id = λ client. ok "AROA:ann";
  presign = λ client cluster_id expires. ok (cluster_id <> ("/" <> client));
  default_profile = "default";
}

abbrev env : Surroundings
env = record {
  aws_profile = "";
  yaml = record { marshal = λ cache. err "unknown"; unmarshal = λ text. ([], some "unknown") };
  faults = record {
    stat_fails = false;
    takes_read_lock = true;
    takes_write_lock = true;
    read_fails = none;
    write_fails = none;
  };
  disk = some (record { mode = 420; content = "" });
}

abbrev options : GetTokenOptions
options = record {
  region = "eu";
  cluster_id = "cluster";
  assume_role_arn = "admin";
  assume_role_external_id = "";
  session_name = "bob";
}

abbrev no_cluster : GetTokenOptions
no_cluster = record {
  region = "";
  cluster_id = "";
  assume_role_arn = "";
  assume_role_external_id = "";
  session_name = "";
}

encode : String → String
encode s = s

abbrev forwarding : Generator
forwarding = record { forward_session_name = true; cache = false }

abbrev token_of_ann : Token
token_of_ann = record { token = "k8s-aws-v1.cluster/base@eu>admin:ann"; expiration = 1014 * minute }

generate_tests :
    ((get_with_options aws encode
        (record { forward_session_name = false; cache = false })
        env
        (1000 * minute)
        options
        (some "mine")).0
      ≡ ok (record { token = "k8s-aws-v1.cluster/mine>admin:bob"; expiration = 1014 * minute }))
    × (get_with_options aws encode forwarding env 0 no_cluster none
        ≡ (err cluster_id_required, none))
unfolding get_with_options encode split
generate_tests = (refl, refl)

-- The session that was built, in the region of the options.
made_in :
    get_with_options aws encode forwarding env (1000 * minute) options none
    ≡ (ok token_of_ann, some "base@eu")
unfolding get_with_options encode split
made_in = refl

get_with_options_iff_example :
    (get_with_options aws encode forwarding env (1000 * minute) options none
      ≡ (ok token_of_ann, some "base@eu"))
    ↔ ((◌≢◌ {A = String} "cluster" "")
        × ComesFrom aws encode forwarding env options none "base@eu"
        × Signs aws encode forwarding (1000 * minute) options "base@eu" token_of_ann)
get_with_options_iff_example =
    get_with_options_iff aws encode forwarding env (1000 * minute) options none "base@eu"
      token_of_ann

-- The client is that of the role, under the name of the forwarded caller.
signed_by_role : Signs aws encode forwarding (1000 * minute) options "base@eu" token_of_ann
signed_by_role =
    ((get_with_options_iff aws encode forwarding env (1000 * minute) options none "base@eu"
        token_of_ann).0
      made_in).2

abbrev signature : Signature
signature = record {
  algorithm = "AWS4-HMAC-SHA256";
  credential = "AKIA/20200102/eu/sts/aws4_request";
  date = "20200102T030405Z";
  expires = "0";
  security_token = none;
  signature = "s";
}

abbrev sts_url : Url
sts_url = record {
  scheme = "https";
  host = "sts.amazonaws.com";
  path = "/";
  raw_query = "q";
  text = "https://sts.amazonaws.com/?q";
}

-- The query as a text has it, with its keys sorted but for the first two.
abbrev sorted_query : Values
sorted_query =
    ("Version", "2011-06-15" ∷ [])
    ∷ ("Action", "GetCallerIdentity" ∷ [])
    ∷ ("X-Amz-Algorithm", "AWS4-HMAC-SHA256" ∷ [])
    ∷ ("X-Amz-Credential", "AKIA/20200102/eu/sts/aws4_request" ∷ [])
    ∷ ("X-Amz-Date", "20200102T030405Z" ∷ [])
    ∷ ("X-Amz-Expires", "0" ∷ [])
    ∷ ("X-Amz-Signature", "s" ∷ [])
    ∷ ("X-Amz-SignedHeaders", "host;x-k8s-aws-id" ∷ [])
    ∷ []

abbrev parsers : Parsers
parsers = record {
  decode_base64 = λ s. ok s;
  parse_url = λ s. ok sts_url;
  parse_query = λ s. some sorted_query;
  parse_time = λ s. ok (1000 * minute);
  unmarshal = λ s. err "no JSON";
}
