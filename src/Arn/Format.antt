-- ===== src/Arn/Format.antt =====
-- What the AWS SDK provides for resource names: `awsarn.Parse` and the ids of
-- `endpoints.DefaultPartitions`. Its documentation gives the format
-- `arn:partition:service:region:account-id:resource`.
use Prim.Native.Char.{Char}
use iam2kube.Shared.{String, ◌<>◌, ◌≡◌, List, Result, ok}
use iam2kube.Shared.Text.Split.{Free}

-- `awsarn.ARN`
pub record Arn : Type 0 where
  pub partition : String
  pub service : String
  pub region : String
  pub account_id : String
  pub resource : String

pub record Sdk : Type 0 where
  pub parse : String → Result String Arn
  pub partitions : List String

abbrev pub colon : Char
colon = ":"

-- The documented format, as a text. `ARN.String` prints it.
unfoldable pub arn_text : Arn → String
arn_text a =
    "arn:"
    <> (a.partition
        <> (":"
            <> (a.service
                <> (":" <> (a.region <> (":" <> (a.account_id <> (":" <> a.resource))))))))

-- No section but the last holds a colon.
pub record HasSections (a : Arn) : Type 0 where
  pub partition : Free colon a.partition
  pub service : Free colon a.service
  pub region : Free colon a.region
  pub account_id : Free colon a.account_id

-- `awsarn.Parse` reads the documented format, and nothing else.
pub record ParsesArns (sdk : Sdk) : Type 0 where
  pub complete : (a : Arn) → HasSections a → sdk.parse (arn_text a) ≡ ok a
  pub sound_text : (s : String) (a : Arn) → sdk.parse s ≡ ok a → s ≡ arn_text a
  pub sound_sections : (s : String) (a : Arn) → sdk.parse s ≡ ok a → HasSections a
