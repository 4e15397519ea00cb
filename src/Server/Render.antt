-- ===== src/Server/Render.antt =====
-- pkg/server/server.go: `renderTemplate` and `renderTemplates`. The EC2 provider is a parameter: the
-- private DNS name of an instance, or an error.
pub mod Laws
use Prim.Native.Char.{Char, code}
use Prim.Native.String.{count}
use Prim.Native.String
use iam2kube.Shared.{
  ℕ, String, ◌<>◌, Bool, true, false, not, ◌&&◌, ◌||◌, Option, none, some, List, [], ◌∷◌, Result,
  ok, err, ◌>>=◌, ◌>>◌, refuse, map_err, if◌then◌else◌, leb, nat_eq,
}
use iam2kube.Shared.Text.{strip_prefix, contains, replace}
use iam2kube.Config.{IdentityMapping}
use iam2kube.Token.{Identity}

-- The character class `\w`
is_word : Char → Bool
is_word c =
    (leb b'0' (code c) && leb (code c) b'9')
    || ((leb b'A' (code c) && leb (code c) b'Z')
        || ((leb b'a' (code c) && leb (code c) b'z') || nat_eq (code c) b'_'))

all_word : String → Bool
all_word String.[] = true
all_word (String.◌∷◌ c s) = is_word c && all_word s

-- `instanceIDPattern`: `^i-(\w{8}|\w{17})$`
unfoldable pub matches_instance_id : String → Bool
unfolding strip_prefix all_word is_word
matches_instance_id s = elim (strip_prefix "i-" s) [
  | none ↦ false
  | some rest ↦ all_word rest && (nat_eq (count rest) 8 || nat_eq (count rest) 17)
]

pub data TemplateError : Type 0 where
  no_instance_id : TemplateError
  ec2_error : String → TemplateError

-- The template whose rendering failed: the username's, or a group's.
pub data RenderError : Type 0 where
  user_template group_template : String → TemplateError → RenderError

abbrev pub ec2_placeholder : String
ec2_placeholder = "{{EC2PrivateDNSName}}"

-- The four placeholders that the identity itself fills, in the order of the code.
pub fill : String → Identity → String
fill template identity =
    let t1 = replace template "{{AccountID}}" identity.account_id in
    let t2 = replace t1 "{{SessionName}}" (replace identity.session_name "@" "-") in
    let t3 = replace t2 "{{SessionNameRaw}}" identity.session_name in
    replace t3 "{{AccessKeyID}}" identity.access_key_id

module _ (private_dns_name : String → Result String String) where
  -- The branch of `renderTemplate` that needs the EC2 API.
  pub insert_dns_name : String → Identity → Result TemplateError String
  insert_dns_name template identity = do
    refuse (not (matches_instance_id identity.session_name)) no_instance_id
    name ← map_err ec2_error (private_dns_name identity.session_name)
    ok (replace template ec2_placeholder name)

  pub render_ec2 : String → Identity → Result TemplateError String
  render_ec2 template identity =
      if contains template ec2_placeholder then insert_dns_name template identity else ok template

  unfoldable pub render_template : String → Identity → Result TemplateError String
  unfolding render_ec2 insert_dns_name fill matches_instance_id replace contains
  render_template template identity = do t ← render_ec2 template identity; ok (fill t identity)

  -- The loop over the groups
  pub render_groups : List String → Identity → Result RenderError (List String)
  render_groups [] identity = ok []
  render_groups (pattern_text ∷ patterns) identity = do
    group ← map_err (group_template pattern_text) (render_template pattern_text identity)
    groups ← render_groups patterns identity
    ok (group ∷ groups)

  unfoldable pub render_templates :
      IdentityMapping → Identity → Result RenderError (String × List String)
  unfolding render_groups render_template
  render_templates mapping identity = do
    username ← map_err (user_template mapping.username) (render_template mapping.username identity)
    groups ← render_groups mapping.groups identity
    ok (username, groups)
