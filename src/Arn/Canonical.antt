-- ===== src/Arn/Canonical.antt =====
-- A canonical name is its own canonical form.
use mathlib.Core.Path.{subst}
use text.Mathlib.TextLemmas.{append_assoc}
use iam2kube.Shared.{String, ◌<>◌, ◌≡◌, refl, sym, ◌∙◌, true, ok, member, arith}
use iam2kube.Shared.Text.{split}
use iam2kube.Shared.Text.Split.{split-append}
use iam2kube.Arn.Format.{Sdk, Arn, arn_text, ParsesArns}
use iam2kube.Arn.{first_part, slash, role_arn, canonicalize}
use iam2kube.Arn.Assumed.{slash-append}
use iam2kube.Arn.Accepts.{Accepts, federated, identity, assumed, canonicalize_iff}

-- The name of a role, in sections.
abbrev role_sections : Arn → String → Arn
role_sections a role = record {
  partition = a.partition;
  service = "iam";
  region = "";
  account_id = a.account_id;
  resource = "role/" <> role;
}

iam_text : (s : String) → ":" <> ("iam" <> (":" <> ("" <> (":" <> s)))) ≡ ":iam::" <> s
iam_text s =
    sym (append_assoc ":" "iam" (":" <> ("" <> (":" <> s))))
    ∙ sym (append_assoc ":iam" ":" ("" <> (":" <> s)))
    ∙ sym (append_assoc ":iam:" "" (":" <> s))
    ∙ sym (append_assoc ":iam:" ":" s)

arn_text-role :
    (a : Arn) (role : String)
    → arn_text (role_sections a role) ≡ role_arn a.partition a.account_id role
unfolding arn_text role_arn
arn_text-role a role =
    rw (iam_text (a.account_id <> (":" <> ("role/" <> role))))
      (rw (← append_assoc ":" "role/" role))

first_part-role : (role : String) → first_part (split ("role/" <> role) slash) ≡ "role"
first_part-role role =
    rw (append_assoc "role" "/" role)
      (rw (slash-append role) (rw (split-append "role" role slash (ground arith))))

module _ (sdk : Sdk) (laws : ParsesArns sdk) where
  parse-role :
      (arn : String) (a : Arn) (role : String)
      → sdk.parse arn ≡ ok a
      → sdk.parse (role_arn a.partition a.account_id role) ≡ ok (role_sections a role)
  parse-role arn a role parsed =
      let known = laws.sound_sections arn a parsed in
      rw (← arn_text-role a role) (
        laws.complete (role_sections a role) (record {
          partition = known.partition;
          service = ground arith;
          region = tt;
          account_id = known.account_id;
        }))

  -- The result of `Canonicalize` is its own canonical form.
  pub canonicalize_idem : (arn t : String) → canonicalize sdk arn ≡ ok t → canonicalize sdk t ≡ ok t
  canonicalize_idem arn t h = shape ((canonicalize_iff sdk arn t).0 h)
    where
      shape :
          (a : Arn) × (sdk.parse arn ≡ ok a)
            × (member sdk.partitions a.partition ≡ true)
            × Accepts a arn t
          → canonicalize sdk t ≡ ok t
      shape (a, parsed, known, federated _ _ e) = subst (λ s. canonicalize sdk s ≡ ok t) (sym e) h
      shape (a, parsed, known, identity _ _ e) = subst (λ s. canonicalize sdk s ≡ ok t) (sym e) h
      shape (a, parsed, known, assumed role session _ _ _ e) = (canonicalize_iff sdk t t).1 (
        role_sections a role,
        subst (λ s. sdk.parse s ≡ ok (role_sections a role)) (sym e) (parse-role arn a role parsed),
        known,
        identity refl (rw (first_part-role role)) refl,
      )
