-- ===== src/Server/Render/Laws.antt =====
-- What a template is rendered to.
use iam2kube.Config.{IdentityMapping}
use iam2kube.Shared.{
  sym, any, ◌∙◌, Result-cases, inl, inr, List, [], ◌∷◌, Bool-cases, String, ◌≡◌, ap, true, false,
  Result, ok, err, arith, if◌then◌else◌,
}
use iam2kube.Shared.Text.{contains, replace}
use iam2kube.Shared.Text.Replace.{replace_of_absent, contains_longer}
use iam2kube.Token.{Identity}
use iam2kube.Server.Render.{
  render_groups, render_templates, no_instance_id, ec2_error, matches_instance_id, ec2_placeholder,
  insert_dns_name, render_ec2, fill, render_template,
}

fill_plain :
    (template : String) (identity : Identity)
    → contains template "{{" ≡ false
    → fill template identity ≡ template
unfolding fill
fill_plain template identity h =
    rw
      (replace_of_absent template "{{AccountID}}" identity.account_id
        (contains_longer template "{{" "AccountID}}" h))
      (rw
        (replace_of_absent template "{{SessionName}}" _
          (contains_longer template "{{" "SessionName}}" h))
        (rw
          (replace_of_absent template "{{SessionNameRaw}}" _
            (contains_longer template "{{" "SessionNameRaw}}" h))
          (replace_of_absent template "{{AccessKeyID}}" _
            (contains_longer template "{{" "AccessKeyID}}" h))))

module _ (private_dns_name : String → Result String String) where
  -- A template with no opening braces is rendered to itself, and the EC2 API is not asked.
  pub render_template_plain :
      (template : String) (identity : Identity)
      → contains template "{{" ≡ false
      → render_template private_dns_name template identity ≡ ok template
  unfolding render_template render_ec2
  render_template_plain template identity h =
      rw (contains_longer template "{{" "EC2PrivateDNSName}}" h)
        (ap ok (fill_plain template identity h))

  -- A template that asks for the private DNS name fails without a call of the EC2 API for a session
  -- name that is no instance id; else the API's error is the template's, and its answer is put in
  -- before the placeholders of the identity are filled.
  render_template_ec2 :
      (template : String) (identity : Identity)
      → contains template ec2_placeholder ≡ true
      → render_template private_dns_name template identity ≡ (
          if matches_instance_id identity.session_name
          then elim (private_dns_name identity.session_name) [
            | err e ↦ err (ec2_error e)
            | ok name ↦ ok (fill (replace template ec2_placeholder name) identity)
          ]
          else err no_instance_id)
  unfolding render_template render_ec2 insert_dns_name
  render_template_ec2 template identity h = rw h (ground arith)

  -- The session name is an instance id, and the EC2 API knows its private DNS name.
  abbrev pub IsKnownInstance : Identity → Type 0
  IsKnownInstance identity =
      (matches_instance_id identity.session_name ≡ true)
      × (name : String) × (private_dns_name identity.session_name ≡ ok name)

  render_template-IsKnownInstance :
      (template : String) (identity : Identity) (text : String)
      → render_template private_dns_name template identity ≡ ok text
      → contains template ec2_placeholder ≡ true
      → IsKnownInstance identity
  render_template-IsKnownInstance template identity text h asks =
      let rendered = sym (render_template_ec2 template identity asks) ∙ h in
      elim (Bool-cases (matches_instance_id identity.session_name)) [
        | inr e ↦ absurd (ground arith)
        | inl e ↦ elim (Result-cases (private_dns_name identity.session_name)) [
          | inr (_, f) ↦ absurd (ground arith)
          | inl (name, f) ↦ (e, name, f)
        ]
      ]

  render_groups-IsKnownInstance :
      (templates : List String) (identity : Identity) (groups : List String)
      → render_groups private_dns_name templates identity ≡ ok groups
      → any (λ t. contains t ec2_placeholder) templates ≡ true
      → IsKnownInstance identity
  unfolding render_groups
  render_groups-IsKnownInstance [] identity groups h a = absurd (ground arith)
  render_groups-IsKnownInstance (t ∷ ts) identity groups h a =
      elim (Result-cases (render_template private_dns_name t identity)) [
        | inr (_, e) ↦ absurd (ground arith)
        | inl (text, e) ↦ elim (Result-cases (render_groups private_dns_name ts identity)) [
          | inr (_, f) ↦ absurd (ground arith)
          | inl (rest, f) ↦ elim (Bool-cases (contains t ec2_placeholder)) [
            | inl asks ↦ render_template-IsKnownInstance t identity text e asks
            | inr quiet ↦ render_groups-IsKnownInstance ts identity rest f (ground arith)
          ]
        ]
      ]

  -- Where all templates of a mapping are rendered and one of them, the username's or a group's, asks
  -- for the private DNS name, the session name is an instance id whose name the EC2 API knows.
  pub render_templates-IsKnownInstance :
      (mapping : IdentityMapping) (identity : Identity) (username : String) (groups : List String)
      → render_templates private_dns_name mapping identity ≡ ok (username, groups)
      → any (λ t. contains t ec2_placeholder) (mapping.username ∷ mapping.groups) ≡ true
      → IsKnownInstance identity
  unfolding render_templates
  render_templates-IsKnownInstance mapping identity username groups h a =
      elim (Result-cases (render_template private_dns_name mapping.username identity)) [
        | inr (_, e) ↦ absurd (ground arith)
        | inl (text, e) ↦
            elim (Result-cases (render_groups private_dns_name mapping.groups identity)) [
              | inr (_, f) ↦ absurd (ground arith)
              | inl (rest, f) ↦ elim (Bool-cases (contains mapping.username ec2_placeholder)) [
                | inl asks ↦ render_template-IsKnownInstance mapping.username identity text e asks
                | inr quiet ↦
                    render_groups-IsKnownInstance mapping.groups identity rest f (ground arith)
              ]
            ]
      ]
