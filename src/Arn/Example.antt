-- ===== src/Arn/Example.antt =====
-- An SDK with a concrete parser and two partitions: it meets what `ParsesArns` asks for.
use text.Mathlib.TextLemmas.{nil-append, cons-append}
use mathlib.Core.Option
use mathlib.Core.Path.{subst}
use iam2kube.Shared.{
  String, ◌<>◌, ◌≡◌, ap, ◌∙◌, inl, inr, Option, none, some, [], ◌∷◌, Result, ok, err, if◌then◌else◌,
  Bool-cases, Option-cases, arith,
}
use iam2kube.Shared.Text.{char_eq, strip_prefix}
use iam2kube.Shared.Text.Split.{Free, char_eq_sound}
use iam2kube.Shared.Text.Prefix.{strip_prefix-append, strip_prefix_sound}
use iam2kube.Arn.Format.{Sdk, Arn, arn_text, HasSections, ParsesArns, colon}

-- The text before the first colon, and the text after it.
cut : String → Option (String × String)
cut String.[] = none
cut (String.◌∷◌ c s) =
    if char_eq c colon then some ("", s) else Option.map (λ p. (String.◌∷◌ c p.0, p.1)) (cut s)

cut-append : (x s : String) → Free colon x → cut (x <> (":" <> s)) ≡ some (x, s)
unfolding cut
cut-append String.[] s h = rw (nil-append, cons-append) (rw nil-append)
cut-append (String.◌∷◌ c x) s (e, h) = rw cons-append (rw (e, cut-append x s h))

cut_sound : (s x r : String) → cut s ≡ some (x, r) → (s ≡ x <> (":" <> r)) × Free colon x
unfolding cut
cut_sound String.[] x r h = cc
cut_sound (String.◌∷◌ c s) x r h = elim (Bool-cases (char_eq c colon)) [
  | inl e ↦
      let found : some ("", s) ≡ some (x, r) = rw (e, cut) at h in
      let left : "" ≡ x = cc in
      (
        subst (λ y. String.◌∷◌ c s ≡ y <> (":" <> r)) left
            (rw (nil-append, cons-append, nil-append, char_eq_sound c colon e) (cc)),
        subst (Free colon) left tt,
      )
  | inr e ↦ elim (Option-cases (cut s)) [
    | inl missed ↦ absurd (ground arith)
    | inr ((y, q), found) ↦
        let (text, free) = cut_sound s y q found in
        let both : some (String.◌∷◌ c y, q) ≡ some (x, r) = rw (e, found, cut) at h in
        let left : String.◌∷◌ c y ≡ x = cc in
        let right : q ≡ r = cc in
        (
          subst (λ z. String.◌∷◌ c s ≡ z <> (":" <> r)) left
              (rw (cons-append, ← right) (ap (λ t. String.◌∷◌ c t) text)),
          subst (Free colon) left (e, free),
        )
  ]
]

-- Five colons: one after the prefix "arn", and one after each section but the last.
after_region : String → String → String → String → Option Arn
after_region p v g s =
    Option.map
      (λ q. record { partition = p; service = v; region = g; account_id = q.0; resource = q.1 })
      (cut s)

after_service : String → String → String → Option Arn
after_service p v s = elim (cut s) [ none ↦ none | some (g, r) ↦ after_region p v g r ]

after_partition : String → String → Option Arn
after_partition p s = elim (cut s) [ none ↦ none | some (v, r) ↦ after_service p v r ]

after_prefix : String → Option Arn
after_prefix s = elim (cut s) [ none ↦ none | some (p, r) ↦ after_partition p r ]

unfoldable pub parse : String → Result String Arn
unfolding cut after_region after_service after_partition after_prefix strip_prefix
parse s = elim (strip_prefix "arn:" s) [
  | none ↦ err "arn: invalid prefix"
  | some r ↦ elim (after_prefix r) [ none ↦ err "arn: not enough sections" | some a ↦ ok a ]
]

parse_complete : (a : Arn) → HasSections a → parse (arn_text a) ≡ ok a
unfolding arn_text parse
parse_complete a h =
    rw (strip_prefix-append "arn:", parse)
      (rw (cut-append a.partition _ h.partition, parse, after_prefix)
        (rw (cut-append a.service _ h.service, parse, after_partition)
          (rw (cut-append a.region _ h.region, parse, after_service)
            (rw (cut-append a.account_id _ h.account_id, parse, after_region)))))

after_region_sound :
    (p v g s : String) (a : Arn)
    → after_region p v g s ≡ some a
    → (s ≡ a.account_id <> (":" <> a.resource))
      × Free colon a.account_id
      × (p ≡ a.partition)
      × (v ≡ a.service)
      × (g ≡ a.region)
after_region_sound p v g s a h = elim (Option-cases (cut s)) [
  | inl missed ↦ absurd (unfold after_region in ground arith)
  | inr ((i, r), found) ↦
      let (text, free) = cut_sound s i r found in
      let e : some (record { partition = p; service = v; region = g; account_id = i; resource = r })
          ≡ some a =
        unfold after_region in rw (found, after_region) at h in
      let e_i : i ≡ a.account_id = ground arith in
      let e_r : r ≡ a.resource = ground arith in
      (
        rw (← e_i, ← e_r) text,
        subst (Free colon) e_i free,
        ground arith,
        ground arith,
        ground arith,
      )
]

after_service_sound :
    (p v s : String) (a : Arn)
    → after_service p v s ≡ some a
    → (s ≡ a.region <> (":" <> (a.account_id <> (":" <> a.resource))))
      × Free colon a.region
      × Free colon a.account_id
      × (p ≡ a.partition)
      × (v ≡ a.service)
after_service_sound p v s a h = elim (Option-cases (cut s)) [
  | inl missed ↦ absurd (unfold after_service in ground arith)
  | inr ((g, r), found) ↦
      let (text, free) = cut_sound s g r found in
      let (rest, free', e_p, e_v, e_g) =
        after_region_sound p v g r a (unfold after_service in rw (found, after_service) at h) in
      (rw (← rest, ← e_g) text, subst (Free colon) e_g free, free', e_p, e_v)
]

after_partition_sound :
    (p s : String) (a : Arn)
    → after_partition p s ≡ some a
    → (s ≡ a.service <> (":" <> (a.region <> (":" <> (a.account_id <> (":" <> a.resource))))))
      × Free colon a.service
      × Free colon a.region
      × Free colon a.account_id
      × (p ≡ a.partition)
after_partition_sound p s a h = elim (Option-cases (cut s)) [
  | inl missed ↦ absurd (unfold after_partition in ground arith)
  | inr ((v, r), found) ↦
      let (text, free) = cut_sound s v r found in
      let (rest, free1, free2, e_p, e_v) =
        after_service_sound p v r a (unfold after_partition in rw (found, after_partition) at h) in
      (rw (← rest, ← e_v) text, subst (Free colon) e_v free, free1, free2, e_p)
]

after_prefix_sound :
    (s : String) (a : Arn) → after_prefix s ≡ some a → ("arn:" <> s ≡ arn_text a) × HasSections a
unfolding arn_text
after_prefix_sound s a h = elim (Option-cases (cut s)) [
  | inl missed ↦ absurd (unfold after_prefix in ground arith)
  | inr ((p, r), found) ↦
      let (text, free) = cut_sound s p r found in
      let (rest, free1, free2, free3, e_p) =
        after_partition_sound p r a (unfold after_prefix in rw (found, after_prefix) at h) in
      (
        ap (λ (t : String). "arn:" <> t) (rw (← rest, ← e_p) text),
        record {
          partition = subst (Free colon) e_p free;
          service = free1;
          region = free2;
          account_id = free3;
        },
      )
]

parse_sound : (s : String) (a : Arn) → parse s ≡ ok a → (s ≡ arn_text a) × HasSections a
parse_sound s a h = elim (Option-cases (strip_prefix "arn:" s)) [
  | inl missed ↦ absurd (unfold parse in ground arith)
  | inr (r, found) ↦ elim (Option-cases (after_prefix r)) [
    | inl missed ↦ absurd (unfold parse in ground arith)
    | inr (b, cutted) ↦
        let e : ◌≡◌ {A = Result String Arn} (ok b) (ok a) =
          unfold parse in rw (found, parse, cutted) at h in
        let same : b ≡ a = cc in
        let (text, known) = after_prefix_sound r a (cutted ∙ ap some same) in
        (strip_prefix_sound "arn:" s r found ∙ text, known)
  ]
]

abbrev pub sdk : Sdk
sdk = record { parse = parse; partitions = "aws" ∷ "aws-cn" ∷ "aws-us-gov" ∷ [] }

pub sdk-ParsesArns : ParsesArns sdk
sdk-ParsesArns = record {
  complete = parse_complete;
  sound_text = λ s a h. (parse_sound s a h).0;
  sound_sections = λ s a h. (parse_sound s a h).1;
}
