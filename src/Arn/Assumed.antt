-- ===== src/Arn/Assumed.antt =====
-- Resources of assumed roles, `assumed-role/ROLE/SESSION`, split into parts and joined again.
use mathlib.Core.Path.{subst}
use text.Mathlib.TextLemmas.{nil-append, cons-append}
use iam2kube.Shared.{
  ◌<◌, String, ◌<>◌, ◌≡◌, refl, ap, ◌∙◌, false, List, [], ◌∷◌, ◌++◌, ok, All, ltb, length, arith,
}
use iam2kube.Shared.Text.{split, join}
use iam2kube.Shared.Text.Split.{
  Free, split-append, split-append_last, join-append_last, join-split, split-NotNil, NotNil,
}
use iam2kube.Arn.Format.{Arn}
use iam2kube.Arn.{first_part, drop_last, middle, slash, role_arn, canonicalize_sts}

drop_last-append : (xs : List String) (x : String) → drop_last (xs ++ (x ∷ [])) ≡ xs
unfolding drop_last
drop_last-append [] x = refl
drop_last-append (y ∷ []) x = refl
drop_last-append (y ∷ z ∷ xs) x = ap (λ r. y ∷ r) (drop_last-append (z ∷ xs) x)

-- A list that is not empty is its front and its last part.
drop_last-last : (xs : List String) → NotNil xs → (x : String) × (xs ≡ drop_last xs ++ (x ∷ []))
unfolding drop_last
drop_last-last [] h = elim h [ ]
drop_last-last (x ∷ []) h = (x, refl)
drop_last-last (x ∷ y ∷ xs) h = let (z, e) = drop_last-last (y ∷ xs) tt in (z, ap (λ r. x ∷ r) e)

pub slash-append : (s : String) → "/" <> s ≡ String.◌∷◌ "/" s
slash-append s = cons-append "/" "" s ∙ ap (λ r. String.◌∷◌ "/" r) (nil-append s)

-- A resource `assumed-role/ROLE/SESSION`; the role may hold slashes of its own.
abbrev pub assumed_role : String → String → String
assumed_role role session = "assumed-role" <> ("/" <> (role <> ("/" <> session)))

split-assumed_role :
    (role session : String)
    → Free slash session
    → split (assumed_role role session) slash
      ≡ "assumed-role" ∷ (split role slash ++ (session ∷ []))
split-assumed_role role session h =
    rw (slash-append (role <> ("/" <> session)), slash-append session)
      (split-append "assumed-role" (role <> (String.◌∷◌ slash session)) slash word
        ∙ ap (λ r. "assumed-role" ∷ r) (split-append_last role session slash h))
  where
    word : Free slash "assumed-role"
    word = ground arith

pub middle-assumed_role :
    (role session : String)
    → Free slash session
    → join (middle (split (assumed_role role session) slash)) "/" ≡ role
middle-assumed_role role session h =
    rw (split-assumed_role role session h)
      (rw (drop_last-append (split role slash) session) (join-split role slash))

length-append_two : (xs : List String) (x : String) → NotNil xs → 1 < length (xs ++ (x ∷ []))
length-append_two [] x h = elim h [ ]
length-append_two (y ∷ []) x h = omega arith
length-append_two (y ∷ z ∷ xs) x h = omega (arith, length-append_two (z ∷ xs) x tt)

enough_parts :
    (role session : String)
    → Free slash session
    → ltb (length (split (assumed_role role session) slash)) 3 ≡ false
enough_parts role session h =
    rw (split-assumed_role role session h)
      (ground (arith, length-append_two (split role slash) session (split-NotNil role slash)))

pub canonicalize_sts-assumed_role :
    (arn : String) (a : Arn) (role session : String)
    → a.resource ≡ assumed_role role session
    → Free slash session
    → canonicalize_sts arn a (split a.resource slash) ≡ ok (role_arn a.partition a.account_id role)
unfolding canonicalize_sts
canonicalize_sts-assumed_role arn a role session e h = rw e (
    rw (ap first_part (split-assumed_role role session h))
      (rw (enough_parts role session h) (rw (middle-assumed_role role session h))))

All_last {ℓ} : {A : Type ℓ} (P : A → Type 0) (xs : List A) (x : A) → All P (xs ++ (x ∷ [])) → P x
All_last P [] x h = h.0
All_last P (y ∷ xs) x h = All_last P xs x h.1

-- The parts after the first: a front, joined again, and a last part with no slash.
join_front :
    (y z : String) (xs : List String)
    → All (Free slash) (y ∷ z ∷ xs)
    → (last : String) × Free slash last
      × (join (y ∷ z ∷ xs) "/" ≡ join (drop_last (y ∷ z ∷ xs)) "/" <> ("/" <> last))
unfolding drop_last
join_front y z xs f =
    let (last, e) = drop_last-last (y ∷ z ∷ xs) tt in
    (
      last,
      All_last (Free slash) (drop_last (y ∷ z ∷ xs)) last (subst (All (Free slash)) e f),
      ap (λ (l : List String). join l "/") e
          ∙ join-append_last (drop_last (y ∷ z ∷ xs)) last "/" tt,
    )

-- A resource of three parts or more, the first of them "assumed-role".
pub assumed_parts :
    (parts : List String)
    → first_part parts ≡ "assumed-role"
    → ltb (length parts) 3 ≡ false
    → All (Free slash) parts
    → (session : String) × Free slash session
      × (join parts "/" ≡ assumed_role (join (middle parts) "/") session)
assumed_parts [] e h f = absurd (ground arith)
assumed_parts (x ∷ []) e h f = absurd (ground arith)
assumed_parts (x ∷ y ∷ []) e h f = absurd (ground arith)
assumed_parts (x ∷ y ∷ z ∷ xs) e h f =
    let (last, free, j) = join_front y z xs f.1 in
    (
      last,
      free,
      unfold join in
          ap (λ (l : String). l <> ("/" <> join (y ∷ z ∷ xs) "/")) e
          ∙ ap (λ (l : String). "assumed-role" <> ("/" <> l)) j,
    )
