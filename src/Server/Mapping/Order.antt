-- ===== src/Server/Mapping/Order.antt =====
-- The first backend that maps the ARN, or allows its account, decides; the others only add errors.
use iam2kube.Shared.{
  String, ◌≡◌, refl, ◌∙◌, ap, true, false, List, [], ◌∷◌, ◌++◌, Result, ok, err, All, map_err, sym,
  ◌↔◌, inl, inr, Result-cases, Bool-cases,
}
use mathlib.Core.Path.{subst}
use mathlib.Core.List.{append-nil}
use iam2kube.Shared.Text.{to_lower}
use iam2kube.Config.{IdentityMapping}
use iam2kube.Token.{Identity}
use iam2kube.Mapper.{Mapper, MapError}
use iam2kube.Server.Render.{render_templates}
use iam2kube.Server.Mapping.{
  MappingError, render_failed, note_error, none_mapped, found, search_mappers, do_mapping,
}

-- The backend neither maps the ARN nor allows the account.
abbrev pub Passes : Identity → Mapper → Type 0
Passes identity m =
    ((e : MapError) × (m.map_arn (to_lower identity.canonical_arn) ≡ err e))
    × (m.is_account_allowed identity.account_id ≡ false)

-- What the failures of some backends leave in the list of errors.
pub errors_of : String → List Mapper → List (String × String) → List (String × String)
errors_of arn [] errs = errs
errors_of arn (m ∷ ms) errs = elim (m.map_arn arn) [
  | ok _ ↦ errors_of arn ms errs
  | err e ↦ errors_of arn ms (note_error m.name e errs)
]

module _ (dns : String → Result String String) (identity : Identity) where
  search-append :
      (ms rest : List Mapper) (errs : List (String × String))
      → All (Passes identity) ms
      → search_mappers dns identity (to_lower identity.canonical_arn) errs (ms ++ rest)
        ≡ search_mappers dns identity
            (to_lower identity.canonical_arn)
            (errors_of (to_lower identity.canonical_arn) ms errs)
            rest
  unfolding search_mappers errors_of
  search-append [] rest errs h = refl
  search-append (m ∷ ms) rest errs (((e, missed), refused), h) =
      rw (missed, search_mappers, errors_of, refused)
        (search-append ms rest (note_error m.name e errs) h)

  -- How the search ends: by a mapping, by an allowed account, or by no backend at all.
  pub data Decides (errs : List (String × String)) (ms : List Mapper)
      (r : Result MappingError (String × List String)) : Type 0 where
    by_mapping :
        (before after : List Mapper) (m : Mapper) (mapping : IdentityMapping)
        → ms ≡ before ++ (m ∷ after)
        → All (Passes identity) before
        → m.map_arn (to_lower identity.canonical_arn) ≡ ok mapping
        → r ≡ map_err (render_failed m.name) (render_templates dns mapping identity)
        → Decides errs ms r
    by_account :
        (before after : List Mapper) (m : Mapper) (e : MapError)
        → ms ≡ before ++ (m ∷ after)
        → All (Passes identity) before
        → m.map_arn (to_lower identity.canonical_arn) ≡ err e
        → m.is_account_allowed identity.account_id ≡ true
        → r ≡ ok (identity.canonical_arn, [])
        → Decides errs ms r
    by_none :
        All (Passes identity) ms
        → r ≡ err (none_mapped (errors_of (to_lower identity.canonical_arn) ms errs))
        → Decides errs ms r

  Decides-cons :
      (m : Mapper) (e : MapError) (errs : List (String × String)) (ms : List Mapper)
      (r : Result MappingError (String × List String))
      → m.map_arn (to_lower identity.canonical_arn) ≡ err e
      → m.is_account_allowed identity.account_id ≡ false
      → Decides (note_error m.name e errs) ms r
      → Decides errs (m ∷ ms) r
  Decides-cons m e errs ms r missed refused
        (by_mapping before after n mapping split passed mapped eq) =
      by_mapping (m ∷ before) after n mapping (ap (λ l. m ∷ l) split)
        (((e, missed), refused), passed) mapped eq
  Decides-cons m e errs ms r missed refused
        (by_account before after n f split passed missed' allowed eq) =
      by_account (m ∷ before) after n f (ap (λ l. m ∷ l) split) (((e, missed), refused), passed)
        missed' allowed eq
  Decides-cons m e errs ms r missed refused (by_none passed eq) =
      by_none (((e, missed), refused), passed) (eq ∙ unfold errors_of in rw (missed, errors_of))

  search_step :
      (m : Mapper) (e : MapError) (errs : List (String × String)) (ms : List Mapper)
      → m.map_arn (to_lower identity.canonical_arn) ≡ err e
      → m.is_account_allowed identity.account_id ≡ false
      → search_mappers dns identity (to_lower identity.canonical_arn) errs (m ∷ ms)
        ≡ search_mappers dns identity
            (to_lower identity.canonical_arn)
            (note_error m.name e errs)
            ms
  unfolding search_mappers
  search_step m e errs ms missed refused = rw (missed, search_mappers) (rw refused)

  search_mappers-Decides :
      (ms : List Mapper) (errs : List (String × String))
      → Decides errs ms (search_mappers dns identity (to_lower identity.canonical_arn) errs ms)
  search_mappers-Decides [] errs = by_none tt (unfold search_mappers errors_of in refl)
  search_mappers-Decides (m ∷ ms) errs =
      elim (Result-cases (m.map_arn (to_lower identity.canonical_arn))) [
        | inl (mapping, e) ↦
            by_mapping [] ms m mapping refl tt e
              (unfold search_mappers found in rw (e, search_mappers))
        | inr (e, missed) ↦ elim (Bool-cases (m.is_account_allowed identity.account_id)) [
          | inl allowed ↦
              by_account [] ms m e refl tt missed allowed
                (unfold search_mappers in rw (missed, search_mappers) (rw allowed))
          | inr refused ↦ Decides-cons m e errs ms _ missed refused (
              rw (search_step m e errs ms missed refused)
                (search_mappers-Decides ms (note_error m.name e errs)))
        ]
      ]

  -- The search ends with a result exactly when a first deciding backend gives it, or when no
  -- backend decides and it reports their failures, or that the ARN is not mapped.
  pub do_mapping_iff :
      (ms : List Mapper) (r : Result MappingError (String × List String))
      → (do_mapping dns identity ms ≡ r) ↔ Decides [] ms r
  unfolding do_mapping
  do_mapping_iff ms r = (λ h. subst (Decides [] ms) h (search_mappers-Decides ms []), from)
    where
      from :
          Decides [] ms r → search_mappers dns identity (to_lower identity.canonical_arn) [] ms ≡ r
      from (by_mapping before after m mapping split passed mapped eq) =
          rw split
            (search-append before (m ∷ after) [] passed ∙ rw (mapped, search_mappers) (sym eq))
      from (by_account before after m e split passed missed allowed eq) = rw split (
          search-append before (m ∷ after) [] passed
          ∙ rw (missed, search_mappers) (rw allowed (sym eq)))
      from (by_none passed eq) =
          ap (search_mappers dns identity (to_lower identity.canonical_arn) [])
            (sym (append-nil ms))
          ∙ search-append ms [] [] passed
          ∙ sym eq
