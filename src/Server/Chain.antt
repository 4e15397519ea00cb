-- ===== src/Server/Chain.antt =====
-- pkg/server/server.go: `BuildMapperChain`. A config map's store and a cache's index are made by
-- clients of the API server, so their makers are a parameter.
use iam2kube.Shared.{
  String, ◌≡◌, true, List, [], ◌∷◌, map, Result, ok, err, ◌>>=◌, map_err, if◌then◌else◌, All, arith,
  Result-cases, inl, inr,
}
use iam2kube.Config.{Config}
use iam2kube.Arn.{ArnError}
use iam2kube.Arn.Format.{Sdk}
use iam2kube.Mapper.{
  Mapper, mode_file, mode_mounted_file, mode_config_map, mode_eks_config_map, mode_crd,
  is_valid_mode,
}
use iam2kube.Mapper.File.{new_file_mapper, file_mapper}
use iam2kube.Mapper.ConfigMap.{MapStore, config_map_mapper}
use iam2kube.Mapper.Crd.{Indexer, crd_mapper}
use text.Mathlib.Text.{◌==◌}
use text.Mathlib.TextEquality.{eq_iff}
use mathlib.Core.Path.{ap₂}
use mathlib.Core.Bool.{◌||◌}

pub data Cause : Type 0 where
  arn_error : ArnError → Cause
  client_error : String → Cause

pub data ChainError : Type 0 where
  creation_failed : String → Cause → ChainError
  not_valid : String → ChainError

-- `New` of the config map's store, and of the CRD's clients, informer and controller.
pub record Makers : Type 0 where
  pub new_map_store : Config → Result String MapStore
  pub new_indexer : Config → Result String Indexer

module _ (sdk : Sdk) (makers : Makers) (cfg : Config) where
  -- The `switch` on a mode
  unfoldable pub make_mapper : String → Result ChainError Mapper
  make_mapper mode =
      if mode == mode_file || mode == mode_mounted_file
      then map_err (λ e. creation_failed mode (arn_error e)) (new_file_mapper sdk cfg)
        >>= (λ m. ok (file_mapper m))
      else if mode == mode_config_map || mode == mode_eks_config_map
      then map_err (λ e. creation_failed mode (client_error e)) (makers.new_map_store cfg)
        >>= (λ ms. ok (config_map_mapper ms))
      else if mode == mode_crd
      then map_err (λ e. creation_failed mode (client_error e)) (makers.new_indexer cfg)
        >>= (λ i. ok (crd_mapper i))
      else err (not_valid mode)

  -- The loop over the modes
  unfoldable pub make_mappers : List String → Result ChainError (List Mapper)
  make_mappers [] = ok []
  make_mappers (mode ∷ modes) = do m ← make_mapper mode; ms ← make_mappers modes; ok (m ∷ ms)

  unfoldable pub build_mapper_chain : Result ChainError (List Mapper)
  unfolding make_mappers make_mapper new_file_mapper
  build_mapper_chain = make_mappers cfg.backend_mode

-- The name that a backend has under its old mode and under its new one.
pub current_name : String → String
current_name mode =
    if mode == mode_file
    then mode_mounted_file
    else if mode == mode_config_map
    then mode_eks_config_map
    else mode

module _ (sdk : Sdk) (makers : Makers) (cfg : Config) where
  make_mapper-name :
      (mode : String) (m : Mapper)
      → make_mapper sdk makers cfg mode ≡ ok m
      → m.name ≡ current_name mode
  unfolding make_mapper current_name file_mapper config_map_mapper crd_mapper
  make_mapper-name mode m h = ground (
    arith,
    eq_iff mode mode_file,
    eq_iff mode mode_mounted_file,
    eq_iff mode mode_config_map,
    eq_iff mode mode_eks_config_map,
    eq_iff mode mode_crd,
    eq_iff mode_mounted_file mode_config_map,
    eq_iff mode_eks_config_map mode_file,
    eq_iff mode_eks_config_map mode_config_map,
    eq_iff mode_crd mode_file,
    eq_iff mode_crd mode_config_map,
    eq_iff mode_config_map mode_file,
  )

  make_mapper-valid :
      (mode : String) (m : Mapper)
      → make_mapper sdk makers cfg mode ≡ ok m
      → is_valid_mode mode ≡ true
  unfolding make_mapper is_valid_mode
  make_mapper-valid mode m h = ground (
    arith,
    eq_iff mode mode_file,
    eq_iff mode_file mode,
    eq_iff mode mode_mounted_file,
    eq_iff mode_mounted_file mode,
    eq_iff mode mode_config_map,
    eq_iff mode_config_map mode,
    eq_iff mode mode_eks_config_map,
    eq_iff mode_eks_config_map mode,
    eq_iff mode mode_crd,
    eq_iff mode_crd mode,
  )

  make_mappers-names :
      (modes : List String) (ms : List Mapper)
      → make_mappers sdk makers cfg modes ≡ ok ms
      → (map (λ (m : Mapper). m.name) ms ≡ map current_name modes)
        × All (λ mode. is_valid_mode mode ≡ true) modes
  unfolding make_mappers
  make_mappers-names [] ms h = (ground arith, tt)
  make_mappers-names (mode ∷ modes) ms h = elim (Result-cases (make_mapper sdk makers cfg mode)) [
    | inr (_, e) ↦ absurd (ground arith)
    | inl (m, e) ↦ elim (Result-cases (make_mappers sdk makers cfg modes)) [
      | inr (_, e') ↦ absurd (ground arith)
      | inl (rest, e') ↦
          let same : m ∷ rest ≡ ms = ground arith in
          let (names, valid) = make_mappers-names modes rest e' in
          (
            rw (← same) (ap₂ (λ x xs. x ∷ xs) (make_mapper-name mode m e) names),
            (make_mapper-valid mode m e, valid),
          )
    ]
  ]

  -- Where a chain is built, its backends stand in the order of the configured modes, one for each,
  -- under their current names, and every mode is one of the five.
  pub build_mapper_chain-names :
      (ms : List Mapper)
      → build_mapper_chain sdk makers cfg ≡ ok ms
      → (map (λ (m : Mapper). m.name) ms ≡ map current_name cfg.backend_mode)
        × All (λ mode. is_valid_mode mode ≡ true) cfg.backend_mode
  build_mapper_chain-names ms h =
      make_mappers-names cfg.backend_mode ms (unfold build_mapper_chain in h)
