-- ===== src/Command/Server/Laws.antt =====
-- What the checks of the configuration leave to go wrong.
use iam2kube.Shared.{
  String, ◌≡◌, refl, sym, ap, ◌∙◌, true, Option, none, some, List, [], ◌∷◌, ok, err, Result-cases,
  inl, inr, arith, All, member, str_eq_refl,
}
use iam2kube.Arn.Format.{Sdk}
use iam2kube.Config.{Config}
use iam2kube.Mapper.{
  Mapper, is_valid_mode, mode_file, mode_config_map, mode_mounted_file, mode_eks_config_map,
  mode_crd,
}
use iam2kube.Server.Chain.{
  ChainError, Makers, creation_failed, not_valid, make_mapper, make_mappers, build_mapper_chain,
}
use mathlib.Core.Path.{subst}
use iam2kube.Config.Files.{Crypto, System, Files}
use iam2kube.Server.Start.{Outside}
use iam2kube.Command.Root.{Viper, get_config}
use iam2kube.Command.Root.Laws.{get_config_iff}
use iam2kube.Command.Server.{server_run, serve_mappers, no_chain}
use text.Mathlib.TextEquality.{eq_iff}

-- The mode of the backend that could not be made; none for a mode that is not known.
abbrev pub failed_mode : ChainError → Option String
failed_mode (creation_failed mode _) = some mode
failed_mode (not_valid _) = none

make_mapper-cause :
    (sdk : Sdk) (makers : Makers) (c : Config) (mode : String) (e : ChainError)
    → is_valid_mode mode ≡ true
    → make_mapper sdk makers c mode ≡ err e
    → failed_mode e ≡ some mode
unfolding make_mapper is_valid_mode
make_mapper-cause sdk makers c mode e valid h = ground (
  arith,
  eq_iff mode mode_file,
  eq_iff mode_file mode,
  eq_iff mode mode_mounted_file,
  eq_iff mode_mounted_file mode,
  eq_iff mode mode_config_map,
  eq_iff mode_config_map mode,
  eq_iff mode mode_eks_config_map,
  eq_iff mode_eks_config_map mode,
  eq_iff mode mode_crd,
  eq_iff mode_crd mode,
)

make_mappers-cause :
    (sdk : Sdk) (makers : Makers) (c : Config) (modes : List String) (e : ChainError)
    → All (λ mode. is_valid_mode mode ≡ true) modes
    → make_mappers sdk makers c modes ≡ err e
    → (mode : String) × (failed_mode e ≡ some mode) × (member modes mode ≡ true)
unfolding make_mappers
make_mappers-cause sdk makers c [] e valid h = absurd (ground arith)
make_mappers-cause sdk makers c (mode ∷ modes) e (first, valid) h =
    elim (Result-cases (make_mapper sdk makers c mode)) [
      | inr (e', failed) ↦
          let same : e' ≡ e = ground (arith, failed) in
          (
            mode,
            ap failed_mode (sym same) ∙ make_mapper-cause sdk makers c mode e' first failed,
            rw (str_eq_refl mode) refl,
          )
      | inl (_, made) ↦ elim (Result-cases (make_mappers sdk makers c modes)) [
        | inl (_, made') ↦ absurd (ground (arith, made, made'))
        | inr (e', failed) ↦
            let same : e' ≡ e = ground (arith, made, failed) in
            let (other, is_failed, is_member) =
              make_mappers-cause sdk makers c modes e' valid failed in
            (other, ap failed_mode (sym same) ∙ is_failed, ground (arith, is_member))
      ]
    ]

-- A run of the server that stops at its backends stops because the making of one of its configured
-- backends failed, never over a mode that is not known: the configuration has been checked.
pub server_run-no_chain :
    (outside : Outside) (makers : Makers) (starts : Mapper → Option String) (crypto : Crypto)
    (system : System) (viper : Viper) (files : Files) (e : ChainError)
    → (server_run outside makers starts crypto system viper files).0 ≡ err (no_chain e)
    → (c : Config) × (get_config outside.arns.partitions viper ≡ ok c)
      × (mode : String) × (failed_mode e ≡ some mode)
      × (member c.backend_mode mode ≡ true)
unfolding server_run serve_mappers build_mapper_chain
server_run-no_chain outside makers starts crypto system viper files e h =
    elim (Result-cases (get_config outside.arns.partitions viper)) [
      | inr (_, refused) ↦ absurd (ground (arith, refused))
      | inl (c, has) ↦ elim (Result-cases (build_mapper_chain outside.arns makers c)) [
        | inl (_, made) ↦ absurd (ground (arith, has, made))
        | inr (e', failed) ↦
            let same : e' ≡ e = ground (arith, has, failed) in
            let reads = (get_config_iff outside.arns.partitions viper c).0 has in
            let modes =
              subst (λ (d : Config). All (λ mode. is_valid_mode mode ≡ true) d.backend_mode)
                reads.filled reads.valid.known_modes in
            let (mode, is_failed, is_member) =
              make_mappers-cause outside.arns makers c c.backend_mode e' modes
                (unfold build_mapper_chain in failed) in
            (c, has, mode, ap failed_mode (sym same) ∙ is_failed, is_member)
      ]
    ]
