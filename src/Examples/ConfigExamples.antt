-- ===== src/Examples/ConfigExamples.antt =====
-- internal/config/config.go and the names of service.go on small configurations.
use goff_studio.Base.{
  ◌≡◌, refl, Bool, ◌==◌, ap, ==_iff, text_eq, true, false, ℕ, [], ◌∷◌, none, ◌⊎◌, ◌≢◌, Text, codes,
  here, there, trim_space, trim_left, is_space, list_beq, contains,
}
use goff_studio.Config.{Config, single_file}
use goff_studio.Config.Startup.{
  validate_teams, check_teams, check_editors, is_environment_name, is_alphanumeric, is_name_rune,
  all_name_runes,
}
use goff_studio.Config.Kinds.{kind_github, uses_github}
use goff_studio.Config.Agreement.{uses_github-resolve_kind}
use goff_studio.Config.Declared.{WellNamed, validate_teams-WellNamed}
use goff_studio.Storage.FileBackend.{Disk}
use goff_studio.Service.{owner, team_file_for}
use goff_studio.Service.Owned.{owner-team_file_for}
use goff_studio.Service.Memory.{snapshot, remember, State}
use goff_studio.Service.Memory.Recall.{last_flag, snapshot-remember, snapshot-remember_other}
use goff_studio.Examples.OneLine.{config_of, start_with, flag_named, core_path}

abbrev written : Config
written = record (config_of (codes "team-files")) {
  teams =
      record { name = codes " core "; editors = codes "devs" ∷ [] }
      ∷ record { name = codes "growth-2"; editors = [] }
      ∷ [];
}

abbrev checked : Config
checked = record written {
  teams =
      record { name = codes "core"; editors = codes "devs" ∷ [] }
      ∷ record { name = codes "growth-2"; editors = [] }
      ∷ [];
}

validate_teams-WellNamed_example : WellNamed [] checked.teams
unfolding validate_teams check_teams check_editors is_environment_name is_alphanumeric is_name_rune
    all_name_runes trim_space trim_left is_space list_beq contains
validate_teams-WellNamed_example = validate_teams-WellNamed written checked refl

owner-team_file_for_example :
    owner checked (team_file_for checked (codes "dev") (codes "growth-2")) (codes "core")
    ≡ codes "growth-2"
unfolding validate_teams check_teams check_editors is_environment_name is_alphanumeric is_name_rune
    all_name_runes trim_space trim_left is_space list_beq contains single_file
owner-team_file_for_example =
    owner-team_file_for written checked refl refl (codes "dev") (codes "core") (codes "growth-2")
      (there (here refl))

snapshot-remember_example :
    snapshot core_path (codes "v1") (codes "beta") (
      remember core_path
        (codes "v1")
        (flag_named core_path true (codes "beta") ∷ flag_named core_path false (codes "beta") ∷ [])
        (start_with []))
    ≡ last_flag none
        (flag_named core_path true (codes "beta") ∷ flag_named core_path false (codes "beta") ∷ [])
        (codes "beta")
snapshot-remember_example =
    snapshot-remember core_path (codes "v1")
      (flag_named core_path true (codes "beta") ∷ flag_named core_path false (codes "beta") ∷ [])
      (codes "beta") (start_with [])

abbrev once : State ℕ Text ℕ Disk
once =
    remember core_path (codes "v1") (flag_named core_path true (codes "beta") ∷ []) (start_with [])

snapshot-remember_other_example :
    (snapshot core_path (codes "v1") (codes "beta") (remember core_path (codes "v2") [] once)
      ≡ snapshot core_path (codes "v1") (codes "beta") once)
    ⊎ ((snapshot core_path (codes "v1") (codes "beta") (remember core_path (codes "v2") [] once)
          ≡ none)
        × (codes "v1" ≢ codes "v2"))
unfolding list_beq
snapshot-remember_other_example =
    snapshot-remember_other core_path (codes "v2") [] once core_path (codes "v1") (codes "beta")
      (λ e. absurd (cc ((==_iff (codes "v2") (codes "v1")).1 (ap (λ k. k.sha) e))))

abbrev same_text : Text → Text → Bool
same_text s t = s == t

uses_github-resolve_kind_example : uses_github same_text [] written ≡ (codes "file" == kind_github)
unfolding goff_studio.Config.Kinds.resolve_kind trim_space goff_studio.Config.Kinds.named_kind
    goff_studio.Config.Kinds.canonical goff_studio.Config.Kinds.legacy_kind list_beq
    goff_studio.Base.to_lower goff_studio.Config.Kinds.known_as
uses_github-resolve_kind_example = uses_github-resolve_kind same_text [] written (codes "file") refl
