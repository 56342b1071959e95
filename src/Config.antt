-- ===== src/Config.antt =====
-- internal/config/config.go: the parts of the configuration that decide which teams, editors and
-- environments there are, and the names of the storage kinds of internal/storage/registry.go.
pub mod Declared
pub mod Startup
pub mod Kinds
pub mod Agreement
use goff_studio.Base.{
  ℕ, Bool, true, false, List, [], ◌∷◌, ◌++◌, any, if◌then◌else◌, ◌==◌, Text, text_eq, codes,
  trim_space,
}
use goff_studio.Permissions.{Rule}

pub record Team : Type 0 where
  pub name : Text
  pub editors : List Text

pub record Github : Type 0 where
  pub owner : Text
  pub repo : Text
  pub branch : Text
  pub app_id : Text
  pub installation_id : Text
  pub private_key_path : Text
  pub dev_token : Text

pub record Config : Type 0 where
  pub kind : Text
  pub backend : Text
  pub bucket : Text
  pub github : Github
  pub protected_environments : List Text
  pub teams : List Team
  pub permissions : List Rule
  pub poll_seconds : ℕ
  pub layout : Text

-- NoTeamFile
abbrev pub no_team_file : Text
no_team_file = codes "flags"

abbrev pub layout_team_files : Text
layout_team_files = codes "team-files"

abbrev pub layout_single_file : Text
layout_single_file = codes "single-file"

-- SingleFile
unfoldable pub single_file : Config → Bool
single_file c = c.layout == layout_single_file

-- IsProtected
unfoldable pub is_protected : Config → Text → Bool
is_protected c environment = any (λ name. name == environment) c.protected_environments

-- DeclaresTeam
unfoldable pub declares_team : Config → Text → Bool
declares_team c name = any (λ t. t.name == name) c.teams

unfoldable pub names_of : List Team → List Text
names_of [] = []
names_of (t ∷ ts) = t.name ∷ names_of ts

-- TeamNames
unfoldable pub team_names : Config → List Text
team_names c = names_of c.teams

-- The inner loop of Rules: a rule for each editor group of the team.
unfoldable pub editor_rules : Text → List Text → List Rule
editor_rules team [] = []
editor_rules team (g ∷ gs) =
    record { group = trim_space g; teams = team ∷ []; environments = []; actions = [] }
    ∷ editor_rules team gs

unfoldable pub team_rules : List Team → List Rule
team_rules [] = []
team_rules (t ∷ ts) = editor_rules t.name t.editors ++ team_rules ts

-- Rules
unfoldable pub rules : Config → List Rule
rules c = c.permissions ++ team_rules c.teams
