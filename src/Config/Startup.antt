-- ===== src/Config/Startup.antt =====
-- The checks that a configuration passes at the start of the program, over parameters for the files
-- it names and the backends that are compiled in. The texts of warnings are left out.
use goff_studio.Base.{
  ℕ, Bool, true, false, not, ◌&&◌, ◌||◌, List, [], ◌∷◌, contains, leb, if◌then◌else◌, ◌==◌, nat_eq,
  Text, text_eq, codes, is_empty, trim_space, to_lower, contains_text, Result, ok, ◌>>=◌, ◌>>◌,
  refuse_if,
}
use goff_studio.Config.{Team, Github, Config, no_team_file, layout_team_files, layout_single_file}

pub data ConfigError : Type 0 where
  unusable_name repeated reserved_name empty_editor : Text → ConfigError
  required : Text → ConfigError
  contains_slash not_numeric unreadable : Text → ConfigError
  unknown_layout : Text → ConfigError
  not_positive : ConfigError
  app_unset : List Text → ConfigError
  two_kinds : Text → Text → ConfigError
  not_compiled_in : Text → ConfigError

unfoldable pub is_alphanumeric : ℕ → Bool
is_alphanumeric r = leb b'a' r && leb r b'z' || leb b'A' r && leb r b'Z' || leb b'0' r && leb r b'9'

-- The class in which environmentName repeats.
unfoldable pub is_name_rune : ℕ → Bool
is_name_rune r = is_alphanumeric r || r == b'.' || r == b'_' || r == b'-'

unfoldable pub all_name_runes : Text → Bool
all_name_runes [] = true
all_name_runes (r ∷ s) = is_name_rune r && all_name_runes s

-- environmentName.MatchString
unfoldable pub is_environment_name : Text → Bool
is_environment_name [] = false
is_environment_name (r ∷ s) = is_alphanumeric r && all_name_runes s

unfoldable pub all_digits : Text → Bool
all_digits [] = true
all_digits (r ∷ s) = leb b'0' r && leb r b'9' && all_digits s

-- isDigits
unfoldable pub is_digits : Text → Bool
is_digits s = not (is_empty s) && all_digits s

-- The loop of validateEnvironments, over the names seen so far.
unfoldable pub check_protected : List Text → List Text → Result ConfigError (Unit {0})
check_protected seen [] = ok tt
check_protected seen (name ∷ names) = do
  refuse_if (not (is_environment_name name)) (unusable_name name)
  refuse_if (contains seen name) (repeated name)
  check_protected (name ∷ seen) names

-- validateEnvironments
unfoldable pub validate_environments : Config → Result ConfigError (Unit {0})
validate_environments c = check_protected [] c.protected_environments

-- The inner loop of validateTeams.
unfoldable pub check_editors : Text → List Text → Result ConfigError (Unit {0})
check_editors team [] = ok tt
check_editors team (g ∷ gs) = do
  refuse_if (is_empty (trim_space g)) (empty_editor team)
  check_editors team gs

-- The loop of validateTeams: the teams with their names trimmed.
unfoldable pub check_teams : List Text → List Team → Result ConfigError (List Team)
check_teams seen [] = ok []
check_teams seen (t ∷ ts) = do
  let name = trim_space t.name
  refuse_if (not (is_environment_name name)) (unusable_name t.name)
  refuse_if (name == no_team_file) (reserved_name name)
  refuse_if (contains seen name) (repeated name)
  check_editors name t.editors
  rest ← check_teams (name ∷ seen) ts
  ok (record t { name = name } ∷ rest)

-- validateTeams
unfoldable pub validate_teams : Config → Result ConfigError Config
validate_teams c = do teams ← check_teams [] c.teams; ok (record c { teams = teams })

-- The layout that validateLayout keeps, by the trimmed text in lower case.
unfoldable pub layout_of : Text → Text
layout_of text = if is_empty text then layout_team_files else text

-- validateLayout
unfoldable pub validate_layout : Config → Result ConfigError Config
validate_layout c = do
  let layout = layout_of (to_lower (trim_space c.layout))
  refuse_if (not (layout == layout_team_files) && not (layout == layout_single_file))
      (unknown_layout c.layout)
  ok (record c { layout = layout })

-- The list `missing` of validateGitHub.
unfoldable pub missing_settings : Github → List Text
missing_settings g =
    let key = if is_empty g.private_key_path then codes "github.privateKeyPath" ∷ [] else [] in
    let install = if is_empty g.installation_id then codes "github.installationID" ∷ key else key in
    if is_empty g.app_id then codes "github.appID" ∷ install else install

-- The part of validateGitHub for a GitHub App.
unfoldable pub validate_app : (Text → Bool) → Github → Result ConfigError (Unit {0})
validate_app readable g = do
  refuse_if (not (is_empty (missing_settings g))) (app_unset (missing_settings g))
  refuse_if (not (is_digits g.app_id)) (not_numeric g.app_id)
  refuse_if (not (is_digits g.installation_id)) (not_numeric g.installation_id)
  refuse_if (not (readable g.private_key_path)) (unreadable g.private_key_path)

-- validateGitHub
unfoldable pub validate_github : (Text → Bool) → Github → Result ConfigError (Unit {0})
validate_github readable g = do
  refuse_if (is_empty (trim_space g.owner)) (required (codes "github.owner"))
  refuse_if (contains_text g.owner (codes "/")) (contains_slash g.owner)
  refuse_if (is_empty (trim_space g.repo)) (required (codes "github.repo"))
  refuse_if (contains_text g.repo (codes "/")) (contains_slash g.repo)
  refuse_if (is_empty (trim_space g.branch)) (required (codes "github.branch"))
  if not (is_empty g.dev_token) then ok tt else validate_app readable g
