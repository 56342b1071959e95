-- ===== src/Service/Teams.antt =====
-- internal/server/teams.go: the teams with their environments, their groups and their flag counts.
use goff_studio.Base.{
  ℕ, suc, Bool, false, not, ◌&&◌, ◌||◌, Option, none, some, List, [], ◌∷◌, ◌++◌, any, if◌then◌else◌,
  ◌==◌, Text, text_eq, is_empty, sort_by, text_less, Result, ok, err,
}
use goff_studio.Auth.{Session}
use goff_studio.Config.{team_names}
use goff_studio.Goff.{Flag}
use goff_studio.Permissions.{Action, view, allowed, actions_for}
use goff_studio.Permissions.Grants.{Grant, grants_for}
use goff_studio.Service.{Broken, Studio, owner, team_file_for}
use goff_studio.Service.Memory.{State, TeamCounts, look, put}
use goff_studio.Service.Steps.{Step, settle, give, recall, attempt, change, ask, ◌>>=◌, ◌>>◌}
use goff_studio.Service.Creates.{is_missing}
use goff_studio.Service.Environments.{environment_names}

-- TeamEnvironment
pub record TeamEnvironment : Type 0 where
  pub name : Text
  pub file : Text
  pub flags : ℕ
  pub can_edit : Bool

-- TeamGroup
pub record TeamGroup : Type 0 where
  pub name : Text
  pub edits : Bool
  pub all_teams : Bool

-- TeamSummary
pub record TeamSummary : Type 0 where
  pub name : Text
  pub environments : List TeamEnvironment
  pub groups : List TeamGroup
  pub can_edit : Bool

-- canEditAny
unfoldable pub can_edit_any : List Action → Bool
can_edit_any actions = any (λ a. not (a == view)) actions

-- `counts[key]`, 0 for a missing key, and `counts[key]++`.
unfoldable pub count_of : List (Text × ℕ) → Text → ℕ
count_of counts key = elim (look counts key) [ none ↦ 0 | some n ↦ n ]

unfoldable pub count_up : Text → List (Text × ℕ) → List (Text × ℕ)
count_up key counts = put key (suc (count_of counts key)) counts

-- `counts[environment][name]`
unfoldable pub flags_of : TeamCounts → Text → Text → ℕ
flags_of counts environment name = elim (look counts environment) [
  | none ↦ 0
  | some teams ↦ count_of teams name
]

-- The loop of Teams over the grants of a team in an environment.
unfoldable pub merge_grants : List Grant → List (Text × TeamGroup) → List (Text × TeamGroup)
merge_grants [] groups = groups
merge_grants (g ∷ gs) groups = elim (look groups g.group) [
  | none ↦
      merge_grants gs
        (put g.group (record { name = g.group; edits = g.writes; all_teams = g.all_teams }) groups)
  | some merged ↦ merge_grants gs (
      put g.group
        (record {
          name = merged.name;
          edits = merged.edits || g.writes;
          all_teams = merged.all_teams && g.all_teams;
        })
        groups)
]

unfoldable pub values_of : List (Text × TeamGroup) → List TeamGroup
values_of [] = []
values_of ((name, g) ∷ rest) = g ∷ values_of rest

-- The order of the groups: those of all teams last, and by name.
unfoldable pub group_before : TeamGroup → TeamGroup → Bool
group_before a b =
    if a.all_teams && b.all_teams || not a.all_teams && not b.all_teams
    then text_less a.name b.name
    else not a.all_teams

-- What the loop over the environments has gathered for a team.
pub record Reach : Type 0 where
  pub environments : List TeamEnvironment
  pub groups : List (Text × TeamGroup)
  pub can_edit : Bool

module _ {Number Value Time World : Type 0} (studio : Studio Number Value Time World) where
  -- The loop of countTeamFlags over the flags of a file.
  unfoldable pub count_flags : Text → List (Flag Number Value) → List (Text × ℕ) → List (Text × ℕ)
  count_flags file [] counts = counts
  count_flags file (f ∷ fs) counts =
      let team = owner studio.config file f.team in
      count_flags file fs (if is_empty team then counts else count_up team counts)

  -- A file that cannot be parsed counts for nothing.
  unfoldable pub count_parsed :
      Text
      → Result Text (List (Flag Number Value) × List Broken)
      → List (Text × ℕ)
      → List (Text × ℕ)
  count_parsed file (err _) counts = counts
  count_parsed file (ok (flags, _)) counts = count_flags file flags counts

  unfoldable pub count_files :
      List Text → List (Text × ℕ) → Step (State Number Value Time World) (List (Text × ℕ))
  count_files [] counts = give counts
  count_files (file ∷ files) counts = do
    f ← ask (studio.backend.read_file file)
    count_files files (count_parsed file (studio.adapter.parse file f.content) counts)

  -- The loop of countTeamFlags over the environments.
  unfoldable pub count_environments :
      List Text → TeamCounts → Step (State Number Value Time World) TeamCounts
  count_environments [] index = give index
  count_environments (environment ∷ rest) index = do
    listed ← attempt (ask (studio.backend.list_files environment))
    if is_missing listed then count_environments rest index else do
      files ← settle listed
      counts ← count_files files []
      count_environments rest (put environment counts index)

  -- countTeamFlags
  unfoldable pub count_team_flags : Time → Step (State Number Value Time World) TeamCounts
  count_team_flags now = do names ← environment_names studio now; count_environments names []

  unfoldable pub kept_counts : Time → State Number Value Time World → Option TeamCounts
  kept_counts now s = elim s.teams [
    | none ↦ none
    | some (index, loaded_at) ↦ if studio.runtime.is_fresh now loaded_at then some index else none
  ]

  -- teamCounts
  unfoldable pub team_counts : Time → Step (State Number Value Time World) TeamCounts
  team_counts now = do
    cached ← recall (kept_counts now)
    elim cached [
      | some index ↦ give index
      | none ↦ do
        index ← count_team_flags now
        change (λ s. record s { teams = some (index, now) })
        give index
    ]

  -- The loop body of Teams for one environment.
  unfoldable pub reach_environment : List Text → TeamCounts → Text → Text → Reach → Reach
  reach_environment groups counts name environment reach =
      let can_edit = can_edit_any (actions_for (some studio.permissions) groups environment name) in
      if not (
        allowed (some studio.permissions)
          (record { groups = groups; environment = environment; team = name; action = view }))
      then reach
      else record {
        environments =
            reach.environments
            ++ record {
              name = environment;
              file = team_file_for studio.config environment name;
              flags = flags_of counts environment name;
              can_edit = can_edit;
            }
              ∷ [];
        groups = merge_grants (grants_for (some studio.permissions) environment name) reach.groups;
        can_edit = reach.can_edit || can_edit;
      }

  unfoldable pub reach_team : List Text → TeamCounts → Text → List Text → Reach → Reach
  reach_team groups counts name [] reach = reach
  reach_team groups counts name (environment ∷ rest) reach =
      reach_team groups counts name rest (reach_environment groups counts name environment reach)

  -- The loop of Teams: a team that is seen in no environment is left out.
  unfoldable pub summaries : List Text → TeamCounts → List Text → List Text → List TeamSummary
  summaries groups counts environments [] = []
  summaries groups counts environments (name ∷ names) =
      let rest = summaries groups counts environments names in
      let reach =
        reach_team groups counts name environments
          (record { environments = []; groups = []; can_edit = false }) in
      if is_empty reach.environments
      then rest
      else record {
        name = name;
        environments = reach.environments;
        groups = sort_by group_before (values_of reach.groups);
        can_edit = reach.can_edit;
      }
        ∷ rest

  -- Teams
  unfoldable pub teams :
      Session Time → Time → Step (State Number Value Time World) (List TeamSummary)
  teams session now = do
    counts ← team_counts now
    names ← environment_names studio now
    give (
        sort_by (λ a b. text_less a.name b.name)
          (summaries session.groups counts names (team_names studio.config)))
