-- ===== src/Permissions.antt =====
-- internal/permissions/permissions.go: who may do what to which flags.
-- An `Action` is a Go string, so the empty action exists and a request may carry an unknown one.
-- A `*Set` that may be nil is an `Option Set`; `allowed_anywhere` and `visible_environments`
-- read their receiver with no test for nil, and so take a `Set`.
pub mod Decision
pub mod Reach
pub mod Grants
pub mod Validation
use goff_studio.Base.{
  ℕ, zero, suc, Bool, true, false, not, ◌&&◌, ◌||◌, Option, none, some, List, [], ◌∷◌, ◌++◌, map,
  ltb, if◌then◌else◌, ◌==◌, Text, text_eq, codes, trim_space, to_lower, is_empty, contains, any,
  filter, contains_any, length, get_elem?, Result, ok, err, ◌>>=◌, ◌>>◌, refuse_if, nat_eq,
}

abbrev pub Action : Type 0
Action = Text

abbrev pub view : Action
view = codes "view"

abbrev pub toggle : Action
toggle = codes "toggle"

abbrev pub rollout : Action
rollout = codes "rollout"

abbrev pub edit_rules : Action
edit_rules = codes "edit_rules"

abbrev pub edit_variations : Action
edit_variations = codes "edit_variations"

abbrev pub create : Action
create = codes "create"

abbrev pub delete : Action
delete = codes "delete"

abbrev pub star : Text
star = codes "*"

abbrev pub all_actions : List Action
all_actions = view ∷ toggle ∷ rollout ∷ edit_rules ∷ edit_variations ∷ create ∷ delete ∷ []

-- The loop of ParseAction over AllActions.
abbrev pub find_action : List Action → Action → Option Action
find_action [] candidate = none
find_action (a ∷ rest) candidate = if a == candidate then some a else find_action rest candidate

-- ParseAction; `none` is its error.
unfoldable pub parse_action : Text → Option Action
parse_action raw = find_action all_actions (trim_space (to_lower raw))

pub record Rule : Type 0 where
  pub group : Text
  pub teams : List Text
  pub environments : List Text
  pub actions : List Text

pub record Set : Type 0 where
  pub rules : List Rule

-- NewUnchecked
unfoldable pub new_unchecked : List Rule → Set
new_unchecked rules = record { rules = rules }

pub record Request : Type 0 where
  pub groups : List Text
  pub environment : Text
  pub team : Text
  pub action : Action

-- hasGroup
unfoldable pub has_group : List Text → Text → Bool
has_group groups want = if want == star then true else contains groups want

-- environmentMatches
unfoldable pub environment_matches : Rule → Text → Bool
environment_matches rule environment =
    if is_empty rule.environments
    then true
    else any (λ e. e == star || e == environment) rule.environments

-- The loop body of actionMatches: an entry that does not parse is skipped.
unfoldable pub entry_gives : Action → Text → Bool
entry_gives action raw = elim (parse_action raw) [
  | none ↦ false
  | some parsed ↦
      if parsed == action
      then true
      else if not (parsed == view) && action == view
      then true
      else false
]

-- actionMatches
unfoldable pub action_matches : Rule → Action → Bool
action_matches rule action =
    if is_empty rule.actions then true else any (entry_gives action) rule.actions

-- teamMatches
unfoldable pub team_matches : List Text → Text → Bool
team_matches patterns team =
    any (λ p. trim_space p == star || not (is_empty team) && trim_space p == team) patterns

-- The loop body of Allowed: the four guards, each a `continue`.
unfoldable pub rule_allows : Rule → Request → Bool
rule_allows rule req =
    if not (has_group req.groups rule.group)
    then false
    else if not (environment_matches rule req.environment)
    then false
    else if not (action_matches rule req.action)
    then false
    else team_matches rule.teams req.team

unfoldable pub allowed_by : List Rule → Request → Bool
allowed_by rules req = any (λ rule. rule_allows rule req) rules

-- Set.Allowed
unfoldable pub allowed : Option Set → Request → Bool
allowed none req = false
allowed (some s) req =
    if is_empty s.rules
    then false
    else if is_empty req.action
    then false
    else allowed_by s.rules req

-- Set.ActionsFor
unfoldable pub actions_for : Option Set → List Text → Text → Text → List Action
actions_for s groups environment team =
    filter
      (λ a.
        allowed s (record { groups = groups; environment = environment; team = team; action = a }))
      all_actions

-- The loop body of AllowedAnywhere.
unfoldable pub rule_reaches : List Text → Text → Action → Rule → Bool
rule_reaches groups environment action rule =
    if not (has_group groups rule.group)
    then false
    else if not (environment_matches rule environment)
    then false
    else action_matches rule action

-- Set.AllowedAnywhere
unfoldable pub allowed_anywhere : Set → List Text → Text → Action → Bool
allowed_anywhere s groups environment action = any (rule_reaches groups environment action) s.rules

-- Set.VisibleEnvironments
unfoldable pub visible_environments : Set → List Text → List Text → List Text
visible_environments s groups environments =
    filter (λ env. allowed_anywhere s groups env view) environments

-- Set.CanCreateEnvironments
unfoldable pub can_create_environments : Option Set → List Text → Bool
can_create_environments none groups = false
can_create_environments (some s) groups =
    any
      (λ rule.
        has_group groups rule.group && environment_matches rule star && action_matches rule create)
      s.rules
