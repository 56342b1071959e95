-- ===== src/Permissions/Grants.antt =====
-- `GrantsFor` of internal/permissions/permissions.go: which groups reach a team's flags, each group
-- once, with the rights of all its rules merged.
pub mod Merged
use goff_studio.Base.{
  ℕ, zero, suc, Bool, true, false, not, ◌&&◌, ◌||◌, Option, none, some, List, [], ◌∷◌, ◌++◌,
  if◌then◌else◌, ◌==◌, Text, text_eq, trim_space, any, length, get_elem?,
}
use goff_studio.Permissions.{
  Rule, Set, star, view, all_actions, action_matches, environment_matches, team_matches,
}

pub record Grant : Type 0 where
  pub group : Text
  pub all_teams : Bool
  pub writes : Bool

-- coversAllTeams
pub covers_all_teams : List Text → Bool
covers_all_teams patterns = any (λ p. trim_space p == star) patterns

-- grantsWrites
pub grants_writes : Rule → Bool
grants_writes rule = any (λ a. not (a == view) && action_matches rule a) all_actions

-- The loop state of GrantsFor: `out`, and the map from a group to its place in `out`.
pub record Collected : Type 0 where
  pub out : List Grant
  pub index : List (Text × ℕ)

pub index_lookup : List (Text × ℕ) → Text → Option ℕ
index_lookup [] group = none
index_lookup ((g, at) ∷ rest) group = if g == group then some at else index_lookup rest group

-- `out[at].AllTeams ||= …; out[at].Writes ||= …`
pub merge_at : List Grant → ℕ → Grant → List Grant
merge_at [] at grant = []
merge_at (g ∷ gs) zero grant =
    record g { all_teams = g.all_teams || grant.all_teams; writes = g.writes || grant.writes } ∷ gs
merge_at (g ∷ gs) (suc at) grant = g ∷ merge_at gs at grant

pub collect : Collected → Grant → Collected
collect st grant = elim (index_lookup st.index grant.group) [
  | none ↦ record { out = st.out ++ grant ∷ []; index = (grant.group, length st.out) ∷ st.index }
  | some at ↦ record st { out = merge_at st.out at grant }
]

pub grant_of : Rule → Grant
grant_of rule = record {
  group = rule.group;
  all_teams = covers_all_teams rule.teams;
  writes = grants_writes rule;
}

-- The guard of GrantsFor's loop, `continue` when it fails.
pub grant_applies : Text → Text → Rule → Bool
grant_applies environment team rule =
    environment_matches rule environment && team_matches rule.teams team

pub collect_rules : Text → Text → List Rule → Collected → Collected
collect_rules environment team [] st = st
collect_rules environment team (rule ∷ rest) st =
    collect_rules environment team rest
      (if grant_applies environment team rule then collect st (grant_of rule) else st)

-- Set.GrantsFor
pub grants_for : Option Set → Text → Text → List Grant
grants_for none environment team = []
grants_for (some s) environment team =
    (collect_rules environment team s.rules (record { out = []; index = [] })).out
