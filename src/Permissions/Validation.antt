-- ===== src/Permissions/Validation.antt =====
-- Permission rules when the configuration is loaded: `New` and `NamedTeams` of
-- internal/permissions/permissions.go.
use goff_studio.Base.{
  ℕ, suc, Bool, false, not, ◌&&◌, Option, none, some, List, [], ◌∷◌, ◌++◌, if◌then◌else◌, ◌==◌,
  Text, text_eq, codes, trim_space, is_empty, contains_any, Result, ok, err, ◌>>◌, refuse_if, ◌≡◌,
  ◌≢◌, ◌↔◌, ◌⊎◌, refl, All, arith, ==_iff, is_empty_iff, >>-eq-ok, refuse_if-eq-ok,
}
use goff_studio.Permissions.{Rule, Set, star, parse_action}

pub data RuleError : Type 0 where
  no_group : ℕ → RuleError
  no_teams : Text → RuleError
  bad_team : Text → Text → RuleError
  unknown_action : Text → Text → RuleError

-- The test of one team entry in New, the entry trimmed.
unfoldable pub team_is_pattern : Text → Bool
team_is_pattern t = not (t == star) && contains_any t (codes "*?[]/\\")

unfoldable pub check_teams : Text → List Text → Result RuleError (Unit {0})
check_teams group [] = ok tt
check_teams group (t ∷ rest) = do
  refuse_if (team_is_pattern (trim_space t)) (bad_team group (trim_space t))
  check_teams group rest

unfoldable pub check_actions : Text → List Text → Result RuleError (Unit {0})
check_actions group [] = ok tt
check_actions group (a ∷ rest) = elim (parse_action a) [
  | none ↦ err (unknown_action group a)
  | some _ ↦ check_actions group rest
]

-- The loop body of New on the rule at index `i`.
unfoldable pub check_rule : ℕ → Rule → Result RuleError (Unit {0})
check_rule i r = do
  refuse_if (is_empty (trim_space r.group)) (no_group i)
  refuse_if (is_empty r.teams) (no_teams r.group)
  check_teams r.group r.teams
  check_actions r.group r.actions

unfoldable pub check_rules : ℕ → List Rule → Result RuleError (Unit {0})
check_rules i [] = ok tt
check_rules i (r ∷ rest) = do check_rule i r; check_rules (suc i) rest

-- New
unfoldable pub new : List Rule → Result RuleError Set
new rules = do check_rules 0 rules; ok (record { rules = rules })

-- The inner loop of NamedTeams.
pub named_in : List Text → List Text
named_in [] = []
named_in (t ∷ rest) = if trim_space t == star then named_in rest else trim_space t ∷ named_in rest

pub named_of : List Rule → List Text
named_of [] = []
named_of (rule ∷ rest) = named_in rule.teams ++ named_of rest

-- Set.NamedTeams
pub named_teams : Option Set → List Text
named_teams none = []
named_teams (some s) = named_of s.rules

-- An entry that New lets stand: "*", or a text with no character of a pattern.
abbrev pub IsTeamEntry : Text → Type 0
IsTeamEntry t = (trim_space t ≡ star) ⊎ (contains_any (trim_space t) (codes "*?[]/\\") ≡ false)

pub record IsValid (r : Rule) : Type 0 where
  pub group : trim_space r.group ≢ []
  pub teams : r.teams ≢ []
  pub entries : All IsTeamEntry r.teams
  pub actions : All (λ a. parse_action a ≢ none) r.actions

check_teams_iff :
    (group : Text) (teams : List Text) → (check_teams group teams ≡ ok tt) ↔ All IsTeamEntry teams
unfolding check_teams team_is_pattern
check_teams_iff group [] = (λ _. tt, λ _. refl)
check_teams_iff group (t ∷ rest) = (
  λ h. ground (arith, ==_iff (trim_space t) star, check_teams_iff group rest),
  λ (e, all). ground (arith, ==_iff (trim_space t) star, (check_teams_iff group rest).1 all),
)

check_actions_iff :
    (group : Text) (actions : List Text)
    → (check_actions group actions ≡ ok tt) ↔ All (λ a. parse_action a ≢ none) actions
unfolding check_actions
check_actions_iff group [] = (λ _. tt, λ _. refl)
check_actions_iff group (a ∷ rest) = (
  λ h. ground (arith, check_actions_iff group rest),
  λ (e, all). ground (arith, (check_actions_iff group rest).1 all),
)

IsValid-check : (i : ℕ) (r : Rule) → check_rule i r ≡ ok tt → IsValid r
unfolding check_rule
IsValid-check i r h =
    let (g, later) = >>-eq-ok (refuse_if (is_empty (trim_space r.group)) (no_group i)) _ h in
    let (t, last) = >>-eq-ok (refuse_if (is_empty r.teams) (no_teams r.group)) _ later in
    let (e, a) = >>-eq-ok (check_teams r.group r.teams) _ last in
    let group_given = refuse_if-eq-ok (is_empty (trim_space r.group)) (no_group i) g in
    let teams_given = refuse_if-eq-ok (is_empty r.teams) (no_teams r.group) t in
    record {
      group = ground (arith, group_given, is_empty_iff (trim_space r.group));
      teams = ground (arith, teams_given, is_empty_iff r.teams);
      entries = (check_teams_iff r.group r.teams).0 e;
      actions = (check_actions_iff r.group r.actions).0 a;
    }

check-IsValid : (i : ℕ) (r : Rule) → IsValid r → check_rule i r ≡ ok tt
unfolding check_rule
check-IsValid i r v = ground (
  arith,
  is_empty_iff (trim_space r.group),
  is_empty_iff r.teams,
  (check_teams_iff r.group r.teams).1 v.entries,
  (check_actions_iff r.group r.actions).1 v.actions,
)

check_rules_iff : (i : ℕ) (rules : List Rule) → (check_rules i rules ≡ ok tt) ↔ All IsValid rules
unfolding check_rules
check_rules_iff i [] = (λ _. tt, λ _. refl)
check_rules_iff i (r ∷ rest) = (
  λ h.
      let (first, later) = >>-eq-ok _ _ h in
      (IsValid-check i r first, (check_rules_iff (suc i) rest).0 later),
  λ (v, all). rw (check-IsValid i r v) ((check_rules_iff (suc i) rest).1 all),
)

-- `New` accepts exactly the lists of valid rules, and its set holds the rules as they were given.
pub new_iff :
    (rules : List Rule) (s : Set) → (new rules ≡ ok s) ↔ (All IsValid rules × (s.rules ≡ rules))
unfolding new
new_iff rules s = (
  λ h.
      let (checked, same) = >>-eq-ok (check_rules 0 rules) _ h in
      ((check_rules_iff 0 rules).0 checked, ground (arith, same)),
  λ (all, e). rw ((check_rules_iff 0 rules).1 all) (ground (arith, e)),
)
