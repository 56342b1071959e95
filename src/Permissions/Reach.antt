-- ===== src/Permissions/Reach.antt =====
-- What the lists of rights that the user interface reads have to do with the decision itself.
use goff_studio.Base.{
  true, ◌≡◌, ◌≢◌, ◌↔◌, ◌⊎◌, inr, Option, some, List, [], ◌∷◌, text_eq, Text, trim_space, Any,
  Any-imp, Any-Member, Any-of_Member, any→Any, Any→any, Member, All, All-Member, Member-filter,
  Member-of_filter, passes_of_filter, filter-first, arith, ap,
}
use goff_studio.Permissions.{
  Action, view, all_actions, Rule, Set, Request, rule_reaches, allowed, allowed_anywhere,
  actions_for, visible_environments,
}
use goff_studio.Permissions.Decision.{
  Covers, has_group_iff, environment_matches_iff, action_matches_iff, allowed_iff, view_of_allowed,
}

-- A request of these parts.
abbrev pub ask : List Text → Text → Text → Action → Request
ask groups environment team action = record {
  groups = groups;
  environment = environment;
  team = team;
  action = action;
}

-- Some entry of the rule names a team, or all teams.
abbrev pub NamesTeam : Rule → Type 0
NamesTeam rule = Any (λ p. trim_space p ≢ []) rule.teams

module _ (groups : List Text) (environment : Text) (action : Action) where
  rule_reaches-Covers :
      (team : Text) (rule : Rule)
      → Covers (ask groups environment team action) rule
      → rule_reaches groups environment action rule ≡ true
  unfolding rule_reaches
  rule_reaches-Covers team rule c = ground (
    arith,
    (has_group_iff groups rule.group).1 c.group,
    (environment_matches_iff rule environment).1 c.environment,
    (action_matches_iff rule action).1 c.action,
  )

  Covers-rule_reaches :
      (rule : Rule) (p : Text)
      → rule_reaches groups environment action rule ≡ true
      → Member p rule.teams
      → trim_space p ≢ []
      → Covers (ask groups environment (trim_space p) action) rule
  unfolding rule_reaches
  Covers-rule_reaches rule p h m n = record {
    group = (has_group_iff groups rule.group).0 (ground arith);
    environment = (environment_matches_iff rule environment).0 (ground arith);
    action = (action_matches_iff rule action).0 (ground arith);
    team = Any-imp (λ q e. inr (n, ap trim_space e)) m;
  }

  -- `AllowedAnywhere` answers yes exactly when `Allowed` does for some team, where the action is
  -- not empty and every rule names a team.
  pub allowed_anywhere_iff :
      (s : Set)
      → action ≢ []
      → All NamesTeam s.rules
      → (allowed_anywhere s groups environment action ≡ true)
        ↔ ((team : Text) × (allowed (some s) (ask groups environment team action) ≡ true))
  unfolding allowed_anywhere
  allowed_anywhere_iff s named all = (
    λ h.
        let (rule, m, r) = Any-Member (any→Any (λ rule e. e) s.rules h) in
        let (p, mp, n) = Any-Member (All-Member NamesTeam s.rules all m) in
        (
          trim_space p,
          (allowed_iff s _).1 (named, Any-of_Member (Covers-rule_reaches rule p r mp n) m),
        ),
    λ (team, h). Any→any (rule_reaches-Covers team) ((allowed_iff s _).0 h).1,
  )

-- An environment is listed exactly when it is one of those asked about and some team's flags in it
-- may be viewed, where every rule names a team.
pub visible_environments_iff :
    (s : Set) (groups environments : List Text) (env : Text)
    → All NamesTeam s.rules
    → Member env (visible_environments s groups environments) ↔ (
        Member env environments
        × (team : Text) × (allowed (some s) (ask groups env team view) ≡ true))
unfolding visible_environments
visible_environments_iff s groups environments env all =
    let seen = λ (e : Text). allowed_anywhere s groups e view in
    (
      λ m.
          let (team, h) =
            (allowed_anywhere_iff groups env view s (λ e. cc) all).0
              (passes_of_filter seen environments m) in
          (Member-of_filter seen environments m, team, h),
      λ (m, team, h).
          Member-filter seen environments m
            ((allowed_anywhere_iff groups env view s (λ e. cc) all).1 (team, h)),
    )

-- The list of rights holds the known actions that are allowed, and is empty or begins with view.
pub actions_for_lem :
    (s : Option Set) (groups : List Text) (environment team : Text)
    → ((a : Action)
        → Member a (actions_for s groups environment team)
          ↔ (Member a all_actions × (allowed s (ask groups environment team a) ≡ true)))
      × ((actions_for s groups environment team ≡ [])
          ⊎ ((rest : List Action) × (actions_for s groups environment team ≡ view ∷ rest)))
unfolding actions_for
actions_for_lem s groups environment team =
    let may = λ (a : Action). allowed s (ask groups environment team a) in
    (
      λ a. (
        λ m. (Member-of_filter may all_actions m, passes_of_filter may all_actions m),
        λ (m, h). Member-filter may all_actions m h,
      ),
      filter-first may view _ (λ a h. view_of_allowed s (ask groups environment team a) h),
    )
