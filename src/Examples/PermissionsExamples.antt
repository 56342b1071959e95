-- ===== src/Examples/PermissionsExamples.antt =====
-- internal/permissions/permissions.go on a small studio.yaml.
use goff_studio.Base.{
  true, ◌≡◌, ◌≢◌, ◌↔◌, refl, some, List, [], ◌∷◌, Text, codes, list_beq, contains, contains_any,
  to_lower, Any, here, All, ok, trim_space,
}
use goff_studio.Permissions.{
  view, toggle, Rule, Set, Request, allowed, allowed_by, rule_allows, has_group,
  environment_matches, action_matches, entry_gives, parse_action, team_matches, allowed_anywhere,
}
use goff_studio.Permissions.Decision.{Covers, allowed_iff, view_of_allowed}
use goff_studio.Permissions.Reach.{ask, NamesTeam, allowed_anywhere_iff}
use goff_studio.Permissions.Grants.{grants_for}
use goff_studio.Permissions.Grants.Merged.{Once, find_grant, merged, applicable, grants_for_lem}
use goff_studio.Permissions.Validation.{
  new, check_rules, check_rule, check_teams, check_actions, team_is_pattern, IsValid, new_iff,
}

abbrev payments : Rule
payments = record {
  group = codes "pay-devs";
  teams = codes " payments " ∷ [];
  environments = codes "staging" ∷ [];
  actions = codes "Toggle" ∷ [];
}

abbrev admins : Rule
admins = record { group = codes "admins"; teams = codes "*" ∷ []; environments = []; actions = [] }

abbrev rules : List Rule
rules = payments ∷ admins ∷ []

abbrev studio : Set
studio = record { rules = rules }

abbrev may_toggle : Request
may_toggle = ask (codes "pay-devs" ∷ []) (codes "staging") (codes "payments") toggle

pays_toggle : allowed (some studio) may_toggle ≡ true
unfolding allowed allowed_by rule_allows has_group environment_matches action_matches entry_gives
    parse_action team_matches trim_space to_lower contains list_beq
pays_toggle = refl

admin_no_team :
    allowed (some studio) (ask (codes "admins" ∷ []) (codes "production") [] view) ≡ true
unfolding allowed allowed_by rule_allows has_group environment_matches action_matches entry_gives
    parse_action team_matches trim_space to_lower contains list_beq
admin_no_team = refl

allowed_iff_example :
    (allowed (some studio) may_toggle ≡ true) ↔ ((toggle ≢ []) × Any (Covers may_toggle) rules)
allowed_iff_example = allowed_iff studio may_toggle

view_of_allowed_example : allowed (some studio) (record may_toggle { action = view }) ≡ true
view_of_allowed_example = view_of_allowed (some studio) may_toggle pays_toggle

rules-NamesTeam : All NamesTeam rules
unfolding trim_space
rules-NamesTeam = (here (λ e. cc e), (here (λ e. cc e), tt))

allowed_anywhere_iff_example :
    (allowed_anywhere studio (codes "pay-devs" ∷ []) (codes "staging") toggle ≡ true) ↔ (
      (team : Text) × (allowed
          (some studio)
          (ask (codes "pay-devs" ∷ []) (codes "staging") team toggle)
        ≡ true))
allowed_anywhere_iff_example =
    allowed_anywhere_iff (codes "pay-devs" ∷ []) (codes "staging") toggle studio (λ e. cc e)
      rules-NamesTeam

abbrev folders : List Text
folders = codes "production" ∷ codes "staging" ∷ []

grants_for_example :
    Once (grants_for (some studio) (codes "staging") (codes "payments"))
    × ((g : Text)
        → find_grant (grants_for (some studio) (codes "staging") (codes "payments")) g
          ≡ merged g (applicable (codes "staging") (codes "payments") rules))
grants_for_example = grants_for_lem studio (codes "staging") (codes "payments")

new_iff_example : (new rules ≡ ok studio) ↔ (All IsValid rules × (studio.rules ≡ rules))
new_iff_example = new_iff rules studio

new_accepts : new rules ≡ ok studio
unfolding new check_rules check_rule check_teams check_actions team_is_pattern parse_action
    contains_any trim_space to_lower list_beq
new_accepts = refl
