-- ===== src/Permissions/Decision.antt =====
-- The decision of `Allowed` against a description of it that mentions no loop and no order.
use goff_studio.Base.{
  Bool, true, not, ◌≡◌, ◌≢◌, ◌↔◌, ◌⊎◌, inl, inr, refl, Option, none, some, List, [], ◌∷◌, ◌++◌,
  ◌||◌, ◌&&◌, ◌==◌, ==_iff, text_eq, Text, trim_space, is_empty, Any, any→Any, Any→any, Any-imp,
  Member, is_empty_iff, contains_iff, any, any-append, arith, if◌then◌else◌, Bool-cases,
  Option-cases,
}
use goff_studio.Permissions.{
  Action, view, star, Rule, Set, Request, parse_action, has_group, environment_matches, entry_gives,
  action_matches, team_matches, rule_allows, allowed_by, allowed,
}

-- A rule's group is "*" or one of the caller's.
abbrev pub GroupHolds : List Text → Text → Type 0
GroupHolds groups want = (want ≡ star) ⊎ Member want groups

-- A rule with no environments covers all of them.
abbrev pub EnvironmentHolds : Rule → Text → Type 0
EnvironmentHolds rule environment =
    (rule.environments ≡ []) ⊎ Any (λ e. (e ≡ star) ⊎ (e ≡ environment)) rule.environments

-- An entry gives the action that it names, and with any action but view also view.
abbrev pub Gives : Action → Text → Type 0
Gives action raw =
    (a : Action) × (parse_action raw ≡ some a) × ((a ≡ action) ⊎ ((a ≢ view) × (action ≡ view)))

abbrev pub ActionHolds : Rule → Action → Type 0
ActionHolds rule action = (rule.actions ≡ []) ⊎ Any (Gives action) rule.actions

-- The team "" is only matched by "*".
abbrev pub TeamEntryHolds : Text → Text → Type 0
TeamEntryHolds team p = (trim_space p ≡ star) ⊎ ((team ≢ []) × (trim_space p ≡ team))

abbrev pub TeamHolds : List Text → Text → Type 0
TeamHolds patterns team = Any (TeamEntryHolds team) patterns

pub record Covers (req : Request) (rule : Rule) : Type 0 where
  pub group : GroupHolds req.groups rule.group
  pub environment : EnvironmentHolds rule req.environment
  pub action : ActionHolds rule req.action
  pub team : TeamHolds rule.teams req.team

pub has_group_iff :
    (groups : List Text) (want : Text) → (has_group groups want ≡ true) ↔ GroupHolds groups want
unfolding has_group
has_group_iff groups want = (
  λ h. elim (Bool-cases (want == star)) [
    | inl e ↦ inl ((==_iff want star).0 e)
    | inr n ↦ inr ((contains_iff groups want).0 (rw n at h))
  ],
  elim [
    | inl e ↦ ground (arith, ==_iff want star)
    | inr m ↦ ground (arith, (contains_iff groups want).1 m)
  ],
)

-- A guard on an empty list in front of a loop.
empty_or_Any {ℓ κ} :
    {A : Type ℓ} {P : A → Type κ} (xs : List A) (b : Bool)
    → (b ≡ true) ↔ Any P xs
    → ((if is_empty xs then true else b) ≡ true) ↔ ((xs ≡ []) ⊎ Any P xs)
empty_or_Any [] b e = (λ _. inl refl, λ _. refl)
empty_or_Any (x ∷ xs) b e = (λ h. inr (e.0 h), elim [ inl n ↦ cc | inr a ↦ e.1 a ])

any_iff {ℓ κ} :
    {A : Type ℓ} {P : A → Type κ} (p : A → Bool) (xs : List A)
    → ((x : A) → (p x ≡ true) ↔ P x)
    → (any p xs ≡ true) ↔ Any P xs
any_iff p xs e = (any→Any (λ x. (e x).0) xs, Any→any (λ x. (e x).1))

pub environment_matches_iff :
    (rule : Rule) (environment : Text)
    → (environment_matches rule environment ≡ true) ↔ EnvironmentHolds rule environment
unfolding environment_matches
environment_matches_iff rule environment = empty_or_Any rule.environments _ (
    any_iff _ rule.environments λ e. (
      λ h. ground (arith, ==_iff e star, ==_iff e environment),
      λ h. ground (arith, ==_iff e star, ==_iff e environment),
    ))

entry_gives_iff :
    (action : Action) (raw : Text) → (entry_gives action raw ≡ true) ↔ Gives action raw
unfolding entry_gives
entry_gives_iff action raw = elim (Option-cases (parse_action raw)) [
  | inl e ↦ (λ h. ground arith, λ (a, p, g). ground arith)
  | inr (a, e) ↦ (
    λ h. (a, e, ground (arith, ==_iff a action, ==_iff a view, ==_iff action view)),
    λ (b, p, g). ground (arith, ==_iff a action, ==_iff a view, ==_iff action view),
  )
]

pub action_matches_iff :
    (rule : Rule) (action : Action) → (action_matches rule action ≡ true) ↔ ActionHolds rule action
unfolding action_matches
action_matches_iff rule action =
    empty_or_Any rule.actions _ (any_iff _ rule.actions (entry_gives_iff action))

team_entry_iff :
    (team p : Text)
    → ((trim_space p == star || not (is_empty team) && trim_space p == team) ≡ true)
      ↔ TeamEntryHolds team p
team_entry_iff team p = (
  λ h. ground (arith, ==_iff (trim_space p) star, ==_iff (trim_space p) team, is_empty_iff team),
  λ h. ground (arith, ==_iff (trim_space p) star, ==_iff (trim_space p) team, is_empty_iff team),
)

pub team_matches_iff :
    (patterns : List Text) (team : Text)
    → (team_matches patterns team ≡ true) ↔ TeamHolds patterns team
unfolding team_matches
team_matches_iff patterns team = any_iff _ patterns (team_entry_iff team)

pub rule_allows_iff :
    (rule : Rule) (req : Request) → (rule_allows rule req ≡ true) ↔ Covers req rule
unfolding rule_allows
rule_allows_iff rule req = (
  λ h. record {
    group = (has_group_iff req.groups rule.group).0 (ground arith);
    environment = (environment_matches_iff rule req.environment).0 (ground arith);
    action = (action_matches_iff rule req.action).0 (ground arith);
    team = (team_matches_iff rule.teams req.team).0 (ground arith);
  },
  λ c. ground (
    arith,
    (has_group_iff req.groups rule.group).1 c.group,
    (environment_matches_iff rule req.environment).1 c.environment,
    (action_matches_iff rule req.action).1 c.action,
    (team_matches_iff rule.teams req.team).1 c.team,
  ),
)

allowed_by_iff :
    (rules : List Rule) (req : Request) → (allowed_by rules req ≡ true) ↔ Any (Covers req) rules
unfolding allowed_by
allowed_by_iff rules req = any_iff _ rules (λ rule. rule_allows_iff rule req)

not-Any-nil {ℓ κ} : {A : Type ℓ} (P : A → Type κ) (xs : List A) → Any P xs → xs ≢ []
not-Any-nil P [] m e = elim m [ ]
not-Any-nil P (x ∷ xs) m e = cc

-- A request is allowed exactly when its action is not empty and some rule of the set covers its
-- groups, environment, action and team.
pub allowed_iff :
    (s : Set) (req : Request)
    → (allowed (some s) req ≡ true) ↔ ((req.action ≢ []) × Any (Covers req) s.rules)
unfolding allowed
allowed_iff s req = (
  λ h. (ground (arith, is_empty_iff req.action), (allowed_by_iff s.rules req).0 (ground arith)),
  λ (named, m). ground (
    arith,
    is_empty_iff req.action,
    is_empty_iff s.rules,
    not-Any-nil _ s.rules m,
    (allowed_by_iff s.rules req).1 m,
  ),
)

allowed-guards :
    (rules : List Rule) (req : Request)
    → allowed (some (record { rules = rules })) req
      ≡ (not (is_empty req.action) && allowed_by rules req)
unfolding allowed allowed_by
allowed-guards [] req = ground arith
allowed-guards (rule ∷ rules) req = ground arith

-- A set that joins two lists of rules allows what the one list or the other allows.
pub allowed-append :
    (rules more : List Rule) (req : Request)
    → allowed (some (record { rules = rules ++ more })) req ≡ (
        allowed (some (record { rules = rules })) req
        || allowed (some (record { rules = more })) req)
allowed-append rules more req =
    rw (allowed-guards (rules ++ more), allowed-guards rules, allowed-guards more)
      (unfold allowed_by in ground (arith, any-append (λ rule. rule_allows rule req) rules more))

-- An entry other than view gives view too.
view-Gives : (action : Action) (raw : Text) → Gives action raw → Gives view raw
view-Gives action raw (a, p, g) = elim (Bool-cases (a == view)) [
  | inl e ↦ (a, p, inl ((==_iff a view).0 e))
  | inr n ↦ (a, p, inr (ground (arith, ==_iff a view), refl))
]

-- Whoever may do anything to a flag may view it.
pub view_of_allowed :
    (s : Option Set) (req : Request)
    → allowed s req ≡ true
    → allowed s (record req { action = view }) ≡ true
view_of_allowed none req h = unfold allowed in h
view_of_allowed (some s) req h =
    let (named, m) = (allowed_iff s req).0 h in
    (allowed_iff s (record req { action = view })).1 (
      (λ e. cc),
      Any-imp
          (λ rule c. record {
            group = c.group;
            environment = c.environment;
            action = elim c.action [
              | inl e ↦ inl e
              | inr g ↦ inr (Any-imp (view-Gives req.action) g)
            ];
            team = c.team;
          })
          m,
    )

-- What is allowed for no team is allowed by a rule with the team "*".
pub star_of_allowed :
    (s : Set) (req : Request)
    → req.team ≡ []
    → allowed (some s) req ≡ true
    → Any (λ rule. Covers req rule × Any (λ p. trim_space p ≡ star) rule.teams) s.rules
star_of_allowed s req e h =
    Any-imp
      (λ rule c. (c, Any-imp (λ p t. elim t [ inl w ↦ w | inr (n, _) ↦ absurd (n e) ]) c.team))
      ((allowed_iff s req).0 h).1
