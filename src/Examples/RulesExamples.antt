-- ===== src/Examples/RulesExamples.antt =====
-- internal/server/server.go: the edits of the rules of a flag with three rules.
use mathlib.Core.List.{Permᴰ}
use goff_studio.Base.{
  ℕ, Bool, true, false, ◌≡◌, ◌↔◌, refl, inr, none, List, [], ◌∷◌, Text, codes, list_beq, All, here,
  there, ok, err,
}
use goff_studio.Goff.{Outcome, Rule, Flag}
use goff_studio.Rules.{
  EditError, rule_exists, by_name, in_order, tally, take_names, is_permutation, reorder_rules,
  apply_progressive, has_variation, valid_outcome,
}
use goff_studio.Rules.Order.{names, is_permutation_iff}
use goff_studio.Rules.Reorder.{Distinct, reorder_rules_lem}
use goff_studio.Rules.Serving.{
  IsServed, ServesSomething, valid_outcome_iff, apply_progressive-ServesSomething,
}

abbrev serving : Text → Outcome ℕ
serving name = record { variation = name; percentage = [] }

abbrev rule : Text → Rule ℕ
rule name = record {
  name = name;
  query = codes "beta eq true";
  condition = none;
  advanced = true;
  disabled = false;
  outcome = serving (codes "on");
  progressive = none;
}

abbrev first : Rule ℕ
first = rule (codes "beta")

abbrev second : Rule ℕ
second = rule (codes "staff")

abbrev flag_of : List (Rule ℕ) → Flag ℕ Bool
flag_of rules = record {
  key = codes "new-checkout";
  file = codes "flags.goff.yaml";
  environment = codes "staging";
  value_type = codes "boolean";
  enabled = true;
  variations =
      record { name = codes "on"; value = true }
      ∷ record { name = codes "off"; value = false }
      ∷ [];
  rules = rules;
  default = serving (codes "off");
  experimentation = none;
  bucketing_key = [];
  metadata = [];
  team = codes "payments";
  preserved = [];
}

abbrev flag : Flag ℕ Bool
flag = flag_of (first ∷ second ∷ [])

abbrev swapped : List Text
swapped = codes "staff" ∷ codes "beta" ∷ []

reorder_run : (reorder_rules swapped flag).rules ≡ second ∷ first ∷ []
unfolding reorder_rules in_order by_name list_beq
reorder_run = refl

accepted_run : is_permutation flag.rules swapped ≡ ok tt
unfolding is_permutation take_names tally list_beq
accepted_run = refl

missing_run :
    is_permutation flag.rules (codes "beta" ∷ codes "beta" ∷ [])
    ≡ err (EditError.unknown_rule (codes "beta"))
unfolding is_permutation take_names tally list_beq
missing_run = refl

-- Two rules of one name: the order is accepted, and the second rule takes the place of the first.
abbrev twins : Flag ℕ Bool
twins = flag_of (first ∷ record first { query = codes "staff eq true" } ∷ [])

twins_accepted_run : is_permutation twins.rules (codes "beta" ∷ codes "beta" ∷ []) ≡ ok tt
unfolding is_permutation take_names tally list_beq
twins_accepted_run = refl

twins_reorder_run :
    (reorder_rules (codes "beta" ∷ codes "beta" ∷ []) twins).rules
    ≡ record first { query = codes "staff eq true" }
      ∷ record first { query = codes "staff eq true" }
      ∷ []
unfolding reorder_rules in_order by_name list_beq
twins_reorder_run = refl

is_permutation_iff_example :
    (is_permutation flag.rules swapped ≡ ok tt) ↔ Permᴰ swapped (names flag.rules)
is_permutation_iff_example = is_permutation_iff flag.rules swapped

flag-Distinct : Distinct (names flag.rules)
flag-Distinct = (λ m. elim m [ here e ↦ cc e | there n ↦ elim n [ ] ], (λ m. elim m [ ], tt))

reorder_rules_lem_example :
    Permᴰ (reorder_rules swapped flag).rules flag.rules
    × (names (reorder_rules swapped flag).rules ≡ swapped)
reorder_rules_lem_example = reorder_rules_lem swapped flag flag-Distinct accepted_run

absent_run : rule_exists flag.rules (codes "qa") ≡ false
unfolding rule_exists list_beq
absent_run = refl

valid_outcome_iff_example :
    (valid_outcome flag (serving (codes "on")) ≡ ok tt) ↔ IsServed flag (serving (codes "on"))
valid_outcome_iff_example = valid_outcome_iff flag (serving (codes "on"))

served_run : valid_outcome flag (serving (codes "on")) ≡ ok tt
unfolding valid_outcome has_variation list_beq
served_run = refl

off_known_run : has_variation flag.variations (codes "off") ≡ true
unfolding has_variation list_beq
off_known_run = refl

apply_progressive-ServesSomething_example :
    All
      (ServesSomething (apply_progressive (codes "beta") none (codes "off") flag))
      (apply_progressive (codes "beta") none (codes "off") flag).rules
apply_progressive-ServesSomething_example =
    apply_progressive-ServesSomething (codes "beta") none (codes "off") flag
      (λ _. (λ e. cc e, off_known_run)) (inr served_run, (inr served_run, tt))
