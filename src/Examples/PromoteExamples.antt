-- ===== src/Examples/PromoteExamples.antt =====
-- internal/server/promote.go on a flag of two environments.
use goff_studio.Base.{
  ℕ, ◌+◌, ◌-◌, ◌*◌, ◌/◌, Bool, true, false, ◌≡◌, refl, none, some, List, [], ◌∷◌, Text, codes, ltb,
  length, contains, filter, list_beq, text_eq, is_empty, if◌then◌else◌, ok, err, here, there,
}
use goff_studio.Goff.{Variation, Outcome, ProgressiveRollout, Rule, Flag}
use goff_studio.Promote.{
  Clock, field_rules, field_variations, studio_metadata, merged_metadata, promote, check_promotable,
  promoted_variations, missing_of, outcomes_of, outcome_variations, frozen_rules, frozen_rule,
  frozen_outcome, reached_percentage, reached_between, missing_variations,
}
use goff_studio.Promote.Metadata.{value_at, merged_metadata_lem}
use goff_studio.Promote.Served.{Serves, promote-Serves}

-- A date is as many days as its text is long, and a percentage a whole number.
abbrev days : Clock ℕ ℕ
days = record {
  parse = λ date. if is_empty date then none else some (length date);
  after = λ a b. ltb b a;
  seconds = λ a b. a - b;
  hundred = 100;
  plus = λ a b. a + b;
  minus = λ a b. a - b;
  times = λ a b. a * b;
  divided = λ a b. a / b;
}

abbrev serving : Text → Outcome ℕ
serving name = record { variation = name; percentage = [] }

abbrev ramp : ProgressiveRollout ℕ
ramp = record {
  initial = record { variation = codes "off"; percentage = 10; date = codes "a" };
  end = record { variation = codes "on"; percentage = 90; date = codes "aaaa" };
}

abbrev ramped : Rule ℕ
ramped = record {
  name = codes "beta";
  query = codes "beta eq true";
  condition = none;
  advanced = true;
  disabled = false;
  outcome = serving (codes "on");
  progressive = some ramp;
}

abbrev flag_in : Text → List Text → List (Rule ℕ) → Flag ℕ Bool
flag_in env variations rules = record {
  key = codes "new-checkout";
  file = codes "flags.goff.yaml";
  environment = env;
  value_type = codes "boolean";
  enabled = true;
  variations = named variations;
  rules = rules;
  default = serving (codes "off");
  experimentation = none;
  bucketing_key = [];
  metadata = [];
  team = codes "payments";
  preserved = [];
}
  where
    named : List Text → List (Variation Bool)
    named [] = []
    named (name ∷ rest) = record { name = name; value = true } ∷ named rest

abbrev staging : Flag ℕ Bool
staging = flag_in (codes "staging") (codes "on" ∷ codes "off" ∷ []) (ramped ∷ [])

abbrev production : Flag ℕ Bool
production = flag_in (codes "production") (codes "on" ∷ codes "off" ∷ []) []

-- A target without the variation that the rollout ends with.
abbrev bare : Flag ℕ Bool
bare = flag_in (codes "production") (codes "off" ∷ []) []

ramp_run :
    (promote days 9 staging (field_rules ∷ []) production).rules
    ≡ record ramped {
      outcome = record { variation = []; percentage = (codes "on", 90) ∷ (codes "off", 10) ∷ [] };
      progressive = none;
    }
      ∷ []
unfolding promote contains frozen_rules frozen_rule frozen_outcome reached_percentage
    reached_between list_beq
ramp_run = refl

accepted_run : check_promotable days 2 staging production (field_rules ∷ []) ≡ ok tt
unfolding check_promotable promoted_variations missing_of outcomes_of outcome_variations
    frozen_rules frozen_rule frozen_outcome contains filter list_beq
accepted_run = refl

refused_run :
    check_promotable days 2 staging bare (field_rules ∷ [])
    ≡ err (missing_variations (codes "on" ∷ []))
unfolding check_promotable promoted_variations missing_of outcomes_of outcome_variations
    frozen_rules frozen_rule frozen_outcome contains filter list_beq
refused_run = refl

kept_run : contains (field_rules ∷ []) field_variations ≡ false
unfolding contains list_beq
kept_run = refl

production-Serves : Serves production
unfolding outcomes_of outcome_variations
production-Serves = (tt, (there (here refl), tt))

promote-Serves_example : Serves (promote days 9 staging (field_rules ∷ []) production)
promote-Serves_example =
    promote-Serves days 2 9 staging production (field_rules ∷ []) kept_run accepted_run
      production-Serves

abbrev source_metadata : List (Text × ℕ)
source_metadata = (codes "team", 1) ∷ (codes "tier", 2) ∷ []

abbrev target_metadata : List (Text × ℕ)
target_metadata = (codes "team", 3) ∷ []

merged_metadata_lem_example :
    value_at (merged_metadata source_metadata target_metadata) (codes "team") ≡ (
      if studio_metadata (codes "team")
      then value_at target_metadata (codes "team")
      else value_at source_metadata (codes "team"))
merged_metadata_lem_example = merged_metadata_lem source_metadata target_metadata (codes "team")
