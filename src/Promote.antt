-- ===== src/Promote.antt =====
-- internal/server/promote.go, and the names of the settings of
-- compare.go: copying a flag's settings from one environment to another.
pub mod Served
pub mod Metadata
use goff_studio.Base.{
  ℕ, Bool, true, false, not, ◌&&◌, ◌||◌, Option, none, some, List, [], ◌∷◌, ◌++◌, map, filter,
  contains, any, length, if◌then◌else◌, ◌==◌, nat_eq, Text, text_eq, codes, is_empty, Result, ok,
  err,
}
use goff_studio.Goff.{Variation, Outcome, RolloutStep, ProgressiveRollout, Rule, Flag}

abbrev pub field_enabled : Text
field_enabled = codes "enabled"

abbrev pub field_variations : Text
field_variations = codes "variations"

abbrev pub field_default : Text
field_default = codes "default"

abbrev pub field_rules : Text
field_rules = codes "rules"

abbrev pub field_experimentation : Text
field_experimentation = codes "experimentation"

abbrev pub field_metadata : Text
field_metadata = codes "metadata"

abbrev pub field_bucketing_key : Text
field_bucketing_key = codes "bucketingKey"

abbrev pub copyable_fields : List Text
copyable_fields =
    field_variations ∷ field_default ∷ field_rules ∷ field_experimentation ∷ field_bucketing_key
    ∷ field_metadata ∷ field_enabled ∷ []

-- isCopyableField
unfoldable pub is_copyable_field : Text → Bool
is_copyable_field name = contains copyable_fields name

-- studioMetadata
unfoldable pub studio_metadata : Text → Bool
studio_metadata k = k == codes "team" || k == codes "createdAt" || k == codes "updatedAt"

-- What the code uses of float64 and of package time: RFC 3339 dates, instants and the seconds
-- between two of them.
pub record Clock (Number Time : Type 0) : Type 0 where
  pub parse : Text → Option Time
  pub after : Time → Time → Bool
  pub seconds : Time → Time → Number
  pub hundred : Number
  pub plus : Number → Number → Number
  pub minus : Number → Number → Number
  pub times : Number → Number → Number
  pub divided : Number → Number → Number

module _ {Number : Type 0} where
  -- outcomeVariations
  unfoldable pub outcome_variations : Outcome Number → List Text
  outcome_variations o =
      if not (is_empty o.percentage)
      then map (λ entry. entry.0) o.percentage
      else if not (is_empty o.variation)
      then o.variation ∷ []
      else []

  -- The variations that the rules' outcomes name.
  unfoldable pub outcomes_of : List (Rule Number) → List Text
  outcomes_of [] = []
  outcomes_of (r ∷ rs) = outcome_variations r.outcome ++ outcomes_of rs

module _ {Number Time : Type 0} (clock : Clock Number Time) (now : Time) where
  -- The end of reachedPercentage, with both dates parsed.
  unfoldable pub reached_between : ProgressiveRollout Number → Time → Time → Number
  reached_between p start end =
      if not (clock.after end start)
      then p.end.percentage
      else if clock.after start now
      then p.initial.percentage
      else if clock.after now end
      then p.end.percentage
      else clock.plus p.initial.percentage (
          clock.times (clock.minus p.end.percentage p.initial.percentage)
            (clock.divided (clock.seconds now start) (clock.seconds end start)))

  -- reachedPercentage
  unfoldable pub reached_percentage : ProgressiveRollout Number → Number
  reached_percentage p = elim (clock.parse p.initial.date) [
    | none ↦ p.end.percentage
    | some start ↦ elim (clock.parse p.end.date) [
      | none ↦ p.end.percentage
      | some end ↦ reached_between p start end
    ]
  ]

  -- frozenOutcome
  unfoldable pub frozen_outcome : ProgressiveRollout Number → Outcome Number
  frozen_outcome p =
      let reached = reached_percentage p in
      if p.initial.variation == p.end.variation
      then record { variation = []; percentage = (p.end.variation, reached) ∷ [] }
      else record {
        variation = [];
        percentage =
            (p.end.variation, reached)
            ∷ (p.initial.variation, clock.minus clock.hundred reached)
            ∷ [];
      }

  -- The loop body of frozenRules.
  unfoldable pub frozen_rule : Rule Number → Rule Number
  frozen_rule r = elim r.progressive [
    | none ↦ r
    | some p ↦ record r { outcome = frozen_outcome p; progressive = none }
  ]

  -- frozenRules
  unfoldable pub frozen_rules : List (Rule Number) → List (Rule Number)
  frozen_rules [] = []
  frozen_rules (r ∷ rs) = frozen_rule r ∷ frozen_rules rs

module _ {Value : Type 0} where
  -- mergedMetadata
  unfoldable pub merged_metadata : List (Text × Value) → List (Text × Value) → List (Text × Value)
  merged_metadata source target =
      filter (λ entry. not (studio_metadata entry.0)) source
      ++ filter (λ entry. studio_metadata entry.0) target

  -- Of these names those that no variation has.
  unfoldable pub missing_of : List (Variation Value) → List Text → List Text
  missing_of variations names = filter (λ name. not (any (λ v. v.name == name) variations)) names

-- The refusals of planPromotion. The names that are missing stand in the order in which the loop
-- meets them; the message sorts them and drops repetitions.
pub data Refusal : Type 0 where
  missing_variations : List Text → Refusal

module _ {Number Value Time : Type 0} (clock : Clock Number Time) (now : Time) where
  -- promoteMutator: each test sets one field.
  unfoldable pub promote : Flag Number Value → List Text → Flag Number Value → Flag Number Value
  promote source fields target = record target {
    variations = if contains fields field_variations then source.variations else target.variations;
    default = if contains fields field_default then source.default else target.default;
    rules =
        if contains fields field_rules then frozen_rules clock now source.rules else target.rules;
    experimentation =
        if contains fields field_experimentation
        then source.experimentation
        else target.experimentation;
    bucketing_key =
        if contains fields field_bucketing_key then source.bucketing_key else target.bucketing_key;
    metadata =
        if contains fields field_metadata
        then merged_metadata source.metadata target.metadata
        else target.metadata;
    enabled = if contains fields field_enabled then source.enabled else target.enabled;
  }

  -- The variations that `promoted` of checkPromotable names.
  unfoldable pub promoted_variations : Flag Number Value → List Text → List Text
  promoted_variations source fields =
      (if contains fields field_rules
        then outcomes_of (frozen_rules clock now source.rules)
        else [])
      ++ (if contains fields field_default then outcome_variations source.default else [])

  -- checkPromotable
  unfoldable pub check_promotable :
      Flag Number Value → Flag Number Value → List Text → Result Refusal (Unit {0})
  check_promotable source target fields =
      if contains fields field_variations
        || not (contains fields field_rules) && not (contains fields field_default)
      then ok tt
      else elim (missing_of target.variations (promoted_variations source fields)) [
        | [] ↦ ok tt
        | name ∷ more ↦ err (missing_variations (name ∷ more))
      ]
