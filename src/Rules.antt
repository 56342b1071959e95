-- ===== src/Rules.antt =====
-- internal/server/server.go: the edits of a flag's targeting rules, and the checks before them.
-- `Number` is the type of a percentage, a float64, and `hundred` is 100.
pub mod Order
pub mod Changes
pub mod Serving
pub mod Reorder
use goff_studio.Base.{
  ℕ, ℤ, zero, suc, ◌-◌, Bool, true, false, not, ◌&&◌, Option, none, some, List, [], ◌∷◌, ◌++◌,
  length, take, drop, any, ltb, if◌then◌else◌, ◌==◌, nat_eq, Text, text_eq, is_empty, Result, ok,
  err, ◌>>=◌, ◌>>◌, refuse_if,
}
use goff_studio.Goff.{Variation, Outcome, ProgressiveRollout, Rule, Flag}

-- What the handlers answer with status 400.
pub data EditError : Type 0 where
  wrong_count : ℕ → ℕ → EditError
  unknown_rule : Text → EditError
  unknown_variation : Text → EditError
  serves_nothing : EditError

-- The index at which insertRule puts the rule.
unfoldable pub insert_at : Option ℤ → ℕ → ℕ
insert_at none count = count
insert_at (some (ℤ.negsuc n)) count = count
insert_at (some (ℤ.pos n)) count = if ltb n count then n else count

-- The second loop of isPermutation.
unfoldable pub take_names : (Text → ℕ) → List Text → Result EditError (Unit {0})
take_names want [] = ok tt
take_names want (name ∷ order) = do
  refuse_if (want name == 0) (unknown_rule name)
  take_names (λ other. if other == name then want other - 1 else want other) order

module _ {Value : Type 0} where
  -- hasVariation
  unfoldable pub has_variation : List (Variation Value) → Text → Bool
  has_variation variations name = any (λ v. v.name == name) variations

module _ {Number Value : Type 0} where
  -- The loop of validOutcome over the percentages.
  unfoldable pub all_known :
      List (Variation Value) → List (Text × Number) → Result EditError (Unit {0})
  all_known variations [] = ok tt
  all_known variations ((name, _) ∷ rest) = do
    refuse_if (not (has_variation variations name)) (unknown_variation name)
    all_known variations rest

module _ {Number : Type 0} where
  -- ruleExists
  unfoldable pub rule_exists : List (Rule Number) → Text → Bool
  rule_exists rules name = any (λ r. r.name == name) rules

  unfoldable pub insert_into : Rule Number → Option ℤ → List (Rule Number) → List (Rule Number)
  insert_into rule position rules =
      let at = insert_at position (length rules) in take at rules ++ (rule ∷ drop at rules)

  unfoldable pub remove_from : Text → List (Rule Number) → List (Rule Number)
  remove_from name [] = []
  remove_from name (r ∷ rs) =
      let rest = remove_from name rs in if not (r.name == name) then r ∷ rest else rest

  -- The map `byName` of reorderRules: a later rule takes the place of an earlier one.
  unfoldable pub by_name : List (Rule Number) → Text → Option (Rule Number)
  by_name [] name = none
  by_name (r ∷ rs) name = elim (by_name rs name) [
    | some later ↦ some later
    | none ↦ if r.name == name then some r else none
  ]

  unfoldable pub in_order : List (Rule Number) → List Text → List (Rule Number)
  in_order rules [] = []
  in_order rules (name ∷ order) = elim (by_name rules name) [
    | some r ↦ r ∷ in_order rules order
    | none ↦ in_order rules order
  ]

  -- The map `want` of isPermutation, a missing key being 0.
  unfoldable pub tally : (Text → ℕ) → List (Rule Number) → Text → ℕ
  tally want [] = want
  tally want (r ∷ rs) = tally (λ name. if name == r.name then suc (want name) else want name) rs

  -- isPermutation
  unfoldable pub is_permutation : List (Rule Number) → List Text → Result EditError (Unit {0})
  is_permutation current order = do
    refuse_if (not (length order == length current)) (wrong_count (length order) (length current))
    take_names (tally (λ _. 0) current) order

  -- The loops that change the first rule of a name and return.
  unfoldable pub change_first :
      Text → (Rule Number → Rule Number) → List (Rule Number) → List (Rule Number)
  change_first name change [] = []
  change_first name change (r ∷ rs) =
      let rest = change_first name change rs in if r.name == name then change r ∷ rs else r ∷ rest

  -- What applyProgressive does to the rule.
  unfoldable pub roll_out : Option (ProgressiveRollout Number) → Text → Rule Number → Rule Number
  roll_out (some next) fallback r = record r { progressive = some next }
  roll_out none fallback r =
      if not (is_empty fallback)
      then record r {
        progressive = none;
        outcome = record { variation = fallback; percentage = [] };
      }
      else record r { progressive = none }

module _ {Number Value : Type 0} where
  -- insertRule
  unfoldable pub insert_rule : Rule Number → Option ℤ → Flag Number Value → Flag Number Value
  insert_rule rule position f = record f { rules = insert_into rule position f.rules }

  -- removeRule
  unfoldable pub remove_rule : Text → Flag Number Value → Flag Number Value
  remove_rule name f = record f { rules = remove_from name f.rules }

  -- reorderRules
  unfoldable pub reorder_rules : List Text → Flag Number Value → Flag Number Value
  reorder_rules order f = record f { rules = in_order f.rules order }

  -- applyProgressive
  unfoldable pub apply_progressive :
      Text → Option (ProgressiveRollout Number) → Text → Flag Number Value → Flag Number Value
  apply_progressive name next fallback f = record f {
    rules = change_first name (roll_out next fallback) f.rules;
  }

  -- validOutcome
  unfoldable pub valid_outcome : Flag Number Value → Outcome Number → Result EditError (Unit {0})
  valid_outcome f o = elim o.percentage [
    | [] ↦ do
      refuse_if (is_empty o.variation) serves_nothing
      refuse_if (not (has_variation f.variations o.variation)) (unknown_variation o.variation)
    | entry ∷ rest ↦ all_known f.variations (entry ∷ rest)
  ]
