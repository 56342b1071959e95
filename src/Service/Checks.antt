-- ===== src/Service/Checks.antt =====
-- The checks that the service makes before it changes a file, and when it takes two versions of a
-- flag for the same.
use goff_studio.Base.{
  Bool, true, false, not, ◌&&◌, ◌||◌, Option, none, some, List, [], ◌∷◌, ◌++◌, map, any, contains,
  length, ltb, if◌then◌else◌, ◌==◌, nat_eq, Text, text_eq, codes, is_empty, trim_space,
  contains_any, byte_len, sort_by, text_less, Result, ok, err, ◌>>◌, refuse_if,
}
use goff_studio.Config.{Config, declares_team}
use goff_studio.Goff.{Variation, Outcome, Rule, Flag}
use goff_studio.Validate.{Invalid, valid_name}
use goff_studio.Service.{
  Failure, invalid, bad, key_required, key_has_space, key_has_whitespace, key_too_long, not_a_team,
  no_variations, unnamed_variation, repeated_variation, default_required, unknown_default, Runtime,
}
use goff_studio.Service.Memory.{look}

-- An error of validate.go among those of the service.
unfoldable pub lift_invalid : Result Invalid (Unit {0}) → Result Failure (Unit {0})
lift_invalid (ok value) = ok value
lift_invalid (err e) = err (invalid (bad e))

-- validKey
unfoldable pub valid_key : Text → Result Failure (Unit {0})
valid_key key = do
  refuse_if (is_empty (trim_space key)) (invalid key_required)
  refuse_if (not (key == trim_space key)) (invalid key_has_space)
  refuse_if (contains_any key (9 ∷ 10 ∷ 11 ∷ 12 ∷ 13 ∷ 32 ∷ [])) (invalid key_has_whitespace)
  refuse_if (ltb 255 (byte_len key)) (invalid key_too_long)

-- validTeam
unfoldable pub valid_team : Config → Text → Result Failure (Unit {0})
valid_team config raw =
    let team = trim_space raw in
    if is_empty team || declares_team config team then ok tt else err (invalid (not_a_team team))

module _ {Value : Type 0} where
  -- The loop of checkVariationShape, over the names seen so far.
  unfoldable pub check_shape : List Text → List (Variation Value) → Result Failure (Unit {0})
  check_shape seen [] = ok tt
  check_shape seen (v ∷ vs) = do
    refuse_if (is_empty (trim_space v.name)) (invalid unnamed_variation)
    lift_invalid (valid_name (codes "variation name") v.name)
    refuse_if (contains seen v.name) (invalid (repeated_variation v.name))
    check_shape (v.name ∷ seen) vs

  -- checkVariationShape
  unfoldable pub check_variation_shape : List (Variation Value) → Result Failure (Unit {0})
  check_variation_shape variations = do
    refuse_if (is_empty variations) (invalid no_variations)
    check_shape [] variations

  -- checkDefault
  unfoldable pub check_default : List (Variation Value) → Text → Result Failure (Unit {0})
  check_default variations default_variation = do
    refuse_if (is_empty default_variation) (invalid default_required)
    refuse_if (not (any (λ v. v.name == default_variation) variations))
        (invalid (unknown_default default_variation))

  -- checkVariations
  unfoldable pub check_variations : List (Variation Value) → Text → Result Failure (Unit {0})
  check_variations variations default_variation = do
    check_variation_shape variations
    check_default variations default_variation

  -- `note` of brokenReferences: what is appended for a name used at `place`.
  unfoldable pub note : List (Variation Value) → Text → Text → List (Text × Text)
  note variations name place =
      if not (is_empty name) && not (any (λ v. v.name == name) variations)
      then (name, place) ∷ []
      else []

  unfoldable pub note_all : List (Variation Value) → List Text → Text → List (Text × Text)
  note_all variations [] place = []
  note_all variations (name ∷ names) place =
      note variations name place ++ note_all variations names place

module _ {Number : Type 0} where
  -- sortedFloatKeys
  unfoldable pub sorted_float_keys : List (Text × Number) → List Text
  sorted_float_keys m = sort_by text_less (map (λ entry. entry.0) m)

  -- `where` of brokenReferences.
  unfoldable pub rule_place : Rule Number → Text
  rule_place r =
      if not (is_empty r.name)
      then codes "rule \"" ++ r.name ++ codes "\""
      else codes "a targeting rule"

module _ {Number Value : Type 0} where
  -- The loop of brokenReferences over the rules.
  unfoldable pub rule_references : List (Variation Value) → List (Rule Number) → List (Text × Text)
  rule_references variations [] = []
  rule_references variations (r ∷ rs) =
      note variations r.outcome.variation (rule_place r)
      ++ note_all variations (sorted_float_keys r.outcome.percentage)
          (rule_place r ++ codes "'s rollout")
      ++ rule_references variations rs

  -- brokenReferences: each name that is not kept, and where it is used.
  unfoldable pub broken_references :
      Flag Number Value → List (Variation Value) → Text → List (Text × Text)
  broken_references f variations default_variation =
      (if is_empty default_variation
        then note variations f.default.variation (codes "the default rule")
        else [])
      ++ note_all variations (sorted_float_keys f.default.percentage) (codes "the default rollout")
      ++ rule_references variations f.rules

-- metaDescription
abbrev pub meta_description : Text
meta_description = codes "description"

-- `==` on two of bool.
unfoldable pub same_bool : Bool → Bool → Bool
same_bool true b = b
same_bool false b = not b

module _ {Number Value Time : Type 0} (runtime : Runtime Number Value Time) where
  -- `b.Percentage[k]`, which is 0 for a missing key.
  unfoldable pub share_of : List (Text × Number) → Text → Number
  share_of m k = elim (look m k) [ some v ↦ v | none ↦ runtime.nought ]

  -- The loop of sameOutcome.
  unfoldable pub same_shares : List (Text × Number) → List (Text × Number) → Bool
  same_shares [] other = true
  same_shares ((k, v) ∷ rest) other =
      runtime.same_number (share_of other k) v && same_shares rest other

  -- sameOutcome
  unfoldable pub same_outcome : Outcome Number → Outcome Number → Bool
  same_outcome a b =
      if not (a.variation == b.variation)
      then false
      else if not (length a.percentage == length b.percentage)
      then false
      else same_shares a.percentage b.percentage

  -- The loop of sameFlagState over the variations.
  unfoldable pub same_variations : List (Variation Value) → List (Variation Value) → Bool
  same_variations [] [] = true
  same_variations (a ∷ left) (b ∷ right) =
      a.name == b.name
      && runtime.print a.value == runtime.print b.value
      && same_variations left right
  same_variations _ _ = false

  unfoldable pub same_rule : Rule Number → Rule Number → Bool
  same_rule a b =
      a.name == b.name
      && a.query == b.query
      && same_bool a.disabled b.disabled
      && same_outcome a.outcome b.outcome

  -- The loop of sameFlagState over the rules.
  unfoldable pub same_rules : List (Rule Number) → List (Rule Number) → Bool
  same_rules [] [] = true
  same_rules (a ∷ left) (b ∷ right) = same_rule a b && same_rules left right
  same_rules _ _ = false

  -- `!=` on two entries of maps of `any`, where a missing one is nil.
  unfoldable pub value_or_null : Option Value → Value
  value_or_null none = runtime.null
  value_or_null (some v) = v

  unfoldable pub same_entry : Option Value → Option Value → Bool
  same_entry v w = runtime.same_value (value_or_null v) (value_or_null w)

  -- sameFlagState
  unfoldable pub same_flag_state : Flag Number Value → Flag Number Value → Bool
  same_flag_state a b =
      same_bool a.enabled b.enabled
      && same_entry (look a.metadata meta_description) (look b.metadata meta_description)
      && same_outcome a.default b.default
      && same_variations a.variations b.variations
      && same_rules a.rules b.rules
