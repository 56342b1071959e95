-- ===== src/Service/Comparing.antt =====
-- internal/server/compare.go: a flag in two environments side by side. `Deep` has reflect.DeepEqual
-- at the types at which the code uses it.
use mathlib.Core.List.{map}
use goff_studio.Base.{
  Bool, true, false, not, ◌&&◌, Option, none, some, List, [], ◌∷◌, any, contains, filter, length,
  if◌then◌else◌, ◌==◌, nat_eq, Text, text_eq, codes, sort_by, text_less, Result, ok, err,
}
use goff_studio.Auth.{Session}
use goff_studio.Diff.{unified_diff}
use goff_studio.Goff.{Variation, Outcome, Rule, Experimentation, Flag}
use goff_studio.Permissions.{create, edit_rules}
use goff_studio.Promote.{
  field_enabled, field_variations, field_default, field_rules, field_experimentation,
  field_metadata, field_bucketing_key, studio_metadata,
}
use goff_studio.Service.{Failure, forbidden, not_found, invalid, same_environments, Studio}
use goff_studio.Service.Memory.{State}
use goff_studio.Service.Checks.{valid_team, same_bool}
use goff_studio.Service.Edits.{may}
use goff_studio.Service.Steps.{Step, settle, give, attempt, forbid, ◌>>=◌, ◌>>◌}
use goff_studio.Service.Listing.{FlagView, get}
use goff_studio.Service.Creates.{succeeded}
use goff_studio.Service.Environments.{environments}
pub mod Seen

module _ (Number Value : Type 0) where
  pub record Deep : Type 0 where
    pub same_value : Value → Value → Bool
    pub same_default : Outcome Number → Outcome Number → Bool
    pub same_rules : List (Rule Number) → List (Rule Number) → Bool
    pub same_experimentation : Option Experimentation → Option Experimentation → Bool
    pub same_map : List (Text × Value) → List (Text × Value) → Bool

  -- CompareSide
  pub record CompareSide : Type 0 where
    pub environment : Text
    pub enabled : Bool
    pub summary : Text
    pub file : Text
    pub file_sha : Text
    pub team : Text
    pub writable : Bool
    -- `Present` says that there is one.
    pub flag : Option (Flag Number Value)

  -- CompareResult
  pub record CompareResult : Type 0 where
    pub key : Text
    pub from_side : CompareSide
    pub to_side : CompareSide
    pub differs : List Text
    pub blockers : List (Text × Text)
    pub diff : Option Text

module _ {Value : Type 0} where
  -- The map `byName` of sameVariations.
  unfoldable pub value_named : List (Variation Value) → Text → Option Value
  value_named [] name = none
  value_named (v ∷ vs) name = elim (value_named vs name) [
    | some later ↦ some later
    | none ↦ if v.name == name then some v.value else none
  ]

  -- The second loop of sameVariations.
  unfoldable pub all_found :
      (Value → Value → Bool) → List (Variation Value) → List (Variation Value) → Bool
  all_found same b [] = true
  all_found same b (v ∷ vs) = elim (value_named b v.name) [
    | none ↦ false
    | some other ↦ same v.value other && all_found same b vs
  ]

  -- sameVariations of compare.go
  unfoldable pub compare_variations :
      (Value → Value → Bool) → List (Variation Value) → List (Variation Value) → Bool
  compare_variations same a b = if not (length a == length b) then false else all_found same b a

  -- `strip` of sameMetadata.
  unfoldable pub strip : List (Text × Value) → List (Text × Value)
  strip metadata = filter (λ entry. not (studio_metadata entry.0)) metadata

module _ {Number Value : Type 0} (deep : Deep Number Value) where
  -- Whether a setting is the same in both flags: the map that diffFields loops over.
  unfoldable pub field_tests : Flag Number Value → Flag Number Value → List (Text × Bool)
  field_tests source target =
      (field_enabled, same_bool source.enabled target.enabled)
      ∷ (field_variations, compare_variations deep.same_value source.variations target.variations)
      ∷ (field_default, deep.same_default source.default target.default)
      ∷ (field_rules, deep.same_rules source.rules target.rules)
      ∷ (
        field_experimentation,
        deep.same_experimentation source.experimentation target.experimentation,
      )
      ∷ (field_bucketing_key, source.bucketing_key == target.bucketing_key)
      ∷ (field_metadata, deep.same_map (strip source.metadata) (strip target.metadata))
      ∷ []

  -- diffFields
  unfoldable pub diff_fields : Flag Number Value → Flag Number Value → List Text
  diff_fields source target =
      sort_by text_less
        (map (λ test. test.0) (filter (λ test. not test.1) (field_tests source target)))

module _ {Number Value : Type 0} where
  -- promoteBlockers, with the two types that its message names.
  unfoldable pub promote_blockers : Flag Number Value → Flag Number Value → List (Text × Text)
  promote_blockers source target =
      if not (source.value_type == target.value_type)
      then (source.value_type, target.value_type) ∷ []
      else []

  -- A side without a flag, and that of a view.
  unfoldable pub absent_side : Text → CompareSide Number Value
  absent_side environment = record {
    environment = environment;
    enabled = false;
    summary = [];
    file = [];
    file_sha = [];
    team = [];
    writable = false;
    flag = none;
  }

  unfoldable pub present_side : Text → FlagView Number Value → CompareSide Number Value
  present_side environment v = record {
    environment = environment;
    enabled = v.flag.enabled;
    summary = v.summary;
    file = v.flag.file;
    file_sha = v.file_sha;
    team = v.flag.team;
    writable = contains v.actions edit_rules;
    flag = some v.flag;
  }

  -- The switch of compareSide on the error of Get.
  unfoldable pub side_of :
      Text → Result Failure (FlagView Number Value) → Result Failure (CompareSide Number Value)
  side_of environment (ok v) = ok (present_side environment v)
  side_of environment (err not_found) = ok (absent_side environment)
  side_of environment (err failure) = err failure

module _ {Number Value Time World : Type 0} (studio : Studio Number Value Time World) where
  -- compareSide
  unfoldable pub compare_side :
      Session Time
      → Time
      → Text
      → Text
      → Step (State Number Value Time World) (CompareSide Number Value)
  compare_side session now key environment = do
    known ← environments studio session now
    forbid (not (any (λ e. e.name == environment) known)) forbidden
    found ← attempt (get studio session environment key)
    settle (side_of environment found)

  -- The target of Compare where only the source has the flag.
  unfoldable pub target_of :
      List Text → CompareSide Number Value → CompareSide Number Value → CompareSide Number Value
  target_of groups source target = elim target.flag [
    | some _ ↦ target
    | none ↦ elim source.flag [
      | none ↦ target
      | some _ ↦ record target {
        team = source.team;
        writable =
            succeeded (valid_team studio.config source.team)
            && may studio groups target.environment source.team create;
      }
    ]
  ]

  -- flagYAML
  unfoldable pub flag_yaml : Option (Flag Number Value) → Text
  flag_yaml none = []
  flag_yaml (some f) = elim (studio.adapter.serialize [] f.key f) [ err _ ↦ [] | ok text ↦ text ]

  -- The end of Compare, for the two flags.
  unfoldable pub differences :
      Deep Number Value → Option (Flag Number Value) → Option (Flag Number Value) → List Text
  differences deep (some source) (some target) = diff_fields deep source target
  differences deep (some source) none = codes "missing" ∷ []
  differences deep none target = []

  unfoldable pub blockers_of :
      Option (Flag Number Value) → Option (Flag Number Value) → List (Text × Text)
  blockers_of (some source) (some target) = promote_blockers source target
  blockers_of _ _ = []

  unfoldable pub neither : Option (Flag Number Value) → Option (Flag Number Value) → Bool
  neither none none = true
  neither _ _ = false

  -- Compare
  unfoldable pub compare :
      Deep Number Value
      → Session Time
      → Time
      → Text
      → Text
      → Text
      → Step (State Number Value Time World) (CompareResult Number Value)
  compare deep session now key from to = do
    forbid (from == to) (invalid same_environments)
    source ← compare_side session now key from
    target ← compare_side session now key to
    forbid (neither source.flag target.flag) not_found
    give (record {
      key = key;
      from_side = source;
      to_side = target_of session.groups source target;
      differs = differences deep source.flag target.flag;
      blockers = blockers_of source.flag target.flag;
      diff = unified_diff (flag_yaml source.flag) (flag_yaml target.flag) 3;
    })
