-- ===== src/Promote/Served.antt =====
-- What a promoted flag serves.
use mathlib.Core.Path.{subst}
use goff_studio.Base.{
  Bool, true, false, not, ◌&&◌, ◌≡◌, ◌≢◌, refl, ap, ◌∙◌, inl, inr, none, List, [], ◌∷◌, ◌++◌,
  filter, contains, any, if◌then◌else◌, ◌==◌, ==_iff, Text, text_eq, Result, ok, err, arith,
  Bool-cases, Option-cases, Any, any→Any, All,
}
use goff_studio.Goff.{Variation, Outcome, ProgressiveRollout, Rule, Flag}
use goff_studio.Promote.{
  field_variations, field_rules, field_default, Clock, outcome_variations, frozen_outcome,
  frozen_rule, frozen_rules, promote, outcomes_of, promoted_variations, missing_of,
  check_promotable, Refusal, missing_variations,
}

abbrev pub IsVariation : {Value : Type 0} → List (Variation Value) → Text → Type 0
IsVariation variations name = Any (λ v. v.name ≡ name) variations

-- Every variation that an outcome of the flag names is one of the flag's.
abbrev pub Serves : {Number Value : Type 0} → Flag Number Value → Type 0
Serves f =
    All (IsVariation f.variations) (outcomes_of f.rules)
    × All (IsVariation f.variations) (outcome_variations f.default)

module _ {Value : Type 0} where
  missing_of-empty :
      (variations : List (Variation Value)) (names : List Text)
      → missing_of variations names ≡ []
      → All (IsVariation variations) names
  unfolding missing_of filter
  missing_of-empty variations [] h = tt
  missing_of-empty variations (n ∷ names) h =
      elim (Bool-cases (any (λ v. v.name == n) variations)) [
        | inl e ↦ (
          any→Any (λ v. (==_iff v.name n).0) variations e,
          missing_of-empty variations names (rw e at h),
        )
        | inr e ↦ absurd (not_empty (rw e at h))
      ]
    where
      not_empty : {A : Type 0} {x : A} {xs : List A} → x ∷ xs ≢ []
      not_empty e = cc e

module _ {Number Time : Type 0} (clock : Clock Number Time) (now later : Time) where
  -- Which variations a frozen rollout names does not depend on the time.
  frozen_outcome-variations :
      (p : ProgressiveRollout Number)
      → outcome_variations (frozen_outcome clock now p)
        ≡ outcome_variations (frozen_outcome clock later p)
  unfolding frozen_outcome outcome_variations
  frozen_outcome-variations p = elim (Bool-cases (p.initial.variation == p.end.variation)) [
    | inl e ↦ rw e refl
    | inr e ↦ rw e refl
  ]

  outcomes_of-frozen_rules :
      (rules : List (Rule Number))
      → outcomes_of (frozen_rules clock now rules) ≡ outcomes_of (frozen_rules clock later rules)
  unfolding outcomes_of frozen_rules frozen_rule
  outcomes_of-frozen_rules [] = refl
  outcomes_of-frozen_rules (r ∷ rs) = elim (Option-cases r.progressive) [
    | inl e ↦ rw e (ap (λ xs. outcome_variations r.outcome ++ xs) (outcomes_of-frozen_rules rs))
    | inr (p, e) ↦ rw e (
        ap (λ xs. xs ++ outcomes_of (frozen_rules clock now rs)) (frozen_outcome-variations p)
        ∙ ap (λ xs. outcome_variations (frozen_outcome clock later p) ++ xs)
            (outcomes_of-frozen_rules rs))
  ]

none_missing :
    (names : List Text)
    → (elim names as (λ _. Result Refusal (Unit {0})) [
      | [] ↦ ok tt
      | name ∷ more ↦ err (missing_variations (name ∷ more))
    ])
      ≡ ok tt
    → names ≡ []
none_missing [] h = refl
none_missing (name ∷ more) h = absurd (cc h)

module _ (P : Text → Type 0) where
  All-split : (xs ys : List Text) → All P (xs ++ ys) → All P xs × All P ys
  All-split [] ys h = (tt, h)
  All-split (x ∷ xs) ys (p, h) = let (l, r) = All-split xs ys h in ((p, l), r)

  rules_of :
      {Number : Type 0} (wanted : Bool) (checked new old : List (Rule Number))
      → outcomes_of checked ≡ outcomes_of new
      → All P (if wanted then outcomes_of checked else [])
      → All P (outcomes_of old)
      → All P (outcomes_of (if wanted then new else old))
  rules_of true checked new old e h k = subst (All P) e h
  rules_of false checked new old e h k = k

  default_of :
      {Number : Type 0} (wanted : Bool) (new old : Outcome Number)
      → All P (if wanted then outcome_variations new else [])
      → All P (outcome_variations old)
      → All P (outcome_variations (if wanted then new else old))
  default_of true new old h k = h
  default_of false new old h k = k

module _ {Number Value Time : Type 0} (clock : Clock Number Time) (now : Time) where
  nothing_promoted :
      (P : Text → Type 0) (source : Flag Number Value) (fields : List Text)
      → (not (contains fields field_rules) && not (contains fields field_default)) ≡ true
      → All P (promoted_variations clock now source fields)
  unfolding promoted_variations
  nothing_promoted P source fields e =
      let r : contains fields field_rules ≡ false = ground arith in
      let d : contains fields field_default ≡ false = ground arith in rw (r, d) tt

module _ {Number Value Time : Type 0} (clock : Clock Number Time) (now later : Time) where
  -- What checkPromotable has looked at, when it accepts.
  checked :
      (source target : Flag Number Value) (fields : List Text)
      → contains fields field_variations ≡ false
      → check_promotable clock now source target fields ≡ ok tt
      → All (IsVariation target.variations) (promoted_variations clock now source fields)
  unfolding check_promotable
  checked source target fields v h =
      elim (Bool-cases (not (contains fields field_rules) && not (contains fields field_default))) [
        | inl e ↦ nothing_promoted clock now (IsVariation target.variations) source fields e
        | inr e ↦ missing_of-empty target.variations _ (
            none_missing
              (missing_of target.variations (promoted_variations clock now source fields))
              (rw (v, e) at h))
      ]

  -- Where checkPromotable accepts a promotion that leaves the variations out, at some time, and every
  -- variation that the target serves is one of its own, this is so for the promoted flag too,
  -- at whatever time the promotion is made.
  pub promote-Serves :
      (source target : Flag Number Value) (fields : List Text)
      → contains fields field_variations ≡ false
      → check_promotable clock now source target fields ≡ ok tt
      → Serves target
      → Serves (promote clock later source fields target)
  unfolding promote check_promotable promoted_variations
  promote-Serves source target fields v h (rules, default) =
      let known = IsVariation target.variations in
      let frozen = frozen_rules clock now source.rules in
      let promoted = checked source target fields v h in
      let (new_rules, new_default) =
        All-split known (if contains fields field_rules then outcomes_of frozen else [])
          (if contains fields field_default then outcome_variations source.default else [])
          promoted in
      rw v (
        rules_of known (contains fields field_rules) frozen (frozen_rules clock later source.rules)
            target.rules (outcomes_of-frozen_rules clock now later source.rules) new_rules rules,
        default_of known (contains fields field_default) source.default target.default new_default
            default,
      )

module _ {Number Time : Type 0} (clock : Clock Number Time) (now : Time) where
  frozen_rule-progressive : (r : Rule Number) → (frozen_rule clock now r).progressive ≡ none
  unfolding frozen_rule
  frozen_rule-progressive r = elim (Option-cases r.progressive) [
    | inl e ↦ rw e refl
    | inr (p, e) ↦ rw e refl
  ]

  -- A rule that is in no rollout is copied as it is.
  settled : (later : Time) (r : Rule Number) → r.progressive ≡ none → frozen_rule clock later r ≡ r
  unfolding frozen_rule
  settled later r e = rw e refl

  -- No promoted rule is in a progressive rollout, and freezing the promoted rules again, at whatever
  -- time, changes nothing.
  pub frozen_rules-frozen_rules :
      (later : Time) (rules : List (Rule Number))
      → All (λ r. r.progressive ≡ none) (frozen_rules clock now rules)
        × (frozen_rules clock later (frozen_rules clock now rules) ≡ frozen_rules clock now rules)
  unfolding frozen_rules
  frozen_rules-frozen_rules later [] = (tt, refl)
  frozen_rules-frozen_rules later (r ∷ rs) =
      let (none_left, again) = frozen_rules-frozen_rules later rs in
      let done = frozen_rule-progressive r in
      (
        (done, none_left),
        ap (λ x. x ∷ frozen_rules clock later (frozen_rules clock now rs))
              (settled later (frozen_rule clock now r) done)
            ∙ ap (◌∷◌ (frozen_rule clock now r)) again,
      )
