-- ===== src/Rules/Serving.antt =====
-- What a rule serves: the check of an outcome, and the rules after a progressive rollout is changed.
use goff_studio.Base.{
  Bool, true, false, not, ◌≡◌, ◌≢◌, ◌↔◌, ◌⊎◌, inl, inr, refl, ap, ◌∙◌, Option, none, some, List, [],
  ◌∷◌, ◌==◌, ==_iff, Text, text_eq, is_empty, ok, ◌>>◌, >>-eq-ok, refuse_if, refuse_if-eq-ok, arith,
  Bool-cases, Any, any→Any, Any→any, All, All-imp,
}
use goff_studio.Goff.{Variation, Outcome, ProgressiveRollout, Rule, Flag}
use goff_studio.Rules.{
  EditError, change_first, roll_out, apply_progressive, has_variation, all_known, valid_outcome,
  unknown_variation, serves_nothing,
}

-- One of the flag's variations has this name.
abbrev pub IsVariation : {Number Value : Type 0} → Flag Number Value → Text → Type 0
IsVariation f name = Any (λ v. v.name ≡ name) f.variations

module _ {Value : Type 0} where
  has_variation_iff :
      (variations : List (Variation Value)) (name : Text)
      → (has_variation variations name ≡ true) ↔ Any (λ v. v.name ≡ name) variations
  unfolding has_variation
  has_variation_iff variations name =
      (any→Any (λ v. (==_iff v.name name).0) variations, Any→any (λ v. (==_iff v.name name).1))

no_refusal : (b : Bool) (e : EditError) → refuse_if (not b) e ≡ ok tt → b ≡ true
no_refusal true e h = refl
no_refusal false e h = cc

not_empty : (s : Text) → (is_empty s ≡ false) ↔ (s ≢ [])
not_empty [] = (λ h. cc, λ n. absurd (n refl))
not_empty (c ∷ s) = (λ h e. cc, λ _. refl)

module _ {Number : Type 0} where
  change_first-All :
      {P Q : Rule Number → Type 0} (name : Text) (change : Rule Number → Rule Number)
      → ((r : Rule Number) → P r → Q r)
      → ((r : Rule Number) → P r → Q (change r))
      → (rules : List (Rule Number)) → All P rules
      → All Q (change_first name change rules)
  unfolding change_first
  change_first-All name change f g [] h = tt
  change_first-All name change f g (r ∷ rs) (p, ps) = elim (Bool-cases (r.name == name)) [
    | inl e ↦ rw e (g r p, All-imp f rs ps)
    | inr e ↦ rw e (f r p, change_first-All name change f g rs ps)
  ]

module _ {Number Value : Type 0} where
  -- An outcome that the flag can serve: a percentage split over its variations, or, where there is no
  -- split, one of its variations.
  abbrev pub IsServed : Flag Number Value → Outcome Number → Type 0
  IsServed f o =
      ((o.percentage ≢ []) × All (λ entry. IsVariation f entry.0) o.percentage)
      ⊎ ((o.percentage ≡ []) × (o.variation ≢ []) × IsVariation f o.variation)

  all_known_iff :
      (f : Flag Number Value) (entries : List (Text × Number))
      → (all_known f.variations entries ≡ ok tt) ↔ All (λ entry. IsVariation f entry.0) entries
  unfolding all_known
  all_known_iff f [] = (λ _. tt, λ _. refl)
  all_known_iff f ((name, x) ∷ rest) =
      let (known, of_known) = has_variation_iff f.variations name in
      let (rests, of_rests) = all_known_iff f rest in
      (
        λ h.
            let (first, h') = >>-eq-ok (refuse_if (not (has_variation f.variations name)) _) _ h in
            (known (no_refusal _ _ first), rests h'),
        λ (v, vs). ground (arith, of_known v, of_rests vs),
      )

  named_outcome :
      (f : Flag Number Value) (name : Text)
      → ((refuse_if (is_empty name) serves_nothing
            >> refuse_if (not (has_variation f.variations name)) (unknown_variation name))
          ≡ ok tt)
        ↔ ((name ≢ []) × IsVariation f name)
  named_outcome f name =
      let (known, of_known) = has_variation_iff f.variations name in
      (
        λ h.
            let (first, h') = >>-eq-ok (refuse_if (is_empty name) _) _ h in
            ((not_empty name).0 (refuse_if-eq-ok _ _ first), known (no_refusal _ _ h')),
        λ (n, v). ground (arith, (not_empty name).1 n, of_known v),
      )

  valid-IsServed :
      (f : Flag Number Value) (name : Text) (entries : List (Text × Number))
      → (valid_outcome f (record { variation = name; percentage = entries }) ≡ ok tt)
        ↔ IsServed f (record { variation = name; percentage = entries })
  unfolding valid_outcome
  valid-IsServed f name [] = (
    λ h. let (n, v) = (named_outcome f name).0 h in inr (refl, n, v),
    λ h. elim h [ inl (n, _) ↦ absurd (n refl) | inr (_, n, v) ↦ (named_outcome f name).1 (n, v) ],
  )
  valid-IsServed f name (entry ∷ rest) = (
    λ h. inl (λ e. cc, (all_known_iff f (entry ∷ rest)).0 h),
    λ h. elim h [ inl (_, v) ↦ (all_known_iff f (entry ∷ rest)).1 v | inr (e, _, _) ↦ cc ],
  )

  -- validOutcome accepts exactly the outcomes that the flag can serve.
  pub valid_outcome_iff :
      (f : Flag Number Value) (o : Outcome Number) → (valid_outcome f o ≡ ok tt) ↔ IsServed f o
  valid_outcome_iff f o = valid-IsServed f o.variation o.percentage

  -- A rule serves something: it is in a progressive rollout, or its outcome is one that
  -- validOutcome accepts.
  abbrev pub ServesSomething : Flag Number Value → Rule Number → Type 0
  ServesSomething f r = (r.progressive ≢ none) ⊎ (valid_outcome f r.outcome ≡ ok tt)

  roll_out-ServesSomething :
      (next : Option (ProgressiveRollout Number)) (fallback : Text) (f f' : Flag Number Value)
      → f'.variations ≡ f.variations
      → ((next ≡ none) → (fallback ≢ []) × (has_variation f.variations fallback ≡ true))
      → (r : Rule Number) → ServesSomething f' (roll_out next fallback r)
  unfolding roll_out
  roll_out-ServesSomething (some step) fallback f f' v g r = inl (λ e. cc)
  roll_out-ServesSomething none fallback f f' v g r =
      let (n, known) = g refl in
      let known' =
        (has_variation_iff f'.variations fallback).0
          (ap (λ vs. has_variation vs fallback) v ∙ known) in
      rw ((not_empty fallback).1 n) (
        inr (
          (valid_outcome_iff f' (record { variation = fallback; percentage = [] })).1
            (inr (refl, n, known'))))

  -- Where every rule of the flag serves something, so does every rule after applyProgressive,
  -- provided that a clearing names one of the flag's variations to fall back on.
  pub apply_progressive-ServesSomething :
      (name : Text) (next : Option (ProgressiveRollout Number)) (fallback : Text)
      (f : Flag Number Value)
      → ((next ≡ none) → (fallback ≢ []) × (has_variation f.variations fallback ≡ true))
      → All (ServesSomething f) f.rules
      → All
          (ServesSomething (apply_progressive name next fallback f))
          (apply_progressive name next fallback f).rules
  unfolding apply_progressive
  apply_progressive-ServesSomething name next fallback f g h =
      let f' = apply_progressive name next fallback f in
      change_first-All name (roll_out next fallback)
        (λ r p. elim p [
          | inl q ↦ inl q
          | inr v ↦ inr ((valid_outcome_iff f' r.outcome).1 ((valid_outcome_iff f r.outcome).0 v))
        ])
        (λ r _. roll_out-ServesSomething next fallback f f' refl g r) f.rules h
