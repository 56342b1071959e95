-- ===== src/Promote/Metadata.antt =====
-- Whose metadata a promoted flag has.
use goff_studio.Base.{
  Bool, true, false, not, ◌≡◌, refl, sym, ◌≢◌, ◌⊎◌, ap, ◌∙◌, inl, inr, Option, none, some, List, [],
  ◌∷◌, ◌++◌, filter, if◌then◌else◌, ◌==◌, ==_iff, Text, text_eq, Bool-cases,
}
use goff_studio.Promote.{studio_metadata, merged_metadata}

differ : {x y : Bool} → (x ≡ true) × (y ≡ false) ⊎ (x ≡ false) × (y ≡ true) → x ≢ y
differ (inl (e, h)) q = cc (sym e ∙ q ∙ h)
differ (inr (e, h)) q = cc (sym e ∙ q ∙ h)

module _ {Value : Type 0} where
  -- The value of a key of a map.
  pub value_at : List (Text × Value) → Text → Option Value
  value_at [] k = none
  value_at ((key, v) ∷ rest) k = let later = value_at rest k in if key == k then some v else later

  abbrev or_else : Option Value → Option Value → Option Value
  or_else (some v) other = some v
  or_else none other = other

  value_at-skip :
      (p : Text → Bool) (key : Text) (v : Value) (rest : List (Text × Value)) (k : Text)
      → p key ≢ p k
      → value_at ((key, v) ∷ rest) k ≡ value_at rest k
  unfolding value_at
  value_at-skip p key v rest k n = elim (Bool-cases (key == k)) [
    | inl e ↦ absurd (n (ap p ((==_iff key k).0 e)))
    | inr e ↦ rw e refl
  ]

  value_at-filter_same :
      (p : Text → Bool) (entries : List (Text × Value)) (k : Text)
      → p k ≡ true
      → value_at (filter (λ e. p e.0) entries) k ≡ value_at entries k
  unfolding value_at filter
  value_at-filter_same p [] k h = refl
  value_at-filter_same p ((key, v) ∷ rest) k h = elim (Bool-cases (p key)) [
    | inl e ↦
        rw e (ap (λ later. if key == k then some v else later) (value_at-filter_same p rest k h))
    | inr e ↦
        rw e (
          value_at-filter_same p rest k h
          ∙ sym (value_at-skip p key v rest k (differ (inr (e, h)))))
  ]

  value_at-filter_other :
      (p : Text → Bool) (entries : List (Text × Value)) (k : Text)
      → p k ≡ false
      → value_at (filter (λ e. p e.0) entries) k ≡ none
  unfolding value_at filter
  value_at-filter_other p [] k h = refl
  value_at-filter_other p ((key, v) ∷ rest) k h = elim (Bool-cases (p key)) [
    | inl e ↦
        rw e (value_at-skip p key v _ k (differ (inl (e, h))) ∙ value_at-filter_other p rest k h)
    | inr e ↦ rw e (value_at-filter_other p rest k h)
  ]

  value_at-append :
      (xs ys : List (Text × Value)) (k : Text)
      → value_at (xs ++ ys) k ≡ or_else (value_at xs k) (value_at ys k)
  unfolding value_at
  value_at-append [] ys k = refl
  value_at-append ((key, v) ∷ xs) ys k = elim (Bool-cases (key == k)) [
    | inl e ↦ rw e
    | inr e ↦ rw e (value_at-append xs ys k)
  ]

  or_none : (o : Option Value) → or_else o none ≡ o
  or_none none = refl
  or_none (some v) = refl

  -- In the metadata of a promoted flag the keys that are the studio's own have the values of the
  -- target, and every other key has that of the source.
  pub merged_metadata_lem :
      (source target : List (Text × Value)) (k : Text)
      → value_at (merged_metadata source target) k
        ≡ (if studio_metadata k then value_at target k else value_at source k)
  unfolding merged_metadata
  merged_metadata_lem source target k =
      let others : Text → Bool = λ x. not (studio_metadata x) in
      let split =
        value_at-append (filter (λ x. others x.0) source) (filter (λ x. studio_metadata x.0) target)
          k in
      elim (Bool-cases (studio_metadata k)) [
        | inl e ↦
            split
            ∙ ap (λ o. or_else o (value_at (filter (λ x. studio_metadata x.0) target) k))
                (value_at-filter_other others source k (ap not e))
            ∙ value_at-filter_same studio_metadata target k e
            ∙ rw e refl
        | inr e ↦
            split
            ∙ ap (or_else (value_at (filter (λ x. others x.0) source) k))
                (value_at-filter_other studio_metadata target k e)
            ∙ or_none _
            ∙ value_at-filter_same others source k (ap not e)
            ∙ rw e refl
      ]
