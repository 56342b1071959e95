-- ===== src/Service/References.antt =====
-- The references to variations that SaveVariations leaves in a flag.
pub mod Dangling
use mathlib.Core.List.{map}
use goff_studio.Base.{
  ◌≡◌, ◌≢◌, refl, sym, ap, subst, ◌∙◌, ◌⊎◌, inl, inr, arith, Bool, true, false, not, ◌&&◌, List, [],
  ◌∷◌, ◌++◌, any, All, Any, Member, here, there, if◌then◌else◌, ◌==◌, ==_iff, Bool-cases, Text,
  text_eq, codes, is_empty, sort_by, insert, text_less, Result, ok,
}
use goff_studio.Goff.{Variation, Outcome, Rule, Flag}
use goff_studio.Service.Checks.{
  note, note_all, sorted_float_keys, rule_place, rule_references, broken_references,
}

append-empty : {A : Type 0} (xs ys : List A) → (xs ++ ys) ≡ [] → (xs ≡ []) × (ys ≡ [])
append-empty [] ys h = (refl, h)
append-empty (x ∷ xs) ys h = cc

module _ {Value : Type 0} where
  -- The name is that of one of the variations.
  abbrev pub Kept : List (Variation Value) → Text → Type 0
  Kept variations name = any (λ v. v.name == name) variations ≡ true

  -- No name, or that of one of the variations.
  abbrev pub KeptOrEmpty : List (Variation Value) → Text → Type 0
  KeptOrEmpty variations name = (name ≡ []) ⊎ Kept variations name

  note-empty :
      (variations : List (Variation Value)) (name place : Text)
      → note variations name place ≡ []
      → KeptOrEmpty variations name
  unfolding note
  note-empty variations [] place h = inl refl
  note-empty variations (c ∷ name) place h =
      elim (Bool-cases (any (λ v. v.name == (c ∷ name)) variations)) [
        | inl t ↦ inr t
        | inr f ↦ absurd (cc (rw f at h))
      ]

  note_all-empty :
      (variations : List (Variation Value)) (names : List Text) (place : Text)
      → note_all variations names place ≡ []
      → All (KeptOrEmpty variations) names
  unfolding note_all
  note_all-empty variations [] place h = tt
  note_all-empty variations (name ∷ names) place h =
      let (a, b) = append-empty (note variations name place) _ h in
      (note-empty variations name place a, note_all-empty variations names place b)

-- A sorted list has every entry of the list.
All-of_insert :
    (P : Text → Type 0) (a : Text) (xs : List Text) → All P (insert text_less a xs) → P a × All P xs
unfolding insert
All-of_insert P a [] (p, _) = (p, tt)
All-of_insert P a (x ∷ xs) h = elim (Bool-cases (text_less a x)) [
  | inl t ↦ rw t at h
  | inr f ↦ past P a x xs (All-of_insert P a xs) (rw f at h)
]
  where
    past :
        (P : Text → Type 0) (a x : Text) (xs : List Text)
        → (All P (insert text_less a xs) → P a × All P xs)
        → P x × All P (insert text_less a xs)
        → P a × (P x × All P xs)
    past P a x xs f (p, h) = let (q, r) = f h in (q, (p, r))

All-of_sort_by : (P : Text → Type 0) (xs : List Text) → All P (sort_by text_less xs) → All P xs
unfolding sort_by
All-of_sort_by P [] h = h
All-of_sort_by P (x ∷ xs) h =
    let (p, r) = All-of_insert P x (sort_by text_less xs) h in (p, All-of_sort_by P xs r)

module _ {Number Value : Type 0} where
  -- The names that an outcome may serve are kept, those of its split included.
  abbrev pub SplitKept : List (Variation Value) → Outcome Number → Type 0
  SplitKept variations o = All (KeptOrEmpty variations) (map (λ entry. entry.0) o.percentage)

  -- What the outcome of a rule names is kept.
  abbrev pub RuleKept : List (Variation Value) → Rule Number → Type 0
  RuleKept variations r =
      KeptOrEmpty variations r.outcome.variation × SplitKept variations r.outcome

  rule_references-empty :
      (variations : List (Variation Value)) (rules : List (Rule Number))
      → rule_references variations rules ≡ []
      → All (RuleKept variations) rules
  unfolding rule_references sorted_float_keys
  rule_references-empty variations [] h = tt
  rule_references-empty variations (r ∷ rs) h =
      let (ab, c) = append-empty _ (rule_references variations rs) h in
      let (a, b) = append-empty (note variations r.outcome.variation (rule_place r)) _ ab in
      (
        (
          note-empty variations r.outcome.variation (rule_place r) a,
          All-of_sort_by (KeptOrEmpty variations) _ (note_all-empty variations _ _ b),
        ),
        rule_references-empty variations rs c,
      )

  -- Where brokenReferences names no problem, every variation that the outcome of a rule names, alone
  -- or in its split, is one of the variations or no name, and so is every one of the default's split.
  pub broken_references-empty :
      (f : Flag Number Value) (variations : List (Variation Value)) (default : Text)
      → broken_references f variations default ≡ []
      → All (RuleKept variations) f.rules × SplitKept variations f.default
  unfolding broken_references sorted_float_keys
  broken_references-empty f variations default h =
      let (ab, c) = append-empty _ (rule_references variations f.rules) h in
      let (a, b) =
        append-empty _ (note_all variations (sorted_float_keys f.default.percentage) _) ab in
      (
        rule_references-empty variations f.rules c,
        All-of_sort_by (KeptOrEmpty variations) _ (note_all-empty variations _ _ b),
      )
