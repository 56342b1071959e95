-- ===== src/Goff/Compile/Complete.antt =====
-- Which conditions give a query at all.
use goff_studio.Base.{
  Bool, true, false, ◌≡◌, ◌≢◌, ◌↔◌, ◌⊎◌, inl, inr, refl, sym, ap, ◌∙◌, Option, none, some, List, [],
  ◌∷◌, Text, is_empty, is_empty_iff, trim_space, Bool-cases, Option-cases,
}
use goff_studio.Goff.{Condition, condition, Conditions, none_left, child, nil_child}
use goff_studio.Goff.Compile.{
  is_group, lookup_operator, leaf_text, group_text, compile, compile_all,
}

-- A leaf is complete when it names an attribute and a known operator, a group when one of its
-- children is.
unfoldable mutual
  pub Complete : Condition → Type 0
  Complete (condition op negated children attribute operator value) =
      ((is_group op ≡ true) × SomeComplete children)
      ⊎ ((is_group op ≡ false) × (trim_space attribute ≢ []) × (lookup_operator operator ≢ none))

  pub SomeComplete : Conditions → Type 0
  SomeComplete none_left = ⊥
  SomeComplete (nil_child cs) = SomeComplete cs
  SomeComplete (child c cs) = Complete c ⊎ SomeComplete cs

nonempty : (s : Text) → is_empty s ≡ false → s ≢ []
nonempty [] h e = cc h
nonempty (c ∷ s) h e = cc e

none_of {ℓ} : {A : Type ℓ} {a : A} → some a ≢ none
none_of e = cc e

leaf_text_iff :
    (is_float : Text → Bool) (attribute operator value : Text)
    → (leaf_text is_float attribute operator value ≢ none)
      ↔ ((trim_space attribute ≢ []) × (lookup_operator operator ≢ none))
unfolding leaf_text
leaf_text_iff is_float attribute operator value =
    elim (Bool-cases (is_empty (trim_space attribute))) [
      | inl e ↦ (
        λ n. absurd (n (rw e refl)),
        λ (a, o). absurd (a ((is_empty_iff (trim_space attribute)).0 e)),
      )
      | inr e ↦ elim (Option-cases (lookup_operator operator)) [
        | inl q ↦ (λ n. absurd (n (rw (e, q) refl)), λ (a, o). absurd (o q))
        | inr (op, q) ↦ (
          λ n. (nonempty (trim_space attribute) e, λ o. none_of (sym q ∙ o)),
          λ v h. none_of (rw (e, q) at h),
        )
      ]
    ]

group_text_iff :
    (op : Text) (negated top : Bool) (parts : List Text)
    → (group_text op negated top parts ≢ none) ↔ (parts ≢ [])
unfolding group_text
group_text_iff op negated top [] = (λ n. absurd (n refl), λ n. absurd (n refl))
group_text_iff op negated top (p ∷ []) = (λ n e. cc e, λ n e. cc e)
group_text_iff op negated top (p ∷ q ∷ parts) = (λ n e. cc e, λ n e. cc e)

abbrev add_part : List Text → Option Text → List Text
add_part rest o = elim o [ none ↦ rest | some part ↦ part ∷ rest ]

cons_of : {x : Text} {xs : List Text} → x ∷ xs ≢ []
cons_of e = cc e

mutual
  unfolding compile compile_all Complete SomeComplete

  compile-Complete :
      (is_float : Text → Bool) (c : Condition) (top : Bool)
      → (compile is_float c top ≢ none) ↔ Complete c
  compile-Complete is_float (condition op negated children attribute operator value) top =
      let (parts, of_parts) = group_text_iff op negated top (compile_all is_float children) in
      let (some_child, of_child) = compile_all-SomeComplete is_float children in
      let (leaf, of_leaf) = leaf_text_iff is_float attribute operator value in
      elim (Bool-cases (is_group op)) [
        | inl e ↦ rw e (
          λ n. inl (refl, some_child (parts n)),
          λ h. elim h [ inl (_, m) ↦ of_parts (of_child m) | inr (q, _, _) ↦ cc q ],
        )
        | inr e ↦ rw e (
          λ n. let (a, o) = leaf n in inr (refl, a, o),
          λ h. elim h [ inl (q, _) ↦ cc q | inr (_, a, o) ↦ of_leaf (a, o) ],
        )
      ]

  compile_all-SomeComplete :
      (is_float : Text → Bool) (cs : Conditions) → (compile_all is_float cs ≢ []) ↔ SomeComplete cs
  compile_all-SomeComplete is_float none_left = (λ n. n refl, λ b. absurd b)
  compile_all-SomeComplete is_float (nil_child cs) = compile_all-SomeComplete is_float cs
  compile_all-SomeComplete is_float (child c cs) =
      let (complete, of_complete) = compile-Complete is_float c false in
      let (later, of_later) = compile_all-SomeComplete is_float cs in
      elim (Option-cases (compile is_float c false)) [
        | inl e ↦ (
          λ n. inr (later (λ q. n (ap (add_part (compile_all is_float cs)) e ∙ q))),
          λ h. elim h [
            | inl m ↦ absurd (of_complete m e)
            | inr m ↦ λ q. of_later m (sym (ap (add_part (compile_all is_float cs)) e) ∙ q)
          ],
        )
        | inr (part, e) ↦ (
          λ n. inl (complete (λ q. none_of (sym e ∙ q))),
          λ h q. cons_of (sym (ap (add_part (compile_all is_float cs)) e) ∙ q),
        )
      ]

-- A condition gives a query exactly when it is complete: a leaf with an attribute and a known
-- operator, a group with a complete child.
pub compile_iff :
    (is_float : Text → Bool) (c : Condition) (top : Bool)
    → (compile is_float c top ≢ none) ↔ Complete c
compile_iff is_float c top = compile-Complete is_float c top
