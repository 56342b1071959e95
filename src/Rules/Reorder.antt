-- ===== src/Rules/Reorder.antt =====
-- What reordering makes of the rules of a flag.
use mathlib.Core.List.{Permᴰ}
use mathlib.Core.List.Permᴰ
use mathlib.Core.Path.{subst}
use goff_studio.Base.{
  ◌≡◌, ◌⊎◌, inl, inr, refl, sym, ap, ◌∙◌, Option, none, some, List, [], ◌∷◌, ◌==◌, ==_iff, ==_refl,
  Text, text_eq, ok, arith, Bool-cases, Member, here, there,
}
use goff_studio.Goff.{Rule, Flag}
use goff_studio.Rules.{by_name, in_order, is_permutation, reorder_rules}
use goff_studio.Rules.Order.{names, is_permutation_iff}

-- No name stands twice.
abbrev pub Distinct : List Text → Type 0
Distinct [] = Unit
Distinct (x ∷ xs) = (¬ Member x xs) × Distinct xs

Member-Permᴰ : {a : Text} {xs ys : List Text} → Permᴰ xs ys → Member a xs → Member a ys
Member-Permᴰ Permᴰ.nil m = m
Member-Permᴰ (Permᴰ.cons e p) (here h) = here (sym e ∙ h)
Member-Permᴰ (Permᴰ.cons e p) (there m) = there (Member-Permᴰ p m)
Member-Permᴰ (Permᴰ.swap e f) (here h) = there (here (sym e ∙ h))
Member-Permᴰ (Permᴰ.swap e f) (there (here h)) = here (sym f ∙ h)
Member-Permᴰ (Permᴰ.swap e f) (there (there m)) = there (there m)
Member-Permᴰ (Permᴰ.trans p q) m = Member-Permᴰ q (Member-Permᴰ p m)

module _ {Number : Type 0} where
  Member-names :
      (r : Rule Number) {rs : List (Rule Number)} → Member r rs → Member r.name (names rs)
  Member-names r (here e) = here (ap (λ x. x.name) e)
  Member-names r (there m) = there (Member-names r m)

  by_name-absent :
      (rs : List (Rule Number)) (n : Text) → ¬ Member n (names rs) → by_name rs n ≡ none
  unfolding by_name
  by_name-absent [] n a = refl
  by_name-absent (r ∷ rs) n a = elim (Bool-cases (r.name == n)) [
    | inl e ↦ absurd (a (here ((==_iff r.name n).0 e)))
    | inr e ↦ ground (arith, e, by_name-absent rs n (λ m. a (there m)))
  ]

  by_name-cases :
      (rs : List (Rule Number)) (n : Text)
      → (by_name rs n ≡ none) ⊎ ((r : Rule Number) × (by_name rs n ≡ some r) × (r.name ≡ n))
  unfolding by_name
  by_name-cases [] n = inl refl
  by_name-cases (r ∷ rs) n = elim (by_name-cases rs n) [
    | inr (x, e, q) ↦ inr (x, ground (arith, e), q)
    | inl e ↦ elim (Bool-cases (r.name == n)) [
      | inl t ↦ inr (r, ground (arith, e, t), (==_iff r.name n).0 t)
      | inr t ↦ inl (ground (arith, e, t))
    ]
  ]

  by_name-present :
      (rs : List (Rule Number)) {n : Text}
      → Member n (names rs)
      → (r : Rule Number) × (by_name rs n ≡ some r) × (r.name ≡ n)
  unfolding by_name
  by_name-present [] m = elim m [ ]
  by_name-present (r ∷ rs) {n} (here h) = elim (by_name-cases rs n) [
    | inr (x, e, q) ↦ (x, ground (arith, e), q)
    | inl e ↦ (r, ground (arith, e, ==_iff r.name n, h), h)
  ]
  by_name-present (r ∷ rs) {n} (there m) =
      let (x, e, q) = by_name-present rs m in (x, ground (arith, e), q)

  by_name-Distinct :
      (r : Rule Number) (rs : List (Rule Number))
      → Distinct (names rs)
      → Member r rs
      → by_name rs r.name ≡ some r
  unfolding by_name
  by_name-Distinct r [] d m = elim m [ ]
  by_name-Distinct r (x ∷ rs) (n, d) (here e) =
      subst (λ y. by_name (x ∷ rs) y.name ≡ some y) e
        (ground (arith, by_name-absent rs x.name n, ==_refl x.name))
  by_name-Distinct r (x ∷ rs) (n, d) (there m) = rw (by_name-Distinct r rs d m)

  -- One round of the last loop of reorderRules.
  abbrev add : Option (Rule Number) → List (Rule Number) → List (Rule Number)
  add o rest = elim o [ none ↦ rest | some r ↦ r ∷ rest ]

  add-at :
      {o : Option (Rule Number)} {r : Rule Number}
      → o ≡ some r
      → (rest : List (Rule Number)) → add o rest ≡ r ∷ rest
  add-at e rest = ap (λ o. add o rest) e

  add-Permᴰ :
      (o : Option (Rule Number)) {xs ys : List (Rule Number)}
      → Permᴰ xs ys
      → Permᴰ (add o xs) (add o ys)
  add-Permᴰ none p = p
  add-Permᴰ (some r) p = Permᴰ.cons refl p

  add-swap :
      (o q : Option (Rule Number)) (xs : List (Rule Number))
      → Permᴰ (add o (add q xs)) (add q (add o xs))
  add-swap none q xs = Permᴰ.refl (add q xs)
  add-swap (some r) none xs = Permᴰ.refl (r ∷ xs)
  add-swap (some r) (some x) xs = Permᴰ.swap refl refl

  module _ (rules : List (Rule Number)) where
    in_order-Permᴰ :
        {xs ys : List Text} → Permᴰ xs ys → Permᴰ (in_order rules xs) (in_order rules ys)
    unfolding in_order
    in_order-Permᴰ Permᴰ.nil = Permᴰ.nil
    in_order-Permᴰ (Permᴰ.cons {b = b} e p) = rw e (add-Permᴰ (by_name rules b) (in_order-Permᴰ p))
    in_order-Permᴰ (Permᴰ.swap {a' = a} {b' = b} e f) =
        rw e (rw f (add-swap (by_name rules b) (by_name rules a) _))
    in_order-Permᴰ (Permᴰ.trans p q) = Permᴰ.trans (in_order-Permᴰ p) (in_order-Permᴰ q)

    in_order-names :
        (part : List (Rule Number))
        → ((r : Rule Number) → Member r part → by_name rules r.name ≡ some r)
        → in_order rules (names part) ≡ part
    unfolding in_order
    in_order-names [] f = refl
    in_order-names (r ∷ part) f =
        add-at (f r (here refl)) _ ∙ (ap (◌∷◌ r) (in_order-names part (λ x m. f x (there m))))

    names-in_order :
        (order : List Text)
        → ((n : Text) → Member n order → Member n (names rules))
        → names (in_order rules order) ≡ order
    unfolding in_order
    names-in_order [] f = refl
    names-in_order (n ∷ order) f =
        let (r, e, q) = by_name-present rules (f n (here refl)) in
        ap names (add-at e _)
        ∙ (ap (λ x. x ∷ names (in_order rules order)) q
            ∙ ap (◌∷◌ n) (names-in_order order (λ x m. f x (there m))))

module _ {Number Value : Type 0} where
  -- Where no two rules of the flag have the same name and isPermutation accepts the order, reordering
  -- keeps every rule as it is, adds and drops none, and puts them in the order that was asked for.
  pub reorder_rules_lem :
      (order : List Text) (f : Flag Number Value)
      → Distinct (names f.rules)
      → is_permutation f.rules order ≡ ok tt
      → Permᴰ (reorder_rules order f).rules f.rules × (names (reorder_rules order f).rules ≡ order)
  unfolding reorder_rules
  reorder_rules_lem order f d h =
      let p = (is_permutation_iff f.rules order).0 h in
      let kept = in_order-names f.rules f.rules (λ r m. by_name-Distinct r f.rules d m) in
      (
        subst (Permᴰ (in_order f.rules order)) kept (in_order-Permᴰ f.rules p),
        names-in_order f.rules order (λ n m. Member-Permᴰ p m),
      )
