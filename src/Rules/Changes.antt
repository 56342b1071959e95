-- ===== src/Rules/Changes.antt =====
-- Inserting, removing and changing one rule of a flag.
use mathlib.Core.Path.{subst}
use goff_studio.Base.{
  ℕ, ℤ, zero, suc, ◌≤◌, ◌<◌, Bool, true, false, not, ◌≡◌, ◌≢◌, inl, inr, refl, sym, ap, ◌∙◌, Option,
  none, some, List, [], ◌∷◌, ◌++◌, take, drop, length, get_elem?, take-append-drop, ◌==◌, ==_iff,
  ==_refl, Text, text_eq, arith, Bool-cases, Member, ◌↔◌, filter, Member-filter, Member-of_filter,
  passes_of_filter,
}
use goff_studio.Goff.{Rule, Flag}
use goff_studio.Rules.{rule_exists, insert_at, insert_into, remove_from, insert_rule, remove_rule}

module _ {ℓ} {A : Type ℓ} where
  get_elem?-spliced :
      (n : ℕ) (x : A) (xs : List A)
      → n ≤ length xs
      → get_elem? (take n xs ++ (x ∷ drop n xs)) n ≡ some x
  get_elem?-spliced zero x xs h = refl
  get_elem?-spliced (suc n) x [] h = absurd (omega arith)
  get_elem?-spliced (suc n) x (y ∷ xs) h = get_elem?-spliced n x xs (omega arith)

  get_elem?-before :
      (n i : ℕ) (x : A) (xs : List A)
      → n ≤ length xs
      → i < n
      → get_elem? (take n xs ++ (x ∷ drop n xs)) i ≡ get_elem? xs i
  get_elem?-before zero i x xs h k = absurd (omega arith)
  get_elem?-before (suc n) i x [] h k = absurd (omega arith)
  get_elem?-before (suc n) zero x (y ∷ xs) h k = refl
  get_elem?-before (suc n) (suc i) x (y ∷ xs) h k =
      get_elem?-before n i x xs (omega arith) (omega arith)

  get_elem?-behind :
      (n i : ℕ) (x : A) (xs : List A)
      → n ≤ length xs
      → n ≤ i
      → get_elem? (take n xs ++ (x ∷ drop n xs)) (suc i) ≡ get_elem? xs i
  get_elem?-behind zero i x xs h k = refl
  get_elem?-behind (suc n) i x [] h k = absurd (omega arith)
  get_elem?-behind (suc n) zero x (y ∷ xs) h k = absurd (omega arith)
  get_elem?-behind (suc n) (suc i) x (y ∷ xs) h k =
      get_elem?-behind n i x xs (omega arith) (omega arith)

insert_at-le : (position : Option ℤ) (count : ℕ) → insert_at position count ≤ count
unfolding insert_at
insert_at-le none count = omega arith
insert_at-le (some (ℤ.negsuc n)) count = omega arith
insert_at-le (some (ℤ.pos n)) count = ground arith

module _ {Number : Type 0} where
  remove_from-append :
      (n : Text) (xs ys : List (Rule Number))
      → remove_from n (xs ++ ys) ≡ remove_from n xs ++ remove_from n ys
  unfolding remove_from
  remove_from-append n [] ys = refl
  remove_from-append n (x ∷ xs) ys = ground (arith, remove_from-append n xs ys)

  remove_from-absent :
      (n : Text) (xs : List (Rule Number)) → rule_exists xs n ≡ false → remove_from n xs ≡ xs
  unfolding remove_from rule_exists
  remove_from-absent n [] h = refl
  remove_from-absent n (x ∷ xs) h = ground (arith, remove_from-absent n xs)

  remove_from-head :
      (r : Rule Number) (xs : List (Rule Number))
      → remove_from r.name (r ∷ xs) ≡ remove_from r.name xs
  unfolding remove_from
  remove_from-head r xs = ground (arith, ==_refl r.name)

  remove_from-rule_exists :
      (n : Text) (xs : List (Rule Number)) → rule_exists (remove_from n xs) n ≡ false
  unfolding remove_from rule_exists
  remove_from-rule_exists n [] = refl
  remove_from-rule_exists n (x ∷ xs) = ground (arith, remove_from-rule_exists n xs)

  remove_from-insert_into :
      (rule : Rule Number) (position : Option ℤ) (rules : List (Rule Number))
      → rule_exists rules rule.name ≡ false
      → remove_from rule.name (insert_into rule position rules) ≡ rules
  unfolding insert_into
  remove_from-insert_into rule position rules h =
      let n = insert_at position (length rules) in
      remove_from-append rule.name (take n rules) (rule ∷ drop n rules)
      ∙ ap (λ ys. remove_from rule.name (take n rules) ++ ys) (remove_from-head rule (drop n rules))
      ∙ sym (remove_from-append rule.name (take n rules) (drop n rules))
      ∙ ap (remove_from rule.name) (take-append-drop n rules)
      ∙ remove_from-absent rule.name rules h

  abbrev differ : Text → Rule Number → Bool
  differ n r = not (r.name == n)

  remove_from-filter :
      (n : Text) (xs : List (Rule Number)) → remove_from n xs ≡ filter (differ n) xs
  unfolding remove_from filter
  remove_from-filter n [] = refl
  remove_from-filter n (x ∷ xs) = ground (arith, remove_from-filter n xs)

  differs : (r : Rule Number) (n : Text) → (not (r.name == n) ≡ true) ↔ (r.name ≢ n)
  differs r n = (
    λ h e. ground (arith, h, ==_iff r.name n, e),
    λ k. elim (Bool-cases (r.name == n)) [
      | inl t ↦ absurd (k ((==_iff r.name n).0 t))
      | inr t ↦ ap not t
    ],
  )

module _ {Number Value : Type 0} where
  -- insertRule puts the rule at the position asked for, at the end when there is none or it is out of
  -- range; the rules before it stay where they are and those behind it move up by one.
  pub insert_rule_lem :
      (rule : Rule Number) (position : Option ℤ) (f : Flag Number Value)
      → (get_elem? (insert_rule rule position f).rules (insert_at position (length f.rules))
          ≡ some rule)
        × ((i : ℕ)
            → i < insert_at position (length f.rules)
            → get_elem? (insert_rule rule position f).rules i ≡ get_elem? f.rules i)
        × ((i : ℕ)
            → insert_at position (length f.rules) ≤ i
            → get_elem? (insert_rule rule position f).rules (suc i) ≡ get_elem? f.rules i)
  unfolding insert_rule insert_into
  insert_rule_lem rule position f =
      let l = insert_at-le position (length f.rules) in
      (
        get_elem?-spliced _ rule f.rules l,
        λ i h. get_elem?-before _ i rule f.rules l h,
        λ i h. get_elem?-behind _ i rule f.rules l h,
      )

  -- Where the flag has no rule of that name, removing the rule that has just been inserted, at
  -- whatever position, gives the flag back.
  pub remove_rule-insert_rule :
      (rule : Rule Number) (position : Option ℤ) (f : Flag Number Value)
      → rule_exists f.rules rule.name ≡ false
      → remove_rule rule.name (insert_rule rule position f) ≡ f
  unfolding remove_rule insert_rule
  remove_rule-insert_rule rule position f h =
      ap (λ rules. record f { rules = rules }) (remove_from-insert_into rule position f.rules h)

  -- A rule is left by removeRule exactly when it was on the flag and its name is another one.
  pub remove_rule_lem :
      (name : Text) (f : Flag Number Value) (r : Rule Number)
      → Member r (remove_rule name f).rules ↔ (Member r f.rules × (r.name ≢ name))
  unfolding remove_rule
  remove_rule_lem name f r =
      let same = remove_from-filter name f.rules in
      (
        λ m.
            let m' = subst (Member r) same m in
            (
              Member-of_filter (differ name) f.rules m',
              (differs r name).0 (passes_of_filter (differ name) f.rules m'),
            ),
        λ (m, k).
            subst (Member r) (sym same)
              (Member-filter (differ name) f.rules m ((differs r name).1 k)),
      )
