-- ===== src/Rules/Order.antt =====
-- Reordering the rules of a flag.
use mathlib.Core.Path.{subst}
use mathlib.Core.List.{Permᴰ}
use mathlib.Core.List.Permᴰ
use goff_studio.Base.{
  ℕ, suc, ◌+◌, ◌-◌, ◌≤◌, false, not, ◌≡◌, ◌≢◌, ◌↔◌, inl, inr, refl, sym, ap, ◌∙◌, List, [], ◌∷◌,
  ◌++◌, map, length, if◌then◌else◌, ◌==◌, ==_iff, ==_refl, nat_eq, Text, text_eq, ok, >>-eq-ok,
  refuse_if, refuse_if-eq-ok, arith, Bool-cases,
}
use goff_studio.Goff.{Rule}
use goff_studio.Rules.{unknown_rule, tally, take_names, is_permutation}

abbrev pub names : {Number : Type 0} → List (Rule Number) → List Text
names rules = map (λ r. r.name) rules

-- How often a name stands in a list.
pub count : List Text → Text → ℕ
count [] a = 0
count (x ∷ xs) a = let rest = count xs a in if a == x then suc rest else rest

module _ {Number : Type 0} where
  tally-count :
      (want : Text → ℕ) (rules : List (Rule Number)) (a : Text)
      → tally want rules a ≡ want a + count (names rules) a
  unfolding tally count
  tally-count want [] a = omega arith
  tally-count want (r ∷ rs) a =
      ground (arith, tally-count (λ n. if n == r.name then suc (want n) else want n) rs a)

  tally-names :
      (rules : List (Rule Number)) (a : Text) → tally (λ _. 0) rules a ≡ count (names rules) a
  tally-names rules a = omega (arith, tally-count (λ _. 0) rules a)

  length-names : (rules : List (Rule Number)) → length (names rules) ≡ length rules
  length-names [] = refl
  length-names (r ∷ rs) = ap suc (length-names rs)

same_length : {m n : ℕ} → not (m == n) ≡ false → m ≡ n
same_length h = ground arith

same_lengths : {order current : List Text} → Permᴰ order current → length order ≡ length current
same_lengths (Permᴰ.trans first later) = same_lengths first ∙ same_lengths later
same_lengths (Permᴰ.cons _ rest) = ap suc (same_lengths rest)
same_lengths Permᴰ.nil = refl
same_lengths (Permᴰ.swap _ _) = refl

count-Permᴰ : (n : Text) {a b : List Text} → Permᴰ a b → count a n ≡ count b n
unfolding count
count-Permᴰ n Permᴰ.nil = refl
count-Permᴰ n (Permᴰ.cons e p) = rw e (ground (arith, count-Permᴰ n p))
count-Permᴰ n (Permᴰ.swap {a} {b} {l = l} e f) = rw e (rw f (ground arith))
count-Permᴰ n (Permᴰ.trans p q) = count-Permᴰ n p ∙ count-Permᴰ n q

-- A name that is counted stands somewhere.
split_at :
    (n : Text) (xs : List Text)
    → count xs n ≢ 0
    → (l : List Text) × (r : List Text) × (xs ≡ l ++ (n ∷ r))
unfolding count
split_at n [] h = absurd (h refl)
split_at n (x ∷ xs) h = elim (Bool-cases (n == x)) [
  | inl e ↦ ([], xs, ap (λ y. y ∷ xs) (sym ((==_iff n x).0 e)))
  | inr e ↦ let (l, r, q) = split_at n xs (rw e at h) in (x ∷ l, r, ap (◌∷◌ x) q)
]

-- Where `want` holds at least what `order` asks for, all of it is taken.
take_names-enough :
    (want : Text → ℕ) (order : List Text)
    → ((a : Text) → count order a ≤ want a)
    → take_names want order ≡ ok tt
unfolding take_names count
take_names-enough want [] h = refl
take_names-enough want (x ∷ xs) h =
    let enough =
      take_names-enough (λ other. if other == x then want other - 1 else want other) xs
        (λ a. ground (arith, h a)) in
    ground (arith, h x, ==_refl x, enough)

count-middle :
    (n : Text) (l r : List Text) (a : Text)
    → count (l ++ (n ∷ r)) a ≡ (if a == n then suc (count (l ++ r) a) else count (l ++ r) a)
unfolding count
count-middle n [] r a = refl
count-middle n (x ∷ l) r a = ground (arith, count-middle n l r a)

length-middle : (n : Text) (l r : List Text) → length (l ++ (n ∷ r)) ≡ suc (length (l ++ r))
length-middle n [] r = refl
length-middle n (x ∷ l) r = ap suc (length-middle n l r)

count-at : {xs ys : List Text} → xs ≡ ys → (a : Text) → count xs a ≡ count ys a
count-at q a = ap (λ zs. count zs a) q

taken :
    (n : Text) (l r : List Text) {order xs : List Text}
    → xs ≡ l ++ (n ∷ r)
    → Permᴰ order (l ++ r)
    → Permᴰ (n ∷ order) xs
taken n l r {order} q p =
    subst (λ zs. Permᴰ (n ∷ order) zs) (sym q)
      (Permᴰ.trans (Permᴰ.cons refl p) (Permᴰ.symm (Permᴰ.middle n l r)))

-- What is taken stood in the list that `want` counts.
take_names-Permᴰ :
    (want : Text → ℕ) (order xs : List Text)
    → ((a : Text) → want a ≡ count xs a)
    → length order ≡ length xs
    → take_names want order ≡ ok tt
    → Permᴰ order xs
unfolding take_names count
take_names-Permᴰ want [] [] c l h = Permᴰ.nil
take_names-Permᴰ want [] (x ∷ xs) c l h = absurd (omega arith)
take_names-Permᴰ want (n ∷ order) xs c l h =
    let (present, h') = >>-eq-ok (refuse_if (want n == 0) (unknown_rule n)) _ h in
    let positive = refuse_if-eq-ok (want n == 0) (unknown_rule n) present in
    let (l', r', q) = split_at n xs (λ z. ground (arith, z, c n, positive)) in
    taken n l' r' q (
      take_names-Permᴰ (λ other. if other == n then want other - 1 else want other) order (l' ++ r')
        (λ a. ground (arith, c a, count-at q a, count-middle n l' r' a))
        (omega (arith, l, ap length q, length-middle n l' r')) h')

module _ {Number : Type 0} where
  -- isPermutation accepts an order exactly when it is a permutation of the names of the flag's rules,
  -- a name that several rules have standing as often in it.
  pub is_permutation_iff :
      (current : List (Rule Number)) (order : List Text)
      → (is_permutation current order ≡ ok tt) ↔ Permᴰ order (names current)
  unfolding is_permutation
  is_permutation_iff current order = (
    λ h.
        let (same, rest) = >>-eq-ok (refuse_if (not (length order == length current)) _) _ h in
        let l = refuse_if-eq-ok (not (length order == length current)) _ same in
        take_names-Permᴰ (tally (λ _. 0) current) order (names current) (tally-names current)
          (omega (arith, length-names current, same_length l)) rest,
    λ p.
        let l = same_lengths p in
        let enough =
          take_names-enough (tally (λ _. 0) current) order
            (λ a. omega (arith, tally-names current a, count-Permᴰ a p)) in
        ground (arith, length-names current, l, enough),
  )
