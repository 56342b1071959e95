-- ===== src/Base/Sorting.antt =====
-- sort.Slice and sort.Strings, as insertion sort, and when a list is in order.
use mathlib.Core.Path.{◌≡◌, refl}
use mathlib.Core.Logic.{inl, inr}
use mathlib.Core.Bool.{Bool, true, false}
use mathlib.Core.List.{List, [], ◌∷◌}
use native.Mathlib.Omega.{arith}
use goff_studio.Base.Tests.{if◌then◌else◌, Bool-cases, nat_eq, ==_iff}
use goff_studio.Base.Lists.{All, All-imp}
use goff_studio.Base.Texts.{Text, text_less}

module _ {ℓ} {A : Type ℓ} (less : A → A → Bool) where
  unfoldable pub insert : A → List A → List A
  insert a [] = a ∷ []
  insert a (x ∷ xs) = let later = insert a xs in if less a x then a ∷ x ∷ xs else x ∷ later

  unfoldable pub sort_by : List A → List A
  unfolding insert
  sort_by [] = []
  sort_by (x ∷ xs) = insert x (sort_by xs)

  -- No entry of the list is less than `a`.
  abbrev pub NoneLess : A → List A → Type 0
  NoneLess a = All (λ b. less b a ≡ false)

  abbrev pub Sorted : List A → Type 0
  Sorted [] = Unit
  Sorted (x ∷ xs) = NoneLess x xs × Sorted xs

  -- What a sort needs of the order.
  pub record Orders : Type ℓ where
    pub asym : (a b : A) → less a b ≡ true → less b a ≡ false
    pub trans : (a b c : A) → less b a ≡ false → less c b ≡ false → less c a ≡ false

module _ {ℓ κ} {A : Type ℓ} (less : A → A → Bool) (P : A → Type κ) where
  pub All-insert : (a : A) (xs : List A) → P a → All P xs → All P (insert less a xs)
  unfolding insert
  All-insert a [] p h = (p, tt)
  All-insert a (x ∷ xs) p (q, h) = elim (Bool-cases (less a x)) [
    | inl t ↦ rw t (p, (q, h))
    | inr f ↦ rw f (q, All-insert a xs p h)
  ]

  pub All-sort_by : (xs : List A) → All P xs → All P (sort_by less xs)
  unfolding sort_by
  All-sort_by [] h = h
  All-sort_by (x ∷ xs) (p, h) = All-insert x (sort_by less xs) p (All-sort_by xs h)

module _ {ℓ} {A : Type ℓ} (less : A → A → Bool) (order : Orders less) where
  NoneLess-before :
      (a x : A) (xs : List A) → less a x ≡ true → NoneLess less x xs → NoneLess less a (x ∷ xs)
  NoneLess-before a x xs t h =
      (order.asym a x t, All-imp (λ y. order.trans a x y (order.asym a x t)) xs h)

  Sorted-insert : (a : A) (xs : List A) → Sorted less xs → Sorted less (insert less a xs)
  unfolding insert
  Sorted-insert a [] h = (tt, tt)
  Sorted-insert a (x ∷ xs) (n, s) = elim (Bool-cases (less a x)) [
    | inl t ↦ rw t (NoneLess-before a x xs t n, (n, s))
    | inr f ↦ rw f (All-insert less (λ b. less b x ≡ false) a xs f n, Sorted-insert a xs s)
  ]

  pub Sorted-sort_by : (xs : List A) → Sorted less (sort_by less xs)
  unfolding sort_by
  Sorted-sort_by [] = tt
  Sorted-sort_by (x ∷ xs) = Sorted-insert x (sort_by less xs) (Sorted-sort_by xs)

text_less_asym : (s t : Text) → text_less s t ≡ true → text_less t s ≡ false
unfolding text_less
text_less_asym [] [] h = cc
text_less_asym [] (d ∷ t) h = refl
text_less_asym (c ∷ s) [] h = cc
text_less_asym (c ∷ s) (d ∷ t) h = ground (arith, text_less_asym s t, ==_iff c d, ==_iff d c)

text_less_trans :
    (s t u : Text) → text_less t s ≡ false → text_less u t ≡ false → text_less u s ≡ false
unfolding text_less
text_less_trans [] t [] h k = refl
text_less_trans (c ∷ s) [] [] h k = cc
text_less_trans (c ∷ s) (d ∷ t) [] h k = cc
text_less_trans [] t (e ∷ u) h k = refl
text_less_trans (c ∷ s) [] (e ∷ u) h k = cc
text_less_trans (c ∷ s) (d ∷ t) (e ∷ u) h k =
    ground (arith, text_less_trans s t u, ==_iff d c, ==_iff e d, ==_iff e c)

pub text_order : Orders text_less
text_order = record { asym = text_less_asym; trans = text_less_trans }
