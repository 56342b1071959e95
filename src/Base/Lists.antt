-- ===== src/Base/Lists.antt =====
-- Lists measured and indexed by native numbers, under the library's names, and membership.
use Prim.Native.Nat.{ℕ, zero, suc, ◌+◌}
use mathlib.Core.Path.{◌≡◌, refl, sym, ◌∙◌, ap, subst}
use mathlib.Core.Logic.{◌↔◌, ◌⊎◌, inl, inr}
use mathlib.Core.Bool.{Bool, true, false, ◌||◌}
use mathlib.Core.Option.{Option, none, some}
use mathlib.Core.List.{List, [], ◌∷◌, ◌++◌}
use native.Mathlib.Omega.{arith}
use goff_studio.Base.Tests.{Comparable, ◌==◌, ==_iff, if◌then◌else◌, Bool-cases}

module _ {ℓ} {A : Type ℓ} where
  abbrev pub length : List A → ℕ
  length [] = 0
  length (x ∷ xs) = suc (length xs)

  abbrev pub get_elem? : List A → ℕ → Option A
  get_elem? [] i = none
  get_elem? (x ∷ xs) zero = some x
  get_elem? (x ∷ xs) (suc i) = get_elem? xs i

  abbrev pub take : ℕ → List A → List A
  take zero xs = []
  take (suc n) [] = []
  take (suc n) (x ∷ xs) = x ∷ take n xs

  abbrev pub drop : ℕ → List A → List A
  drop zero xs = xs
  drop (suc n) [] = []
  drop (suc n) (x ∷ xs) = drop n xs

  abbrev pub any : (A → Bool) → List A → Bool
  any p [] = false
  any p (x ∷ xs) = p x || any p xs

  unfoldable pub filter : (A → Bool) → List A → List A
  filter p [] = []
  filter p (x ∷ xs) = let rest = filter p xs in if p x then x ∷ rest else rest

  pub length-append : (xs ys : List A) → length (xs ++ ys) ≡ length xs + length ys
  length-append [] ys = omega arith
  length-append (x ∷ xs) ys = omega (arith, length-append xs ys)

  pub any-append : (p : A → Bool) (xs ys : List A) → any p (xs ++ ys) ≡ (any p xs || any p ys)
  any-append p [] ys = refl
  any-append p (x ∷ xs) ys = ground (arith, any-append p xs ys)

  pub take-append-drop : (n : ℕ) (xs : List A) → take n xs ++ drop n xs ≡ xs
  take-append-drop zero xs = refl
  take-append-drop (suc n) [] = refl
  take-append-drop (suc n) (x ∷ xs) = ap (◌∷◌ x) (take-append-drop n xs)

-- Some entry of the list, at a known place, satisfies `P`.
pub data Any {ℓ κ} {A : Type ℓ} (P : A → Type κ) : List A → Type (ℓ ⊔ κ) where
  here : {x : A} {xs : List A} → P x → Any P (x ∷ xs)
  there : {x : A} {xs : List A} → Any P xs → Any P (x ∷ xs)

abbrev pub Member {ℓ} : {A : Type ℓ} → A → List A → Type ℓ
Member a = Any (λ x. x ≡ a)

module _ {ℓ κ} {A : Type ℓ} {P : A → Type κ} {p : A → Bool} where
  pub any→Any : ((x : A) → p x ≡ true → P x) → (xs : List A) → any p xs ≡ true → Any P xs
  any→Any f [] h = cc
  any→Any f (x ∷ xs) h = elim (Bool-cases (p x)) [
    | inl e ↦ here (f x e)
    | inr e ↦ there (any→Any f xs (rw e at h))
  ]

  pub Any→any : ((x : A) → P x → p x ≡ true) → {xs : List A} → Any P xs → any p xs ≡ true
  Any→any f (here h) = ground (arith, f _ h)
  Any→any f (there h) = ground (arith, Any→any f h)

module _ {ℓ} {A : Type ℓ} ⦃c : Comparable A⦄ where
  -- `for _, x := range xs { if x == a { return true } }`, and slices.Contains.
  unfoldable pub contains : List A → A → Bool
  contains [] a = false
  contains (x ∷ xs) a = if x == a then true else contains xs a

  contains→Member : (xs : List A) (a : A) → contains xs a ≡ true → Member a xs
  unfolding contains
  contains→Member [] a h = cc
  contains→Member (x ∷ xs) a h = elim (Bool-cases (x == a)) [
    | inl t ↦ here ((==_iff x a).0 t)
    | inr f ↦ there (contains→Member xs a (rw f at h))
  ]

  Member→contains : (a : A) {xs : List A} → Member a xs → contains xs a ≡ true
  unfolding contains
  Member→contains a (here {x} h) = ground (arith, ==_iff x a)
  Member→contains a (there {x} h) = ground (arith, Member→contains a h)

  pub contains_iff : (xs : List A) (a : A) → (contains xs a ≡ true) ↔ Member a xs
  contains_iff xs a = (contains→Member xs a, Member→contains a)

module _ {ℓ κ} {A : Type ℓ} {P : A → Type κ} where
  pub Any-Member : {xs : List A} → Any P xs → (x : A) × Member x xs × P x
  Any-Member (here {x} h) = (x, here refl, h)
  Any-Member (there h) = let (x, m, px) = Any-Member h in (x, there m, px)

  pub Any-of_Member : {x : A} {xs : List A} → P x → Member x xs → Any P xs
  Any-of_Member p (here e) = here (subst P (sym e) p)
  Any-of_Member p (there m) = there (Any-of_Member p m)

  pub Any-append_left : {xs : List A} (ys : List A) → Any P xs → Any P (xs ++ ys)
  Any-append_left ys (here h) = here h
  Any-append_left ys (there h) = there (Any-append_left ys h)

  pub Any-append_right : (xs : List A) {ys : List A} → Any P ys → Any P (xs ++ ys)
  Any-append_right [] h = h
  Any-append_right (x ∷ xs) h = there (Any-append_right xs h)

  pub Any-append_split : (xs : List A) {ys : List A} → Any P (xs ++ ys) → Any P xs ⊎ Any P ys
  Any-append_split [] h = inr h
  Any-append_split (x ∷ xs) (here h) = inl (here h)
  Any-append_split (x ∷ xs) (there h) = elim (Any-append_split xs h) [
    | inl l ↦ inl (there l)
    | inr r ↦ inr r
  ]

module _ {ℓ κ μ} {A : Type ℓ} {P : A → Type κ} {Q : A → Type μ} where
  pub Any-imp : ((x : A) → P x → Q x) → {xs : List A} → Any P xs → Any Q xs
  Any-imp f (here h) = here (f _ h)
  Any-imp f (there h) = there (Any-imp f h)

module _ {ℓ κ} {A : Type ℓ} (P : A → Type κ) where
  -- Every entry of the list satisfies `P`.
  abbrev pub All : List A → Type κ
  All [] = Unit
  All (x ∷ xs) = P x × All xs

module _ {ℓ κ} {A : Type ℓ} (P : A → Type κ) where
  pub All-Member : (xs : List A) {x : A} → All P xs → Member x xs → P x
  All-Member [] _ m = elim m [ ]
  All-Member (y ∷ xs) (p, _) (here e) = subst P e p
  All-Member (y ∷ xs) (_, ps) (there m) = All-Member xs ps m

  pub All-of_Member : (xs : List A) → ((x : A) → Member x xs → P x) → All P xs
  All-of_Member [] f = tt
  All-of_Member (x ∷ xs) f = (f x (here refl), All-of_Member xs (λ y m. f y (there m)))

  pub All-append : (xs ys : List A) → All P xs → All P ys → All P (xs ++ ys)
  All-append [] ys h k = k
  All-append (x ∷ xs) ys (p, h) k = (p, All-append xs ys h k)

-- The conditions under which a list's filter holds an entry.
module _ {ℓ} {A : Type ℓ} (p : A → Bool) where
  pub Member-filter : (xs : List A) {a : A} → Member a xs → p a ≡ true → Member a (filter p xs)
  unfolding filter
  Member-filter [] m h = elim m [ ]
  Member-filter (x ∷ xs) (here e) h = rw (ap p e ∙ h) (here e)
  Member-filter (x ∷ xs) (there m) h = elim (Bool-cases (p x)) [
    | inl t ↦ rw t (there (Member-filter xs m h))
    | inr f ↦ rw f (Member-filter xs m h)
  ]

  Member-cons_both :
      {x : A} {xs ys : List A} {a : A}
      → (Member a xs → Member a ys)
      → Member a (x ∷ xs)
      → Member a (x ∷ ys)
  Member-cons_both f (here e) = here e
  Member-cons_both f (there m) = there (f m)

  pub Member-of_filter : (xs : List A) {a : A} → Member a (filter p xs) → Member a xs
  unfolding filter
  Member-of_filter [] m = m
  Member-of_filter (x ∷ xs) m = elim (Bool-cases (p x)) [
    | inl t ↦ Member-cons_both (Member-of_filter xs) (rw t at m)
    | inr f ↦ there (Member-of_filter xs (rw f at m))
  ]

  passes-here :
      {x : A} {xs : List A} {a : A}
      → p x ≡ true
      → (Member a xs → p a ≡ true)
      → Member a (x ∷ xs)
      → p a ≡ true
  passes-here t f (here e) = ap p (sym e) ∙ t
  passes-here t f (there m) = f m

  pub passes_of_filter : (xs : List A) {a : A} → Member a (filter p xs) → p a ≡ true
  unfolding filter
  passes_of_filter [] m = elim m [ ]
  passes_of_filter (x ∷ xs) m = elim (Bool-cases (p x)) [
    | inl t ↦ passes-here t (passes_of_filter xs) (rw t at m)
    | inr f ↦ passes_of_filter xs (rw f at m)
  ]

  filter-empty : (xs : List A) → ((a : A) → Member a xs → p a ≡ false) → filter p xs ≡ []
  unfolding filter
  filter-empty [] f = refl
  filter-empty (x ∷ xs) f = rw (f x (here refl)) (filter-empty xs (λ a m. f a (there m)))

  -- Where every entry that passes lets the first one pass, a filter is empty or begins with it.
  pub filter-first :
      (x : A) (xs : List A)
      → ((a : A) → p a ≡ true → p x ≡ true)
      → (filter p (x ∷ xs) ≡ []) ⊎ ((rest : List A) × (filter p (x ∷ xs) ≡ x ∷ rest))
  unfolding filter
  filter-first x xs f = elim (Bool-cases (p x)) [
    | inl t ↦ inr (filter p xs, rw t)
    | inr n ↦
        inl (
          rw n
            (filter-empty xs (λ a m. elim (Bool-cases (p a)) [ inl t ↦ cc (f a t) | inr q ↦ q ])))
  ]

module _ {ℓ κ μ} {A : Type ℓ} {P : A → Type κ} {Q : A → Type μ} where
  pub All-imp : ((x : A) → P x → Q x) → (xs : List A) → All P xs → All Q xs
  All-imp f [] h = tt
  All-imp f (x ∷ xs) (p, ps) = (f x p, All-imp f xs ps)
