-- ===== src/Validate/Bounds.antt =====
-- The counts and percentages of a request.
use goff_studio.Base.{
  ℕ, ℤ, ◌≤◌, false, ◌||◌, ◌≡◌, ◌↔◌, ◌⊎◌, inl, inr, refl, ap, List, [], ◌∷◌, nat_eq, Text, codes, ok,
  >>-eq-ok, refuse_if->>-iff, All, arith,
}
use goff_studio.Validate.{
  max_history, bounded_limit, Numbers, check_percentages, valid_percentages, valid_name,
}
use goff_studio.Validate.Segments.{IsName, valid_name_iff, refuse_if-ok}

-- boundedLimit gives 1 to 100 whatever a client asks for, and the number asked for when that is
-- one of these.
pub bounded_limit_lem :
    (limit : ℤ)
    → (1 ≤ bounded_limit limit)
      × (bounded_limit limit ≤ max_history)
      × ((n : ℕ) → limit ≡ ℤ.pos n → 1 ≤ n → n ≤ max_history → bounded_limit limit ≡ n)
unfolding bounded_limit
bounded_limit_lem (ℤ.negsuc k) = (omega arith, omega arith, λ n e. cc e)
bounded_limit_lem (ℤ.pos k) =
    (ground arith, ground arith, λ n e l h. let same : k ≡ n = ap size e in ground arith)
  where
    size : ℤ → ℕ
    size (ℤ.pos n) = n
    size (ℤ.negsuc n) = n

module _ {Number : Type 0} (numbers : Numbers Number) where
  -- The sum of the percentages, in the order of the entries.
  abbrev pub total : Number → List (Text × Number) → Number
  total sum [] = sum
  total sum ((name, pct) ∷ rest) = total (numbers.plus sum pct) rest

  -- A name with a percentage that is not below 0 and not above 100.
  abbrev pub InRange : Text × Number → Type 0
  InRange (name, pct) =
      IsName name
      × (numbers.less pct numbers.nought ≡ false)
      × (numbers.less numbers.hundred pct ≡ false)

  check_percentages_iff :
      (entries : List (Text × Number)) (sum : Number)
      → (check_percentages numbers entries sum ≡ ok tt)
        ↔ (All InRange entries × (numbers.equal (total sum entries) numbers.nought ≡ false))
  unfolding check_percentages
  check_percentages_iff [] sum =
      (λ h. (tt, (refuse_if-ok _ _).0 h), λ (_, e). (refuse_if-ok _ _).1 e)
  check_percentages_iff ((name, pct) ∷ rest) sum =
      let (from, to) = check_percentages_iff rest (numbers.plus sum pct) in
      (
        λ h.
            let (n, h1) = >>-eq-ok (valid_name (codes "variation name") name) _ h in
            let (b, h2) =
              (refuse_if->>-iff
                  (numbers.less pct numbers.nought || numbers.less numbers.hundred pct) _ _).0
                h1 in
            let (all, sum') = from h2 in
            ((((valid_name_iff _ name).0 n, ground (arith, b), ground (arith, b)), all), sum'),
        λ (((n, low, high), all), sum').
            rw ((valid_name_iff (codes "variation name") name).1 n)
              ((refuse_if->>-iff _ _ _).1 (ground (arith, low, high), to (all, sum'))),
      )

  -- validPercentages accepts exactly a split without entries, and one whose variations have valid
  -- names and percentages from 0 to 100 that do not add up to zero.
  pub valid_percentages_iff :
      (entries : List (Text × Number))
      → (valid_percentages numbers entries ≡ ok tt) ↔ (
          (entries ≡ [])
          ⊎ (All InRange entries
              × (numbers.equal (total numbers.nought entries) numbers.nought ≡ false)))
  unfolding valid_percentages
  valid_percentages_iff [] = (λ _. inl refl, λ _. refl)
  valid_percentages_iff (entry ∷ rest) =
      let (from, to) = check_percentages_iff (entry ∷ rest) numbers.nought in
      (λ h. inr (from h), λ h. elim h [ inl e ↦ cc e | inr v ↦ to v ])
