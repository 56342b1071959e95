-- ===== src/Diff/Script.antt =====
-- The script of `backtrack`: it turns the old lines into the new ones, and keeps as many as can be.
use goff_studio.Base.{
  ℕ, zero, suc, ◌+◌, ◌≤◌, true, false, ◌≡◌, refl, sym, ap, ◌∙◌, Option, some, List, [], ◌∷◌, ◌++◌,
  append-nil, leb, ◌==◌, ==_iff, ==_refl, length-append, Text, text_eq, length, get_elem?, take,
  arith, Bool-cases, inl, inr,
}
use goff_studio.Diff.{DiffOp, keep, add, remove, longest_common, backtrack, script}
use goff_studio.Diff.Longest.{
  Sub, lcs, lcs-nil, rev_take, entry_at-longest_common, rev_take-suc, length-le-last_entry,
}

-- The lines before the change, those after it, and those kept.
abbrev pub old_lines : List DiffOp → List Text
old_lines [] = []
old_lines (keep t ∷ ops) = t ∷ old_lines ops
old_lines (add t ∷ ops) = old_lines ops
old_lines (remove t ∷ ops) = t ∷ old_lines ops

abbrev pub new_lines : List DiffOp → List Text
new_lines [] = []
new_lines (keep t ∷ ops) = t ∷ new_lines ops
new_lines (add t ∷ ops) = t ∷ new_lines ops
new_lines (remove t ∷ ops) = new_lines ops

abbrev pub kept_lines : List DiffOp → List Text
kept_lines [] = []
kept_lines (keep t ∷ ops) = t ∷ kept_lines ops
kept_lines (add t ∷ ops) = kept_lines ops
kept_lines (remove t ∷ ops) = kept_lines ops

old_lines-append : (xs ys : List DiffOp) → old_lines (xs ++ ys) ≡ old_lines xs ++ old_lines ys
old_lines-append [] ys = refl
old_lines-append (keep t ∷ xs) ys = ap (◌∷◌ t) (old_lines-append xs ys)
old_lines-append (add t ∷ xs) ys = old_lines-append xs ys
old_lines-append (remove t ∷ xs) ys = ap (◌∷◌ t) (old_lines-append xs ys)

new_lines-append : (xs ys : List DiffOp) → new_lines (xs ++ ys) ≡ new_lines xs ++ new_lines ys
new_lines-append [] ys = refl
new_lines-append (keep t ∷ xs) ys = ap (◌∷◌ t) (new_lines-append xs ys)
new_lines-append (add t ∷ xs) ys = ap (◌∷◌ t) (new_lines-append xs ys)
new_lines-append (remove t ∷ xs) ys = new_lines-append xs ys

kept_lines-append : (xs ys : List DiffOp) → kept_lines (xs ++ ys) ≡ kept_lines xs ++ kept_lines ys
kept_lines-append [] ys = refl
kept_lines-append (keep t ∷ xs) ys = ap (◌∷◌ t) (kept_lines-append xs ys)
kept_lines-append (add t ∷ xs) ys = kept_lines-append xs ys
kept_lines-append (remove t ∷ xs) ys = kept_lines-append xs ys

take-suc :
    (i : ℕ) (xs : List Text) (x : Text)
    → get_elem? xs i ≡ some x
    → take (suc i) xs ≡ take i xs ++ x ∷ []
take-suc i [] x h = cc
take-suc zero (y ∷ xs) x h = ground (arith, h)
take-suc (suc i) (y ∷ xs) x h = ap (◌∷◌ y) (take-suc i xs x h)

take-length : (xs : List Text) → take (length xs) xs ≡ xs
take-length [] = refl
take-length (x ∷ xs) = ap (◌∷◌ x) (take-length xs)

get_elem?-below :
    (xs : List Text) (i : ℕ) → suc i ≤ length xs → (x : Text) × (get_elem? xs i ≡ some x)
get_elem?-below [] i h = absurd (omega arith)
get_elem?-below (x ∷ xs) zero h = (x, refl)
get_elem?-below (x ∷ xs) (suc i) h = get_elem?-below xs i (omega arith)

-- What the script for the first `i` lines of `a` and the first `j` of `b` achieves.
record Solves (a b : List Text) (i j : ℕ) (ops : List DiffOp) : Type 0 where
  old : old_lines ops ≡ take i a
  new : new_lines ops ≡ take j b
  kept : length (kept_lines ops) ≡ lcs (rev_take i a []) (rev_take j b [])

abbrev Solved : List Text → List Text → ℕ → ℕ → Option (List DiffOp) → Type 0
Solved a b i j r = (ops : List DiffOp) × (r ≡ some ops) × Solves a b i j ops

length-kept :
    (ops : List DiffOp) (op : DiffOp)
    → length (kept_lines (ops ++ op ∷ [])) ≡ length (kept_lines ops) + length (kept_lines (op ∷ []))
length-kept ops op = rw (kept_lines-append ops (op ∷ [])) (length-append (kept_lines ops) _)

module _ {a b : List Text} {i j : ℕ} {ops : List DiffOp} where
  Solves-keep :
      (x : Text)
      → get_elem? a i ≡ some x
      → get_elem? b j ≡ some x
      → Solves a b i j ops
      → Solves a b (suc i) (suc j) (ops ++ keep x ∷ [])
  unfolding lcs
  Solves-keep x hx hy s = record {
    old =
        old_lines-append ops (keep x ∷ []) ∙ ap (λ l. l ++ x ∷ []) s.old ∙ sym (take-suc i a x hx);
    new =
        new_lines-append ops (keep x ∷ []) ∙ ap (λ l. l ++ x ∷ []) s.new ∙ sym (take-suc j b x hy);
    kept =
        rw (rev_take-suc i a [] x hx, rev_take-suc j b [] x hy, ==_refl x)
          (omega (arith, length-kept ops (keep x), s.kept));
  }

  -- The kept lines are the business of the caller, who knows which side of the table won.
  Solves-add :
      (y : Text)
      → get_elem? b j ≡ some y
      → Solves a b i j ops
      → lcs (rev_take i a []) (y ∷ rev_take j b []) ≡ lcs (rev_take i a []) (rev_take j b [])
      → Solves a b i (suc j) (ops ++ add y ∷ [])
  Solves-add y hy s e = record {
    old = old_lines-append ops (add y ∷ []) ∙ append-nil _ ∙ s.old;
    new = new_lines-append ops (add y ∷ []) ∙ ap (λ l. l ++ y ∷ []) s.new ∙ sym (take-suc j b y hy);
    kept = rw (rev_take-suc j b [] y hy) (omega (arith, length-kept ops (add y), s.kept, e));
  }

  Solves-remove :
      (x : Text)
      → get_elem? a i ≡ some x
      → Solves a b i j ops
      → lcs (x ∷ rev_take i a []) (rev_take j b []) ≡ lcs (rev_take i a []) (rev_take j b [])
      → Solves a b (suc i) j (ops ++ remove x ∷ [])
  Solves-remove x hx s e = record {
    old =
        old_lines-append ops (remove x ∷ [])
        ∙ ap (λ l. l ++ x ∷ []) s.old
        ∙ sym (take-suc i a x hx);
    new = new_lines-append ops (remove x ∷ []) ∙ append-nil _ ∙ s.new;
    kept = rw (rev_take-suc i a [] x hx) (omega (arith, length-kept ops (remove x), s.kept, e));
  }

-- The choice at two different lines, by the two entries of the table.
lcs_choice :
    (x y : Text) (r r' : List Text)
    → (x == y) ≡ false
    → (leb (lcs r (y ∷ r')) (lcs (x ∷ r) r') ≡ true → lcs (x ∷ r) (y ∷ r') ≡ lcs (x ∷ r) r')
      × (leb (lcs r (y ∷ r')) (lcs (x ∷ r) r') ≡ false → lcs (x ∷ r) (y ∷ r') ≡ lcs r (y ∷ r'))
unfolding lcs
lcs_choice x y r r' n = (λ h. ground (arith, n), λ h. ground (arith, n))

backtrack-Solved :
    (a b : List Text) (i j : ℕ)
    → i ≤ length a
    → j ≤ length b
    → Solved a b i j (backtrack (longest_common a b) a b i j)
unfolding backtrack rev_take lcs
backtrack-Solved a b zero zero hi hj = ([], refl, record { old = refl; new = refl; kept = refl })
backtrack-Solved a b zero (suc j) hi hj =
    let (y, hy) = get_elem?-below b j hj in
    let (ops, e, s) = backtrack-Solved a b zero j hi (omega arith) in
    (ops ++ add y ∷ [], ground (arith, e, hy), Solves-add y hy s refl)
backtrack-Solved a b (suc i) zero hi hj =
    let (x, hx) = get_elem?-below a i hi in
    let (ops, e, s) = backtrack-Solved a b i zero (omega arith) hj in
    (ops ++ remove x ∷ [], ground (arith, e, hx), Solves-remove x hx s (sym (lcs-nil _)))
backtrack-Solved a b (suc i) (suc j) hi hj =
    let (x, hx) = get_elem?-below a i hi in
    let (y, hy) = get_elem?-below b j hj in
    let r = rev_take i a [] in
    let r' = rev_take j b [] in
    let at_left =
      entry_at-longest_common a b (suc i) j hi (omega arith)
      ∙ ap (λ l. some (lcs l r')) (rev_take-suc i a [] x hx) in
    let at_above =
      entry_at-longest_common a b i (suc j) (omega arith) hj
      ∙ ap (λ l. some (lcs r l)) (rev_take-suc j b [] y hy) in
    elim (Bool-cases (x == y)) [
      | inl t ↦
          let (ops, e, s) = backtrack-Solved a b i j (omega arith) (omega arith) in
          (
            ops ++ keep x ∷ [],
            ground (arith, e, hx, hy, t),
            Solves-keep x hx (hy ∙ ap some (sym ((==_iff x y).0 t))) s,
          )
      | inr f ↦ elim (Bool-cases (leb (lcs r (y ∷ r')) (lcs (x ∷ r) r'))) [
        | inl h ↦
            let (ops, e, s) = backtrack-Solved a b (suc i) j hi (omega arith) in
            (
              ops ++ add y ∷ [],
              ground (arith, e, hx, hy, f, at_left, at_above, h),
              Solves-add y hy s (rw (rev_take-suc i a [] x hx) ((lcs_choice x y r r' f).0 h)),
            )
        | inr h ↦
            let (ops, e, s) = backtrack-Solved a b i (suc j) (omega arith) hj in
            (
              ops ++ remove x ∷ [],
              ground (arith, e, hx, hy, f, at_left, at_above, h),
              Solves-remove x hx s (rw (rev_take-suc j b [] y hy) ((lcs_choice x y r r' f).1 h)),
            )
      ]
    ]

-- For any two lists of lines the walk through the table reads no entry outside it and returns a
-- script whose kept and removed lines are the old ones in order, whose kept and added lines are
-- the new ones in order, and which keeps at least as many lines as any common subsequence has.
pub script_lem :
    (a b : List Text)
    → (ops : List DiffOp) × (script a b ≡ some ops)
      × (old_lines ops ≡ a)
      × (new_lines ops ≡ b)
      × ((c : List Text) → Sub c a → Sub c b → length c ≤ length (kept_lines ops))
unfolding script
script_lem a b =
    let (ops, e, s) = backtrack-Solved a b (length a) (length b) (omega arith) (omega arith) in
    (
      ops,
      e,
      s.old ∙ take-length a,
      s.new ∙ take-length b,
      λ c p q. omega (arith, length-le-last_entry a b c p q, s.kept),
    )
