-- ===== src/Diff/Hunks.antt =====
-- The lines that the review dialog shows: those within `context` lines of a change, and no other.
use goff_studio.Base.{
  ℕ, zero, suc, ◌+◌, ◌-◌, ◌≤◌, ◌<◌, Bool, true, not, ◌&&◌, ◌||◌, ◌≡◌, ◌≢◌, ◌↔◌, refl, sym, ap, ◌∙◌,
  Option, none, some, List, [], ◌∷◌, ◌++◌, append-nil, append_assoc, if◌then◌else◌, get_elem?, take,
  drop, any, arith, Bool-cases, inl, inr,
}
use goff_studio.Diff.{
  DiffOp, is_change, near_change, Segment, shown, hidden, flush, fold_hunks, hunks,
}

module _ {ℓ} {A : Type ℓ} where
  get_elem?-drop : (m j : ℕ) (xs : List A) → get_elem? (drop m xs) j ≡ get_elem? xs (m + j)
  get_elem?-drop zero j xs = let e : j ≡ 0 + j = omega arith in ap (get_elem? xs) e
  get_elem?-drop (suc m) j [] = refl
  get_elem?-drop (suc m) j (x ∷ xs) =
      let e : suc (m + j) ≡ suc m + j = omega arith in
      get_elem?-drop m j xs ∙ ap (get_elem? (x ∷ xs)) e

  get_elem?-take : (n j : ℕ) (xs : List A) → j < n → get_elem? (take n xs) j ≡ get_elem? xs j
  get_elem?-take zero j xs h = absurd (omega arith)
  get_elem?-take (suc n) j [] h = refl
  get_elem?-take (suc n) zero (x ∷ xs) h = refl
  get_elem?-take (suc n) (suc j) (x ∷ xs) h = get_elem?-take n j xs (omega arith)

  -- An entry of a prefix is an entry of the list, and stands before its end.
  take-get_elem? :
      (n j : ℕ) (xs : List A) (x : A)
      → get_elem? (take n xs) j ≡ some x
      → (j < n) × (get_elem? xs j ≡ some x)
  take-get_elem? zero j xs x h = absurd (cc h)
  take-get_elem? (suc n) j [] x h = absurd (cc h)
  take-get_elem? (suc n) zero (y ∷ xs) x h = (omega arith, h)
  take-get_elem? (suc n) (suc j) (y ∷ xs) x h =
      let (a, b) = take-get_elem? n j xs x h in (omega arith, b)

  -- Some entry at some place passes.
  abbrev Somewhere : (A → Bool) → List A → Type ℓ
  Somewhere p xs = (j : ℕ) × (x : A) × (get_elem? xs j ≡ some x) × (p x ≡ true)

  any→Somewhere : (p : A → Bool) (xs : List A) → any p xs ≡ true → Somewhere p xs
  any→Somewhere p [] h = absurd (cc h)
  any→Somewhere p (x ∷ xs) h = elim (Bool-cases (p x)) [
    | inl t ↦ (0, x, refl, t)
    | inr f ↦ let (j, y, e, q) = any→Somewhere p xs (rw f at h) in (suc j, y, e, q)
  ]

  Somewhere→any :
      (p : A → Bool) (xs : List A) (j : ℕ) (x : A)
      → get_elem? xs j ≡ some x
      → p x ≡ true
      → any p xs ≡ true
  Somewhere→any p [] j x e h = cc
  Somewhere→any p (y ∷ xs) zero x e h = ground (arith, e, h)
  Somewhere→any p (y ∷ xs) (suc j) x e h = ground (arith, Somewhere→any p xs j x e h)

-- A change stands at most `context` places from the i-th operation.
abbrev pub Near : ℕ → List DiffOp → ℕ → Type 0
Near context ops i =
    (j : ℕ) × (op : DiffOp) × (get_elem? ops j ≡ some op)
    × (is_change op ≡ true)
    × (i ≤ j + context)
    × (j ≤ i + context)

Near-near_change :
    (context : ℕ) (ops : List DiffOp) (i : ℕ)
    → near_change context ops i ≡ true
    → Near context ops i
unfolding near_change
Near-near_change context ops i h =
    let (j, op, e, c) =
      any→Somewhere is_change (drop (i - context) (take (i + context + 1) ops)) h in
    let (below, at) =
      take-get_elem? (i + context + 1) (i - context + j) ops op
        (sym (get_elem?-drop (i - context) j (take (i + context + 1) ops)) ∙ e) in
    (i - context + j, op, at, c, omega arith, omega arith)

Near→near_change :
    (context : ℕ) (ops : List DiffOp) (i : ℕ)
    → Near context ops i
    → near_change context ops i ≡ true
unfolding near_change
Near→near_change context ops i (j, op, e, c, low, high) =
    let e' : i - context + (j - (i - context)) ≡ j = omega arith in
    Somewhere→any is_change (drop (i - context) (take (i + context + 1) ops)) (j - (i - context)) op
      (get_elem?-drop (i - context) (j - (i - context)) (take (i + context + 1) ops)
        ∙ ap (get_elem? (take (i + context + 1) ops)) e'
        ∙ get_elem?-take (i + context + 1) j ops (omega arith)
        ∙ e)
      c

-- What the segments say of each operation in turn: itself, or nothing where it is hidden.
abbrev nones : ℕ → List (Option DiffOp)
nones zero = []
nones (suc n) = none ∷ nones n

abbrev pub replay : List Segment → List (Option DiffOp)
replay [] = []
replay (shown op ∷ segments) = some op ∷ replay segments
replay (hidden n ∷ segments) = nones n ++ replay segments

mask : ℕ → List DiffOp → ℕ → List DiffOp → List (Option DiffOp)
mask context all i [] = []
mask context all i (op ∷ ops) =
    (if not (is_change op) && not (near_change context all i) then none else some op)
    ∷ mask context all (suc i) ops

nones-suc : (n : ℕ) (xs : List (Option DiffOp)) → nones (suc n) ++ xs ≡ nones n ++ none ∷ xs
nones-suc zero xs = refl
nones-suc (suc n) xs = ap (◌∷◌ none) (nones-suc n xs)

replay-flush :
    (n : ℕ) (segments : List Segment) → replay (flush n ++ segments) ≡ nones n ++ replay segments
replay-flush zero segments = refl
replay-flush (suc n) segments = refl

-- The operations at the end that are hidden with no marker are `k`.
replay-fold_hunks :
    (context : ℕ) (all : List DiffOp) (i pending : ℕ) (ops : List DiffOp)
    → (k : ℕ) × (replay (fold_hunks context all i pending ops) ++ nones k
        ≡ nones pending ++ mask context all i ops)
unfolding fold_hunks mask
replay-fold_hunks context all i pending [] = (pending, sym (append-nil _))
replay-fold_hunks context all i pending (op ∷ ops) =
    elim (Bool-cases (not (is_change op) && not (near_change context all i))) [
      | inl t ↦
          let (k, e) = replay-fold_hunks context all (suc i) (suc pending) ops in
          (k, rw t (e ∙ nones-suc pending _))
      | inr f ↦
          let (k, e) = replay-fold_hunks context all (suc i) 0 ops in
          (
            k,
            rw (f, replay-flush)
                (append_assoc (nones pending) _ (nones k)
                  ∙ ap (λ l. nones pending ++ some op ∷ l) e),
          )
    ]

get_elem?-nones : (k i : ℕ) (op : DiffOp) → get_elem? (nones k) i ≢ some (some op)
get_elem?-nones zero i op h = cc h
get_elem?-nones (suc k) zero op h = cc h
get_elem?-nones (suc k) (suc i) op h = get_elem?-nones k i op h

shown_before_nones :
    (xs : List (Option DiffOp)) (k i : ℕ) (op : DiffOp)
    → (get_elem? (xs ++ nones k) i ≡ some (some op)) ↔ (get_elem? xs i ≡ some (some op))
shown_before_nones [] k i op = (λ h. absurd (get_elem?-nones k i op h), λ h. cc h)
shown_before_nones (x ∷ xs) k zero op = (λ h. h, λ h. h)
shown_before_nones (x ∷ xs) k (suc i) op = shown_before_nones xs k i op

-- The i-th entry of the mask, `n` operations having gone before.
shown-mask :
    (context : ℕ) (all : List DiffOp) (n i : ℕ) (ops : List DiffOp) (op : DiffOp)
    → get_elem? ops i ≡ some op
    → (get_elem? (mask context all n ops) i ≡ some (some op))
      ↔ ((is_change op || near_change context all (n + i)) ≡ true)
unfolding mask
shown-mask context all n i [] op h = absurd (cc h)
shown-mask context all n zero (x ∷ ops) op h =
    let e : n + 0 ≡ n = omega arith in rw e (λ g. ground (arith, h), λ g. ground (arith, h))
shown-mask context all n (suc i) (x ∷ ops) op h =
    let e : n + suc i ≡ suc n + i = omega arith in rw e (shown-mask context all (suc n) i ops op h)

shown-hunks :
    (context : ℕ) (ops : List DiffOp) (i : ℕ) (op : DiffOp)
    → get_elem? ops i ≡ some op
    → (get_elem? (replay (hunks context ops)) i ≡ some (some op))
      ↔ ((is_change op || near_change context ops i) ≡ true)
unfolding hunks
shown-hunks context ops i op h =
    let (k, e) = replay-fold_hunks context ops 0 0 ops in
    let same : 0 + i ≡ i = omega arith in
    let shown_iff = shown_before_nones (replay (fold_hunks context ops 0 0 ops)) k i op in
    let mask_iff = rw same at (shown-mask context ops 0 i ops op h) in
    (λ g. mask_iff.0 (rw e at (shown_iff.1 g)), λ b. shown_iff.0 (rw e (mask_iff.1 b)))

Near-of_test :
    (context : ℕ) (ops : List DiffOp) (i : ℕ) (op : DiffOp)
    → get_elem? ops i ≡ some op
    → (is_change op || near_change context ops i) ≡ true
    → Near context ops i
Near-of_test context ops i op h b = elim (Bool-cases (is_change op)) [
  | inl c ↦ (i, op, h, c, omega arith, omega arith)
  | inr n ↦ Near-near_change context ops i (ground arith)
]

-- The i-th operation of the script is shown at its place among the segments, exactly when it or
-- another operation at most `context` places from it is a change.
pub hunks-Near :
    (context : ℕ) (ops : List DiffOp) (i : ℕ) (op : DiffOp)
    → get_elem? ops i ≡ some op
    → (get_elem? (replay (hunks context ops)) i ≡ some (some op)) ↔ Near context ops i
hunks-Near context ops i op h = (
  λ g. Near-of_test context ops i op h ((shown-hunks context ops i op h).0 g),
  λ near. (shown-hunks context ops i op h).1 (ground (arith, Near→near_change context ops i near)),
)
