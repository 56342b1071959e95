-- ===== src/Diff/Longest.antt =====
-- The table of `longestCommon` holds the lengths of longest common subsequences: each entry is that
-- of a prefix of `a` and a prefix of `b`, compared from their ends.
use Prim.Native.Nat.{max}
use goff_studio.Base.{
  ℕ, zero, suc, ◌+◌, ◌≤◌, ◌≡◌, refl, ap, ◌∙◌, some, List, [], ◌∷◌, leb, if◌then◌else◌, ◌==◌,
  ==_refl, Text, text_eq, length, get_elem?, arith,
}
use goff_studio.Diff.{fill_row, next_row, fill_rows, zeros, longest_common, entry_at}

-- `Sub c xs`: `c` is `xs` with some lines left out.
pub data Sub : List Text → List Text → Type 0 where
  nil : Sub [] []
  skip : {c xs : List Text} {x : Text} → Sub c xs → Sub c (x ∷ xs)
  take : {c xs : List Text} {x : Text} → Sub c xs → Sub (x ∷ c) (x ∷ xs)

-- The length of a longest common subsequence, by comparing the heads.
unfoldable pub lcs : List Text → List Text → ℕ
lcs [] ys = 0
lcs (x ∷ xs) [] = 0
lcs (x ∷ xs) (y ∷ ys) =
    let both = suc (lcs xs ys) in
    let left_out = max (lcs xs (y ∷ ys)) (lcs (x ∷ xs) ys) in if x == y then both else left_out

Sub-tail : {z x : Text} {c xs : List Text} → Sub (z ∷ c) (x ∷ xs) → Sub c xs
Sub-tail (skip s) = drop_head s
  where
    drop_head : {z : Text} {c xs : List Text} → Sub (z ∷ c) xs → Sub c xs
    drop_head (skip s) = skip (drop_head s)
    drop_head (take s) = skip s
Sub-tail (take s) = s

-- No common subsequence is longer.
pub length-le-lcs : (xs ys c : List Text) → Sub c xs → Sub c ys → length c ≤ lcs xs ys
unfolding lcs
length-le-lcs [] ys c nil q = omega arith
length-le-lcs (x ∷ xs) [] c p nil = omega arith
length-le-lcs (x ∷ xs) (y ∷ ys) [] p q = omega arith
length-le-lcs (x ∷ xs) (y ∷ ys) (z ∷ c) (skip p) q = ground (
  arith,
  length-le-lcs xs (y ∷ ys) (z ∷ c) p q,
  length-le-lcs xs ys c (Sub-tail (skip p)) (Sub-tail q),
)
length-le-lcs (x ∷ xs) (y ∷ ys) (z ∷ c) (take p) (skip q) = ground (
  arith,
  length-le-lcs (x ∷ xs) ys (x ∷ c) (take p) q,
  length-le-lcs xs ys c p (Sub-tail (skip q)),
)
length-le-lcs (x ∷ xs) (_ ∷ ys) (_ ∷ c) (take p) (take q) =
    rw (==_refl x) (omega (arith, length-le-lcs xs ys c p q))

-- The rows of the table: entry `j` of the row of the reversed prefix `r` of `a` is for `r` and the
-- reversed prefix of length `j` of `b`; `rd` is the part of `b` already passed, reversed.
row_from : List Text → List Text → List Text → List ℕ
row_from r rd [] = lcs r rd ∷ []
row_from r rd (y ∷ ys) = lcs r rd ∷ row_from r (y ∷ rd) ys

table_from : List Text → List Text → List Text → List (List ℕ)
table_from b r [] = row_from r [] b ∷ []
table_from b r (x ∷ a) = row_from r [] b ∷ table_from b (x ∷ r) a

pub lcs-nil : (xs : List Text) → lcs xs [] ≡ 0
unfolding lcs
lcs-nil [] = refl
lcs-nil (x ∷ xs) = refl

entry_lem :
    (x y : Text) (r rd : List Text)
    → (if x == y
        then lcs r rd + 1
        else if leb (lcs (x ∷ r) rd) (lcs r (y ∷ rd))
        then lcs r (y ∷ rd)
        else lcs (x ∷ r) rd)
      ≡ lcs (x ∷ r) (y ∷ rd)
unfolding lcs
entry_lem x y r rd = ground arith

fill_row-row_from :
    (x : Text) (r rd ys : List Text)
    → lcs (x ∷ r) rd ∷ fill_row x ys (row_from r rd ys) (lcs (x ∷ r) rd) ≡ row_from (x ∷ r) rd ys
unfolding fill_row row_from
fill_row-row_from x r rd [] = refl
fill_row-row_from x r rd (y ∷ []) = rw (entry_lem x y r rd)
fill_row-row_from x r rd (y ∷ z ∷ ys) =
    rw (entry_lem x y r rd) (ap (◌∷◌ (lcs (x ∷ r) rd)) (fill_row-row_from x r (y ∷ rd) (z ∷ ys)))

next_row-row_from :
    (b : List Text) (x : Text) (r : List Text)
    → next_row b x (row_from r [] b) ≡ row_from (x ∷ r) [] b
unfolding next_row
next_row-row_from b x r = rw (← lcs-nil (x ∷ r)) (fill_row-row_from x r [] b)

fill_rows-table_from :
    (b a r : List Text) → row_from r [] b ∷ fill_rows b a (row_from r [] b) ≡ table_from b r a
unfolding fill_rows table_from
fill_rows-table_from b [] r = refl
fill_rows-table_from b (x ∷ a) r =
    rw (next_row-row_from b x r) (ap (◌∷◌ (row_from r [] b)) (fill_rows-table_from b a (x ∷ r)))

zeros-row_from : (rd b : List Text) → zeros b ≡ row_from [] rd b
unfolding zeros row_from lcs
zeros-row_from rd [] = refl
zeros-row_from rd (y ∷ b) = ap (◌∷◌ 0) (zeros-row_from (y ∷ rd) b)

-- The first `n` lines, reversed, in front of `r`.
unfoldable pub rev_take : ℕ → List Text → List Text → List Text
rev_take zero xs r = r
rev_take (suc n) [] r = r
rev_take (suc n) (x ∷ xs) r = rev_take n xs (x ∷ r)

get_elem?-row_from :
    (r rd b : List Text) (j : ℕ)
    → j ≤ length b
    → get_elem? (row_from r rd b) j ≡ some (lcs r (rev_take j b rd))
unfolding row_from rev_take
get_elem?-row_from r rd [] zero h = refl
get_elem?-row_from r rd [] (suc j) h = absurd (omega arith)
get_elem?-row_from r rd (y ∷ b) zero h = refl
get_elem?-row_from r rd (y ∷ b) (suc j) h = get_elem?-row_from r (y ∷ rd) b j (omega arith)

get_elem?-table_from :
    (b r a : List Text) (i : ℕ)
    → i ≤ length a
    → get_elem? (table_from b r a) i ≡ some (row_from (rev_take i a r) [] b)
unfolding table_from rev_take
get_elem?-table_from b r [] zero h = refl
get_elem?-table_from b r [] (suc i) h = absurd (omega arith)
get_elem?-table_from b r (x ∷ a) zero h = refl
get_elem?-table_from b r (x ∷ a) (suc i) h = get_elem?-table_from b (x ∷ r) a i (omega arith)

longest_common-table_from : (a b : List Text) → longest_common a b ≡ table_from b [] a
unfolding longest_common
longest_common-table_from a b = rw (zeros-row_from [] b) (fill_rows-table_from b a [])

entry_at-row :
    (table : List (List ℕ)) (i j : ℕ) (row : List ℕ)
    → get_elem? table i ≡ some row
    → entry_at table i j ≡ get_elem? row j
unfolding entry_at
entry_at-row table i j row h = ground (arith, h)

-- Every entry of the table that is read is there, and is the length for its two prefixes.
pub entry_at-longest_common :
    (a b : List Text) (i j : ℕ)
    → i ≤ length a
    → j ≤ length b
    → entry_at (longest_common a b) i j ≡ some (lcs (rev_take i a []) (rev_take j b []))
entry_at-longest_common a b i j hi hj =
    rw (longest_common-table_from a b)
      (entry_at-row _ i j _ (get_elem?-table_from b [] a i hi) ∙ get_elem?-row_from _ [] b j hj)

-- The prefix of length `i + 1` ends in the line at place `i`.
pub rev_take-suc :
    (i : ℕ) (xs r : List Text) (x : Text)
    → get_elem? xs i ≡ some x
    → rev_take (suc i) xs r ≡ x ∷ rev_take i xs r
unfolding rev_take
rev_take-suc i [] r x h = cc
rev_take-suc zero (y ∷ xs) r x h = ground (arith, h)
rev_take-suc (suc i) (y ∷ xs) r x h = rev_take-suc i xs (y ∷ r) x h

Sub-rev_take :
    {c xs d r : List Text}
    → Sub c xs
    → Sub d r
    → Sub (rev_take (length c) c d) (rev_take (length xs) xs r)
unfolding rev_take
Sub-rev_take nil s = s
Sub-rev_take (skip p) s = Sub-rev_take p (skip s)
Sub-rev_take (take p) s = Sub-rev_take p (take s)

length-rev_take : (xs r : List Text) → length (rev_take (length xs) xs r) ≡ length xs + length r
unfolding rev_take
length-rev_take [] r = omega arith
length-rev_take (x ∷ xs) r = omega (arith, length-rev_take xs (x ∷ r))

-- No common subsequence of two lists is longer than the last entry of their table.
pub length-le-last_entry :
    (a b c : List Text)
    → Sub c a
    → Sub c b
    → length c ≤ lcs (rev_take (length a) a []) (rev_take (length b) b [])
length-le-last_entry a b c p q =
    omega
      (arith, length-rev_take c [], length-le-lcs _ _ _ (Sub-rev_take p nil) (Sub-rev_take q nil))
