-- ===== src/Diff.antt =====
-- internal/server/diff.go: the line diff that the review dialog shows.
-- `UnifiedDiff` fills a table of the lengths of longest common subsequences, walks back through it
-- to a script of kept, added and removed lines, and hides the kept lines far from any change.
-- A read outside a slice, where Go panics, is `none`.
pub mod Script
pub mod Longest
pub mod Hunks
use mathlib.Core.List.{reverse}
use goff_studio.Base.{
  ℕ, zero, suc, ◌+◌, ◌-◌, Bool, true, false, not, ◌&&◌, ◌||◌, Option, none, some, List, [], ◌∷◌,
  ◌++◌, leb, if◌then◌else◌, ◌==◌, nat_eq, Text, text_eq, codes, length, get_elem?, take, drop, any,
  join, split, map, decimal, trim_right_rune,
}

infixl 5 ◌>>=◌
abbrev pub ◌>>=◌ {ℓ κ} : {A : Type ℓ} {B : Type κ} → Option A → (A → Option B) → Option B
none >>= f = none
some a >>= f = f a

-- diffOp, by its kind byte: ' ', '+' and '-'.
pub data DiffOp : Type 0 where
  keep : Text → DiffOp
  add : Text → DiffOp
  remove : Text → DiffOp

abbrev pub is_change : DiffOp → Bool
is_change (keep t) = false
is_change _ = true

-- One row of longestCommon for the line `x` of `a`: `prev` is the row above from the column
-- before the current one on, and `left` the entry written last.
unfoldable pub fill_row : Text → List Text → List ℕ → ℕ → List ℕ
fill_row x (y ∷ ys) (diagonal ∷ above ∷ prev) left =
    let entry = if x == y then diagonal + 1 else if leb left above then above else left in
    entry ∷ fill_row x ys (above ∷ prev) entry
fill_row x _ _ left = []

-- A row of the table, its first entry 0.
unfoldable pub next_row : List Text → Text → List ℕ → List ℕ
next_row b x prev = 0 ∷ fill_row x b prev 0

unfoldable pub fill_rows : List Text → List Text → List ℕ → List (List ℕ)
fill_rows b [] prev = []
fill_rows b (x ∷ a) prev = next_row b x prev ∷ fill_rows b a (next_row b x prev)

unfoldable pub zeros {ℓ} : {A : Type ℓ} → List A → List ℕ
zeros [] = 0 ∷ []
zeros (x ∷ xs) = 0 ∷ zeros xs

-- longestCommon
unfoldable pub longest_common : List Text → List Text → List (List ℕ)
longest_common a b = zeros b ∷ fill_rows b a (zeros b)

unfoldable pub entry_at : List (List ℕ) → ℕ → ℕ → Option ℕ
entry_at table i j = do row ← get_elem? table i; get_elem? row j

abbrev append_op : Option (List DiffOp) → (Text → DiffOp) → Option Text → Option (List DiffOp)
append_op ops kind line = do before ← ops; text ← line; some (before ++ kind text ∷ [])

-- backtrack
unfoldable pub backtrack : List (List ℕ) → List Text → List Text → ℕ → ℕ → Option (List DiffOp)
backtrack table a b zero zero = some []
backtrack table a b zero (suc j) = append_op (backtrack table a b zero j) add (get_elem? b j)
backtrack table a b (suc i) zero = append_op (backtrack table a b i zero) remove (get_elem? a i)
backtrack table a b (suc i) (suc j) =
    let kept = append_op (backtrack table a b i j) keep (get_elem? a i) in
    let added = append_op (backtrack table a b (suc i) j) add (get_elem? b j) in
    let removed = append_op (backtrack table a b i (suc j)) remove (get_elem? a i) in
    do
      x ← get_elem? a i
      y ← get_elem? b j
      if x == y then kept else do
        left ← entry_at table (suc i) j
        above ← entry_at table i (suc j)
        if leb above left then added else removed

-- longestCommon and backtrack, as UnifiedDiff calls them.
unfoldable pub script : List Text → List Text → Option (List DiffOp)
script a b = backtrack (longest_common a b) a b (length a) (length b)

-- The inner loop of UnifiedDiff: is there a change within `context` operations of the i-th?
unfoldable pub near_change : ℕ → List DiffOp → ℕ → Bool
near_change context ops i = any is_change (drop (i - context) (take (i + context + 1) ops))

-- A line of the output: an operation, or the count of the operations hidden before it.
pub data Segment : Type 0 where
  shown : DiffOp → Segment
  hidden : ℕ → Segment

-- `if pending > 0`
abbrev flush : ℕ → List Segment
flush zero = []
flush (suc n) = hidden (suc n) ∷ []

-- The outer loop of UnifiedDiff at the i-th operation, the rest of `all` being in `ops`.
unfoldable pub fold_hunks : ℕ → List DiffOp → ℕ → ℕ → List DiffOp → List Segment
fold_hunks context all i pending [] = []
fold_hunks context all i pending (op ∷ ops) =
    let skipped = fold_hunks context all (suc i) (suc pending) ops in
    let printed = flush pending ++ shown op ∷ fold_hunks context all (suc i) 0 ops in
    if not (is_change op) && not (near_change context all i) then skipped else printed

unfoldable pub hunks : ℕ → List DiffOp → List Segment
hunks context ops = fold_hunks context ops 0 0 ops

abbrev op_text : DiffOp → Text
op_text (keep t) = b' ' ∷ t
op_text (add t) = b'+' ∷ t
op_text (remove t) = b'-' ∷ t

unfoldable pub segment_text : Segment → Text
segment_text (shown op) = op_text op
segment_text (hidden n) = codes "@@ " ++ decimal n ++ codes " unchanged lines @@"

-- The lines of one side.
unfoldable pub lines_of : Text → List Text
lines_of s = split 10 (trim_right_rune 10 s)

-- UnifiedDiff; a `context` of 0 stands for every one that is not positive.
unfoldable pub unified_diff : Text → Text → ℕ → Option Text
unified_diff before after context = if before == after then some [] else do
  ops ← script (lines_of before) (lines_of after)
  some (join (10 ∷ []) (map segment_text (hunks (if context == 0 then 3 else context) ops)))
