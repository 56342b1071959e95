-- ===== src/Examples/DiffExamples.antt =====
-- internal/server/diff.go on two short files.
use goff_studio.Base.{
  ◌≤◌, ◌≡◌, ◌↔◌, refl, some, List, [], ◌∷◌, Text, codes, length, get_elem?, list_beq, split,
  trim_right_rune, join,
}
use goff_studio.Diff.{
  DiffOp, keep, add, remove, script, longest_common, fill_rows, next_row, fill_row, zeros, entry_at,
  backtrack, hunks, fold_hunks, near_change, segment_text, lines_of, unified_diff,
}
use goff_studio.Diff.Longest.{Sub}
use goff_studio.Diff.Script.{old_lines, new_lines, kept_lines, script_lem}
use goff_studio.Diff.Hunks.{replay, Near, hunks-Near}

abbrev old_file : List Text
old_file = codes "a" ∷ codes "b" ∷ codes "c" ∷ []

abbrev new_file : List Text
new_file = codes "a" ∷ codes "c" ∷ codes "d" ∷ []

abbrev edits : List DiffOp
edits = keep (codes "a") ∷ remove (codes "b") ∷ keep (codes "c") ∷ add (codes "d") ∷ []

script_run : script old_file new_file ≡ some edits
unfolding script longest_common fill_rows next_row fill_row zeros entry_at backtrack list_beq
script_run = refl

unified_diff_run :
    unified_diff (codes "a\nb\nc\n") (codes "a\nc\nd\n") 0 ≡ some (codes " a\n-b\n c\n+d")
unfolding unified_diff lines_of hunks fold_hunks near_change segment_text script longest_common
    fill_rows next_row fill_row zeros entry_at backtrack split trim_right_rune join list_beq
unified_diff_run = refl

script_example :
    (ops : List DiffOp) × (script old_file new_file ≡ some ops)
    × (old_lines ops ≡ old_file)
    × (new_lines ops ≡ new_file)
    × ((c : List Text) → Sub c old_file → Sub c new_file → length c ≤ length (kept_lines ops))
script_example = script_lem old_file new_file

hunks-Near_example :
    (get_elem? (replay (hunks 1 edits)) 0 ≡ some (some (keep (codes "a")))) ↔ Near 1 edits 0
hunks-Near_example = hunks-Near 1 edits 0 (keep (codes "a")) refl
