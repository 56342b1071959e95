-- ===== src/Examples/ValidateExamples.antt =====
-- internal/server/validate.go on values that a request may hold.
use goff_studio.Base.{
  ℕ, ℤ, ◌≤◌, ◌≡◌, refl, List, [], ◌∷◌, ◌++◌, Text, codes, ltb, nat_beq, ◌+◌, list_beq, trim_space,
  trim_left, is_space, is_control, has_prefix, has_suffix, contains_text, contains_any, byte_len,
  rune_len, ok, err,
}
use goff_studio.Validate.{
  Invalid, max_history, bounded_limit, valid_path_segment, valid_name, has_control_chars,
  valid_bucketing_key, valid_percentages, check_percentages, Numbers,
}
use goff_studio.Validate.Segments.{valid_path_segment-resolve}
use goff_studio.Validate.Bounds.{bounded_limit_lem}
use goff_studio.Storage.FileBackend.{resolve}

segment_run : valid_path_segment (codes "environment name") (codes " staging ") ≡ ok tt
unfolding valid_path_segment valid_name has_control_chars is_control trim_space trim_left is_space
    has_prefix contains_any byte_len rune_len list_beq
segment_run = refl

climbing_run :
    valid_path_segment (codes "environment name") (codes "..")
    ≡ err (Invalid.leading_dot (codes "environment name"))
unfolding valid_path_segment valid_name has_control_chars is_control trim_space trim_left is_space
    has_prefix contains_any byte_len rune_len list_beq
climbing_run = refl

tab_run :
    valid_bucketing_key (codes "user\tkey")
    ≡ err (Invalid.not_a (codes "attribute name") (codes "user\tkey"))
unfolding valid_bucketing_key has_control_chars is_control trim_space trim_left is_space
tab_run = refl

dotted_run : valid_bucketing_key (codes "company.id") ≡ ok tt
unfolding valid_bucketing_key has_control_chars is_control trim_space trim_left is_space has_prefix
    has_suffix contains_text contains_any byte_len rune_len list_beq
dotted_run = refl

valid_path_segment-resolve_example :
    resolve (codes "/flags") (trim_space (codes " staging "))
    ≡ ok (codes "/flags" ++ codes "/" ++ trim_space (codes " staging "))
valid_path_segment-resolve_example =
    valid_path_segment-resolve (codes "environment name") (codes " staging ") (codes "/flags")
      (λ e. cc e) segment_run

bounded_limit_lem_example :
    (1 ≤ bounded_limit (ℤ.pos 1000))
    × (bounded_limit (ℤ.pos 1000) ≤ max_history)
    × ((n : ℕ) → ℤ.pos 1000 ≡ ℤ.pos n → 1 ≤ n → n ≤ max_history → bounded_limit (ℤ.pos 1000) ≡ n)
bounded_limit_lem_example = bounded_limit_lem (ℤ.pos 1000)

-- Percentages without a part behind the point.
abbrev whole : Numbers ℕ
whole = record {
  nought = 0;
  hundred = 100;
  less = λ a b. ltb a b;
  equal = λ a b. nat_beq a b;
  plus = λ a b. a + b;
}

abbrev halves : List (Text × ℕ)
halves = (codes "on", 50) ∷ (codes "off", 50) ∷ []

halves_run : valid_percentages whole halves ≡ ok tt
unfolding valid_percentages check_percentages valid_name has_control_chars is_control trim_space
    trim_left is_space byte_len rune_len
halves_run = refl
