-- ===== src/Validate.antt =====
-- internal/server/validate.go: the checks of what a request's body names. `Number` is the type of
-- a percentage, a float64, with the operations that the code uses of it.
pub mod Segments
pub mod Bounds
use goff_studio.Base.{
  ℕ, ℤ, Bool, true, false, not, ◌&&◌, ◌||◌, List, [], ◌∷◌, length, any, ltb, leb, if◌then◌else◌,
  ◌==◌, nat_eq, Text, text_eq, codes, is_empty, is_control, trim_space, has_prefix, has_suffix,
  contains_text, contains_any, byte_len, Result, ok, err, ◌>>=◌, ◌>>◌, refuse_if,
}

abbrev pub max_name_length : ℕ
max_name_length = 128

abbrev pub max_description : ℕ
max_description = 500

abbrev pub max_query_length : ℕ
max_query_length = 4096

abbrev pub max_history : ℕ
max_history = 100

abbrev pub default_history : ℕ
default_history = 20

-- The messages of `invalid`, with the kind of the value or the value that they name.
pub data Invalid : Type 0 where
  control_characters : Text → Invalid
  required : Text → Invalid
  too_long : Text → ℕ → Invalid
  path_separator : Text → Invalid
  leading_dot : Text → Invalid
  not_a : Text → Text → Invalid
  out_of_range : Text → Invalid
  all_zero : Invalid

-- boundedLimit
unfoldable pub bounded_limit : ℤ → ℕ
bounded_limit (ℤ.negsuc n) = default_history
bounded_limit (ℤ.pos n) =
    if n == 0 then default_history else if ltb max_history n then max_history else n

-- hasControlChars
unfoldable pub has_control_chars : Text → Bool
has_control_chars s = any (λ r. r == 0x2028 || r == 0x2029 || is_control r) s

-- validDescription
unfoldable pub valid_description : Text → Result Invalid (Unit {0})
valid_description value = do
  refuse_if (has_control_chars value) (control_characters (codes "description"))
  refuse_if (ltb max_description (length (trim_space value)))
      (too_long (codes "description") max_description)

-- validBucketingKey
unfoldable pub valid_bucketing_key : Text → Result Invalid (Unit {0})
valid_bucketing_key value =
    let trimmed = trim_space value in
    let rest : Result Invalid (Unit {0}) = do
      refuse_if (has_control_chars value || contains_any trimmed (codes " \t"))
          (not_a (codes "attribute name") trimmed)
      refuse_if (ltb max_name_length (byte_len trimmed))
          (too_long (codes "attribute name") max_name_length)
      refuse_if
          (has_prefix trimmed (codes ".")
            || has_suffix trimmed (codes ".")
            || contains_text trimmed (codes ".."))
          (not_a (codes "attribute path") trimmed)
    in if is_empty trimmed then ok tt else rest

-- validName
unfoldable pub valid_name : Text → Text → Result Invalid (Unit {0})
valid_name kind value = do
  refuse_if (has_control_chars value) (control_characters kind)
  refuse_if (is_empty (trim_space value)) (required kind)
  refuse_if (ltb max_name_length (byte_len (trim_space value))) (too_long kind max_name_length)

-- validPathSegment
unfoldable pub valid_path_segment : Text → Text → Result Invalid (Unit {0})
valid_path_segment kind value = do
  valid_name kind value
  let trimmed = trim_space value
  refuse_if (contains_any trimmed (codes "/\\")) (path_separator kind)
  refuse_if (trimmed == codes "." || trimmed == codes ".." || has_prefix trimmed (codes "."))
      (leading_dot kind)
  refuse_if (contains_any trimmed (codes " \t")) (not_a kind trimmed)

-- validEnvironment
unfoldable pub valid_environment : Text → Result Invalid (Unit {0})
valid_environment env = valid_path_segment (codes "environment name") env

-- validRuleName
unfoldable pub valid_rule_name : Text → Result Invalid (Unit {0})
valid_rule_name name = valid_name (codes "rule name") name

-- validQuery
unfoldable pub valid_query : Text → Result Invalid (Unit {0})
valid_query query = do
  refuse_if (ltb max_query_length (byte_len query))
      (too_long (codes "targeting query") max_query_length)
  refuse_if (has_control_chars query) (control_characters (codes "targeting query"))

pub record Numbers (Number : Type 0) : Type 0 where
  pub nought : Number
  pub hundred : Number
  pub less : Number → Number → Bool
  pub equal : Number → Number → Bool
  pub plus : Number → Number → Number

module _ {Number : Type 0} (numbers : Numbers Number) where
  -- The loop of validPercentages and the test of the total behind it.
  unfoldable pub check_percentages : List (Text × Number) → Number → Result Invalid (Unit {0})
  check_percentages [] total = refuse_if (numbers.equal total numbers.nought) all_zero
  check_percentages ((name, pct) ∷ rest) total = do
    valid_name (codes "variation name") name
    refuse_if (numbers.less pct numbers.nought || numbers.less numbers.hundred pct)
        (out_of_range name)
    check_percentages rest (numbers.plus total pct)

  -- validPercentages
  unfoldable pub valid_percentages : List (Text × Number) → Result Invalid (Unit {0})
  valid_percentages [] = ok tt
  valid_percentages (entry ∷ rest) = check_percentages (entry ∷ rest) numbers.nought
