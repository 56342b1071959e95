-- ===== src/Summary.antt =====
-- internal/server/summary.go: the sentence that describes a flag. `Number` is the type of a
-- percentage, a float64; `fixed` is strconv.FormatFloat(f, 'f', 2, 64).
use mathlib.Core.List.{reverse}
use goff_studio.Base.{
  ℕ, zero, suc, ◌-◌, Bool, not, ◌&&◌, Option, none, some, List, [], ◌∷◌, ◌++◌, map, length, take,
  leb, ltb, if◌then◌else◌, ◌==◌, nat_eq, Text, text_eq, codes, is_empty, trim_space, trim_suffix,
  trim_right_rune, contains_text, split, join, decimal, rune_len, text_less, sort_by,
}
use goff_studio.Goff.{
  Condition, condition, Conditions, none_left, child, nil_child, Outcome, Rule, Flag,
}
use goff_studio.Goff.Compile.{is_group, lookup_operator, Operator}

abbrev replacement : ℕ
replacement = 0xFFFD

unfoldable pub upper : ℕ → ℕ
upper c = if leb b'a' c && leb c b'z' then c - 32 else c

unfoldable pub repeat : ℕ → ℕ → Text
repeat zero c = []
repeat (suc n) c = c ∷ repeat n c

-- capitalize. It takes the first byte: of a longer rune that byte becomes U+FFFD, and each byte
-- behind it, no text by itself, is shown as U+FFFD too.
unfoldable pub capitalize : Text → Text
capitalize [] = []
capitalize (c ∷ s) = if ltb c 0x80 then upper c ∷ s else repeat (rune_len c) replacement ++ s

-- The end of quoteForHumans, for the trimmed items from the last to the first.
unfoldable pub last_or : Text → List Text → Text
last_or v [] = v
last_or v (item ∷ []) = v
last_or v (last ∷ other ∷ before) =
    join (codes ", ") (reverse (other ∷ before)) ++ codes " or " ++ last

-- quoteForHumans
unfoldable pub quote_for_humans : Text → Text
quote_for_humans v =
    if contains_text v (codes ",") then last_or v (reverse (map trim_space (split b',' v))) else v

-- The end of the case of a group in describeCondition.
unfoldable pub group_words : Text → List Text → Text
group_words op [] = []
group_words op (part ∷ []) = part
group_words op (p ∷ q ∷ parts) =
    let joiner = if op == codes "or" then codes " or " else codes " and " in
    let all = p ∷ q ∷ parts in
    if ltb 3 (length all)
    then join joiner (take 3 all)
      ++ codes " or "
      ++ decimal (length all - 3)
      ++ codes " more conditions"
    else join joiner all

-- The leaves of describeCondition.
unfoldable pub operator_words : Text → Text → Option Operator → Text
operator_words attribute value none = []
operator_words attribute value (some op) =
    if op.arity == 0
    then attribute ++ codes " " ++ op.label
    else attribute ++ codes " " ++ op.label ++ codes " " ++ quote_for_humans value

unfoldable mutual
  -- describeCondition
  pub describe_condition : Condition → Text
  describe_condition (condition op negated children attribute operator value) =
      if is_group op
      then group_words op (describe_all children)
      else operator_words attribute value (lookup_operator operator)

  pub describe_all : Conditions → List Text
  describe_all none_left = []
  describe_all (nil_child cs) = describe_all cs
  describe_all (child c cs) =
      if is_empty (describe_condition c)
      then describe_all cs
      else describe_condition c ∷ describe_all cs

module _ (Number : Type 0) where
  pub record Printer : Type 0 where
    pub fixed : Number → Text
    pub greater : Number → Number → Bool
    pub same : Number → Number → Bool

module _ {Number : Type 0} (printer : Printer Number) where
  -- trimFloat
  unfoldable pub trim_float : Number → Text
  trim_float f = trim_suffix (trim_right_rune b'0' (printer.fixed f)) (codes ".")

  -- The order of describeOutcome: the larger share first, equal ones by name.
  unfoldable pub before_share : Text × Number → Text × Number → Bool
  before_share (name, pct) (name', pct') =
      if not (printer.same pct pct') then printer.greater pct pct' else text_less name name'

  -- describeOutcome
  unfoldable pub describe_outcome : Outcome Number → Text
  describe_outcome o =
      if not (is_empty o.percentage)
      then join (codes " / ") (
          map (λ entry. trim_float (entry.1) ++ codes "% " ++ entry.0)
            (sort_by before_share o.percentage))
      else if is_empty o.variation
      then codes "no variation"
      else o.variation

  unfoldable pub users_where : Option Condition → Text
  users_where none = codes "users"
  users_where (some c) =
      if not (is_empty (describe_condition c))
      then codes "users where " ++ describe_condition c
      else codes "users"

  -- describeRule
  unfoldable pub describe_rule : Rule Number → Text
  describe_rule r =
      let who =
        if r.advanced then codes "users matching a custom rule" else users_where r.condition in
      who ++ codes " get " ++ describe_outcome r.outcome

  -- The loop of Summarize.
  unfoldable pub rule_parts : List (Rule Number) → List Text
  rule_parts [] = []
  rule_parts (r ∷ rs) =
      let rest = rule_parts rs in if r.disabled then rest else describe_rule r ∷ rest

-- The end of Summarize, for the parts that the rules gave.
unfoldable pub sentence : Text → List Text → Text
sentence default [] = capitalize (default ++ codes " for everyone")
sentence default (part ∷ parts) =
    capitalize
      (join (codes "; ") (part ∷ parts) ++ codes "; " ++ (codes "everyone else gets " ++ default))

module _ {Number Value : Type 0} (printer : Printer Number) where
  -- Summarize
  unfoldable pub summarize : Flag Number Value → Text
  summarize f =
      if not f.enabled
      then codes "Off for everyone"
      else sentence (describe_outcome printer f.default) (rule_parts printer f.rules)
