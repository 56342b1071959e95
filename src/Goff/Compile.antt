-- ===== src/Goff/Compile.antt =====
-- internal/goff/condition.go and build.go: a condition printed as a query of the rule language, and
-- unquote of parse.go. `is_float` stands for strconv.ParseFloat accepting a text.
pub mod Complete
pub mod Quoting
use mathlib.Core.List.{reverse}
use goff_studio.Base.{
  ℕ, Bool, true, false, not, ◌&&◌, ◌||◌, Option, none, some, List, [], ◌∷◌, ◌++◌, map,
  if◌then◌else◌, ◌==◌, nat_eq, Text, text_eq, codes, is_empty, trim_space, to_lower, split, join,
}
use goff_studio.Goff.{Condition, condition, Conditions, none_left, child, nil_child}

pub record Operator : Type 0 where
  pub key : Text
  pub label : Text
  pub arity : ℕ

abbrev operator : Text → Text → ℕ → Operator
operator key label arity = record { key = key; label = label; arity = arity }

abbrev pub operators : List Operator
operators =
    operator (codes "eq") (codes "equals") 1
    ∷ operator (codes "ne") (codes "does not equal") 1
    ∷ operator (codes "co") (codes "contains") 1
    ∷ operator (codes "sw") (codes "starts with") 1
    ∷ operator (codes "ew") (codes "ends with") 1
    ∷ operator (codes "in") (codes "is one of") 2
    ∷ operator (codes "notin") (codes "is not one of") 2
    ∷ operator (codes "gt") (codes "is greater than") 1
    ∷ operator (codes "ge") (codes "is greater than or equal to") 1
    ∷ operator (codes "lt") (codes "is less than") 1
    ∷ operator (codes "le") (codes "is less than or equal to") 1
    ∷ operator (codes "pr") (codes "is present") 0
    ∷ []

unfoldable pub operator_of : List Operator → Text → Option Operator
operator_of [] key = none
operator_of (op ∷ ops) key =
    let later = operator_of ops key in if op.key == key then some op else later

-- LookupOperator
unfoldable pub lookup_operator : Text → Option Operator
lookup_operator key = operator_of operators (to_lower key)

-- IsGroup, of a condition that is not nil, by its Op.
unfoldable pub is_group : Text → Bool
is_group op = op == codes "and" || op == codes "or"

-- isNumericOperator
unfoldable pub is_numeric_operator : Text → Bool
is_numeric_operator op =
    op == codes "gt" || op == codes "ge" || op == codes "lt" || op == codes "le"

-- The replacer of formatValue, and the quotes around its result.
unfoldable pub escape : Text → Text
escape [] = []
escape (c ∷ s) =
    let rest = escape s in
    if c == b'\\' then b'\\' ∷ b'\\' ∷ rest else if c == b'"' then b'\\' ∷ b'"' ∷ rest else c ∷ rest

unfoldable pub quote : Text → Text
quote v = b'"' ∷ (escape v ++ codes "\"")

-- The replacer of unquote: of a backslash and a quote or a backslash the second is kept.
unfoldable pub unescape : Text → Text
unescape [] = []
unescape (c ∷ []) = c ∷ []
unescape (c ∷ d ∷ s) =
    let after_pair = unescape s in
    let after_one = unescape (d ∷ s) in
    if c == b'\\' && (d == b'"' || d == b'\\' || d == b'\'') then d ∷ after_pair else c ∷ after_one

-- unquote, of a trimmed text that begins with `c`; the rest of it is given from its end.
unfoldable pub unquote_from : ℕ → Text → Text
unquote_from c [] = c ∷ []
unquote_from c (last ∷ before) =
    if (c == b'"' || c == b'\'') && last == c
    then unescape (reverse before)
    else c ∷ reverse (last ∷ before)

unfoldable pub unquote_trimmed : Text → Text
unquote_trimmed [] = []
unquote_trimmed (c ∷ s) = unquote_from c (reverse s)

-- unquote
unfoldable pub unquote : Text → Text
unquote raw = unquote_trimmed (trim_space raw)

-- splitList, of the fields between the commas.
unfoldable pub split_fields : List Text → List Text
split_fields [] = []
split_fields (f ∷ fs) =
    let rest = split_fields fs in if is_empty (trim_space f) then rest else trim_space f ∷ rest

-- splitList
unfoldable pub split_list : Text → List Text
split_list raw = split_fields (split b',' raw)

-- The end of the case of a group, for the parts that its children gave.
unfoldable pub group_text : Text → Bool → Bool → List Text → Option Text
group_text op negated top [] = none
group_text op negated top (part ∷ []) =
    some (if negated then codes "(not " ++ part ++ codes ")" else part)
group_text op negated top (p ∷ q ∷ parts) =
    let joined = join (codes " " ++ op ++ codes " ") (p ∷ q ∷ parts) in
    some (
      if negated
      then codes "(not (" ++ joined ++ codes "))"
      else if top
      then joined
      else codes "(" ++ joined ++ codes ")")

module _ (is_float : Text → Bool) where
  -- formatValue
  unfoldable pub format_value : Text → Text → Text
  format_value raw op =
      let v = trim_space raw in
      if to_lower v == codes "true" || to_lower v == codes "false"
      then to_lower v
      else if is_numeric_operator op && is_float v
      then v
      else quote v

  -- formatList
  unfoldable pub format_list : Text → Text
  format_list raw =
      codes "["
      ++ join (codes ", ") (map (λ f. format_value f (codes "eq")) (split_list raw))
      ++ codes "]"

  -- The switch at the end of compile, for an operator that is known.
  unfoldable pub list_text : Text → Operator → Text → List Text → Text
  list_text attr op value (item ∷ []) =
      let one = λ (key : Text).
        codes "(" ++ attr ++ codes " " ++ key ++ codes " " ++ format_value item key ++ codes ")" in
      if op.key == codes "notin" then one (codes "ne") else one (codes "eq")
  list_text attr op value items =
      if op.key == codes "notin"
      then codes "(not (" ++ attr ++ codes " in " ++ format_list value ++ codes "))"
      else codes "(" ++ attr ++ codes " " ++ op.key ++ codes " " ++ format_list value ++ codes ")"

  unfoldable pub operator_text : Text → Operator → Text → Text
  operator_text attr op value =
      if op.arity == 0
      then codes "(" ++ attr ++ codes " " ++ op.key ++ codes ")"
      else if op.arity == 2
      then list_text attr op value (split_list value)
      else codes "("
        ++ attr
        ++ codes " "
        ++ op.key
        ++ codes " "
        ++ format_value value op.key
        ++ codes ")"

  unfoldable pub leaf_text : Text → Text → Text → Option Text
  leaf_text attribute operator value =
      let attr = trim_space attribute in
      if is_empty attr then none else elim (lookup_operator operator) [
        | none ↦ none
        | some op ↦ some (operator_text attr op value)
      ]

unfoldable mutual
  -- compile
  pub compile : (Text → Bool) → Condition → Bool → Option Text
  compile is_float (condition op negated children attribute operator value) top =
      if is_group op
      then group_text op negated top (compile_all is_float children)
      else leaf_text is_float attribute operator value

  pub compile_all : (Text → Bool) → Conditions → List Text
  compile_all is_float none_left = []
  compile_all is_float (nil_child cs) = compile_all is_float cs
  compile_all is_float (child c cs) = elim (compile is_float c false) [
    | none ↦ compile_all is_float cs
    | some part ↦ part ∷ compile_all is_float cs
  ]

-- CompileCondition
unfoldable pub compile_condition : (Text → Bool) → Option Condition → Text
compile_condition is_float none = []
compile_condition is_float (some c) = elim (compile is_float c true) [
  | none ↦ []
  | some text ↦ text
]
