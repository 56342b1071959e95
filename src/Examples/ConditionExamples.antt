-- ===== src/Examples/ConditionExamples.antt =====
-- internal/goff/condition.go on small conditions.
use goff_studio.Base.{
  Bool, true, false, ◌≡◌, ◌≢◌, ◌↔◌, refl, none, some, [], Text, codes, list_beq, to_lower,
  to_lower_rune, trim_space, trim_left, is_space, split, split_from, join,
}
use goff_studio.Goff.{Condition, condition, none_left, child, nil_child}
use goff_studio.Goff.Compile.{
  compile, compile_all, compile_condition, is_group, group_text, leaf_text, operator_text,
  list_text, lookup_operator, operator_of, format_list, format_value, split_list, split_fields,
  is_numeric_operator, quote, escape, unescape, unquote, unquote_from, unquote_trimmed,
}
use goff_studio.Goff.Compile.Complete.{Complete, compile_iff}
use goff_studio.Goff.Compile.Quoting.{unquote-quote}

abbrev leaf : Text → Text → Text → Condition
leaf attribute operator value = condition [] false none_left attribute operator value

abbrev beta : Condition
beta = leaf (codes "beta") (codes "eq") (codes "TRUE")

abbrev plans : Condition
plans = leaf (codes "plan") (codes "notin") (codes "free, trial")

abbrev both : Condition
both =
    condition (codes "and") false
      (child beta (nil_child (child (leaf [] [] []) (child plans none_left)))) [] [] []

-- No text is a float.
abbrev no_float : Text → Bool
no_float s = false

-- The child without an attribute is left out, and so is the nil one.
both_run :
    compile_condition no_float (some both)
    ≡ codes "(beta eq true) and (not (plan in [\"free\", \"trial\"]))"
unfolding compile_condition compile compile_all is_group group_text leaf_text operator_text
    list_text lookup_operator operator_of format_list format_value split_list split_fields
    is_numeric_operator quote escape list_beq to_lower to_lower_rune trim_space trim_left is_space
    split split_from join
both_run = refl

quoted_run : unquote (quote (codes "say \"hi\" \\")) ≡ codes "say \"hi\" \\"
unfolding unquote unquote_trimmed unquote_from unescape quote escape trim_space trim_left is_space
quoted_run = refl

compile_iff_example : (compile no_float both true ≢ none) ↔ Complete both
compile_iff_example = compile_iff no_float both true

unquote-quote_example : unquote (quote (codes "say \"hi\" \\")) ≡ codes "say \"hi\" \\"
unquote-quote_example = unquote-quote (codes "say \"hi\" \\")
