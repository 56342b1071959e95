-- ===== src/Goff/Compile/Quoting.antt =====
-- Quoting a value in a query and reading it back.
use mathlib.Core.List.{reverse, reverse-append, reverse-reverse}
use goff_studio.Base.{
  ℕ, false, ◌≡◌, refl, sym, ap, ◌∙◌, inl, inr, [], ◌∷◌, ◌++◌, ◌==◌, ==_iff, nat_eq, Text, codes,
  is_space, trim_left, trim_space, Bool-cases,
}
use goff_studio.Goff.Compile.{escape, quote, unescape, unquote_from, unquote_trimmed, unquote}

unescape-plain : (c : ℕ) (s : Text) → (c == b'\\') ≡ false → unescape (c ∷ s) ≡ c ∷ unescape s
unfolding unescape
unescape-plain c [] h = refl
unescape-plain c (d ∷ s) h = rw h refl

unescape-escape : (v : Text) → unescape (escape v) ≡ v
unfolding escape unescape
unescape-escape [] = refl
unescape-escape (c ∷ v) = elim (Bool-cases (c == b'\\')) [
  | inl e ↦ rw e (ap (◌∷◌ b'\\') (unescape-escape v) ∙ ap (λ x. x ∷ v) (sym ((==_iff c b'\\').0 e)))
  | inr n ↦ elim (Bool-cases (c == b'"')) [
    | inl e ↦
        rw (n, e) (ap (◌∷◌ b'"') (unescape-escape v) ∙ ap (λ x. x ∷ v) (sym ((==_iff c b'"').0 e)))
    | inr m ↦ rw (n, m) (unescape-plain c (escape v) n ∙ ap (◌∷◌ c) (unescape-escape v))
  ]
]

trim_space-quoted : (s : Text) → trim_space (b'"' ∷ (s ++ codes "\"")) ≡ b'"' ∷ (s ++ codes "\"")
unfolding trim_space trim_left is_space
trim_space-quoted s =
    let turned = reverse-append (b'"' ∷ s) (codes "\"") in
    ap (λ l. reverse (trim_left l)) turned
    ∙ ap reverse (sym turned)
    ∙ reverse-reverse (b'"' ∷ (s ++ codes "\""))

-- A value that formatValue has put in quotes is read back by unquote as it was, whatever runes it
-- holds.
pub unquote-quote : (v : Text) → unquote (quote v) ≡ v
unfolding unquote unquote_trimmed unquote_from quote
unquote-quote v =
    ap unquote_trimmed (trim_space-quoted (escape v))
    ∙ ap (unquote_from b'"') (reverse-append (escape v) (codes "\""))
    ∙ ap unescape (reverse-reverse (escape v))
    ∙ unescape-escape v
