-- ===== src/Validate/Segments.antt =====
-- The names that may stand in a path.
use mathlib.Core.Path.{subst}
use goff_studio.Base.{
  join, ℕ, ◌≤◌, ◌<◌, Bool, true, false, ◌||◌, ◌≡◌, ◌≢◌, ◌↔◌, ◌⊎◌, inl, inr, refl, sym, ap, ◌∙◌, [],
  ◌∷◌, ◌++◌, append-nil, append_assoc, list_beq, any, filter, ltb, ==_iff, nat_eq, Text, text_eq,
  codes, is_empty, is_empty_iff, is_control, trim_space, has_prefix, contains_any, byte_len, split,
  split_from, ok, >>-eq-ok, refuse_if, refuse_if->>-iff, Any, here, there, any→Any, Any→any, ◌==◌,
  arith, Bool-cases, Member,
}
use goff_studio.Validate.{
  Invalid, max_name_length, has_control_chars, valid_name, valid_path_segment,
}
use goff_studio.Storage.FileBackend.{dots, slash, resolve, join_root}
use goff_studio.Storage.FileBackend.Confined.{names, resolve_lem}

-- A rune that ends a line or controls a terminal.
abbrev pub Breaks : ℕ → Type 0
Breaks r = (r ≡ 0x2028) ⊎ (r ≡ 0x2029) ⊎ (r < 32) ⊎ ((0x7F ≤ r) × (r < 0xA0))

-- Some rune of the text is one of these.
abbrev pub HasOneOf : Text → Text → Type 0
HasOneOf s chars = Any (λ c. Any (λ d. c ≡ d) chars) s

Breaks-iff : (r : ℕ) → ((r == 0x2028 || r == 0x2029 || is_control r) ≡ true) ↔ Breaks r
unfolding is_control
Breaks-iff r = ground arith

has_control_chars_iff : (s : Text) → (has_control_chars s ≡ true) ↔ Any Breaks s
unfolding has_control_chars
has_control_chars_iff s = (any→Any (λ r. (Breaks-iff r).0) s, Any→any (λ r. (Breaks-iff r).1))

contains_any_iff : (s chars : Text) → (contains_any s chars ≡ true) ↔ HasOneOf s chars
unfolding contains_any
contains_any_iff s chars = (
  any→Any (λ c. any→Any (λ d. (==_iff c d).0) chars) s,
  Any→any (λ c. Any→any (λ d. (==_iff c d).1)),
)

-- A test that decides `P` is false exactly where `P` fails.
false_iff : {P : Type 0} (b : Bool) → (b ≡ true) ↔ P → (b ≡ false) ↔ (P → ⊥)
false_iff true (f, g) = (λ h. cc h, λ n. absurd (n (f refl)))
false_iff false (f, g) = (λ h p. cc (g p), λ _. refl)

not_longer : (m n : ℕ) → (ltb m n ≡ false) ↔ (n ≤ m)
not_longer m n = ground arith

-- A name: no line breaks or control characters, and, less the space around it, not empty and of at
-- most 128 bytes.
pub record IsName (value : Text) : Type 0 where
  pub one_line : Any Breaks value → ⊥
  pub some_text : trim_space value ≢ []
  pub short : byte_len (trim_space value) ≤ max_name_length

is_empty-false : (s : Text) → (is_empty s ≡ false) ↔ (s ≢ [])
is_empty-false s = false_iff (is_empty s) (is_empty_iff s)

pub refuse_if-ok : (bad : Bool) (e : Invalid) → (refuse_if bad e ≡ ok tt) ↔ (bad ≡ false)
refuse_if-ok true e = (λ h. cc h, λ h. cc h)
refuse_if-ok false e = (λ _. refl, λ _. refl)

pub valid_name_iff : (kind value : Text) → (valid_name kind value ≡ ok tt) ↔ IsName value
unfolding valid_name
valid_name_iff kind value =
    let c = false_iff _ (has_control_chars_iff value) in
    (
      λ h.
          let (a, h1) = (refuse_if->>-iff _ _ _).0 h in
          let (b, h2) = (refuse_if->>-iff _ _ _).0 h1 in
          record {
            one_line = c.0 a;
            some_text = (is_empty-false _).0 b;
            short = (not_longer _ _).0 ((refuse_if-ok _ _).0 h2);
          },
      λ v. (refuse_if->>-iff _ _ _).1 (
        c.1 v.one_line,
        (refuse_if->>-iff _ _ _).1
            ((is_empty-false _).1 v.some_text, (refuse_if-ok _ _).1 ((not_longer _ _).1 v.short)),
      ),
    )

abbrev pub Dotted : Text → Type 0
Dotted s = (rest : Text) × (s ≡ b'.' ∷ rest)

first_rune : Text → ℕ
first_rune [] = 0
first_rune (c ∷ s) = c

Dotted-iff :
    (s : Text) → ((s == codes "." || s == codes ".." || has_prefix s (codes ".")) ≡ true) ↔ Dotted s
unfolding has_prefix list_beq first_rune
Dotted-iff [] = (λ h. absurd (cc h), λ (rest, e). cc e)
Dotted-iff (c ∷ s) = (
  λ h. elim (Bool-cases (c == b'.')) [
    | inl e ↦ (s, ap (λ d. d ∷ s) ((==_iff c b'.').0 e))
    | inr n ↦ absurd (ground arith)
  ],
  λ (rest, e). let first : c ≡ b'.' = ap first_rune e in ground arith,
)

-- A name that is one part of a path: less the space around it, it holds no slash, backslash, blank
-- or tab and does not begin with a dot.
pub record IsSegment (value : Text) : Type 0 where
  pub name : IsName value
  pub one_part : ¬ HasOneOf (trim_space value) (codes "/\\")
  pub undotted : ¬ Dotted (trim_space value)
  pub one_word : ¬ HasOneOf (trim_space value) (codes " \t")

-- validPathSegment accepts exactly the names that may be one part of a path.
valid_path_segment_iff :
    (kind value : Text) → (valid_path_segment kind value ≡ ok tt) ↔ IsSegment value
unfolding valid_path_segment
valid_path_segment_iff kind value =
    let part = false_iff _ (contains_any_iff (trim_space value) (codes "/\\")) in
    let dot = false_iff _ (Dotted-iff (trim_space value)) in
    let word = false_iff _ (contains_any_iff (trim_space value) (codes " \t")) in
    (
      λ h.
          let (n, h1) = >>-eq-ok (valid_name kind value) _ h in
          let (a, h2) = (refuse_if->>-iff _ _ _).0 h1 in
          let (b, h3) = (refuse_if->>-iff _ _ _).0 h2 in
          record {
            name = (valid_name_iff kind value).0 n;
            one_part = part.0 a;
            undotted = dot.0 b;
            one_word = word.0 ((refuse_if-ok _ _).0 h3);
          },
      λ v. rw ((valid_name_iff kind value).1 v.name) (
          (refuse_if->>-iff _ _ _).1 (
            part.1 v.one_part,
            (refuse_if->>-iff _ _ _).1 (dot.1 v.undotted, (refuse_if-ok _ _).1 (word.1 v.one_word)),
          )),
    )

-- The text without a separator is its one part.
split_from-one :
    (sep : ℕ) (current s : Text) → ¬ Member sep s → split_from sep current s ≡ (current ++ s) ∷ []
unfolding split_from
split_from-one sep current [] n = ap (λ x. x ∷ []) (sym (append-nil current))
split_from-one sep current (c ∷ s) n = elim (Bool-cases (c == sep)) [
  | inl e ↦ absurd (n (here ((==_iff c sep).0 e)))
  | inr e ↦ rw e (
      split_from-one sep (current ++ c ∷ []) s (λ m. n (there m))
      ∙ ap (λ x. x ∷ []) (append_assoc current (c ∷ []) s))
]

HasOneOf-slash : (s : Text) → Member slash s → HasOneOf s (codes "/\\")
HasOneOf-slash s (here e) = here (here e)
HasOneOf-slash s (there m) = there (HasOneOf-slash _ m)

undotted-== : (s w : Text) → ¬ Dotted s → Dotted w → (s == w) ≡ false
undotted-== s w d dw = elim (Bool-cases (s == w)) [
  | inl e ↦ absurd (d (subst Dotted (sym ((==_iff s w).0 e)) dw))
  | inr e ↦ e
]

-- What `resolve` is made of, for a text of one part.
names-one : (s : Text) → split slash s ≡ s ∷ [] → s ≢ [] → ¬ Dotted s → names s ≡ s ∷ []
unfolding names filter
names-one s one n d = rw (one, (is_empty-false s).1 n, undotted-== s (codes ".") d ([], refl)) refl

climbs-one :
    (s : Text)
    → split slash s ≡ s ∷ []
    → ¬ Dotted s
    → any (λ part. part == dots) (split slash s) ≡ false
climbs-one s one d = rw (one, undotted-== s dots d (codes ".", refl)) refl

root-join : (root s : Text) → root ≢ codes "/" → join_root root (s ∷ []) ≡ root ++ codes "/" ++ s
unfolding join_root join
root-join root s r = elim (Bool-cases (root == codes "/")) [
  | inl e ↦ absurd (r ((==_iff root (codes "/")).0 e))
  | inr e ↦ rw e refl
]

-- A value that validPathSegment accepts names, once trimmed, an entry of the root directory: the
-- file backend resolves it, the root being another one than "/", to the root, a slash and the value.
pub valid_path_segment-resolve :
    (kind value root : Text)
    → root ≢ codes "/"
    → valid_path_segment kind value ≡ ok tt
    → resolve root (trim_space value) ≡ ok (root ++ codes "/" ++ trim_space value)
unfolding split
valid_path_segment-resolve kind value root r h =
    let v = (valid_path_segment_iff kind value).0 h in
    let s = trim_space value in
    let one : split slash s ≡ s ∷ [] =
      split_from-one slash [] s (λ m. v.one_part (HasOneOf-slash s m)) in
    let parts = names-one s one v.name.some_text v.undotted in
    resolve_lem root s r ∙ rw (climbs-one s one v.undotted, parts, root-join root s r) refl
