-- ===== src/Storage/FileBackend/Confined.antt =====
-- A path that the file backend resolves stays under the root.
use mathlib.Core.List.{reverse, reverse-append}
use goff_studio.Base.{
  Bool, true, false, not, ◌&&◌, ◌||◌, ◌≡◌, ◌≢◌, refl, sym, ap, ◌∙◌, ◌⊎◌, inl, inr, List, [], ◌∷◌,
  ◌++◌, append-nil, append_assoc, any, filter, if◌then◌else◌, ◌==◌, ==_iff, ==_refl, Text, text_eq,
  nat_eq, list_beq, codes, is_empty, split, split_from, join, has_prefix, ok, err, arith,
  Bool-cases,
}
use goff_studio.Storage.{outside}
use goff_studio.Storage.FileBackend.{slash, dots, trim_slash, clean_parts, join_root, resolve}

abbrev is_name : Text → Bool
is_name p = not (is_empty p || p == codes ".")

abbrev climbs : Text → Bool
climbs p = p == dots

-- The parts of a path that name something.
unfoldable pub names : Text → List Text
names path = filter is_name (split slash path)

clean_parts-filter :
    (kept ps : List Text)
    → any climbs ps ≡ false
    → reverse (clean_parts kept ps) ≡ reverse kept ++ filter is_name ps
unfolding clean_parts filter
clean_parts-filter kept [] h = sym (append-nil _)
clean_parts-filter kept (p ∷ ps) h = elim (Bool-cases (is_empty p || p == codes ".")) [
  | inl e ↦ rw e (clean_parts-filter kept ps (ground arith))
  | inr n ↦
      let f : climbs p ≡ false = ground arith in
      rw (n, f)
        (clean_parts-filter (p ∷ kept) ps (ground arith)
          ∙ ap (λ l. l ++ filter is_name ps) (reverse-append (p ∷ []) kept)
          ∙ append_assoc (reverse kept) (p ∷ []) (filter is_name ps))
]

-- The path with a slash in front has the same parts, or one more that is empty.
parts_of_rooted :
    (path : Text)
    → (split slash (codes "/" ++ trim_slash path) ≡ split slash path)
      ⊎ (split slash (codes "/" ++ trim_slash path) ≡ [] ∷ split slash path)
unfolding split split_from
parts_of_rooted [] = inr refl
parts_of_rooted (c ∷ s) = elim (Bool-cases (c == slash)) [
  | inl e ↦ inl (ground arith)
  | inr n ↦ inr (ground arith)
]

has_prefix-append : (a b : Text) → has_prefix (a ++ b) a ≡ true
unfolding has_prefix
has_prefix-append [] [] = refl
has_prefix-append [] (c ∷ b) = refl
has_prefix-append (c ∷ a) b = ground (arith, ==_refl c, has_prefix-append a b)

join_root_guard :
    (root : Text) (parts : List Text)
    → root ≢ codes "/"
    → (not (join_root root parts == root)
        && not (has_prefix (join_root root parts) (root ++ codes "/")))
      ≡ false
unfolding join_root
join_root_guard root [] h = rw (==_refl root)
join_root_guard root (p ∷ ps) h = ground (
  arith,
  ==_iff root (codes "/"),
  has_prefix-append (root ++ codes "/") (join (codes "/") (p ∷ ps)),
)

climbs-rooted :
    (path : Text)
    → any climbs (split slash path) ≡ false
    → any climbs (split slash (codes "/" ++ trim_slash path)) ≡ false
unfolding list_beq
climbs-rooted path h = elim (parts_of_rooted path) [ inl e ↦ rw e h | inr e ↦ rw e h ]

names-rooted :
    (path : Text) → filter is_name (split slash (codes "/" ++ trim_slash path)) ≡ names path
unfolding names filter
names-rooted path = elim (parts_of_rooted path) [ inl e ↦ rw e | inr e ↦ rw e ]

-- Where the root is not "/", a path with a part ".." is refused, and every other path resolves to
-- the root followed by the parts of the path that name something.
pub resolve_lem :
    (root path : Text)
    → root ≢ codes "/"
    → resolve root path ≡ (
        if any (λ part. part == dots) (split slash path)
        then err (outside path)
        else ok (join_root root (names path)))
unfolding resolve
resolve_lem root path h = elim (Bool-cases (any climbs (split slash path))) [
  | inl e ↦ rw e
  | inr e ↦ rw (
    e,
    clean_parts-filter [] _ (climbs-rooted path e),
    names-rooted path,
    join_root_guard root (names path) h,
  )
]
