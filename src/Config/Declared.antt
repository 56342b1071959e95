-- ===== src/Config/Declared.antt =====
-- The teams that a configuration may declare.
use goff_studio.Base.{
  ℕ, ◌≡◌, ◌≢◌, refl, subst, arith, Bool, true, false, not, ◌&&◌, List, [], ◌∷◌, All, contains, ◌==◌,
  ==_iff, nat_eq, Text, text_eq, trim_space, ok, refuse_if, >>=-eq-ok, >>-eq-ok, refuse_if-eq-ok,
}
use goff_studio.Config.{Team, Config, no_team_file}
use goff_studio.Config.Startup.{
  unusable_name, reserved_name, repeated, is_alphanumeric, is_name_rune, all_name_runes,
  is_environment_name, check_editors, check_teams, validate_teams,
}

-- A name that a team may have.
pub record Usable (name : Text) : Type 0 where
  pub is_name : is_environment_name name ≡ true
  pub not_reserved : name ≢ no_team_file

-- The teams have usable names, none of which was seen before or comes twice.
abbrev pub WellNamed : List Text → List Team → Type 0
WellNamed seen [] = Unit
WellNamed seen (t ∷ ts) =
    Usable t.name × (contains seen t.name ≡ false) × WellNamed (t.name ∷ seen) ts

to_≢ : (a b : Text) → (a == b) ≡ false → a ≢ b
to_≢ a b h e = absurd (ground (arith, ==_iff a b, h, e))

not-false : (b : Bool) → not b ≡ false → b ≡ true
not-false true h = refl
not-false false h = cc

check_teams-WellNamed :
    (seen : List Text) (before after : List Team)
    → check_teams seen before ≡ ok after
    → WellNamed seen after
unfolding check_teams
check_teams-WellNamed seen [] after h = let e : [] ≡ after = cc h in subst (WellNamed seen) e tt
check_teams-WellNamed seen (t ∷ ts) after h =
    let name = trim_space t.name in
    let (a, h1) =
      >>-eq-ok (refuse_if (not (is_environment_name name)) (unusable_name t.name)) _ h in
    let (b, h2) = >>-eq-ok (refuse_if (name == no_team_file) (reserved_name name)) _ h1 in
    let (c, h3) = >>-eq-ok (refuse_if (contains seen name) (repeated name)) _ h2 in
    let (d, h4) = >>-eq-ok (check_editors name t.editors) _ h3 in
    let (rest, e, h5) = >>=-eq-ok (check_teams (name ∷ seen) ts) _ h4 in
    let q : record t { name = name } ∷ rest ≡ after = cc h5 in
    subst (WellNamed seen) q (
      record {
        is_name = not-false _ (refuse_if-eq-ok _ (unusable_name t.name) a);
        not_reserved = to_≢ name no_team_file (refuse_if-eq-ok _ (reserved_name name) b);
      },
      refuse_if-eq-ok _ (repeated name) c,
      check_teams-WellNamed (name ∷ seen) ts rest e,
    )

-- The teams of a configuration that was accepted have names of the characters that are allowed,
-- none of which is the reserved one or comes twice.
pub validate_teams-WellNamed : (c c' : Config) → validate_teams c ≡ ok c' → WellNamed [] c'.teams
unfolding validate_teams
validate_teams-WellNamed c c' h =
    let (teams, e, k) = >>=-eq-ok (check_teams [] c.teams) _ h in
    let q : record c { teams = teams } ≡ c' = cc k in
    subst (λ x. WellNamed [] x.teams) q (check_teams-WellNamed [] c.teams teams e)

-- A usable name has no slash.
no_slash : (s : Text) → all_name_runes s ≡ true → All (λ r. r ≢ b'/') s
unfolding all_name_runes is_name_rune is_alphanumeric
no_slash [] h = tt
no_slash (r ∷ s) h = (λ e. slash_is_none r e (ground arith), no_slash s (ground arith))
  where
    slash_is_none : (r : ℕ) → r ≡ b'/' → is_name_rune r ≢ true
    slash_is_none r e h = absurd (ground arith)

pub Usable-no_slash : (name : Text) → Usable name → All (λ r. r ≢ b'/') name
unfolding is_environment_name all_name_runes is_name_rune
Usable-no_slash [] u = tt
Usable-no_slash (r ∷ s) u = no_slash (r ∷ s) (head_too r s u.is_name)
  where
    head_too :
        (r : ℕ) (s : Text)
        → (is_alphanumeric r && all_name_runes s) ≡ true
        → all_name_runes (r ∷ s) ≡ true
    head_too r s h = ground arith
