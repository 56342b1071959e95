-- ===== src/Service/Owned.antt =====
-- The file of a team belongs to that team.
use mathlib.Core.List.{reverse, reverse_aux, reverse-append, reverse-reverse}
use goff_studio.Base.{
  ◌+◌, ◌≡◌, ◌≢◌, refl, sym, ap, subst, ◌∙◌, inl, inr, arith, true, false, List, [], ◌∷◌, ◌++◌,
  append-nil, append_assoc, length, length-append, drop, any, Any, here, there, All, All-append,
  if◌then◌else◌, ◌==◌, ==_iff, ==_refl, nat_eq, Bool-cases, Text, text_eq, codes, has_prefix,
  has_suffix, trim_suffix, ok,
}
use goff_studio.Config.{Config, Team, single_file, no_team_file}
use goff_studio.Config.Startup.{is_environment_name, validate_teams}
use goff_studio.Service.Memory.Maps.{not_same}
use goff_studio.Config.Declared.{Usable, Usable-no_slash, WellNamed, validate_teams-WellNamed}
use goff_studio.Service.{
  base_from, suffixes, trim_first, team_name_of, team_file, owner, team_file_for,
}

base_from-free : (current t : Text) → All (λ r. r ≢ b'/') t → base_from current t ≡ current ++ t
unfolding base_from
base_from-free current [] a = sym (append-nil current)
base_from-free current (c ∷ t) (n, a) = elim (Bool-cases (c == b'/')) [
  | inl e ↦ absurd (n ((==_iff c b'/').0 e))
  | inr e ↦ rw e (base_from-free (current ++ c ∷ []) t a ∙ append_assoc current (c ∷ []) t)
]

base_from-slash :
    (current s t : Text) → All (λ r. r ≢ b'/') t → base_from current (s ++ b'/' ∷ t) ≡ t
unfolding base_from
base_from-slash current [] t a = base_from-free [] t a
base_from-slash current (c ∷ s) t a = elim (Bool-cases (c == b'/')) [
  | inl e ↦ rw e (base_from-slash [] s t a)
  | inr e ↦ rw e (base_from-slash (current ++ c ∷ []) s t a)
]

has_prefix-append : (p s : Text) → has_prefix (p ++ s) p ≡ true
unfolding has_prefix
has_prefix-append [] [] = refl
has_prefix-append [] (c ∷ s) = refl
has_prefix-append (c ∷ p) s = rw (==_refl c) (has_prefix-append p s)

drop-append : (p s : Text) → drop (length p) (p ++ s) ≡ s
drop-append [] s = refl
drop-append (c ∷ p) s = drop-append p s

length-reverse_aux : (s t : Text) → length (reverse_aux s t) ≡ length s + length t
length-reverse_aux [] t = omega arith
length-reverse_aux (c ∷ s) t = omega (arith, length-reverse_aux s (c ∷ t))

length-reverse : (s : Text) → length (reverse s) ≡ length s
length-reverse s = omega (arith, length-reverse_aux s [])

-- Trimming a suffix that was appended.
pub trim_suffix-append : (s p : Text) → trim_suffix (s ++ p) p ≡ s
unfolding trim_suffix has_suffix
trim_suffix-append s p =
    ap (λ r. if has_prefix r (reverse p) then reverse (drop (length p) r) else s ++ p)
      (reverse-append s p)
    ∙ rw (has_prefix-append (reverse p) (reverse s)) (
        ap (λ n. reverse (drop n (reverse p ++ reverse s))) (sym (length-reverse p))
        ∙ ap reverse (drop-append (reverse p) (reverse s))
        ∙ reverse-reverse s)

longer : (s p : Text) → p ≢ [] → (s == (s ++ p)) ≡ false
longer s p n = elim (Bool-cases (s == (s ++ p))) [
  | inl t ↦
      absurd
        (n (nothing_more p (omega (arith, length-append s p, ap length ((==_iff s (s ++ p)).0 t)))))
  | inr f ↦ f
]
  where
    nothing_more : (p : Text) → length p ≡ 0 → p ≡ []
    nothing_more [] h = refl
    nothing_more (c ∷ p) h = absurd (omega (arith, h))

declared-Usable :
    (seen : List Text) (ts : List Team) {team : Text}
    → WellNamed seen ts
    → Any (λ t. t.name ≡ team) ts
    → Usable team
declared-Usable seen [] w m = elim m [ ]
declared-Usable seen (t ∷ ts) (u, c, w) (here e) = subst Usable e u
declared-Usable seen (t ∷ ts) (u, c, w) (there m) = declared-Usable (t.name ∷ seen) ts w m

free-of_test : (s : Text) → any (λ r. r == b'/') s ≡ false → All (λ r. r ≢ b'/') s
free-of_test [] h = tt
free-of_test (r ∷ s) h =
    (λ e. absurd (ground (arith, ==_iff r b'/', e, h)), free-of_test s (ground arith))

trim_first-first :
    (suffix base trimmed : Text) (rest : List Text)
    → trim_suffix base suffix ≡ trimmed
    → (trimmed == base) ≡ false
    → trim_first (suffix ∷ rest) base ≡ trimmed
unfolding trim_first
trim_first-first suffix base trimmed rest t n = rw (ap (λ x. x == base) t ∙ n) t

team_name_of-team_file :
    (environment team : Text)
    → All (λ r. r ≢ b'/') team
    → team_name_of (team_file environment team) ≡ team
unfolding team_name_of team_file suffixes
team_name_of-team_file environment team a =
    let suffix = codes ".goff.yaml" in
    let base = team ++ suffix in
    let free = All-append (λ r. r ≢ b'/') team suffix a (free-of_test suffix refl) in
    ap (λ x. trim_first suffixes (base_from [] x))
      (append_assoc (environment ++ codes "/") team suffix
        ∙ append_assoc environment (codes "/") base)
    ∙ ap (trim_first suffixes) (base_from-slash [] environment base free)
    ∙ trim_first-first suffix base team _ (trim_suffix-append team suffix)
        (longer team suffix (λ e. cc e))

owner-named :
    (config : Config) (file metadata_team team : Text)
    → single_file config ≡ false
    → team ≢ no_team_file
    → team_name_of file ≡ team
    → owner config file metadata_team ≡ team
unfolding owner
owner-named config file metadata_team team l n e =
    rw (l, ap (λ x. x == no_team_file) e ∙ not_same team no_team_file n) e

file-of_Usable :
    (config : Config) (environment team : Text)
    → single_file config ≡ false
    → Usable team
    → team_file_for config environment team ≡ team_file environment team
unfolding team_file_for is_environment_name
file-of_Usable config environment [] l u = absurd (cc u.is_name)
file-of_Usable config environment (c ∷ team) l u = rw l refl

-- In the team-files layout, the file that teamFileFor gives for a team that the configuration
-- declares, after its checks, belongs to that team, whatever its flags' metadata says.
pub owner-team_file_for :
    (start config : Config)
    → validate_teams start ≡ ok config
    → single_file config ≡ false
    → (environment metadata_team team : Text) → Any (λ t. t.name ≡ team) config.teams
    → owner config (team_file_for config environment team) metadata_team ≡ team
unfolding owner team_file_for
owner-team_file_for start config v l environment metadata_team team m =
    let u = declared-Usable [] config.teams (validate_teams-WellNamed start config v) m in
    let name = team_name_of-team_file environment team (Usable-no_slash team u) in
    ap (λ file. owner config file metadata_team) (file-of_Usable config environment team l u)
    ∙ owner-named config (team_file environment team) metadata_team team l u.not_reserved name
