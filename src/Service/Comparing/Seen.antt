-- ===== src/Service/Comparing/Seen.antt =====
-- internal/server/compare.go: what a side of a comparison that has a flag shows of it.
use goff_studio.Base.{
  subst, ◌≡◌, refl, sym, ap, ◌∙◌, ◌⊎◌, inl, inr, not, Option, none, List, ◌==◌, any, Text, text_eq,
  Result, ok, err,
}
use goff_studio.Auth.{Session}
use goff_studio.Goff.{Flag}
use goff_studio.Service.{
  Failure, forbidden, not_found, invalid, same_environments, no_fields, not_promotable, stale_view,
  duplicate_key, stored, adapter_failed, Studio,
}
use goff_studio.Service.Memory.{State}
use goff_studio.Service.Steps.{Step, settle, attempt, forbid, >>=-ok, forbid-ok, ◌>>=◌, ◌>>◌}
use goff_studio.Service.Listing.{FlagView, get}
use goff_studio.Service.Environments.{environments}
use goff_studio.Service.Comparing.{
  CompareSide, present_side, side_of, compare_side, promote_blockers,
}
use goff_studio.Service.Rights.{pair-eq}
use goff_studio.Service.Acting.{get-Shown}
use goff_studio.Permissions.{view}
use goff_studio.Service.Granted.{Granted, may-Granted}
use goff_studio.Service.Keeps.Sides.{environments-Keeps}
use goff_studio.Service.Standing.{KnowsFiles, Stands, get-Stands}
use goff_studio.Service.Promises.{Lawful}

attempt-eq :
    {S A : Type 0} (m : Step S A) (s : S) (r : Result Failure A) (s' : S)
    → attempt m s ≡ (ok r, s')
    → m s ≡ (r, s')
attempt-eq {A = A} m s r s' h = pair-eq (m s) (ok-injective (ap (λ x. x.0) h)) (ap (λ x. x.1) h)
  where
    ok-injective :
        {x y : Result Failure A} → ◌≡◌ {A = Result Failure (Result Failure A)} (ok x) (ok y) → x ≡ y
    ok-injective e = cc e

module _ {Number Value Time World : Type 0} (studio : Studio Number Value Time World) where
  -- A side with a flag is that of a view that a rule lets the caller see, of a flag that stands in
  -- the text of its file.
  abbrev pub Seen :
      (Text → Option Text)
      → List Text
      → Text
      → Text
      → CompareSide Number Value
      → FlagView Number Value
      → Type 0
  Seen texts groups environment key side v =
      Granted studio groups environment v.flag.team view
      × (v.flag.key ≡ key)
      × Stands studio texts environment v
      × (side ≡ present_side environment v)

  side_of-cases :
      (texts : Text → Option Text) (groups : List Text) (environment key : Text)
      → (found : Result Failure (FlagView Number Value))
      → ((v : FlagView Number Value)
          → found ≡ ok v
          → Granted studio groups environment v.flag.team view
            × (v.flag.key ≡ key)
            × Stands studio texts environment v)
      → (side : CompareSide Number Value) → side_of environment found ≡ ok side
      → (side.flag ≡ none)
        ⊎ ((v : FlagView Number Value) × Seen texts groups environment key side v)
  unfolding side_of goff_studio.Service.Comparing.absent_side
  side_of-cases texts groups environment key (ok v) shown side h =
      let (m, k, t) = shown v refl in inr (v, (m, k, t, cc h))
  side_of-cases texts groups environment key (err not_found) shown side h = inl (ap flag_in (sym h))
    where
      flag_in : Result Failure (CompareSide Number Value) → Option (Flag Number Value)
      flag_in (ok x) = x.flag
      flag_in (err failure) = none
  side_of-cases texts groups environment key (err forbidden) shown side h = cc h
  side_of-cases texts groups environment key (err stale_view) shown side h = cc h
  side_of-cases texts groups environment key (err (invalid c)) shown side h = cc h
  side_of-cases texts groups environment key (err (duplicate_key k f)) shown side h = cc h
  side_of-cases texts groups environment key (err (stored e)) shown side h = cc h
  side_of-cases texts groups environment key (err (adapter_failed m)) shown side h = cc h

  module _ {content : World → Text → Option Text} (lawful : Lawful studio.backend content)
      (knows : KnowsFiles studio.adapter) where
    pub compare_side-cases :
        (session : Session Time) (now : Time) (key environment : Text)
        → (side : CompareSide Number Value) (texts : Text → Option Text)
        → (s s' : State Number Value Time World) → content s.world ≡ texts
        → compare_side studio session now key environment s ≡ (ok side, s')
        → (side.flag ≡ none)
          ⊎ ((v : FlagView Number Value) × Seen texts session.groups environment key side v)
    unfolding compare_side
    compare_side-cases session now key environment side texts s s' c h =
        let (known, s1, e1, h1) =
          >>=-ok (environments studio session now)
            (λ known. do
              forbid (not (any (λ e. e.name == environment) known)) forbidden
              found ← attempt (get studio session environment key)
              settle (side_of environment found))
            s s' h in
        let (n, h2) = forbid-ok s1 (not (any (λ e. e.name == environment) known)) forbidden _ h1 in
        let (found, s2, e2, h3) =
          >>=-ok (attempt (get studio session environment key))
            (λ found. settle (side_of environment found)) s1 s' h2 in
        let same =
          ap (λ x. content (x.1.world)) (sym e1)
          ∙ environments-Keeps studio lawful session now s
          ∙ c in
        side_of-cases texts session.groups environment key found
          (λ v e.
            let got =
              attempt-eq (get studio session environment key) s1 found s2 e2
              ∙ ap (λ r. (r, s2)) e in
            let (m, k) = get-Shown studio session environment key v s1 s2 got in
            (
              may-Granted studio session.groups environment v.flag.team view m,
              k,
              subst (λ t. Stands studio t environment v) same
                  (get-Stands studio lawful knows session environment key v s1 s2 got),
            ))
          side (ap (λ x. x.0) h3)
