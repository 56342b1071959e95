-- ===== src/Service/Acting.antt =====
-- Who may delete or rename a flag, and what of it then stands in its file.
use goff_studio.Base.{
  ◌≡◌, ◌≢◌, refl, false, sym, ap, ◌∙◌, arith, not, Option, none, some, List, [], ◌∷◌, All, ◌==◌,
  ==_iff, Text, text_eq, trim_space, ok,
}
use goff_studio.Auth.{Session}
use goff_studio.Goff.{Flag}
use goff_studio.Permissions.{Action, view, create, delete, edit_variations}
use goff_studio.Service.{forbidden, stale_view, invalid, key_unchanged, Change, Studio}
use goff_studio.Service.Memory.{State}
use goff_studio.Service.Checks.{valid_key}
use goff_studio.Service.Edits.{VariationsRequest}
use goff_studio.Service.Steps.{settle, give, >>=-ok, forbid-ok, settle-ok, ◌>>=◌}
use goff_studio.Service.Listing.{FlagView, list, find_view, get}
use goff_studio.Service.Writes.{SaveResult, saved, write, stale}
use goff_studio.Service.Removals.{
  completed, may_on, delete_change, delete_viewed, delete_flag, rename_change, check_unused,
  rename_viewed, rename, variations_change, save_viewed, save_variations,
}
use goff_studio.Service.Texts.{
  Deleted, Renamed, Revised, apply_delete-Deleted, apply_rename-Renamed,
}
use goff_studio.Service.References.Dangling.{build_variations-Closed}
use goff_studio.Service.Promises.{Lawful}
use goff_studio.Service.Granted.{Granted, may-Granted}
use goff_studio.Service.Keeps.{get-Keeps, check_unused-Keeps}
use goff_studio.Service.Standing.{KnowsFiles, Stands, get-Stands}
use goff_studio.Service.Rights.{written-Replaced}
use goff_studio.Service.Requests.{not-false}
use goff_studio.Service.Visible.{MayView, list-Shows, find_view-ok}

module _ {Number Value Time World : Type 0} (studio : Studio Number Value Time World) where
  pub get-Shown :
      (session : Session Time) (environment key : Text) (v : FlagView Number Value)
      → (s s' : State Number Value Time World) → get studio session environment key s ≡ (ok v, s')
      → MayView studio session.groups environment v × (v.flag.key ≡ key)
  unfolding get
  get-Shown session environment key v s s' h =
      let (listed, s1, e1, h1) =
        >>=-ok (list studio session environment) (λ l. settle (find_view l.flags key)) s s' h in
      let shows = list-Shows studio session environment listed s s1 e1 in
      find_view-ok (MayView studio session.groups environment) listed.flags key v shows.may_view
        (ap (λ x. x.0) h1)

  -- The file of a flag of this key has been changed: of one that the file has at the beginning, which
  -- the caller may view, and on the team of which a rule gives the caller these rights. The team is
  -- the owner of the file; `Made` says what the text has become.
  pub record Acted (content : World → Text → Option Text) (groups : List Text)
      (environment key : Text) (rights : List Action)
      (Made : FlagView Number Value → Text → Text → Type 0) (w w' : World) : Type 0 where
    pub viewed : FlagView Number Value
    pub stands : Stands studio (content w) environment viewed
    pub named : viewed.flag.key ≡ key
    pub shown : Granted studio groups environment viewed.flag.team view
    pub held : All (Granted studio groups environment viewed.flag.team) rights
    pub before : Text
    pub after : Text
    pub was : content w viewed.flag.file ≡ some before
    pub made : Made viewed before after
    pub now : content w' viewed.flag.file ≡ some after

  may_on-Granted :
      (session : Session Time) (environment : Text) (v : FlagView Number Value) (action : Action)
      → not (may_on studio session environment v action) ≡ false
      → Granted studio session.groups environment v.flag.team action
  unfolding may_on
  may_on-Granted session environment v action h =
      may-Granted studio session.groups environment v.flag.team action (not-false _ h)

  module _ {content : World → Text → Option Text} (lawful : Lawful studio.backend content)
      (knows : KnowsFiles studio.adapter) where
    acted :
        (session : Session Time) (environment key : Text) (v : FlagView Number Value)
        → (op : FlagView Number Value → Change) (rights : List Action)
        → (Made : FlagView Number Value → Text → Text → Type 0)
        → ((before after : Text) → (op v).apply before ≡ ok after → Made v before after)
        → (op v).path ≡ v.flag.file
        → (s s1 s2 s' : State Number Value Time World) (result : SaveResult)
        → get studio session environment key s ≡ (ok v, s1)
        → All (Granted studio session.groups environment v.flag.team) rights
        → content s2.world ≡ content s1.world
        → (write studio session (op v) >>= λ w. give (saved studio w)) s2 ≡ (ok result, s')
        → Acted content session.groups environment key rights Made s.world s'.world
    acted session environment key v op rights Made made path s s1 s2 s' result e held c h =
        let (m, n) = get-Shown session environment key v s s1 e in
        let (before, after, was, a, is_now) =
          written-Replaced studio lawful session (op v) s.world s2 s' result
            (c
              ∙ ap (λ x. content (x.1.world)) (sym e)
              ∙ get-Keeps studio lawful session environment key s)
            h in
        record {
          viewed = v;
          stands = get-Stands studio lawful knows session environment key v s s1 e;
          named = n;
          shown = may-Granted studio session.groups environment v.flag.team view m;
          held = held;
          before = before;
          after = after;
          was = ap (content s.world) (sym path) ∙ was;
          made = made before after a;
          now = ap (content s'.world) (sym path) ∙ is_now;
        }

    -- Where Delete succeeds over a backend that keeps its promises, it was on a flag of the key
    -- that its file has and the caller may view, a rule gives the caller the right to delete flags
    -- of the team that owns the file, and the file now has what the adapter makes of its text by
    -- removing the key, which the adapter can read.
    pub delete_flag-Acted :
        (session : Session Time) (environment key sha : Text) (loaded : Option (Flag Number Value))
        → (s s' : State Number Value Time World) (result : SaveResult)
        → delete_flag studio session environment key sha loaded s ≡ (ok result, s')
        → Acted content session.groups environment key
            (delete ∷ [])
            (Deleted studio key)
            s.world
            s'.world
    unfolding delete_flag delete_viewed delete_change
    delete_flag-Acted session environment key sha loaded s s' result h =
        let (v, s1, e, h1) =
          >>=-ok (get studio session environment key)
            (delete_viewed studio session environment key sha loaded) s s' h in
        let (d, h2) =
          forbid-ok s1 (not (may_on studio session environment v delete)) forbidden _ h1 in
        let (f, h3) = forbid-ok s1 (stale studio loaded v.flag.file sha s1) stale_view _ h2 in
        acted session environment key v (delete_change studio environment key sha loaded)
          (delete ∷ []) (Deleted studio key)
          (λ before after a. apply_delete-Deleted studio key before after a) refl s s1 s1 s' result
          e (may_on-Granted session environment v delete d, tt) refl h3

    -- Where Rename succeeds over a backend that keeps its promises, the new key is a valid one
    -- other than the old, it was on a flag of the old key that its file has and the caller may
    -- view, rules give the caller the rights to create and to delete flags of the team that owns
    -- the file, and the file now has its text with the key renamed and the flag of the new key
    -- stamped, which the adapter can read.
    pub rename-Acted :
        (session : Session Time) (now : Time) (environment key raw sha : Text)
        → (s s' : State Number Value Time World) (result : SaveResult)
        → rename studio session now environment key raw sha s ≡ (ok result, s')
        → (valid_key (trim_space raw) ≡ ok tt)
          × (trim_space raw ≢ key)
          × Acted content session.groups environment key
              (create ∷ delete ∷ [])
              (Renamed studio now key (trim_space raw))
              s.world
              s'.world
    unfolding rename rename_viewed rename_change
    rename-Acted session now environment key raw sha s s' result h =
        let new_key = trim_space raw in
        let (v, s1, e, h1) =
          >>=-ok (get studio session environment key)
            (rename_viewed studio session now environment key new_key sha) s s' h in
        let (_, k, h2) = settle-ok s1 (valid_key new_key) _ h1 in
        let (u, h3) = forbid-ok s1 (new_key == key) (invalid key_unchanged) _ h2 in
        let (c, h4) =
          forbid-ok s1 (not (may_on studio session environment v create)) forbidden _ h3 in
        let (d, h5) =
          forbid-ok s1 (not (may_on studio session environment v delete)) forbidden _ h4 in
        let (f, h6) = forbid-ok s1 (stale studio none v.flag.file sha s1) stale_view _ h5 in
        let op = rename_change studio now environment key new_key sha in
        let (_, s2, e2, h7) =
          >>=-ok (check_unused studio environment new_key)
            (λ _. write studio session (op v) >>= λ w. give (saved studio w)) s1 s' h6 in
        (
          k,
          λ q. absurd (ground (arith, ==_iff new_key key, u, q)),
          acted session environment key v op (create ∷ delete ∷ []) (Renamed studio now key new_key)
              (λ before after a. apply_rename-Renamed studio now key new_key v before after a) refl
              s s1 s2 s' result e
              (
                may_on-Granted session environment v create c,
                (may_on-Granted session environment v delete d, tt),
              )
              (ap (λ x. content (x.1.world)) (sym e2)
                ∙ check_unused-Keeps studio lawful environment new_key s1)
              h7,
        )

    -- Where SaveVariations succeeds over a backend that keeps its promises, it was on a flag of
    -- the key that its file has and the caller may view, a rule gives the caller the right to edit
    -- variations of the team that owns the file, and the file now has its text with the flag's new
    -- variations, stamped, in which no outcome of a rule and no default names a variation that the
    -- flag lacks.
    pub save_variations-Acted :
        (session : Session Time) (now : Time) (req : VariationsRequest Number Value)
        → (s s' : State Number Value Time World) (result : SaveResult)
        → save_variations studio session now req s ≡ (ok result, s')
        → Acted content session.groups req.environment req.key
            (edit_variations ∷ [])
            (Revised studio now req)
            s.world
            s'.world
    unfolding save_variations save_viewed variations_change completed
    save_variations-Acted session now req s s' result h =
        let (v, s1, e, h1) =
          >>=-ok (get studio session req.environment req.key) (save_viewed studio session now req) s
            s' h in
        let (d, h2) =
          forbid-ok s1 (not (may_on studio session req.environment v edit_variations)) forbidden _
            h1 in
        let (f, h3) =
          forbid-ok s1 (stale studio req.loaded_flag v.flag.file req.file_sha s1) stale_view _ h2 in
        acted session req.environment req.key v (variations_change studio now req)
          (edit_variations ∷ []) (Revised studio now req)
          (λ before after a.
            build_variations-Closed studio now (completed studio req v) before after a)
          refl s s1 s1 s' result e (may_on-Granted session req.environment v edit_variations d, tt)
          refl h3
