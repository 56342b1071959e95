-- ===== src/Service/Standing.antt =====
-- Where the flags that List and Get show come from: the texts of the files.
use goff_studio.Base.{
  ◌≡◌, refl, sym, ap, subst, ◌∙◌, inl, inr, not, Option, some, List, [], ◌∷◌, All, All-append,
  All-Member, Member, here, there, Bool-cases, Option-cases, Text, text_eq, All-sort_by, ok,
}
use goff_studio.Auth.{Session}
use goff_studio.Goff.{Flag}
use goff_studio.Permissions.{view, allowed_anywhere}
use goff_studio.Validate.{valid_environment}
use goff_studio.Service.{forbidden, Broken, Adapter, Studio, owner, from_adapter}
use goff_studio.Service.Memory.{State, look, remember}
use goff_studio.Service.Checks.{lift_invalid}
use goff_studio.Service.Edits.{may}
use goff_studio.Service.Steps.{ask, give, settle, change, >>=-ok, forbid-ok, settle-ok, ◌>>=◌, ◌>>◌}
use goff_studio.Service.Listing.{
  FlagView, Gathered, ListResult, key_less, view_of, gather_flag, gather_flags, gather_file, gather,
  finish, list, find_view, get,
}
use goff_studio.Service.Promises.{Lawful}
use goff_studio.Service.Rights.{from_adapter-ok, pair-eq}
use goff_studio.Service.Visible.{ok_same, find_view-ok}

-- What the service relies on in the adapter: a flag that is read knows the file it was read from.
abbrev pub KnowsFiles : {Number Value : Type 0} → Adapter Number Value → Type 0
KnowsFiles {Number} {Value} adapter =
    (file text : Text) (flags : List (Flag Number Value)) (broken : List Broken)
    → adapter.parse file text ≡ ok (flags, broken)
    → All (λ f. f.file ≡ file) flags

module _ {Number Value Time World : Type 0} (studio : Studio Number Value Time World) where
  -- The view shows a flag that the text of its file holds, with the file's owner as its team.
  pub record Stands (texts : Text → Option Text) (environment : Text) (v : FlagView Number Value)
      : Type 0 where
    pub source : Flag Number Value
    pub text : Text
    pub flags : List (Flag Number Value)
    pub broken : List Broken
    pub there : texts v.flag.file ≡ some text
    pub parsed : studio.adapter.parse v.flag.file text ≡ ok (flags, broken)
    pub among : Member source flags
    pub shown : v.flag ≡ record source {
      team = owner studio.config v.flag.file source.team;
      environment = environment;
    }

  Stands-view_of :
      (texts : Text → Option Text) (groups : List Text) (environment file version text : Text)
      → (f : Flag Number Value) (flags : List (Flag Number Value)) (broken : List Broken)
      → texts file ≡ some text
      → studio.adapter.parse file text ≡ ok (flags, broken)
      → Member f flags
      → f.file ≡ file
      → Stands texts environment (view_of studio groups environment file version f)
  unfolding view_of
  Stands-view_of texts groups environment file version text f flags broken t p m e = record {
    source = f;
    text = text;
    flags = flags;
    broken = broken;
    there = ap texts e ∙ t;
    parsed = ap (λ x. studio.adapter.parse x text) e ∙ p;
    among = m;
    shown =
        ap (λ x. record f { team = owner studio.config x f.team; environment = environment })
          (sym e);
  }

  module _ (texts : Text → Option Text) (groups : List Text) (environment : Text) where
    Stands-gather_flag :
        (file version : Text) (f : Flag Number Value) (out : Gathered Number Value)
        → Stands texts environment (view_of studio groups environment file version f)
        → All (Stands texts environment) out.flags
        → All
            (Stands texts environment)
            (gather_flag studio groups environment file version f out).flags
    unfolding gather_flag
    Stands-gather_flag file version f out v a =
        elim (Bool-cases (may studio groups environment (owner studio.config file f.team) view)) [
          | inr n ↦ rw (gather_flag, n) a
          | inl m ↦ elim (Option-cases (look out.seen f.key)) [
            | inl e ↦
                rw (gather_flag, m, e)
                  (All-append (Stands texts environment) out.flags
                    (view_of studio groups environment file version f ∷ []) a (v, tt))
            | inr (first, e) ↦ rw (gather_flag, m, e) a
          ]
        ]

    Stands-gather_flags :
        (file version : Text) (fs : List (Flag Number Value)) (out : Gathered Number Value)
        → ((f : Flag Number Value)
            → Member f fs
            → Stands texts environment (view_of studio groups environment file version f))
        → All (Stands texts environment) out.flags
        → All
            (Stands texts environment)
            (gather_flags studio groups environment file version fs out).flags
    unfolding gather_flags
    Stands-gather_flags file version [] out v a = a
    Stands-gather_flags file version (f ∷ fs) out v a =
        Stands-gather_flags file version fs _ (λ g m. v g (there m))
          (Stands-gather_flag file version f out (v f (here refl)) a)

    module _ {content : World → Text → Option Text} (lawful : Lawful studio.backend content)
        (knows : KnowsFiles studio.adapter) where
      Stands-gather :
          (files : List Text) (out end : Gathered Number Value)
          → (s s' : State Number Value Time World) → content s.world ≡ texts
          → All (Stands texts environment) out.flags
          → gather studio groups environment files out s ≡ (ok end, s')
          → All (Stands texts environment) end.flags
      unfolding gather gather_file remember
      Stands-gather [] out end s s' c a h =
          subst (λ x. All (Stands texts environment) x.flags) (ok_same (ap (λ x. x.0) h)) a
      Stands-gather (file ∷ files) out end s s' c a h =
          let (stored, s1, e1, h1) =
            >>=-ok (ask (studio.backend.read_file file))
              (λ stored. do
                parsed ← settle (from_adapter (studio.adapter.parse file stored.content))
                change (remember file stored.version (parsed.0))
                gather studio groups environment files
                    (gather_file studio groups environment stored file parsed out))
              s s' h in
          let ((flags, broken), p, h2) =
            settle-ok s1 (from_adapter (studio.adapter.parse file stored.content)) _ h1 in
          let read =
            pair-eq (studio.backend.read_file file s.world) (ap (λ x. x.0) e1)
              (ap (λ x. x.1.world) e1) in
          let there' =
            ap (λ t. t file) (sym c) ∙ lawful.read-ok file s.world s1.world stored read in
          let same = ap (λ x. content (x.1)) (sym read) ∙ lawful.read-keeps file s.world ∙ c in
          let parsed = from_adapter-ok _ p in
          let all = knows file stored.content flags broken parsed in
          Stands-gather files _ end _ s' same
            (Stands-gather_flags file stored.version flags _
              (λ f m.
                Stands-view_of texts groups environment file stored.version stored.content f flags
                  broken there' parsed m (All-Member (λ x. x.file ≡ file) flags all m))
              a)
            h2

  module _ {content : World → Text → Option Text} (lawful : Lawful studio.backend content)
      (knows : KnowsFiles studio.adapter) where
    list-Stands :
        (session : Session Time) (environment : Text) (listed : ListResult Number Value)
        → (s s' : State Number Value Time World)
        → list studio session environment s ≡ (ok listed, s')
        → All (Stands (content s.world) environment) listed.flags
    unfolding list finish
    list-Stands session environment listed s s' h =
        let groups = session.groups in
        let (_, v, h1) = settle-ok s (lift_invalid (valid_environment environment)) _ h in
        let (r, h2) =
          forbid-ok s (not (allowed_anywhere studio.permissions groups environment view)) forbidden
            _ h1 in
        let start : Gathered Number Value = record { flags = []; broken = []; seen = [] } in
        let (files, s1, e1, h3) =
          >>=-ok (ask (studio.backend.list_files environment))
            (λ files. do
              out ← gather studio groups environment files start
              give (finish studio groups environment out))
            s s' h2 in
        let (out, s2, e2, h4) =
          >>=-ok (gather studio groups environment files start)
            (λ out. give (finish studio groups environment out)) s1 s' h3 in
        let same = ap (λ x. content (x.1.world)) (sym e1) ∙ lawful.list-keeps environment s.world in
        let all =
          Stands-gather (content s.world) groups environment lawful knows files start out s1 s2 same
            tt e2 in
        subst (λ x. All (Stands (content s.world) environment) x.flags) (ok_same (ap (λ x. x.0) h4))
          (All-sort_by key_less (Stands (content s.world) environment) out.flags all)

    -- The flag that Get finds stands in the text of its file.
    pub get-Stands :
        (session : Session Time) (environment key : Text) (v : FlagView Number Value)
        → (s s' : State Number Value Time World) → get studio session environment key s ≡ (ok v, s')
        → Stands (content s.world) environment v
    unfolding get
    get-Stands session environment key v s s' h =
        let (listed, s1, e1, h1) =
          >>=-ok (list studio session environment) (λ l. settle (find_view l.flags key)) s s' h in
        (find_view-ok (Stands (content s.world) environment) listed.flags key v
          (list-Stands session environment listed s s1 e1) (ap (λ x. x.0) h1)).0
