-- ===== src/Service/Visible.antt =====
-- Which flags List shows.
use goff_studio.Base.{
  ◌≡◌, ◌≢◌, ◌==◌, ==_iff, sym, ap, subst, ◌∙◌, inl, inr, arith, true, not, none, List, [], ◌∷◌,
  ◌++◌, All, All-imp, All-append, Bool-cases, Option-cases, Text, text_eq, sort_by, insert,
  text_order, Orders, Sorted, All-sort_by, All-insert, Sorted-sort_by, Result, ok,
}
use goff_studio.Auth.{Session}
use goff_studio.Goff.{Flag}
use goff_studio.Permissions.{view, allowed_anywhere}
use goff_studio.Validate.{valid_environment}
use goff_studio.Service.{Failure, forbidden, Studio, owner, from_adapter}
use goff_studio.Service.Memory.{State, look, put, remember}
use goff_studio.Service.Memory.Maps.{look-put, look-put_other}
use goff_studio.Service.Checks.{lift_invalid}
use goff_studio.Service.Edits.{may}
use goff_studio.Service.Steps.{ask, give, settle, change, >>=-ok, forbid-ok, settle-ok, ◌>>=◌, ◌>>◌}
use goff_studio.Service.Listing.{
  FlagView, Gathered, ListResult, key_less, view_of, gather_flag, gather_flags, gather_file, gather,
  finish, list, find_view,
}

module _ {Number Value : Type 0} where
  abbrev pub KeyDiffers : Text → List (FlagView Number Value) → Type 0
  KeyDiffers key = All (λ v. v.flag.key ≢ key)

  -- No two flags of the list have the same key.
  abbrev pub Distinct : List (FlagView Number Value) → Type 0
  Distinct [] = Unit
  Distinct (v ∷ vs) = KeyDiffers v.flag.key vs × Distinct vs

  Distinct-snoc :
      (vs : List (FlagView Number Value)) (v : FlagView Number Value)
      → Distinct vs
      → KeyDiffers v.flag.key vs
      → Distinct (vs ++ v ∷ [])
  Distinct-snoc [] v d k = (tt, tt)
  Distinct-snoc (w ∷ vs) v (n, d) (e, k) = (
    All-append (λ x. x.flag.key ≢ w.flag.key) vs (v ∷ []) n (λ q. e (sym q), tt),
    Distinct-snoc vs v d k,
  )

  Distinct-insert :
      (v : FlagView Number Value) (vs : List (FlagView Number Value))
      → KeyDiffers v.flag.key vs
      → Distinct vs
      → Distinct (insert key_less v vs)
  unfolding insert
  Distinct-insert v [] k d = (tt, tt)
  Distinct-insert v (w ∷ vs) (e, k) (n, d) = elim (Bool-cases (key_less v w)) [
    | inl t ↦ rw t ((e, k), (n, d))
    | inr f ↦ rw f (
      All-insert key_less (λ x. x.flag.key ≢ w.flag.key) v vs (λ q. e (sym q)) n,
      Distinct-insert v vs k d,
    )
  ]

  Distinct-sort_by :
      (vs : List (FlagView Number Value)) → Distinct vs → Distinct (sort_by key_less vs)
  unfolding sort_by
  Distinct-sort_by [] d = d
  Distinct-sort_by (v ∷ vs) (k, d) =
      Distinct-insert v (sort_by key_less vs)
        (All-sort_by key_less (λ x. x.flag.key ≢ v.flag.key) vs k) (Distinct-sort_by vs d)

  key_order : Orders (key_less {Number = Number} {Value = Value})
  unfolding key_less
  key_order = record {
    asym = λ a b. text_order.asym a.flag.key b.flag.key;
    trans = λ a b c. text_order.trans a.flag.key b.flag.key c.flag.key;
  }

pub ok_same {ℓ} : {A : Type ℓ} {a b : A} → ◌≡◌ {A = Result Failure A} (ok a) (ok b) → a ≡ b
ok_same h = cc h

module _ {Number Value : Type 0} where
  pub find_view-ok :
      (P : FlagView Number Value → Type 0) (vs : List (FlagView Number Value)) (key : Text)
      → (v : FlagView Number Value) → All P vs
      → find_view vs key ≡ ok v
      → P v × (v.flag.key ≡ key)
  unfolding find_view
  find_view-ok P [] key v a h = cc
  find_view-ok P (w ∷ vs) key v (p, a) h = elim (Bool-cases (w.flag.key == key)) [
    | inl t ↦
        let e : w ≡ v = cc (rw t at h) in
        (subst P e p, ap (λ x. x.flag.key) (sym e) ∙ (==_iff w.flag.key key).0 t)
    | inr f ↦ find_view-ok P vs key v a (rw f at h)
  ]

module _ {Number Value Time World : Type 0} (studio : Studio Number Value Time World) where
  -- The caller may view the flag's team.
  abbrev pub MayView : List Text → Text → FlagView Number Value → Type 0
  MayView groups environment v = may studio groups environment v.flag.team view ≡ true

  abbrev IsSeen : List (Text × Text) → FlagView Number Value → Type 0
  IsSeen seen v = look seen v.flag.key ≢ none

  -- What holds of all that List has gathered so far.
  record Good (groups : List Text) (environment : Text) (out : Gathered Number Value) : Type 0 where
    may_view : All (MayView groups environment) out.flags
    is_seen : All (IsSeen out.seen) out.flags
    distinct : Distinct out.flags

  fresh-KeyDiffers :
      (key : Text) (seen : List (Text × Text)) (vs : List (FlagView Number Value))
      → look seen key ≡ none
      → All (IsSeen seen) vs
      → KeyDiffers key vs
  fresh-KeyDiffers key seen vs n = All-imp (λ v s e. s (ap (look seen) e ∙ n)) vs

  IsSeen-put :
      (key file : Text) (seen : List (Text × Text)) (v : FlagView Number Value)
      → v.flag.key ≢ key
      → IsSeen seen v
      → IsSeen (put key file seen) v
  IsSeen-put key file seen v n s e =
      s (sym (look-put_other key v.flag.key file seen (λ q. n (sym q))) ∙ e)

  Good-snoc :
      (groups : List Text) (environment file : Text) (out : Gathered Number Value)
      → (v : FlagView Number Value) → Good groups environment out
      → MayView groups environment v
      → look out.seen v.flag.key ≡ none
      → Good groups environment (record {
        flags = out.flags ++ v ∷ [];
        broken = out.broken;
        seen = put v.flag.key file out.seen;
      })
  Good-snoc groups environment file out v g m n =
      let k = fresh-KeyDiffers v.flag.key out.seen out.flags n g.is_seen in
      record {
        may_view = All-append (MayView groups environment) out.flags (v ∷ []) g.may_view (m, tt);
        is_seen =
            All-append (IsSeen (put v.flag.key file out.seen)) out.flags (v ∷ [])
              (seen-all out.flags k g.is_seen)
              (λ e. cc (sym (look-put v.flag.key file out.seen) ∙ e), tt);
        distinct = Distinct-snoc out.flags v g.distinct k;
      }
    where
      seen-all :
          (vs : List (FlagView Number Value))
          → KeyDiffers v.flag.key vs
          → All (IsSeen out.seen) vs
          → All (IsSeen (put v.flag.key file out.seen)) vs
      seen-all [] k s = tt
      seen-all (w ∷ vs) (n, k) (s, ss) =
          (IsSeen-put v.flag.key file out.seen w n s, seen-all vs k ss)

  Good-gather_flag :
      (groups : List Text) (environment file version : Text) (f : Flag Number Value)
      → (out : Gathered Number Value) → Good groups environment out
      → Good groups environment (gather_flag studio groups environment file version f out)
  unfolding gather_flag view_of
  Good-gather_flag groups environment file version f out g =
      elim (Bool-cases (may studio groups environment (owner studio.config file f.team) view)) [
        | inr n ↦ rw n g
        | inl m ↦ elim (Option-cases (look out.seen f.key)) [
          | inl e ↦
              rw (m, e)
                (Good-snoc groups environment file out
                  (view_of studio groups environment file version f) g m e)
          | inr (first, e) ↦
              rw (m, e)
                (record { may_view = g.may_view; is_seen = g.is_seen; distinct = g.distinct })
        ]
      ]

  Good-gather_flags :
      (groups : List Text) (environment file version : Text) (fs : List (Flag Number Value))
      → (out : Gathered Number Value) → Good groups environment out
      → Good groups environment (gather_flags studio groups environment file version fs out)
  unfolding gather_flags
  Good-gather_flags groups environment file version [] out g = g
  Good-gather_flags groups environment file version (f ∷ fs) out g =
      Good-gather_flags groups environment file version fs _
        (Good-gather_flag groups environment file version f out g)

  Good-gather :
      (groups : List Text) (environment : Text) (files : List Text)
      (out end : Gathered Number Value)
      → (s s' : State Number Value Time World) → Good groups environment out
      → gather studio groups environment files out s ≡ (ok end, s')
      → Good groups environment end
  unfolding gather gather_file
  Good-gather groups environment [] out end s s' g h =
      subst (Good groups environment) (ok_same (ap (λ x. x.0) h)) g
  Good-gather groups environment (file ∷ files) out end s s' g h =
      let (stored, s1, e1, h1) =
        >>=-ok (ask (studio.backend.read_file file))
          (λ stored. do
            parsed ← settle (from_adapter (studio.adapter.parse file stored.content))
            change (remember file stored.version (parsed.0))
            gather studio groups environment files
                (gather_file studio groups environment stored file parsed out))
          s s' h in
      let (parsed, p, h2) =
        settle-ok s1 (from_adapter (studio.adapter.parse file stored.content)) _ h1 in
      let shown = gather_file studio groups environment stored file parsed out in
      let next = remember file stored.version (parsed.0) s1 in
      Good-gather groups environment files shown end next s'
        (Good-gather_flags groups environment file stored.version (parsed.0) _
          (record { may_view = g.may_view; is_seen = g.is_seen; distinct = g.distinct }))
        h2

  -- What List shows: flags that the caller may view, of different keys and in their order.
  pub record Shows (groups : List Text) (environment : Text) (listed : ListResult Number Value)
      : Type 0 where
    pub reached : allowed_anywhere studio.permissions groups environment view ≡ true
    pub may_view : All (MayView groups environment) listed.flags
    pub distinct : Distinct listed.flags
    pub sorted : Sorted key_less listed.flags

  -- Where List succeeds, the caller may view something in the environment, and may view the team of
  -- each flag listed; no two of these have the same key, and they stand in the order of their keys.
  pub list-Shows :
      (session : Session Time) (environment : Text) (listed : ListResult Number Value)
      → (s s' : State Number Value Time World) → list studio session environment s ≡ (ok listed, s')
      → Shows session.groups environment listed
  unfolding list finish
  list-Shows session environment listed s s' h =
      let groups = session.groups in
      let (_, v, h1) = settle-ok s (lift_invalid (valid_environment environment)) _ h in
      let (r, h2) =
        forbid-ok s (not (allowed_anywhere studio.permissions groups environment view)) forbidden _
          h1 in
      let start : Gathered Number Value = record { flags = []; broken = []; seen = [] } in
      let (files, s1, e1, h3) =
        >>=-ok (ask (studio.backend.list_files environment))
          (λ files. do
            out ← gather studio groups environment files start
            give (finish studio groups environment out))
          s s' h2 in
      let (out, s2, e2, h4) =
        >>=-ok (gather studio groups environment files start)
          (λ out. give (finish studio groups environment out)) s1 s' h3 in
      let good =
        Good-gather groups environment files start out s1 s2
          (record { may_view = tt; is_seen = tt; distinct = tt }) e2 in
      subst (Shows groups environment) (ok_same (ap (λ x. x.0) h4)) (record {
        reached = ground (arith, r);
        may_view = All-sort_by key_less (MayView groups environment) out.flags good.may_view;
        distinct = Distinct-sort_by out.flags good.distinct;
        sorted = Sorted-sort_by key_less key_order out.flags;
      })
