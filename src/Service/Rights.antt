-- ===== src/Service/Rights.antt =====
-- Who may save: the rights under which Save has changed a file.
use goff_studio.Base.{
  ◌≡◌, sym, ap, ◌∙◌, ◌⊎◌, inl, inr, arith, true, false, not, Option, none, some, List, [], Text,
  text_eq, ◌==◌, ==_iff, Bool-cases, Result, ok, err, refuse_if, >>=-eq-ok, >>-eq-ok,
  refuse_if-eq-ok,
}
use goff_studio.Auth.{Session}
use goff_studio.Config.{single_file}
use goff_studio.Goff.{Flag}
use goff_studio.Permissions.{create, delete}
use goff_studio.Storage.{Written}
use goff_studio.Service.{
  forbidden, stale_view, Broken, Change, Studio, from_adapter, identity_of, owner,
}
use goff_studio.Service.Memory.{State, invalidate_teams}
use goff_studio.Service.Checks.{valid_team}
use goff_studio.Service.Edits.{
  SaveRequest, find_flag, or_not_found, team_of, stamp, serialized, may, check_move,
  mutate_team_checked, mutated, apply_save,
}
use goff_studio.Service.Steps.{give, >>=-ok, forbid-ok, ◌>>=◌}
use goff_studio.Service.Writes.{SaveResult, saved, write, may_save, stale, save_change, save}
use goff_studio.Service.Promises.{UpToDate, Lawful}
use goff_studio.Service.Granted.{Granted, may-Granted}

pub pair-eq {α β} :
    {A : Type α} {B : Type β} {a : A} {b : B} (p : A × B) → p.0 ≡ a → p.1 ≡ b → p ≡ (a, b)
pair-eq (x, y) e f = cc

pub from_adapter-ok {ℓ} :
    {A : Type ℓ} (r : Result Text A) {a : A} → from_adapter r ≡ ok a → r ≡ ok a
unfolding from_adapter
from_adapter-ok (err m) h = cc
from_adapter-ok (ok b) h = cc

module _ {Number Value : Type 0} where
  pub or_not_found-ok :
      (o : Option (Flag Number Value)) {f : Flag Number Value} → or_not_found o ≡ ok f → o ≡ some f
  unfolding or_not_found
  or_not_found-ok none h = cc
  or_not_found-ok (some g) h = cc

module _ {Number Value Time World : Type 0} (studio : Studio Number Value Time World) where
  -- A flag stays in its team, or moves to a known one with the right to delete it from the old team
  -- and to create it in the new one.
  abbrev pub MoveHolds : List Text → Text → Text → Text → Type 0
  MoveHolds groups environment before after =
      (after ≡ before)
      ⊎ ((valid_team studio.config after ≡ ok tt)
          × Granted studio groups environment before delete
          × Granted studio groups environment after create)

  check_move-Holds :
      (groups : List Text) (environment before after : Text)
      → check_move studio groups environment before after ≡ ok tt
      → MoveHolds groups environment before after
  unfolding check_move
  check_move-Holds groups environment before after h = elim (Bool-cases (after == before)) [
    | inl e ↦ inl ((==_iff after before).0 e)
    | inr e ↦
        let (v, k) = >>-eq-ok (valid_team studio.config after) _ (rw e at h) in
        let g = refuse_if-eq-ok _ forbidden k in
        inr (
          v,
          may-Granted studio groups environment before delete (ground (arith, g)),
          may-Granted studio groups environment after create (ground (arith, g)),
        )
  ]

  -- The rights that a mutation of the flag `target` needs. Where files belong to teams it is that of
  -- the file; in the single-file layout it is the flag's own, before the mutation and after it.
  abbrev pub SaveRight : List Text → SaveRequest Number Value → Flag Number Value → Type 0
  SaveRight groups req target =
      let before = team_of studio.runtime target.metadata in
      let after = team_of studio.runtime (req.mutate target).metadata in
      ((single_file studio.config ≡ false)
        × Granted studio groups req.environment (owner studio.config req.file []) req.action)
      ⊎ ((single_file studio.config ≡ true)
          × Granted studio groups req.environment before req.action
          × MoveHolds groups req.environment before after)

  mutate_team_checked-Holds :
      (groups : List Text) (req : SaveRequest Number Value) (target changed : Flag Number Value)
      → mutate_team_checked studio groups req target ≡ ok changed
      → Granted studio groups req.environment (team_of studio.runtime target.metadata) req.action
        × MoveHolds groups req.environment
            (team_of studio.runtime target.metadata)
            (team_of studio.runtime (req.mutate target).metadata)
        × (changed ≡ req.mutate target)
  unfolding mutate_team_checked
  mutate_team_checked-Holds groups req target changed h =
      let before = team_of studio.runtime target.metadata in
      let after = team_of studio.runtime (req.mutate target).metadata in
      let (g, k) =
        >>-eq-ok (refuse_if (not (may studio groups req.environment before req.action)) forbidden) _
          h in
      let (m, e) = >>-eq-ok (check_move studio groups req.environment before after) _ k in
      (
        may-Granted studio groups req.environment before req.action
            (ground (arith, refuse_if-eq-ok _ forbidden g)),
        check_move-Holds groups req.environment _ _ m,
        cc e,
      )

  may_save-Granted :
      (groups : List Text) (req : SaveRequest Number Value)
      → may_save studio groups req ≡ true
      → single_file studio.config ≡ false
      → Granted studio groups req.environment (owner studio.config req.file []) req.action
  unfolding may_save
  may_save-Granted groups req h f =
      may-Granted studio groups req.environment (owner studio.config req.file []) req.action
        (rw (may_save, f) at h)

  mutated-SaveRight :
      (groups : List Text) (req : SaveRequest Number Value) (target changed : Flag Number Value)
      → may_save studio groups req ≡ true
      → mutated studio groups req target ≡ ok changed
      → SaveRight groups req target × (changed ≡ req.mutate target)
  unfolding mutated
  mutated-SaveRight groups req target changed g h = elim (Bool-cases (single_file studio.config)) [
    | inl t ↦
        let (a, m, e) = mutate_team_checked-Holds groups req target changed (rw t at h) in
        (inr (t, a, m), e)
    | inr f ↦ (inl (f, may_save-Granted groups req g f), cc (rw f at h))
  ]

  -- The text `after` of the request's file is what Save makes of the text `before`.
  pub record Saves (groups : List Text) (now : Time) (req : SaveRequest Number Value)
      (before after : Text) : Type 0 where
    pub flags : List (Flag Number Value)
    pub broken : List Broken
    pub target : Flag Number Value
    pub parsed : studio.adapter.parse req.file before ≡ ok (flags, broken)
    pub found : find_flag flags req.key ≡ some target
    pub right : SaveRight groups req target
    pub written :
        serialized studio before req.key (stamp studio.runtime now false (req.mutate target))
        ≡ ok after

  apply_save-Saves :
      (groups : List Text) (now : Time) (req : SaveRequest Number Value) (before after : Text)
      → may_save studio groups req ≡ true
      → apply_save studio groups now req before ≡ ok after
      → Saves groups now req before after
  unfolding apply_save
  apply_save-Saves groups now req before after g h =
      let ((flags, broken), p, h1) = >>=-eq-ok _ _ h in
      let (target, f, h2) = >>=-eq-ok (or_not_found (find_flag flags req.key)) _ h1 in
      let (changed, m, h3) = >>=-eq-ok (mutated studio groups req target) _ h2 in
      let (right, e) = mutated-SaveRight groups req target changed g m in
      record {
        flags = flags;
        broken = broken;
        target = target;
        parsed = from_adapter-ok _ p;
        found = or_not_found-ok _ f;
        right = right;
        written = rw e at h3;
      }

  pub write-of_backend :
      (session : Session Time) (op : Change) (s s' : State Number Value Time World) (w : Written)
      → write studio session op s ≡ (ok w, s')
      → studio.backend.write op (identity_of session) s.world ≡ (ok w, s'.world)
  unfolding write invalidate_teams
  write-of_backend session op s s' w h = pair-eq _ (ap (λ x. x.0) h) (ap (λ x. x.1.world) h)

  -- A file that Apply's result for its text has replaced.
  abbrev pub Replaced : (World → Text → Option Text) → Change → World → World → Type 0
  Replaced content op w w' =
      (before : Text) × (after : Text) × (content w op.path ≡ some before)
      × (op.apply before ≡ ok after)
      × (content w' op.path ≡ some after)

  pub written-ok :
      {content : World → Text → Option Text}
      → Lawful studio.backend content
      → (session : Session Time) (op : Change) (s s' : State Number Value Time World)
      → (result : SaveResult)
      → (write studio session op >>= λ w. give (saved studio w)) s ≡ (ok result, s')
      → (before : Text) × (after : Text) × (content s.world op.path ≡ some before)
        × UpToDate studio.backend op before s.world
        × (op.apply before ≡ ok after)
        × (content s'.world op.path ≡ some after)
  written-ok {content} lawful session op s s' result h =
      let (w, mid, k, e) = >>=-ok (write studio session op) (λ x. give (saved studio x)) s s' h in
      let (before, after, was, up, a, is_now) =
        lawful.write-ok op (identity_of session) s.world mid.world w
          (write-of_backend session op s mid w k) in
      (before, after, was, up, a, sym (ap (λ x. content (x.1.world) op.path) e) ∙ is_now)

  pub written-Replaced :
      {content : World → Text → Option Text}
      → Lawful studio.backend content
      → (session : Session Time) (op : Change) (w : World) (s s' : State Number Value Time World)
      → (result : SaveResult) → content s.world ≡ content w
      → (write studio session op >>= λ x. give (saved studio x)) s ≡ (ok result, s')
      → Replaced content op w s'.world
  written-Replaced {content} lawful session op w s s' result c h =
      let (before, after, was, up, a, is_now) = written-ok lawful session op s s' result h in
      (before, after, ap (λ t. t op.path) (sym c) ∙ was, a, is_now)

  -- Where Save succeeds over a backend that keeps its promises, a rule gives the caller the right to
  -- the request's action on the team that owns the file, or, in the single-file layout, on the
  -- flag's own, with the rights that a change of its team needs; the file had a text with the flag
  -- in it, which was up to date for the request, and it now has that text with the mutated and
  -- stamped flag in it.
  pub save-Saves :
      {content : World → Text → Option Text}
      → Lawful studio.backend content
      → (session : Session Time) (now : Time) (req : SaveRequest Number Value)
      → (s s' : State Number Value Time World) (result : SaveResult)
      → save studio session now req s ≡ (ok result, s')
      → (before : Text) × (after : Text) × (content s.world req.file ≡ some before)
        × UpToDate studio.backend (save_change studio session.groups now req) before s.world
        × Saves session.groups now req before after
        × (content s'.world req.file ≡ some after)
  unfolding save save_change
  save-Saves {content} lawful session now req s s' result h =
      let (g, h1) = forbid-ok s (not (may_save studio session.groups req)) forbidden _ h in
      let (n, h2) =
        forbid-ok s (stale studio req.loaded_flag req.file req.file_sha s) stale_view _ h1 in
      let op = save_change studio session.groups now req in
      let (before, after, was, up, a, is_now) = written-ok lawful session op s s' result h2 in
      (
        before,
        after,
        was,
        up,
        apply_save-Saves session.groups now req before after (ground (arith, g)) a,
        is_now,
      )
