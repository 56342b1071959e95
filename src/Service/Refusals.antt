-- ===== src/Service/Refusals.antt =====
-- How Save fails, and what a failure leaves.
use goff_studio.Base.{
  ◌≡◌, refl, sym, ap, ◌∙◌, ◌⊎◌, inl, inr, arith, Bool, true, false, not, List, Text, Result, ok,
  err, refuse_if,
}
use goff_studio.Auth.{Session}
use goff_studio.Storage.{Version, Written, StoreError}
use goff_studio.Storage.FileBackend.{Disk, Os, resolve, temporary}
use goff_studio.Storage.FileBackend.Rewrite.{write_error-keeps}
use goff_studio.Storage.FileBackend as F
use goff_studio.Service.{Failure, forbidden, stale_view, Change, Studio, identity_of}
use goff_studio.Service.Memory.{State, invalidate_teams}
use goff_studio.Service.Edits.{SaveRequest}
use goff_studio.Service.Writes.{SaveResult, saved, write, may_save, stale, save_change, save}
use goff_studio.Service.Files.{files, op_of, file_write}

-- A guard and what is left behind it, of which one has failed.
guarded :
    {S B : Type 0} (s : S) (b : Bool) (failure : Failure) (left : Result Failure B × S)
    → {e : Failure} {s' : S}
    → elim (refuse_if b failure) as (λ _. Result Failure B × S) [ err e ↦ (err e, s) | ok _ ↦ left ]
      ≡ (err e, s')
    → ((b ≡ true) × (e ≡ failure) × (s' ≡ s)) ⊎ ((b ≡ false) × (left ≡ (err e, s')))
guarded s true failure left h = inl (refl, cc (ap (λ x. x.0) h), sym (ap (λ x. x.1) h))
guarded s false failure left h = inr (refl, h)

module _ {Number Value Time World : Type 0} (studio : Studio Number Value Time World) where
  saved-error :
      (r : Result Failure Written × World) (s s' : State Number Value Time World) {e : Failure}
      → elim r.0 as (λ _. Result Failure SaveResult × State Number Value Time World) [
        | err e ↦ (err e, invalidate_teams (record s { world = r.1 }))
        | ok w ↦ (ok (saved studio w), invalidate_teams (record s { world = r.1 }))
      ]
        ≡ (err e, s')
      → (r.0 ≡ err e) × (r.1 ≡ s'.world)
  unfolding invalidate_teams
  saved-error (err e, w) s s' h = (cc (ap (λ x. x.0) h), ap (λ x. x.1.world) h)
  saved-error (ok v, w) s s' h = absurd (cc (ap (λ x. x.0) h))

  -- Save fails for a right that is missing or a view that is not known, and nothing has changed
  -- then, or with the error of the backend's write, and the world is as the backend has left it.
  pub save_error :
      (session : Session Time) (now : Time) (req : SaveRequest Number Value)
      → (s s' : State Number Value Time World) (e : Failure)
      → save studio session now req s ≡ (err e, s')
      → ((may_save studio session.groups req ≡ false) × (e ≡ forbidden) × (s' ≡ s))
        ⊎ ((stale studio req.loaded_flag req.file req.file_sha s ≡ true)
            × (e ≡ stale_view)
            × (s' ≡ s))
        ⊎ (((studio.backend.write
                (save_change studio session.groups now req)
                (identity_of session)
                s.world).0
              ≡ err e)
            × ((studio.backend.write
                  (save_change studio session.groups now req)
                  (identity_of session)
                  s.world).1
                ≡ s'.world))
  unfolding save write
  save_error session now req s s' e h =
      elim (guarded s (not (may_save studio session.groups req)) forbidden _ h) [
        | inl (b, q, t) ↦ inl (ground (arith, b), q, t)
        | inr (b, h1) ↦
            elim (guarded s (stale studio req.loaded_flag req.file req.file_sha s) stale_view _
              h1) [
                | inl (c, q, t) ↦ inr (inl (c, q, t))
                | inr (c, h2) ↦ inr (inr (saved-error _ s s' h2))
              ]
      ]

module _ (hash : Text → Version) (root : Text) where
  file_write-error :
      (disk after : Disk) (op : Change) (r : Result StoreError Written × Disk) {e : Failure}
      → (file_write hash root disk op r).0 ≡ err e
      → (file_write hash root disk op r).1 ≡ after
      → (x : StoreError) × (r ≡ (err x, after))
  unfolding file_write
  file_write-error disk after op (err x, d) h k = (x, ap (λ y. (err x, y)) k)
  file_write-error disk after op (ok w, d) h k = absurd (cc h)

module _ {Number Value Time : Type 0} (hash : Text → Version) (root : Text) (os : Os) where
  -- Over the file backend, where Save fails, by its own checks or by the operating system, every
  -- file but the temporary one beside the request's is as it was.
  pub save_error_keeps_files :
      (studio : Studio Number Value Time Disk) (listing : Text → Disk → Result Failure (List Text))
      → studio.backend ≡ files hash root os listing
      → (session : Session Time) (now : Time) (req : SaveRequest Number Value)
      → (s s' : State Number Value Time Disk) (e : Failure)
      → save studio session now req s ≡ (err e, s')
      → (p : Text) → ¬ ((full : Text) × (resolve root req.file ≡ ok full) × (p ≡ temporary full))
      → s'.world p ≡ s.world p
  unfolding files op_of save_change
  save_error_keeps_files studio listing b session now req s s' e h p n =
      elim (save_error studio session now req s s' e h) [
        | inl (_, _, t) ↦ ap (λ x. x.world p) t
        | inr other ↦ elim other [
          | inl (_, _, t) ↦ ap (λ x. x.world p) t
          | inr (f, k) ↦
              let op = save_change studio session.groups now req in
              let who = identity_of session in
              let (x, w) =
                file_write-error hash root s.world s'.world op
                  (F.write os hash root s.world (op_of op))
                  (ap (λ y. (y.write op who s.world).0) (sym b) ∙ f)
                  (ap (λ y. (y.write op who s.world).1) (sym b) ∙ k) in
              write_error-keeps hash root os s.world s'.world (op_of op) x p w n
        ]
      ]
