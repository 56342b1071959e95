-- ===== src/Service/Fresh.antt =====
-- What Create has checked and written: the request, and a file in which the key was new.
use goff_studio.Base.{
  ◌≡◌, ◌≢◌, refl, sym, ap, subst, ◌∙◌, ◌⊎◌, inl, inr, Bool, true, false, Option, none, some, Text,
  Bool-cases, trim_space, Result, ok, err, codes,
}
use goff_studio.Auth.{Session}
use goff_studio.Config.{single_file}
use goff_studio.Storage.{StoredFile}
use goff_studio.Service.{Failure, stale_view, Studio, identity_of}
use goff_studio.Service.Memory.{State, invalidate_environments}
use goff_studio.Service.Edits.{CreateRequest, team_seed, commit_message}
use goff_studio.Service.Contents.{create_path, check_create, build_create}
use goff_studio.Service.Steps.{>>=-ok, forbid-ok, settle-ok}
use goff_studio.Service.Writes.{SaveResult, stale}
use goff_studio.Service.Creates.{
  is_missing, create_missing, after_race, after_create, after_read, create_team_file, create_change,
  end_create, perform_create, prepare_create, create_flag,
}
use goff_studio.Service.Requests.{Requested, check_create-Requested, Adds, build_create-Adds}
use goff_studio.Service.Promises.{Lawful}
use goff_studio.Service.Rights.{pair-eq, written-ok}
use goff_studio.Service.Keeps.{prepare_create-Keeps}
use goff_studio.Service.Visible.{ok_same}

after_race-true :
    (failure : Failure) (again : Result Failure StoredFile) → after_race failure again ≢ ok true
unfolding after_race
after_race-true failure (ok f) h = cc h
after_race-true failure (err e) h = cc h

module _ {Number Value Time World : Type 0} (studio : Studio Number Value Time World) where
  after_create-true :
      (file : Text) (made : Result Failure (Unit {0})) (s s' : State Number Value Time World)
      → after_create studio file made s ≡ (ok true, s')
      → (made ≡ ok tt) × (s ≡ s')
  unfolding after_create
  after_create-true file (ok _) s s' h = (refl, ap (λ x. x.1) h)
  after_create-true file (err failure) s s' h = absurd (after_race-true failure _ (ap (λ x. x.0) h))

  -- Create has put the flag in the text that the file had, or in the seed of a team's file where
  -- there was no file.
  abbrev pub Added :
      (World → Text → Option Text) → Time → CreateRequest Value → World → World → Type 0
  Added content now req w w' =
      (before : Text) × (after : Text) × Adds studio now req before after
      × ((content w (create_path studio req) ≡ some before)
          ⊎ ((content w (create_path studio req) ≡ none)
              × (before ≡ team_seed req.environment (trim_space req.team))))
      × (content w' (create_path studio req) ≡ some after)

  module _ {content : World → Text → Option Text} (lawful : Lawful studio.backend content) where
    pub Added-earlier :
        (now : Time) (req : CreateRequest Value) (w w1 w' : World)
        → content w1 (create_path studio req) ≡ content w (create_path studio req)
        → Added content now req w1 w'
        → Added content now req w w'
    Added-earlier now req w w1 w' c (before, after, adds, inl there, is_now) =
        (before, after, adds, inl (sym c ∙ there), is_now)
    Added-earlier now req w w1 w' c (before, after, adds, inr (n, seed), is_now) =
        (before, after, adds, inr (sym c ∙ n, seed), is_now)

    prepare_create-Requested :
        (session : Session Time) (req : CreateRequest Value) (s s' : State Number Value Time World)
        → prepare_create studio session req s ≡ (ok tt, s')
        → Requested studio session.groups req
    unfolding prepare_create
    prepare_create-Requested session req s s' h =
        let (r, q, e2) = settle-ok s (check_create studio session.groups req) _ h in
        check_create-Requested studio session.groups req q

    create_missing-true :
        (session : Session Time) (file text message : Text) (s s' : State Number Value Time World)
        → create_missing studio session file text message s ≡ (ok true, s')
        → (content s.world file ≡ none) × (content s'.world file ≡ some text)
    unfolding create_missing
    create_missing-true session file text message s s' h =
        let (m, e) = after_create-true file _ _ s' h in
        lawful.create-ok file text message (identity_of session) s.world s'.world
          (pair-eq _ m (ap (λ x. x.world) e))

    create_missing-false :
        (session : Session Time) (file text message : Text) (s s' : State Number Value Time World)
        → create_missing studio session file text message s ≡ (ok false, s')
        → content s'.world file ≡ content s.world file
    unfolding create_missing after_create
    create_missing-false session file text message s s' h =
        by_outcome (studio.backend.create_file file text message (identity_of session) s.world) refl
          h
      where
        by_outcome :
            (r : Result Failure (Unit {0}) × World)
            → studio.backend.create_file file text message (identity_of session) s.world ≡ r
            → after_create studio file (r.0) (record s { world = r.1 }) ≡ (ok false, s')
            → content s'.world file ≡ content s.world file
        by_outcome (ok x, w) q k = absurd (cc (ap (λ y. y.0) k))
        by_outcome (err e, w) q k =
            ap (λ y. content (y.1.world) file) (sym k)
            ∙ ap (λ t. t file) (lawful.read-keeps file w)
            ∙ lawful.create-error file text message (identity_of session) s.world w e q

    -- What createTeamFile has done, by its answer: the flag is in the file, or the file is as it was.
    abbrev Prepared : Time → CreateRequest Value → Bool → World → World → Type 0
    Prepared now req created w w' =
        ((created ≡ true) × Added content now req w w')
        ⊎ ((created ≡ false)
            × (content w' (create_path studio req) ≡ content w (create_path studio req)))

    after_read-Prepared :
        (session : Session Time) (now : Time) (req : CreateRequest Value) (message : Text)
        → (found : Result Failure StoredFile) (created : Bool)
        → (s s' : State Number Value Time World)
        → after_read studio session now req (create_path studio req) message found s
          ≡ (ok created, s')
        → Prepared now req created s.world s'.world
    unfolding after_read invalidate_environments
    after_read-Prepared session now req message (ok f) created s s' h = inr (
      ok_same (ap (λ x. x.0) (sym h)),
      ap (λ x. content (x.1.world) (create_path studio req)) (sym h),
    )
    after_read-Prepared session now req message (err failure) created s s' h =
        elim (Bool-cases (is_missing {A = StoredFile} (err failure))) [
          | inr f ↦ absurd (cc (ap (λ x. x.0) (rw (after_read, f) at h)))
          | inl t ↦
              let seed = team_seed req.environment (trim_space req.team) in
              let path = create_path studio req in
              let (after, b, k) =
                settle-ok s (build_create studio now req path seed) _ (rw (after_read, t) at h) in
              let mid = (create_missing studio session path after message s).1 in
              let here = ap (λ x. content (x.1.world) path) (sym k) in
              elim (Bool-cases created) [
                | inl c ↦
                    let (none_there, now_there) =
                      create_missing-true session path after message s mid
                        (pair-eq _ (ap (λ x. x.0) k ∙ ap (λ x. ok x) c) refl) in
                    inl (
                      c,
                      (
                        seed,
                        after,
                        build_create-Adds studio now req seed after b,
                        inr (none_there, refl),
                        here ∙ now_there,
                      ),
                    )
                | inr c ↦ inr (
                  c,
                  here
                      ∙ create_missing-false session path after message s mid
                          (pair-eq _ (ap (λ x. x.0) k ∙ ap (λ x. ok x) c) refl),
                )
              ]
        ]

    create_team_file-Prepared :
        (session : Session Time) (now : Time) (req : CreateRequest Value) (message : Text)
        → (created : Bool) (s s' : State Number Value Time World)
        → create_team_file studio session now req (create_path studio req) message s
          ≡ (ok created, s')
        → Prepared now req created s.world s'.world
    unfolding create_team_file
    create_team_file-Prepared session now req message created s s' h =
        let path = create_path studio req in
        elim (Bool-cases (single_file studio.config)) [
          | inl t ↦
              let k = rw (create_team_file, t) at h in
              inr (ok_same (ap (λ x. x.0) (sym k)), ap (λ x. content (x.1.world) path) (sym k))
          | inr f ↦
              let (read, w) = studio.backend.read_file path s.world in
              let keeps = ap (λ t. t path) (lawful.read-keeps path s.world) in
              elim (after_read-Prepared session now req message read created
                (record s { world = w }) s' (rw (create_team_file, f) at h)) [
                  | inl (c, (before, after, adds, inl there, is_now)) ↦
                      inl (c, (before, after, adds, inl (sym keeps ∙ there), is_now))
                  | inl (c, (before, after, adds, inr (n, seed), is_now)) ↦
                      inl (c, (before, after, adds, inr (sym keeps ∙ n, seed), is_now))
                  | inr (c, same) ↦ inr (c, same ∙ keeps)
                ]
        ]

    end_create-Added :
        (session : Session Time) (now : Time) (req : CreateRequest Value) (message : Text)
        → (created : Bool) (w : World) (s s' : State Number Value Time World) (result : SaveResult)
        → Prepared now req created w s.world
        → end_create studio session now req message created s ≡ (ok result, s')
        → Added content now req w s'.world
    unfolding end_create create_change
    end_create-Added session now req message true w s s' result (inl (_, a)) h =
        subst (λ x. Added content now req w x.world) (ap (λ x. x.1) h) a
    end_create-Added session now req message true w s s' result (inr (c, _)) h = absurd (cc c)
    end_create-Added session now req message false w s s' result (inl (c, _)) h = absurd (cc c)
    end_create-Added session now req message false w s s' result (inr (_, same)) h =
        let op = create_change studio now req message in
        let (before, after, was, up, a, is_now) =
          written-ok studio lawful session op s s' result h in
        (
          before,
          after,
          build_create-Adds studio now req before after a,
          inl (sym same ∙ was),
          is_now,
        )

    -- Where Create succeeds over a backend that keeps its promises, the request was in order, a rule
    -- gives the caller the right to create flags of its team, and the file of that team now has the
    -- text that it had, or the seed of a team's file where there was none, with the stamped flag in
    -- it; no flag and no broken flag of that text had the key.
    pub create_flag-Added :
        (session : Session Time) (now : Time) (req : CreateRequest Value)
        → (s s' : State Number Value Time World) (result : SaveResult)
        → create_flag studio session now req s ≡ (ok result, s')
        → Requested studio session.groups req × Added content now req s.world s'.world
    unfolding create_flag perform_create
    create_flag-Added session now req s s' result h =
        let path = create_path studio req in
        let (p, s1, e1, h1) =
          >>=-ok (prepare_create studio session req) (λ _. perform_create studio session now req) s
            s' h in
        let keeps =
          ap (λ x. content (x.1.world)) (sym e1)
          ∙ prepare_create-Keeps studio lawful session req s in
        let (n, h2) = forbid-ok s1 (stale studio none path req.file_sha s1) stale_view _ h1 in
        let message = commit_message req.environment path req.key (codes "created") in
        let (created, s2, e3, h3) =
          >>=-ok (create_team_file studio session now req path message)
            (end_create studio session now req message) s1 s' h2 in
        let done =
          end_create-Added session now req message created s1.world s2 s' result
            (create_team_file-Prepared session now req message created s1 s2 e3) h3 in
        (
          prepare_create-Requested session req s s1 (e1 ∙ refl),
          Added-earlier now req s.world s1.world s'.world (ap (λ t. t path) keeps) done,
        )
