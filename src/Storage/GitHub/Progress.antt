-- ===== src/Storage/GitHub/Progress.antt =====
-- A commit comes to an end with success as soon as GitHub accepts one of its tries.
use goff_studio.Base.{
  ℕ, zero, suc, ◌+◌, ◌<◌, Bool, true, false, ◌||◌, ◌≡◌, refl, ap, ◌∙◌, ◌==◌, nat_eq, Text, text_eq,
  ok, err, arith,
}
use goff_studio.Storage.{Version, StoredFile, stale, ChangeOp}
use goff_studio.Storage.GitHub.{
  GitHubApi, moved, flag_changed, after_put, after_apply, after_check, after_read, rounds,
  attempts_of, commit, Reply,
}

module _ {S : Type 0} (api : GitHubApi S) (op : ChangeOp) where
  -- The file can be read, the flag in it is what the editor saw, and the change alters it.
  pub record Ready (s mid : S) : Type 0 where
    pub current : StoredFile
    pub next : Text
    pub read : api.read s op.path ≡ (ok current, mid)
    pub agrees : flag_changed op current ≡ ok false
    pub applied : op.apply current.content ≡ ok next
    pub differs : (next == current.content) ≡ false

  -- From a state, as many PUTs are refused for a stale version, and then one is accepted.
  pub data Tries : ℕ → S → S → Version → Type 0 where
    accepted :
        {s mid s' : S} {sha : Version} (r : Ready s mid)
        → api.put mid op.path r.current.version r.next ≡ (ok sha, s')
        → Tries 0 s s' sha
    refused :
        {k : ℕ} {s mid s1 s' : S} {sha : Version} (r : Ready s mid)
        → api.put mid op.path r.current.version r.next ≡ (err stale, s1)
        → Tries k s1 s' sha
        → Tries (suc k) s s' sha

  -- A round of which the file is ready is what follows its PUT.
  after_read-Ready :
      (attempt : ℕ) (retried : Bool) {s mid : S} (again : S → Reply api op) (r : Ready s mid)
      → after_read api op attempt retried (api.read s op.path) again
        ≡ after_put api op attempt
            (retried || moved op r.current)
            (api.put mid op.path r.current.version r.next)
            again
  unfolding after_read after_check after_apply
  after_read-Ready attempt retried again r = rw (r.read, r.agrees, r.applied, r.differs) refl

  abbrev success : Version → ℕ → Bool → S → Reply api op
  success sha attempts retried s =
      (ok (record { commit_sha = sha; attempts = attempts; retried = retried }), s)

  rounds-Tries :
      (attempts left attempt n : ℕ) (retried : Bool) {k : ℕ} {s s' : S} {sha : Version}
      → Tries k s s' sha
      → k < left
      → attempt + k ≡ n
      → (b : Bool) × (rounds api op attempts left attempt retried s ≡ success sha n b s')
  unfolding rounds after_put
  rounds-Tries attempts zero attempt n retried t h e = absurd (omega arith)
  rounds-Tries attempts (suc left) attempt n retried (accepted {s' = s'} {sha = sha} r p) h e =
      let again : S → Reply api op = λ s''. rounds api op attempts left (suc attempt) true s'' in
      let b = retried || moved op r.current in
      let same : attempt ≡ n = omega arith in
      (
        b,
        after_read-Ready attempt retried again r
            ∙ ap (λ q. after_put api op attempt b q again) p
            ∙ ap (λ m. success sha m b s') same,
      )
  rounds-Tries attempts (suc left) attempt n retried (refused r p t) h e =
      let again : S → Reply api op = λ s''. rounds api op attempts left (suc attempt) true s'' in
      let (b, rest) =
        rounds-Tries attempts left (suc attempt) n true t (omega arith) (omega arith) in
      (
        b,
        after_read-Ready attempt retried again r
            ∙ ap (λ q. after_put api op attempt (retried || moved op r.current) q again) p
            ∙ rest,
      )

  -- Where k tries are refused for a stale version and the next one is accepted, the file being ready
  -- each time, and k is below the bound, the commit succeeds at that try with the version that GitHub
  -- gave.
  pub commit-Tries :
      {k : ℕ} {s s' : S} {sha : Version}
      → Tries k s s' sha
      → k < attempts_of api op
      → (b : Bool) × (commit api op s
          ≡ (ok (record { commit_sha = sha; attempts = suc k; retried = b }), s'))
  unfolding commit
  commit-Tries t h =
      rounds-Tries (attempts_of api op) (attempts_of api op) 1 _ false t h (omega arith)
