-- ===== src/Storage/GitHub/Swap.antt =====
-- A commit replaces just the content that its change was applied to, whatever others write in
-- between, because `put` fails when the file's blob has changed.
use mathlib.Core.Path.{subst}
use goff_studio.Base.{
  ℕ, zero, suc, ◌+◌, ◌≤◌, Bool, true, false, ◌||◌, ◌≡◌, refl, sym, ap, ◌∙◌, ◌⊎◌, inl, inr, none,
  some, List, [], ◌∷◌, ◌==◌, ==_iff, Text, text_eq, is_empty, is_empty_iff, Result, ok, err, arith,
  Bool-cases, Option-cases,
}
use goff_studio.Storage.{Version, StoredFile, StoreError, stale, ChangeOp}
use goff_studio.Storage.GitHub.{
  GitHubApi, CommitResult, moved, flag_changed, after_put, after_apply, after_check, after_read,
  rounds, attempts_of, commit, Reply,
}

-- One content of a file giving way to another.
pub record Replacement : Type 0 where
  pub path : Text
  pub old : Text
  pub new : Text

-- What the code relies on of GitHub's contents API: a file comes with the hash of its content,
-- different contents have different hashes, and a PUT that is accepted has replaced a content
-- with the hash that it named. `history` lists what has been replaced, the latest first.
pub record IsRepository {S : Type 0} (api : GitHubApi S) (sha_of : Text → Version)
    (history : S → List Replacement) : Type 0 where
  pub reads :
      (s s' : S) (path : Text) (f : StoredFile)
      → api.read s path ≡ (ok f, s')
      → f.version ≡ sha_of f.content
  pub swaps :
      (s s' : S) (path new : Text) (version sha : Version)
      → api.put s path version new ≡ (ok sha, s')
      → (old : Text) × (earlier : List Replacement) × (history s'
          ≡ record { path = path; old = old; new = new } ∷ earlier)
        × (sha_of old ≡ version)
  pub distinct : (x y : Text) → sha_of x ≡ sha_of y → x ≡ y

module _ {S : Type 0} (api : GitHubApi S) (op : ChangeOp) (sha_of : Text → Version)
    (history : S → List Replacement) where
  -- The flag in `old` is what the editor saw: there was no base, the content is the base, or
  -- FlagChanged says no where there is one.
  abbrev pub Agrees : Text → Type 0
  Agrees old =
      (op.base_version ≡ [])
      ⊎ (sha_of old ≡ op.base_version)
      ⊎ (op.changed ≡ none)
      ⊎ ((f : Text → Result StoreError Bool) × (op.changed ≡ some f) × (f old ≡ ok false))

  -- Nothing to write, or the latest replacement is Apply's.
  abbrev pub Effect : CommitResult → S → Type 0
  Effect r s =
      ((content : Text) × (op.apply content ≡ ok content) × Agrees content × (r.commit_sha ≡ []))
      ⊎ ((old : Text) × (new : Text) × (earlier : List Replacement) × (history s
            ≡ record { path = op.path; old = old; new = new } ∷ earlier)
          × (op.apply old ≡ ok new)
          × Agrees old)

  abbrev Post : ℕ → Reply api op → Type 0
  Post attempts (ok r, s) = (1 ≤ r.attempts) × (r.attempts ≤ attempts) × Effect r s
  Post attempts (err e, s) = Unit

  module _ (repo : IsRepository api sha_of history) (attempts attempt : ℕ) (low : 1 ≤ attempt)
      (high : attempt ≤ attempts) (again : S → Reply api op)
      (rest : (s : S) → Post attempts (again s)) where
    after_put-Post :
        (retried : Bool) (s : S) (current : StoredFile) (new : Text)
        → op.apply current.content ≡ ok new
        → current.version ≡ sha_of current.content
        → Agrees current.content
        → Post attempts
            (after_put api op attempt retried (api.put s op.path current.version new) again)
    unfolding after_put
    after_put-Post retried s current new applied hash agrees =
        go (api.put s op.path current.version new) refl
      where
        go :
            (p : Result StoreError Version × S)
            → api.put s op.path current.version new ≡ p
            → Post attempts (after_put api op attempt retried p again)
        go (ok sha, s') e =
            let (old, earlier, log, same) = repo.swaps s s' op.path new current.version sha e in
            let is = repo.distinct current.content old (sym hash ∙ sym same) in
            (
              low,
              high,
              inr (
                current.content,
                new,
                earlier,
                log ∙ ap (λ o. record { path = op.path; old = o; new = new } ∷ earlier) (sym is),
                applied,
                agrees,
              ),
            )
        go (err stale, s') e = rest s'
        go (err x, s') e = tt

    after_apply-Post :
        (retried : Bool) (s : S) (current : StoredFile) (answer : Result StoreError Text)
        → op.apply current.content ≡ answer
        → current.version ≡ sha_of current.content
        → Agrees current.content
        → Post attempts (after_apply api op attempt retried current answer s again)
    unfolding after_apply
    after_apply-Post retried s current (err e) applied hash agrees = tt
    after_apply-Post retried s current (ok next) applied hash agrees =
        elim (Bool-cases (next == current.content)) [
          | inl same ↦ rw same (
            low,
            high,
            inl (
              current.content,
              applied ∙ ap ok ((==_iff next current.content).0 same),
              agrees,
              refl,
            ),
          )
          | inr other ↦ rw other (after_put-Post retried s current next applied hash agrees)
        ]

    after_check-Post :
        (retried : Bool) (s : S) (current : StoredFile) (answer : Result StoreError Bool)
        → (answer ≡ ok false → Agrees current.content)
        → current.version ≡ sha_of current.content
        → Post attempts (after_check api op attempt retried current answer s again)
    unfolding after_check
    after_check-Post retried s current (err e) agrees hash = tt
    after_check-Post retried s current (ok true) agrees hash = tt
    after_check-Post retried s current (ok false) agrees hash =
        after_apply-Post retried s current (op.apply current.content) refl hash (agrees refl)

    flag_changed-Agrees :
        (current : StoredFile)
        → current.version ≡ sha_of current.content
        → flag_changed op current ≡ ok false
        → Agrees current.content
    unfolding flag_changed moved
    flag_changed-Agrees current hash h = elim (Bool-cases (is_empty op.base_version)) [
      | inl e ↦ inl ((is_empty_iff op.base_version).0 e)
      | inr n ↦ elim (Bool-cases (current.version == op.base_version)) [
        | inl e ↦ inr (inl (sym hash ∙ (==_iff current.version op.base_version).0 e))
        | inr m ↦ elim (Option-cases op.changed) [
          | inl e ↦ inr (inr (inl e))
          | inr (f, e) ↦ inr (inr (inr (f, e, ground arith)))
        ]
      ]
    ]

    after_read-Post :
        (retried : Bool) (s s' : S) (answer : Result StoreError StoredFile)
        → api.read s op.path ≡ (answer, s')
        → Post attempts (after_read api op attempt retried (answer, s') again)
    unfolding after_read
    after_read-Post retried s s' (err e) h = tt
    after_read-Post retried s s' (ok current) h =
        let hash = repo.reads s s' op.path current h in
        after_check-Post (retried || moved op current) s' current (flag_changed op current)
          (flag_changed-Agrees current hash) hash

  rounds-Post :
      IsRepository api sha_of history
      → (attempts left attempt : ℕ) (retried : Bool) (s : S) → 1 ≤ attempt
      → attempt + left ≡ attempts + 1
      → Post attempts (rounds api op attempts left attempt retried s)
  unfolding rounds
  rounds-Post repo attempts zero attempt retried s low sum = tt
  rounds-Post repo attempts (suc left) attempt retried s low sum =
      let (answer, s') = api.read s op.path in
      after_read-Post repo attempts attempt low (omega arith)
        (λ t. rounds api op attempts left (suc attempt) true t)
        (λ t. rounds-Post repo attempts left (suc attempt) true t (omega arith) (omega arith))
        retried s s' answer refl

  -- For a repository that reads and swaps as GitHub's does: a commit that succeeds has made one
  -- try at least and no more than the bound, and its effect is that nothing had to be written, or
  -- that Apply's result for a content has replaced this very content; and of that content the
  -- editor's view of the flag was not out of date.
  pub commit_swaps :
      IsRepository api sha_of history
      → (s s' : S) (r : CommitResult) → commit api op s ≡ (ok r, s')
      → (1 ≤ r.attempts) × (r.attempts ≤ attempts_of api op) × Effect r s'
  unfolding commit
  commit_swaps repo s s' r h = subst (Post (attempts_of api op)) h (
      rounds-Post repo (attempts_of api op) (attempts_of api op) 1 false s (omega arith)
        (omega arith))
