-- ===== src/Storage/GitHub.antt =====
-- internal/githubapp/client.go, `Commit`, and internal/storage/github.go, `Write`: a change is
-- applied to the file as it now stands, and tried again when the file moved meanwhile.
-- The GitHub API is a parameter: a state `S` of the repository, which others change too, and the
-- client's two calls on it.
pub mod Progress
pub mod Swap
use goff_studio.Base.{
  ℕ, zero, suc, Bool, true, false, not, ◌&&◌, ◌||◌, Option, none, some, [], if◌then◌else◌, ◌==◌,
  Text, text_eq, nat_eq, is_empty, Result, ok, err,
}
use goff_studio.Storage.{
  Version, StoredFile, Written, StoreError, conflict, stale, kept_changing, ChangeOp,
}

pub record GitHubApi (S : Type 0) : Type 0 where
  pub read : S → Text → Result StoreError StoredFile × S
  pub put : S → Text → Version → Text → Result StoreError Version × S

pub record CommitResult : Type 0 where
  pub commit_sha : Version
  pub attempts : ℕ
  pub retried : Bool

-- `op.BaseSHA != "" && current.SHA != op.BaseSHA`
unfoldable pub moved : ChangeOp → StoredFile → Bool
moved op current = not (is_empty op.base_version) && not (current.version == op.base_version)

-- The answer of FlagChanged, asked only when the file moved and there is one to ask.
unfoldable pub flag_changed : ChangeOp → StoredFile → Result StoreError Bool
flag_changed op current =
    if moved op current
    then elim op.changed [ none ↦ ok false | some f ↦ f current.content ]
    else ok false

module _ {S : Type 0} (api : GitHubApi S) (op : ChangeOp) where
  abbrev pub Reply : Type 0
  Reply = Result StoreError CommitResult × S

  -- The rest of a round once `put` has answered; `again` is the next round.
  unfoldable pub after_put : ℕ → Bool → Result StoreError Version × S → (S → Reply) → Reply
  after_put attempt retried (ok sha, s) again =
      (ok (record { commit_sha = sha; attempts = attempt; retried = retried }), s)
  after_put attempt retried (err stale, s) again = again s
  after_put attempt retried (err e, s) again = (err e, s)

  -- A round once Apply has answered.
  unfoldable pub after_apply :
      ℕ → Bool → StoredFile → Result StoreError Text → S → (S → Reply) → Reply
  after_apply attempt retried current (err e) s again = (err e, s)
  after_apply attempt retried current (ok next) s again =
      if next == current.content
      then (ok (record { commit_sha = []; attempts = attempt; retried = false }), s)
      else after_put attempt retried (api.put s op.path current.version next) again

  -- A round once FlagChanged has answered.
  unfoldable pub after_check :
      ℕ → Bool → StoredFile → Result StoreError Bool → S → (S → Reply) → Reply
  after_check attempt retried current (err e) s again = (err e, s)
  after_check attempt retried current (ok true) s again = (err conflict, s)
  after_check attempt retried current (ok false) s again =
      after_apply attempt retried current (op.apply current.content) s again

  -- A round once the file has been read.
  unfoldable pub after_read : ℕ → Bool → Result StoreError StoredFile × S → (S → Reply) → Reply
  after_read attempt retried (err e, s) again = (err e, s)
  after_read attempt retried (ok current, s) again =
      after_check attempt (retried || moved op current) current (flag_changed op current) s again

  -- The loop of Commit with `left` rounds to go; `attempts` is its bound.
  unfoldable pub rounds : ℕ → ℕ → ℕ → Bool → S → Reply
  rounds attempts zero attempt retried s = (err (kept_changing op.path attempts), s)
  rounds attempts (suc left) attempt retried s =
      after_read attempt retried (api.read s op.path)
        (λ s'. rounds attempts left (suc attempt) true s')

  abbrev pub attempts_of : ℕ
  attempts_of = if op.max_attempts == 0 then 3 else op.max_attempts

  -- Client.Commit
  unfoldable pub commit : S → Reply
  commit s = rounds attempts_of attempts_of 1 false s

  -- GitHubBackend.Write
  pub write : S → Result StoreError Written × S
  write s = elim (commit s).0 [
    | ok r ↦ (ok (record { version = r.commit_sha; retried = r.retried }), (commit s).1)
    | err e ↦ (err e, (commit s).1)
  ]
