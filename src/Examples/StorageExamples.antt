-- ===== src/Examples/StorageExamples.antt =====
-- internal/storage and internal/githubapp on small stores.
use goff_studio.Base.{
  arith, ◌≤◌, Bool, true, false, ◌≡◌, refl, sym, ap, ◌∙◌, none, some, List, [], ◌∷◌, Text, text_eq,
  codes, ◌==◌, ==_iff, if◌then◌else◌, Result, ok, err, list_beq, split, join, has_prefix,
}
use goff_studio.Storage.{Written, Version, StoredFile, StoreError, stale, ChangeOp}
use goff_studio.Storage.GitHub.{
  GitHubApi, commit, rounds, after_read, after_check, after_apply, after_put, flag_changed, moved,
}
use goff_studio.Storage.GitHub.Progress.{Ready, Tries, commit-Tries}
use goff_studio.Storage.GitHub.Swap.{Replacement, IsRepository, Effect, commit_swaps}
use goff_studio.Storage.FileBackend.{
  resolve, clean_parts, join_root, store, write, read_file, check_base, Disk,
}
use goff_studio.Storage.FileBackend.Confined.{names, resolve_lem}
use goff_studio.Storage.FileBackend.Rewrite.{Rewrites, write-Rewrites}
use goff_studio.Examples.OneLine.{no_faults}

-- A repository of one file, whose contents are their own hashes.
pub record OneFile : Type 0 where
  pub content : Text
  pub log : List Replacement

abbrev swap : Text → Text → Version → OneFile → Bool → Result StoreError Version × OneFile
swap path new version s true = (
  ok new,
  record { content = new; log = record { path = path; old = s.content; new = new } ∷ s.log },
)
swap path new version s false = (err stale, s)

abbrev one_file : GitHubApi OneFile
one_file = record {
  read = λ s path. (ok (record { path = path; content = s.content; version = s.content }), s);
  put = λ s path version new. swap path new version s (s.content == version);
}

swap-log :
    (path new : Text) (version : Version) (s : OneFile) (b : Bool) {sha : Version} {s' : OneFile}
    → (s.content == version) ≡ b
    → swap path new version s b ≡ (ok sha, s')
    → (old : Text) × (earlier : List Replacement) × (s'.log
        ≡ record { path = path; old = old; new = new } ∷ earlier)
      × (old ≡ version)
swap-log path new version s true e h =
    (s.content, s.log, sym (ap (λ p. p.1.log) h), (==_iff s.content version).0 e)
swap-log path new version s false e h = cc (ap (λ p. p.0) h)

version_read : Result StoreError StoredFile → Text
version_read (ok f) = f.version
version_read (err e) = []

content_read : Result StoreError StoredFile → Text
content_read (ok f) = f.content
content_read (err e) = []

one_file-reads :
    (s s' : OneFile) (path : Text) (f : StoredFile)
    → one_file.read s path ≡ (ok f, s')
    → f.version ≡ f.content
unfolding version_read content_read
one_file-reads s s' path f h = sym (ap (λ p. version_read p.0) h) ∙ ap (λ p. content_read p.0) h

one_file-IsRepository : IsRepository one_file (λ x. x) (λ s. s.log)
one_file-IsRepository = record {
  reads = one_file-reads;
  swaps = λ s s' path new version sha h. swap-log path new version s (s.content == version) refl h;
  distinct = λ x y h. h;
}

abbrev edit : ChangeOp
edit = record {
  path = codes "staging/flags.goff.yaml";
  base_version = codes "old";
  apply = λ content. ok (codes "new");
  changed = some (λ content. ok false);
  max_attempts = 0;
}

abbrev before : OneFile
before = record { content = codes "mid"; log = [] }

-- The first try is accepted.
before-Ready : Ready one_file edit before before
unfolding flag_changed moved list_beq
before-Ready = record {
  current = record {
    path = codes "staging/flags.goff.yaml";
    content = codes "mid";
    version = codes "mid";
  };
  next = codes "new";
  read = refl;
  agrees = refl;
  applied = refl;
  differs = refl;
}

before-Tries :
    Tries one_file edit 0 before
      (record {
        content = codes "new";
        log =
            record { path = codes "staging/flags.goff.yaml"; old = codes "mid"; new = codes "new" }
            ∷ [];
      })
      (codes "new")
unfolding before-Ready list_beq
before-Tries = Tries.accepted before-Ready refl

commit-Tries_example :
    (b : Bool) × (commit one_file edit before ≡ (
      ok (record { commit_sha = codes "new"; attempts = 1; retried = b }),
      record {
        content = codes "new";
        log =
            record { path = codes "staging/flags.goff.yaml"; old = codes "mid"; new = codes "new" }
            ∷ [];
      },
    ))
commit-Tries_example = commit-Tries one_file edit before-Tries (omega arith)

abbrev root : Text
root = codes "/flags"

abbrev files : Disk
files p = if p == codes "/flags/a.yaml" then some (codes "old") else none

-- The file moved under the editor, but the flag is the same: the change goes through, as retried.
commit_run : commit one_file edit before ≡ (
  ok (record { commit_sha = codes "new"; attempts = 1; retried = true }),
  record {
    content = codes "new";
    log =
        record { path = codes "staging/flags.goff.yaml"; old = codes "mid"; new = codes "new" }
        ∷ [];
  },
)
unfolding commit rounds after_read after_check after_apply after_put flag_changed moved list_beq
commit_run = refl

resolve_run : resolve root (codes "staging/./a.yaml") ≡ ok (codes "/flags/staging/a.yaml")
unfolding resolve clean_parts join_root list_beq split join has_prefix
resolve_run = refl

commit_swaps_example :
    (1 ≤ 1)
    × (1 ≤ 3)
    × Effect one_file edit
        (λ x. x)
        (λ s. s.log)
        (record { commit_sha = codes "new"; attempts = 1; retried = true })
        (record {
          content = codes "new";
          log =
              record {
                path = codes "staging/flags.goff.yaml";
                old = codes "mid";
                new = codes "new";
              }
              ∷ [];
        })
commit_swaps_example =
    commit_swaps one_file edit (λ x. x) (λ s. s.log) one_file-IsRepository before _ _ commit_run

resolve_lem_example :
    resolve root (codes "staging/./a.yaml") ≡ ok (join_root root (names (codes "staging/./a.yaml")))
unfolding list_beq split
resolve_lem_example = resolve_lem root (codes "staging/./a.yaml") (λ e. cc e)

abbrev save : ChangeOp
save = record {
  path = codes "a.yaml";
  base_version = codes "old";
  apply = λ content. ok (codes "new");
  changed = none;
  max_attempts = 0;
}

write_run :
    (write no_faults (λ x. x) root files save).0
    ≡ ok (record { version = codes "new"; retried = false })
unfolding write goff_studio.Storage.FileBackend.prepared read_file resolve split list_beq join_root
    clean_parts has_prefix join check_base goff_studio.Storage.FileBackend.finish_write
    goff_studio.Storage.FileBackend.write_next goff_studio.Storage.FileBackend.write_atomic
    goff_studio.Storage.FileBackend.rename_file
write_run = refl

abbrev written : Disk
written = (write no_faults (λ x. x) root files save).1

write-Rewrites_example :
    Rewrites (λ x. x) root files save written (record { version = codes "new"; retried = false })
write-Rewrites_example =
    write-Rewrites (λ x. x) root no_faults files written save _ (ap (λ r. (r, written)) write_run)
