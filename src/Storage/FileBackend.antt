-- ===== src/Storage/FileBackend.antt =====
-- internal/storage/file.go: flags in a directory. The disk is a function from the full paths of
-- files to their contents. That os.WriteFile, os.Rename and os.MkdirAll may fail is in `Os`; os.ReadFile
-- and os.Stat fail only where there is no file. The hash of `version` is a parameter.
pub mod Confined
pub mod Atomic
pub mod Rewrite
use mathlib.Core.List.{reverse, tail}
use goff_studio.Base.{
  ℕ, Bool, true, false, not, ◌&&◌, ◌||◌, Option, none, some, List, [], ◌∷◌, ◌++◌, any,
  if◌then◌else◌, ◌==◌, Text, text_eq, nat_eq, codes, is_empty, split, join, has_prefix, Result, ok,
  err, ◌>>=◌, ◌>>◌, refuse_if,
}
use goff_studio.Storage.{
  Version, StoredFile, Written, StoreError, not_found, conflict, outside, exists, ChangeOp,
}

abbrev pub slash : ℕ
slash = b'/'

abbrev pub dots : Text
dots = codes ".."

-- strings.TrimPrefix(path, "/")
abbrev pub trim_slash : Text → Text
trim_slash [] = []
trim_slash (c ∷ s) = if c == slash then s else c ∷ s

-- filepath.Clean of a rooted path, by its parts: the parts kept so far are in `kept`, the last
-- one first.
unfoldable pub clean_parts : List Text → List Text → List Text
clean_parts kept [] = kept
clean_parts kept (p ∷ ps) =
    clean_parts
      (if is_empty p || p == codes "." then kept else if p == dots then tail kept else p ∷ kept) ps

-- filepath.Join of the root, clean and absolute, and a clean rooted path of these parts.
unfoldable pub join_root : Text → List Text → Text
join_root root [] = root
join_root root (p ∷ ps) =
    if root == codes "/"
    then root ++ join (codes "/") (p ∷ ps)
    else root ++ codes "/" ++ join (codes "/") (p ∷ ps)

-- resolve
unfoldable pub resolve : Text → Text → Result StoreError Text
resolve root path = do
  refuse_if (any (λ part. part == dots) (split slash path)) (outside path)
  let full = join_root root (reverse (clean_parts [] (split slash (codes "/" ++ trim_slash path))))
  refuse_if (not (full == root) && not (has_prefix full (root ++ codes "/"))) (outside path)
  ok full

abbrev pub Disk : Type 0
Disk = Text → Option Text

-- The disk with this in the place of a file.
abbrev pub leave : Disk → Text → Option Text → Disk
leave disk full content = λ p. if p == full then content else disk p

abbrev pub store : Disk → Text → Text → Disk
store disk full content = leave disk full (some content)

module _ (hash : Text → Version) (root : Text) where
  -- ReadFile
  unfoldable pub read_file : Disk → Text → Result StoreError StoredFile
  read_file disk path = do
    full ← resolve root path
    elim (disk full) [
      | none ↦ err (not_found path)
      | some content ↦ ok (record { path = path; content = content; version = hash content })
    ]

  -- The guard of Write on a file that is not the base.
  unfoldable pub check_base : ChangeOp → StoredFile → Result StoreError (Unit {0})
  check_base op current =
      if not (is_empty op.base_version) && not (current.version == op.base_version)
      then elim op.changed [
        | none ↦ ok tt
        | some f ↦ do changed ← f current.content; refuse_if changed conflict
      ]
      else ok tt

  -- Write before it compares: the file and what Apply makes of it.
  unfoldable pub prepared : Disk → ChangeOp → Result StoreError (StoredFile × Text)
  prepared disk op = do
    current ← read_file disk op.path
    check_base op current
    next ← op.apply current.content
    ok (current, next)

-- Whether the operating system refuses: os.WriteFile with what is then left of the file, os.Rename
-- of a file to a path, and os.MkdirAll for the folder of a path.
pub record Os : Type 0 where
  pub write_fault : Disk → Text → Text → Option (StoreError × Option Text)
  pub rename_fault : Disk → Text → Text → Option StoreError
  pub folder_fault : Disk → Text → Option StoreError

-- The path of the temporary file of writeAtomic.
unfoldable pub temporary : Text → Text
temporary path = path ++ codes ".tmp"

module _ (os : Os) where
  -- os.Rename: the file moves, over the one that is there.
  unfoldable pub rename_file : Disk → Text → Text → Result StoreError (Unit {0}) × Disk
  rename_file disk from to = elim (os.rename_fault disk from to) [
    | some e ↦ (err e, disk)
    | none ↦ (ok tt, leave (leave disk to (disk from)) from none)
  ]

  -- writeAtomic
  unfoldable pub write_atomic : Disk → Text → Text → Result StoreError (Unit {0}) × Disk
  write_atomic disk path content = elim (os.write_fault disk (temporary path) content) [
    | some (e, left) ↦ (err e, leave disk (temporary path) left)
    | none ↦ rename_file (store disk (temporary path) content) (temporary path) path
  ]

module _ (os : Os) (hash : Text → Version) (root : Text) where
  -- The end of Write, for a text that differs.
  unfoldable pub write_next :
      Disk → ChangeOp → StoredFile → Text → Text → Result StoreError Written × Disk
  write_next disk op current next full =
      let (r, after) = write_atomic os disk full next in
      (
        r >>= λ _. ok (record {
          version = hash next;
          retried = not (is_empty op.base_version) && not (current.version == op.base_version);
        }),
        after,
      )

  -- Write behind Apply.
  unfoldable pub finish_write :
      Disk → ChangeOp → StoredFile → Text → Result StoreError Written × Disk
  finish_write disk op current next =
      if next == current.content
      then (ok (record { version = current.version; retried = false }), disk)
      else elim (resolve root op.path) [
        | err e ↦ (err e, disk)
        | ok full ↦ write_next disk op current next full
      ]

  -- Write: the result and the disk that it leaves.
  unfoldable pub write : Disk → ChangeOp → Result StoreError Written × Disk
  write disk op = elim (prepared hash root disk op) [
    | err e ↦ (err e, disk)
    | ok p ↦ finish_write disk op (p.0) (p.1)
  ]

module _ (os : Os) (root : Text) where
  -- CreateFile on a full path.
  unfoldable pub create_at : Disk → Text → Text → Text → Result StoreError (Unit {0}) × Disk
  create_at disk path full content = elim (disk full) [
    | some _ ↦ (err (exists path), disk)
    | none ↦ elim (os.folder_fault disk full) [
      | some e ↦ (err e, disk)
      | none ↦ write_atomic os disk full content
    ]
  ]

  -- CreateFile: the result and the disk that it leaves.
  unfoldable pub create_file : Disk → Text → Text → Result StoreError (Unit {0}) × Disk
  create_file disk path content = elim (resolve root path) [
    | err e ↦ (err e, disk)
    | ok full ↦ create_at disk path full content
  ]
