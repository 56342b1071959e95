-- ===== src/Service/Files.antt =====
-- The backend of internal/storage/file.go as the service's storage. What the operating system lists
-- of a folder is a parameter, since a disk is a function from paths to contents.
use goff_studio.Base.{
  ◌≡◌, refl, sym, ap, ◌∙◌, inl, inr, Bool, false, Option, none, some, List, [], Text, text_eq,
  Option-cases, Result, ok, err,
}
use goff_studio.Storage.{Version, Written, StoreError, rejected, ChangeOp}
use goff_studio.Storage.FileBackend as F
use goff_studio.Storage.FileBackend.{Disk, Os, resolve, read_file, create_at, create_file}
use goff_studio.Storage.FileBackend.Atomic.{
  temporary-differs, write_atomic-error, write_atomic-Swapped,
}
use goff_studio.Storage.FileBackend.Rewrite.{
  Agrees, read_file-eq-ok, read_file-of_disk, write-Rewrites,
}
use goff_studio.Service.{Failure, stored, Change, Backend}
use goff_studio.Service.Promises.{UpToDate, Lawful}

-- A callback as the backend calls it. Its error has no text there; `write_error` finds it again.
unfoldable pub as_rejected {α} : {A : Type α} → Result Failure A → Result StoreError A
as_rejected (err failure) = err (rejected [])
as_rejected (ok value) = ok value

-- The service's change, as the backend takes it.
unfoldable pub op_of : Change → ChangeOp
op_of op = record {
  path = op.path;
  base_version = op.base_version;
  apply = λ c. as_rejected (op.apply c);
  changed = some (λ c. as_rejected (op.changed c));
  max_attempts = 0;
}

unfoldable pub as_stored {α} : {A : Type α} → Result StoreError A → Result Failure A
as_stored (err e) = err (stored e)
as_stored (ok value) = ok value

-- The first error of the two callbacks on a content, Changed being asked first.
unfoldable pub callback_error : Change → Text → Option Failure
callback_error op content = elim (op.changed content) [
  | err failure ↦ some failure
  | ok _ ↦ elim (op.apply content) [ err failure ↦ some failure | ok _ ↦ none ]
]

module _ (hash : Text → Version) (root : Text) where
  -- A write's error, with the error of the callback that it stands for.
  unfoldable pub write_error : Disk → Change → StoreError → Failure
  write_error disk op (rejected message) = elim (read_file hash root disk op.path) [
    | err e ↦ stored e
    | ok f ↦ elim (callback_error op f.content) [
      | some failure ↦ failure
      | none ↦ stored (rejected message)
    ]
  ]
  write_error disk op e = stored e

  unfoldable pub file_write :
      Disk → Change → Result StoreError Written × Disk → Result Failure Written × Disk
  file_write disk op (err e, after) = (err (write_error disk op e), after)
  file_write disk op (ok w, after) = (ok w, after)

  unfoldable pub files : Os → (Text → Disk → Result Failure (List Text)) → Backend Disk
  files os listing = record {
    has_history = false;
    read_file = λ path disk. (as_stored (read_file hash root disk path), disk);
    list_files = λ dir disk. (listing dir disk, disk);
    list_directories = λ dir disk. (listing dir disk, disk);
    write = λ op who disk. file_write disk op (F.write os hash root disk (op_of op));
    create_file = λ path text message who disk.
        let (r, after) = create_file os root disk path text in (as_stored r, after);
    history = λ path limit disk. (ok [], disk);
  }

unfoldable pub text_in : Disk → Result StoreError Text → Option Text
text_in disk (err e) = none
text_in disk (ok full) = disk full

-- The text of the file that a path names.
unfoldable pub text_at : Text → Disk → Text → Option Text
text_at root disk path = text_in disk (resolve root path)

as_rejected-ok : (r : Result Failure Text) {a : Text} → as_rejected r ≡ ok a → r ≡ ok a
unfolding as_rejected
as_rejected-ok (err e) h = cc
as_rejected-ok (ok b) h = cc

as_rejected-false : (r : Result Failure Bool) → as_rejected r ≡ ok false → r ≡ ok false
unfolding as_rejected
as_rejected-false (err e) h = cc h
as_rejected-false (ok b) h = cc h

some-same : {A : Type 0} {a b : A} → some a ≡ some b → a ≡ b
some-same h = cc h

as_stored-ok : {A : Type 0} (r : Result StoreError A) {a : A} → as_stored r ≡ ok a → r ≡ ok a
unfolding as_stored
as_stored-ok (err e) h = cc h
as_stored-ok (ok b) h = cc h

as_stored-err :
    {A : Type 0} (r : Result StoreError A) {e : Failure}
    → as_stored r ≡ err e
    → (x : StoreError) × (r ≡ err x)
unfolding as_stored
as_stored-err (err x) h = (x, refl)
as_stored-err (ok b) h = absurd (cc h)

module _ (hash : Text → Version) (root : Text) where
  file_write-ok :
      (disk after : Disk) (op : Change) (r : Result StoreError Written × Disk) (w : Written)
      → file_write hash root disk op r ≡ (ok w, after)
      → r ≡ (ok w, after)
  unfolding file_write
  file_write-ok disk after op (err e, d) w h = absurd (cc (ap (λ x. x.0) h))
  file_write-ok disk after op (ok w', d) w h = cc (ap (λ x. x.0) h, ap (λ x. x.1) h)

  text_at-of_resolve :
      (disk : Disk) (path full : Text)
      → resolve root path ≡ ok full
      → text_at root disk path ≡ disk full
  unfolding text_at text_in
  text_at-of_resolve disk path full r = ap (text_in disk) r

  module _ (os : Os) where
    create_at-ok :
        (disk : Disk) (path full text : Text)
        → (create_at os root disk path full text).0 ≡ ok tt
        → (disk full ≡ none) × ((create_at os root disk path full text).1 full ≡ some text)
    unfolding create_at
    create_at-ok disk path full text h = elim (Option-cases (disk full)) [
      | inr (c, e) ↦ absurd (cc (rw (create_at, e) at h))
      | inl e ↦ elim (Option-cases (os.folder_fault disk full)) [
        | inr (x, f) ↦ absurd (cc (rw (create_at, e, f) at h))
        | inl f ↦ (
          e,
          rw (create_at, e, f)
              (write_atomic-Swapped os disk full text (rw (create_at, e, f) at h)).now,
        )
      ]
    ]

    create_file-ok :
        (disk : Disk) (path text : Text)
        → (create_file os root disk path text).0 ≡ ok tt
        → (text_at root disk path ≡ none)
          × (text_at root ((create_file os root disk path text).1) path ≡ some text)
    unfolding create_file
    create_file-ok disk path text h = by_path (resolve root path) refl
      where
        by_path :
            (r : Result StoreError Text)
            → resolve root path ≡ r
            → (text_at root disk path ≡ none)
              × (text_at root ((create_file os root disk path text).1) path ≡ some text)
        by_path (err e) q = absurd (cc (rw (create_file, q) at h))
        by_path (ok full) q =
            let (n, t) = create_at-ok disk path full text (rw (create_file, q) at h) in
            (
              text_at-of_resolve disk path full q ∙ n,
              text_at-of_resolve ((create_file os root disk path text).1) path full q
                  ∙ rw (create_file, q) t,
            )

    create_at-error :
        (disk : Disk) (path full text : Text) {e : StoreError}
        → (create_at os root disk path full text).0 ≡ err e
        → (create_at os root disk path full text).1 full ≡ disk full
    unfolding create_at
    create_at-error disk path full text h = elim (Option-cases (disk full)) [
      | inr (c, e) ↦ rw (create_at, e) e
      | inl e ↦ elim (Option-cases (os.folder_fault disk full)) [
        | inr (x, f) ↦ rw (create_at, e, f) e
        | inl f ↦
            rw (create_at, e, f)
              (write_atomic-error os disk full text full (rw (create_at, e, f) at h)
                  (temporary-differs full)
                ∙ e)
      ]
    ]

    create_file-error :
        (disk : Disk) (path text : Text) {e : StoreError}
        → (create_file os root disk path text).0 ≡ err e
        → text_at root ((create_file os root disk path text).1) path ≡ text_at root disk path
    unfolding create_file
    create_file-error disk path text {e} h = by_path (resolve root path) refl
      where
        by_path :
            (r : Result StoreError Text)
            → resolve root path ≡ r
            → text_at root ((create_file os root disk path text).1) path ≡ text_at root disk path
        by_path (err x) q = rw (create_file, q) refl
        by_path (ok full) q =
            text_at-of_resolve ((create_file os root disk path text).1) path full q
            ∙ rw (create_file, q) (create_at-error disk path full text (rw (create_file, q) at h))
            ∙ sym (text_at-of_resolve disk path full q)

    up_to_date :
        (listing : Text → Disk → Result Failure (List Text)) (disk : Disk) (op : Change)
        → (full content : Text) → resolve root op.path ≡ ok full
        → disk full ≡ some content
        → Agrees hash root (op_of op) content
        → UpToDate (files hash root os listing) op content disk
    unfolding files op_of as_stored
    up_to_date listing disk op full content r d (inl e) = inl e
    up_to_date listing disk op full content r d (inr (inl e)) = inr (
        inl (
          record { path = op.path; content = content; version = hash content },
          ap as_stored (read_file-of_disk hash root disk op.path full content r d),
          e,
        ))
    up_to_date listing disk op full content r d (inr (inr (inl e))) = absurd (cc e)
    up_to_date listing disk op full content r d (inr (inr (inr (f, e, q)))) =
        inr (inr (as_rejected-false (op.changed content) (ap (λ g. g content) (some-same e) ∙ q)))

    -- The file backend keeps the promises of a backend, for the texts that its paths name, whatever
    -- the operating system refuses.
    pub files-Lawful :
        (listing : Text → Disk → Result Failure (List Text))
        → Lawful (files hash root os listing) (text_at root)
    unfolding files op_of
    files-Lawful listing = record {
      write-ok = λ op who disk after w h.
          let r =
            write-Rewrites hash root os disk after (op_of op) w
              (file_write-ok disk after op _ w h) in
          (
            r.content,
            r.next,
            text_at-of_resolve disk op.path r.full r.resolved ∙ r.was,
            up_to_date listing disk op r.full r.content r.resolved r.was r.agrees,
            as_rejected-ok (op.apply r.content) r.applied,
            text_at-of_resolve after op.path r.full r.resolved ∙ r.now,
          );
      create-ok = λ path text message who disk after h.
          let (n, t) = create_file-ok disk path text (as_stored-ok _ (ap (λ x. x.0) h)) in
          (n, ap (λ x. text_at root (x.1) path) (sym h) ∙ t);
      create-error = λ path text message who disk after e h.
          let (x, f) = as_stored-err _ (ap (λ y. y.0) h) in
          ap (λ y. text_at root (y.1) path) (sym h) ∙ create_file-error disk path text f;
      read-ok = λ path disk after f h.
          let (full, r, d, v) =
            read_file-eq-ok hash root disk path f (as_stored-ok _ (ap (λ x. x.0) h)) in
          text_at-of_resolve disk path full r ∙ d;
      read-keeps = λ path disk. refl;
      list-keeps = λ dir disk. refl;
      folders-keep = λ dir disk. refl;
    }
