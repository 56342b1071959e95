-- ===== src/Service/Promises.antt =====
-- What the service relies on in a storage backend, and what it makes of a write.
use goff_studio.Base.{◌≡◌, ◌⊎◌, false, Option, none, some, [], Text, ok, err}
use goff_studio.Storage.{StoredFile, Written}
use goff_studio.Service.{Failure, Change, Identity, Backend}

module _ {World : Type 0} (backend : Backend World) where
  -- The change was asked for without a version, or for the version that the file has, or the flag
  -- has not changed in the text of the file.
  abbrev pub UpToDate : Change → Text → World → Type 0
  UpToDate op before w =
      (op.base_version ≡ [])
      ⊎ ((f : StoredFile) × ((backend.read_file op.path w).0 ≡ ok f)
          × (f.version ≡ op.base_version))
      ⊎ (op.changed before ≡ ok false)

  -- A backend whose files `content` gives. A write that succeeds was up to date and has put Apply's
  -- result for the file's text in its place; a file that was created was not there and has the text
  -- it was created with, and is as it was where its creation fails; a file that is read has the text that is there; reading and listing leave
  -- the files as they are.
  pub record Lawful (content : World → Text → Option Text) : Type 0 where
    pub write-ok :
        (op : Change) (who : Identity) (w w' : World) (written : Written)
        → backend.write op who w ≡ (ok written, w')
        → (before : Text) × (after : Text) × (content w op.path ≡ some before)
          × UpToDate op before w
          × (op.apply before ≡ ok after)
          × (content w' op.path ≡ some after)
    pub create-ok :
        (path text message : Text) (who : Identity) (w w' : World)
        → backend.create_file path text message who w ≡ (ok tt, w')
        → (content w path ≡ none) × (content w' path ≡ some text)
    pub create-error :
        (path text message : Text) (who : Identity) (w w' : World) (e : Failure)
        → backend.create_file path text message who w ≡ (err e, w')
        → content w' path ≡ content w path
    pub read-ok :
        (path : Text) (w w' : World) (f : StoredFile)
        → backend.read_file path w ≡ (ok f, w')
        → content w path ≡ some f.content
    pub read-keeps : (path : Text) (w : World) → content ((backend.read_file path w).1) ≡ content w
    pub list-keeps : (dir : Text) (w : World) → content ((backend.list_files dir w).1) ≡ content w
    pub folders-keep :
        (dir : Text) (w : World) → content ((backend.list_directories dir w).1) ≡ content w
