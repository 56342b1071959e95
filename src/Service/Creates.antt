-- ===== src/Service/Creates.antt =====
-- Create, with the search for the key in the environment's files and the creation of a team's file.
use goff_studio.Base.{
  Bool, true, false, not, ◌&&◌, Option, none, some, List, [], ◌∷◌, contains, if◌then◌else◌, Text,
  text_eq, codes, trim_space, Result, ok, err,
}
use goff_studio.Auth.{Session}
use goff_studio.Config.{single_file}
use goff_studio.Storage.{StoredFile, StoreError}
use goff_studio.Service.{
  Failure, stale_view, invalid, duplicate_key, stored, no_flag_file, Change, Studio, from_adapter,
  identity_of,
}
use goff_studio.Service.Memory.{State, invalidate_environments}
use goff_studio.Service.Edits.{CreateRequest, has_key, commit_message, team_seed}
use goff_studio.Service.Contents.{create_path, check_create, build_create}
use goff_studio.Service.Steps.{
  Step, settle, give, recall, attempt, afterwards, forbid, ask, ◌>>=◌, ◌>>◌,
}
use goff_studio.Service.Writes.{SaveResult, saved, write, stale}

-- errors.Is(err, storage.ErrNotFound)
unfoldable pub is_missing {α} : {A : Type α} → Result Failure A → Bool
is_missing (err (stored (StoreError.not_found path))) = true
is_missing _ = false

unfoldable pub succeeded {α} : {A : Type α} → Result Failure A → Bool
succeeded (ok a) = true
succeeded (err e) = false

unfoldable pub refuse_taken : Text → Option Text → Result Failure (Unit {0})
refuse_taken key none = ok tt
refuse_taken key (some file) = err (duplicate_key key file)

-- What createTeamFile answers when CreateFile has failed: another may have created the file.
unfoldable pub after_race : Failure → Result Failure StoredFile → Result Failure Bool
after_race failure (ok f) = ok false
after_race failure (err e) = err failure

module _ {Number Value Time World : Type 0} (studio : Studio Number Value Time World) where
  -- locateKey: the first file that has the key, in a flag or in a broken one.
  unfoldable pub locate_key : List Text → Text → Step (State Number Value Time World) (Option Text)
  locate_key [] key = give none
  locate_key (file ∷ files) key = do
    f ← ask (studio.backend.read_file file)
    parsed ← settle (from_adapter (studio.adapter.parse file f.content))
    if has_key (parsed.0) (parsed.1) key then give (some file) else locate_key files key

  -- The end of prepareCreate, which looks at the environment's files.
  unfoldable pub check_free : CreateRequest Value → Step (State Number Value Time World) (Unit {0})
  check_free req = do
    files ← ask (studio.backend.list_files req.environment)
    forbid (not (contains files (create_path studio req)) && single_file studio.config)
        (invalid (no_flag_file req.environment (create_path studio req)))
    place ← locate_key files req.key
    settle (refuse_taken req.key place)

  -- prepareCreate
  unfoldable pub prepare_create :
      Session Time → CreateRequest Value → Step (State Number Value Time World) (Unit {0})
  prepare_create session req = do settle (check_create studio session.groups req); check_free req

  -- createTeamFile behind its CreateFile.
  unfoldable pub after_create :
      Text → Result Failure (Unit {0}) → Step (State Number Value Time World) Bool
  after_create file (ok _) = give true
  after_create file (err failure) = do
    again ← attempt (ask (studio.backend.read_file file))
    settle (after_race failure again)

  -- The end of createTeamFile, for a file that was missing.
  unfoldable pub create_missing :
      Session Time → Text → Text → Text → Step (State Number Value Time World) Bool
  create_missing session file content message = do
    made ← attempt (ask (studio.backend.create_file file content message (identity_of session)))
    after_create file made

  -- createTeamFile behind its ReadFile.
  unfoldable pub after_read :
      Session Time
      → Time
      → CreateRequest Value
      → Text
      → Text
      → Result Failure StoredFile
      → Step (State Number Value Time World) Bool
  after_read session now req file message (ok f) = give false
  after_read session now req file message (err failure) =
      if not (is_missing {A = StoredFile} (err failure)) then settle (err failure) else do
        content ←
            settle
              (build_create studio now req file (team_seed req.environment (trim_space req.team)))
        afterwards invalidate_environments (create_missing session file content message)

  -- createTeamFile: whether it has created the flag.
  unfoldable pub create_team_file :
      Session Time
      → Time
      → CreateRequest Value
      → Text
      → Text
      → Step (State Number Value Time World) Bool
  create_team_file session now req file message =
      if single_file studio.config then give false else do
        found ← attempt (ask (studio.backend.read_file file))
        after_read session now req file message found

  -- The ChangeOp of Create.
  unfoldable pub create_change : Time → CreateRequest Value → Text → Change
  create_change now req message = record {
    path = create_path studio req;
    key = req.key;
    base_version = req.file_sha;
    message = message;
    apply = build_create studio now req (create_path studio req);
    changed = λ _. ok false;
  }

  -- The end of Create, by what createTeamFile has answered.
  unfoldable pub end_create :
      Session Time
      → Time
      → CreateRequest Value
      → Text
      → Bool
      → Step (State Number Value Time World) SaveResult
  end_create session now req message true =
      give (saved studio (record { version = []; retried = false }))
  end_create session now req message false = do
    w ← write studio session (create_change now req message)
    give (saved studio w)

  -- Create behind prepareCreate.
  unfoldable pub perform_create :
      Session Time → Time → CreateRequest Value → Step (State Number Value Time World) SaveResult
  perform_create session now req = do
    is_stale ← recall (stale studio none (create_path studio req) req.file_sha)
    forbid is_stale stale_view
    let message = commit_message req.environment (create_path studio req) req.key (codes "created")
    created ← create_team_file session now req (create_path studio req) message
    end_create session now req message created

  -- Create
  unfoldable pub create_flag :
      Session Time → Time → CreateRequest Value → Step (State Number Value Time World) SaveResult
  create_flag session now req = do prepare_create session req; perform_create session now req
