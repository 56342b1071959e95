-- ===== src/Service/Removals.antt =====
-- Delete, Rename and SaveVariations, which begin with the flag that Get finds.
use goff_studio.Base.{
  Bool, not, Option, none, ◌++◌, if◌then◌else◌, ◌==◌, Text, text_eq, codes, is_empty, trim_space,
}
use goff_studio.Auth.{Session}
use goff_studio.Goff.{Flag}
use goff_studio.Permissions.{Action, create, delete, edit_variations}
use goff_studio.Service.{forbidden, stale_view, invalid, key_unchanged, Change, Studio}
use goff_studio.Service.Memory.{State}
use goff_studio.Service.Checks.{valid_key}
use goff_studio.Service.Edits.{VariationsRequest, commit_message, may, flag_changed}
use goff_studio.Service.Contents.{apply_delete, apply_rename, build_variations}
use goff_studio.Service.Steps.{Step, settle, give, recall, forbid, ask, ◌>>=◌, ◌>>◌}
use goff_studio.Service.Listing.{FlagView, get}
use goff_studio.Service.Writes.{SaveResult, saved, write, stale}
use goff_studio.Service.Creates.{locate_key, refuse_taken}

module _ {Number Value Time World : Type 0} (studio : Studio Number Value Time World) where
  -- scopeOf is `access` of the view's team: whether the caller may act on the flag in view.
  unfoldable pub may_on : Session Time → Text → FlagView Number Value → Action → Bool
  may_on session environment v action = may studio session.groups environment v.flag.team action

  -- The ChangeOp of Delete.
  unfoldable pub delete_change :
      Text → Text → Text → Option (Flag Number Value) → FlagView Number Value → Change
  delete_change environment key sha loaded v = record {
    path = v.flag.file;
    key = key;
    base_version = sha;
    message = commit_message environment v.flag.file key (codes "deleted");
    apply = apply_delete studio key;
    changed = flag_changed studio v.flag.file key loaded;
  }

  -- Delete behind Get.
  unfoldable pub delete_viewed :
      Session Time
      → Text
      → Text
      → Text
      → Option (Flag Number Value)
      → FlagView Number Value
      → Step (State Number Value Time World) SaveResult
  delete_viewed session environment key sha loaded v = do
    forbid (not (may_on session environment v delete)) forbidden
    is_stale ← recall (stale studio loaded v.flag.file sha)
    forbid is_stale stale_view
    w ← write studio session (delete_change environment key sha loaded v)
    give (saved studio w)

  -- Delete
  unfoldable pub delete_flag :
      Session Time
      → Text
      → Text
      → Text
      → Option (Flag Number Value)
      → Step (State Number Value Time World) SaveResult
  delete_flag session environment key sha loaded = do
    v ← get studio session environment key
    delete_viewed session environment key sha loaded v

  -- The ChangeOp of Rename.
  unfoldable pub rename_change : Time → Text → Text → Text → Text → FlagView Number Value → Change
  rename_change now environment key new_key sha v = record {
    path = v.flag.file;
    key = key;
    base_version = sha;
    message = commit_message environment v.flag.file key (codes "renamed to " ++ new_key);
    apply = apply_rename studio now v.flag.file key new_key;
    changed = flag_changed studio v.flag.file key none;
  }

  -- The check of Rename and DiffRename that no file of the environment has the new key.
  unfoldable pub check_unused : Text → Text → Step (State Number Value Time World) (Unit {0})
  check_unused environment new_key = do
    files ← ask (studio.backend.list_files environment)
    place ← locate_key studio files new_key
    settle (refuse_taken new_key place)

  -- Rename behind Get.
  unfoldable pub rename_viewed :
      Session Time
      → Time
      → Text
      → Text
      → Text
      → Text
      → FlagView Number Value
      → Step (State Number Value Time World) SaveResult
  rename_viewed session now environment key new_key sha v = do
    settle (valid_key new_key)
    forbid (new_key == key) (invalid key_unchanged)
    forbid (not (may_on session environment v create)) forbidden
    forbid (not (may_on session environment v delete)) forbidden
    is_stale ← recall (stale studio none v.flag.file sha)
    forbid is_stale stale_view
    check_unused environment new_key
    w ← write studio session (rename_change now environment key new_key sha v)
    give (saved studio w)

  -- Rename
  unfoldable pub rename :
      Session Time
      → Time
      → Text
      → Text
      → Text
      → Text
      → Step (State Number Value Time World) SaveResult
  rename session now environment key raw sha = do
    v ← get studio session environment key
    rename_viewed session now environment key (trim_space raw) sha v

  -- The request of SaveVariations with the file and the type of the flag in view.
  unfoldable pub completed :
      VariationsRequest Number Value → FlagView Number Value → VariationsRequest Number Value
  completed req v = record req {
    file = v.flag.file;
    value_type = if is_empty req.value_type then v.flag.value_type else req.value_type;
  }

  -- The ChangeOp of SaveVariations.
  unfoldable pub variations_change :
      Time → VariationsRequest Number Value → FlagView Number Value → Change
  variations_change now req v = record {
    path = v.flag.file;
    key = req.key;
    base_version = req.file_sha;
    message = commit_message req.environment v.flag.file req.key (codes "updated variations");
    apply = build_variations studio now (completed req v);
    changed = flag_changed studio v.flag.file req.key req.loaded_flag;
  }

  -- SaveVariations behind Get.
  unfoldable pub save_viewed :
      Session Time
      → Time
      → VariationsRequest Number Value
      → FlagView Number Value
      → Step (State Number Value Time World) SaveResult
  save_viewed session now req v = do
    forbid (not (may_on session req.environment v edit_variations)) forbidden
    is_stale ← recall (stale studio req.loaded_flag v.flag.file req.file_sha)
    forbid is_stale stale_view
    w ← write studio session (variations_change now req v)
    give (saved studio w)

  -- SaveVariations
  unfoldable pub save_variations :
      Session Time
      → Time
      → VariationsRequest Number Value
      → Step (State Number Value Time World) SaveResult
  save_variations session now req = do
    v ← get studio session req.environment req.key
    save_viewed session now req v
