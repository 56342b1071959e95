-- ===== src/Service/Writes.antt =====
-- Save, and how the service writes a file.
use goff_studio.Base.{
  ℕ, Bool, true, false, not, ◌&&◌, Option, none, some, List, [], if◌then◌else◌, Text, text_eq,
  is_empty,
}
use goff_studio.Auth.{Session}
use goff_studio.Config.{single_file}
use goff_studio.Goff.{Flag}
use goff_studio.Permissions.{allowed_anywhere}
use goff_studio.Storage.{Written}
use goff_studio.Service.{forbidden, stale_view, Change, Studio, owner, identity_of}
use goff_studio.Service.Memory.{State, known_sha, invalidate_teams}
use goff_studio.Service.Edits.{SaveRequest, commit_message, may, apply_save, flag_changed}
use goff_studio.Service.Steps.{Step, give, recall, afterwards, forbid, ask, ◌>>=◌, ◌>>◌}

-- SaveResult, with the seconds that its message names.
pub record SaveResult : Type 0 where
  pub commit : Text
  pub retried : Bool
  pub live_within : ℕ

unfoldable pub is_none {α} : {A : Type α} → Option A → Bool
is_none none = true
is_none (some a) = false

module _ {Number Value Time World : Type 0} (studio : Studio Number Value Time World) where
  -- saved
  unfoldable pub saved : Written → SaveResult
  saved w = record {
    commit = w.version;
    retried = w.retried;
    live_within = studio.config.poll_seconds;
  }

  -- write
  unfoldable pub write : Session Time → Change → Step (State Number Value Time World) Written
  write session op =
      afterwards invalidate_teams (ask (studio.backend.write op (identity_of session)))

  -- The guard of Save: in the single-file layout the team is only checked in `apply`.
  unfoldable pub may_save : List Text → SaveRequest Number Value → Bool
  may_save groups req =
      if single_file studio.config
      then allowed_anywhere studio.permissions groups req.environment req.action
      else may studio groups req.environment (owner studio.config req.file []) req.action

  -- The guard against a view that the service does not know.
  unfoldable pub stale :
      Option (Flag Number Value) → Text → Text → State Number Value Time World → Bool
  stale loaded file sha s = is_none loaded && not (is_empty sha) && not (known_sha file sha s)

  -- The ChangeOp of Save.
  unfoldable pub save_change : List Text → Time → SaveRequest Number Value → Change
  save_change groups now req = record {
    path = req.file;
    key = req.key;
    base_version = req.file_sha;
    message = commit_message req.environment req.file req.key req.summary;
    apply = apply_save studio groups now req;
    changed = flag_changed studio req.file req.key req.loaded_flag;
  }

  -- Save
  unfoldable pub save :
      Session Time
      → Time
      → SaveRequest Number Value
      → Step (State Number Value Time World) SaveResult
  save session now req = do
    forbid (not (may_save session.groups req)) forbidden
    is_stale ← recall (stale req.loaded_flag req.file req.file_sha)
    forbid is_stale stale_view
    w ← write session (save_change session.groups now req)
    give (saved w)
