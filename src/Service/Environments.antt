-- ===== src/Service/Environments.antt =====
-- The environments: the folders of the storage, found again after a while, and a new one.
use goff_studio.Base.{
  Bool, not, ◌||◌, Option, none, some, List, [], ◌∷◌, ◌++◌, contains, if◌then◌else◌, Text, text_eq,
  codes, is_empty, trim_space, trim_left_rune, trim_right_rune, has_prefix, sort_by, text_less,
  Result, ok, err,
}
use goff_studio.Auth.{Session}
use goff_studio.Config.{is_protected}
use goff_studio.Permissions.{view, create, allowed_anywhere, can_create_environments}
use goff_studio.Validate.{valid_environment}
use goff_studio.Service.{
  Failure, forbidden, invalid, environment_exists, Studio, environment_file, identity_of,
}
use goff_studio.Service.Memory.{State, invalidate_environments}
use goff_studio.Service.Checks.{lift_invalid}
use goff_studio.Service.Steps.{
  Step, settle, give, recall, attempt, afterwards, change, forbid, ask, ◌>>=◌, ◌>>◌,
}
use goff_studio.Service.Creates.{is_missing, succeeded}

-- Environment
pub record Environment : Type 0 where
  pub name : Text
  pub protected : Bool

-- strings.Trim(strings.TrimSpace(name), "/")
unfoldable pub trim_slashes : Text → Text
trim_slashes name = trim_right_rune b'/' (trim_left_rune b'/' (trim_space name))

module _ {Number Value Time World : Type 0} (studio : Studio Number Value Time World) where
  -- What a folder adds to the names, of what ListFiles has answered.
  unfoldable pub folder_names : Text → Result Failure (List Text) → Result Failure (List Text)
  folder_names dir (ok files) = ok (if is_empty files then [] else dir ∷ [])
  folder_names dir (err failure) =
      if is_missing {A = List Text} (err failure) then ok [] else err failure

  -- The loop of discoverEnvironments.
  unfoldable pub scan_folders : List Text → Step (State Number Value Time World) (List Text)
  scan_folders [] = give []
  scan_folders (dir ∷ dirs) =
      if has_prefix dir (codes ".") || not (succeeded (valid_environment_of dir))
      then scan_folders dirs
      else do
        files ← attempt (ask (studio.backend.list_files dir))
        here ← settle (folder_names dir files)
        rest ← scan_folders dirs
        give (here ++ rest)
    where
      valid_environment_of : Text → Result Failure (Unit {0})
      valid_environment_of name = lift_invalid (valid_environment name)

  -- discoverEnvironments
  unfoldable pub discover : Step (State Number Value Time World) (List Text)
  discover = do
    dirs ← attempt (ask (studio.backend.list_directories []))
    if is_missing dirs
        then give []
        else do found ← settle dirs; names ← scan_folders found; give (sort_by text_less names)

  -- The names that are kept, while they are fresh.
  unfoldable pub kept : Time → State Number Value Time World → Option (List Text)
  kept now s = elim s.environments [
    | none ↦ none
    | some (names, loaded_at) ↦ if studio.runtime.is_fresh now loaded_at then some names else none
  ]

  -- environmentNames
  unfoldable pub environment_names : Time → Step (State Number Value Time World) (List Text)
  environment_names now = do
    cached ← recall (kept now)
    elim cached [
      | some names ↦ give names
      | none ↦ do
        names ← discover
        change (λ s. record s { environments = some (names, now) })
        give names
    ]

  -- The loop of Environments.
  unfoldable pub visible : List Text → List Text → List Environment
  visible groups [] = []
  visible groups (name ∷ names) =
      let rest = visible groups names in
      if allowed_anywhere studio.permissions groups name view
      then record { name = name; protected = is_protected studio.config name } ∷ rest
      else rest

  -- Environments
  unfoldable pub environments :
      Session Time → Time → Step (State Number Value Time World) (List Environment)
  environments session now = do names ← environment_names now; give (visible session.groups names)

  -- CanCreateEnvironments
  unfoldable pub can_create : Session Time → Bool
  can_create session = can_create_environments (some studio.permissions) session.groups

  -- CreateEnvironment
  unfoldable pub create_environment :
      Session Time → Time → Text → Step (State Number Value Time World) (Unit {0})
  create_environment session now raw = do
    let name = trim_slashes raw
    settle (lift_invalid (valid_environment name))
    forbid (not (allowed_anywhere studio.permissions session.groups name create)) forbidden
    existing ← environment_names now
    forbid (contains existing name) (invalid (environment_exists name))
    afterwards invalidate_environments (
        ask (
          studio.backend.create_file (environment_file name)
            (codes "# Feature flags for "
              ++ name
              ++ codes ".\n# Managed by GO Feature Flag Studio.\n")
            (codes "[" ++ name ++ codes "] created environment") (identity_of session)))
