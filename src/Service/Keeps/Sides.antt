-- ===== src/Service/Keeps/Sides.antt =====
-- That the environments and the sides of a comparison are only read.
use goff_studio.Base.{
  ◌||◌, any, ◌==◌, has_prefix, codes, sort_by, text_less, ◌≡◌, refl, Bool, not, Option, none, some,
  List, [], ◌∷◌, ◌++◌, if◌then◌else◌, Text, text_eq, Result,
}
use goff_studio.Auth.{Session}
use goff_studio.Validate.{valid_environment}
use goff_studio.Service.Checks.{lift_invalid}
use goff_studio.Service.{Failure, forbidden, Studio}
use goff_studio.Service.Memory.{State}
use goff_studio.Service.Steps.{Step, settle, give, attempt, change, forbid, ask, ◌>>=◌, ◌>>◌}
use goff_studio.Service.Promises.{Lawful}
use goff_studio.Service.Listing.{get}
use goff_studio.Service.Creates.{is_missing, succeeded}
use goff_studio.Service.Environments.{
  Environment, folder_names, scan_folders, discover, kept, environment_names, visible, environments,
}
use goff_studio.Service.Comparing.{CompareSide, side_of, compare_side}
use goff_studio.Service.Keeps.{Keeps, >>=-Keeps, if-Keeps, list_files-Keeps, get-Keeps}

module _ {Number Value Time World : Type 0} (studio : Studio Number Value Time World)
    {content : World → Text → Option Text} (lawful : Lawful studio.backend content) where
  scan_folders-Keeps : (dirs : List Text) → Keeps content (scan_folders studio dirs)
  unfolding scan_folders
  scan_folders-Keeps [] = λ s. refl
  scan_folders-Keeps (dir ∷ dirs) =
      if-Keeps content
        (has_prefix dir (codes ".") || not (succeeded (lift_invalid (valid_environment dir))))
        (scan_folders studio dirs) (attempt (ask (studio.backend.list_files dir)) >>= scanned)
        (scan_folders-Keeps dirs)
        (>>=-Keeps content (attempt (ask (studio.backend.list_files dir))) scanned
          (list_files-Keeps studio lawful dir)
          (λ files.
            >>=-Keeps content (settle (folder_names studio dir files)) joined (λ s. refl)
              (λ here.
                >>=-Keeps content (scan_folders studio dirs) (λ rest. give (here ++ rest))
                  (scan_folders-Keeps dirs) (λ rest s. refl))))
    where
      joined : List Text → Step (State Number Value Time World) (List Text)
      joined here = do rest ← scan_folders studio dirs; give (here ++ rest)

      scanned : Result Failure (List Text) → Step (State Number Value Time World) (List Text)
      scanned files = do here ← settle (folder_names studio dir files); joined here

  discover-Keeps : Keeps content (discover studio)
  unfolding discover
  discover-Keeps =
      >>=-Keeps content (attempt (ask (studio.backend.list_directories []))) listed
        (λ s. lawful.folders-keep [] s.world)
        (λ dirs.
          if-Keeps content (is_missing dirs) (give []) (found dirs) (λ s. refl)
            (>>=-Keeps content (settle dirs) scanned (λ s. refl)
              (λ names.
                >>=-Keeps content (scan_folders studio names) (λ out. give (sort_by text_less out))
                  (scan_folders-Keeps names) (λ out s. refl))))
    where
      scanned : List Text → Step (State Number Value Time World) (List Text)
      scanned names = do out ← scan_folders studio names; give (sort_by text_less out)

      found : Result Failure (List Text) → Step (State Number Value Time World) (List Text)
      found dirs = do names ← settle dirs; scanned names

      listed : Result Failure (List Text) → Step (State Number Value Time World) (List Text)
      listed dirs = if is_missing dirs then give [] else found dirs

  environment_names-Keeps : (now : Time) → Keeps content (environment_names studio now)
  unfolding environment_names
  environment_names-Keeps now s = by_cache (kept studio now s)
    where
      renewed : List Text → Step (State Number Value Time World) (List Text)
      renewed names = do change (λ s. record s { environments = some (names, now) }); give names

      by_cache :
          (cached : Option (List Text))
          → content (
              (elim cached as (λ _. Step (State Number Value Time World) (List Text)) [
                | some names ↦ give names
                | none ↦ discover studio >>= renewed
              ]
                s).1.world)
            ≡ content s.world
      by_cache (some names) = refl
      by_cache none = >>=-Keeps content (discover studio) renewed discover-Keeps (λ names s. refl) s

  pub environments-Keeps :
      (session : Session Time) (now : Time) → Keeps content (environments studio session now)
  unfolding environments
  environments-Keeps session now =
      >>=-Keeps content (environment_names studio now)
        (λ names. give (visible studio session.groups names)) (environment_names-Keeps now)
        (λ names s. refl)

  pub compare_side-Keeps :
      (session : Session Time) (now : Time) (key environment : Text)
      → Keeps content (compare_side studio session now key environment)
  unfolding compare_side
  compare_side-Keeps session now key environment =
      >>=-Keeps content (environments studio session now) looked (environments-Keeps session now)
        (λ known.
          >>=-Keeps content (forbid (hidden known) forbidden) (λ _. side) (λ s. refl)
            (λ _.
              >>=-Keeps content (attempt (get studio session environment key))
                (λ found. settle (side_of environment found))
                (get-Keeps studio lawful session environment key) (λ found s. refl)))
    where
      hidden : List Environment → Bool
      hidden known = not (any (λ e. e.name == environment) known)

      side : Step (State Number Value Time World) (CompareSide Number Value)
      side = do
        found ← attempt (get studio session environment key)
        settle (side_of environment found)

      looked : List Environment → Step (State Number Value Time World) (CompareSide Number Value)
      looked known = do forbid (hidden known) forbidden; side
