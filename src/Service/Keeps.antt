-- ===== src/Service/Keeps.antt =====
-- The steps of the service that only read: they leave the files as they are, however they end.
pub mod Sides
use goff_studio.Base.{
  contains, ◌&&◌, ◌||◌, any, ◌==◌, has_prefix, codes, sort_by, text_less, ◌≡◌, refl, sym, ap, ◌∙◌,
  Bool, true, false, not, Option, none, some, List, [], ◌∷◌, ◌++◌, if◌then◌else◌, Text, text_eq,
  Result, ok, err,
}
use goff_studio.Auth.{Session}
use goff_studio.Storage.{StoredFile}
use goff_studio.Permissions.{view, allowed_anywhere}
use goff_studio.Config.{single_file}
use goff_studio.Goff.{Flag}
use goff_studio.Validate.{valid_environment}
use goff_studio.Service.Checks.{lift_invalid}
use goff_studio.Service.{Failure, forbidden, invalid, no_flag_file, Studio, Broken, from_adapter}
use goff_studio.Service.Memory.{State}
use goff_studio.Service.Steps.{Step, settle, give, attempt, change, forbid, ask, ◌>>=◌, ◌>>◌}
use goff_studio.Service.Promises.{Lawful}
use goff_studio.Service.Listing.{gather_file, Gathered, gather, finish, list, find_view, get}
use goff_studio.Service.Creates.{
  is_missing, succeeded, locate_key, refuse_taken, check_free, prepare_create,
}
use goff_studio.Service.Removals.{check_unused}
use goff_studio.Service.Environments.{
  Environment, folder_names, scan_folders, discover, kept, environment_names, visible, environments,
}
use goff_studio.Service.Comparing.{CompareSide, side_of, compare_side}
use goff_studio.Service.Edits.{CreateRequest, has_key}
use goff_studio.Service.Contents.{create_path, check_create}
use goff_studio.Service.Memory.{remember}

module _ {Number Value Time World : Type 0} (content : World → Text → Option Text) where
  -- Whatever its outcome, the step leaves every file as it was.
  abbrev pub Keeps : {A : Type 0} → Step (State Number Value Time World) A → Type 0
  Keeps m = (s : State Number Value Time World) → content ((m s).1.world) ≡ content s.world

  pub >>=-Keeps :
      {A B : Type 0} (m : Step (State Number Value Time World) A)
      (rest : A → Step (State Number Value Time World) B)
      → Keeps m
      → ((a : A) → Keeps (rest a))
      → Keeps (m >>= rest)
  >>=-Keeps {A} {B} m rest k f s = by_outcome (m s) refl
    where
      by_outcome :
          (r : Result Failure A × State Number Value Time World)
          → m s ≡ r
          → content (
              (elim r.0 as (λ _. Result Failure B × State Number Value Time World) [
                | err e ↦ (err e, r.1)
                | ok a ↦ rest a (r.1)
              ]).1.world)
            ≡ content s.world
      by_outcome (err e, t) q = ap (λ x. content (x.1.world)) (sym q) ∙ k s
      by_outcome (ok a, t) q = f a t ∙ ap (λ x. content (x.1.world)) (sym q) ∙ k s

  pub if-Keeps :
      {A : Type 0} (b : Bool) (m n : Step (State Number Value Time World) A)
      → Keeps m
      → Keeps n
      → Keeps (if b then m else n)
  if-Keeps true m n k l = k
  if-Keeps false m n k l = l

module _ {Number Value Time World : Type 0} (studio : Studio Number Value Time World)
    {content : World → Text → Option Text} (lawful : Lawful studio.backend content) where
  read-Keeps :
      (file : Text)
      → Keeps {Number = Number} {Value = Value} {Time = Time} content
          (ask (studio.backend.read_file file))
  read-Keeps file s = lawful.read-keeps file s.world

  pub list_files-Keeps :
      (dir : Text)
      → Keeps {Number = Number} {Value = Value} {Time = Time} content
          (ask (studio.backend.list_files dir))
  list_files-Keeps dir s = lawful.list-keeps dir s.world

  pub locate_key-Keeps :
      (files : List Text) (key : Text) → Keeps content (locate_key studio files key)
  unfolding locate_key
  locate_key-Keeps [] key = λ s. refl
  locate_key-Keeps (file ∷ files) key =
      >>=-Keeps content (ask (studio.backend.read_file file))
        (λ f. do
          parsed ← settle (from_adapter (studio.adapter.parse file f.content))
          if has_key (parsed.0) (parsed.1) key
              then give (some file)
              else locate_key studio files key)
        (read-Keeps file)
        (λ f.
          >>=-Keeps content (settle (from_adapter (studio.adapter.parse file f.content)))
            (λ parsed.
              if has_key (parsed.0) (parsed.1) key
              then give (some file)
              else locate_key studio files key)
            (λ s. refl)
            (λ parsed.
              if-Keeps content (has_key (parsed.0) (parsed.1) key) (give (some file))
                (locate_key studio files key) (λ s. refl) (locate_key-Keeps files key)))

  pub check_unused-Keeps :
      (environment key : Text) → Keeps content (check_unused studio environment key)
  unfolding check_unused
  check_unused-Keeps environment key =
      >>=-Keeps content (ask (studio.backend.list_files environment))
        (λ files. do place ← locate_key studio files key; settle (refuse_taken key place))
        (list_files-Keeps environment)
        (λ files.
          >>=-Keeps content (locate_key studio files key) (λ place. settle (refuse_taken key place))
            (locate_key-Keeps files key) (λ place s. refl))

  check_free-Keeps : (req : CreateRequest Value) → Keeps content (check_free studio req)
  unfolding check_free
  check_free-Keeps req =
      let blocked = λ (files : List Text).
        not (contains files (create_path studio req)) && single_file studio.config in
      let complaint =
        λ (files : List Text). invalid (no_flag_file req.environment (create_path studio req)) in
      >>=-Keeps content (ask (studio.backend.list_files req.environment))
        (λ files. do
          forbid (blocked files) (complaint files)
          place ← locate_key studio files req.key
          settle (refuse_taken req.key place))
        (list_files-Keeps req.environment)
        (λ files.
          >>=-Keeps content (forbid (blocked files) (complaint files))
            (λ _. do place ← locate_key studio files req.key; settle (refuse_taken req.key place))
            (λ s. refl)
            (λ _.
              >>=-Keeps content (locate_key studio files req.key)
                (λ place. settle (refuse_taken req.key place)) (locate_key-Keeps files req.key)
                (λ place s. refl)))

  pub prepare_create-Keeps :
      (session : Session Time) (req : CreateRequest Value)
      → Keeps content (prepare_create studio session req)
  unfolding prepare_create
  prepare_create-Keeps session req =
      >>=-Keeps content (settle (check_create studio session.groups req))
        (λ _. check_free studio req) (λ s. refl) (λ _. check_free-Keeps req)

  gather-Keeps :
      (groups : List Text) (environment : Text) (files : List Text) (out : Gathered Number Value)
      → Keeps content (gather studio groups environment files out)
  unfolding gather remember
  gather-Keeps groups environment [] out = λ s. refl
  gather-Keeps groups environment (file ∷ files) out =
      let next = λ (stored : StoredFile) (parsed : List (Flag Number Value) × List Broken).
        gather studio groups environment files
          (gather_file studio groups environment stored file parsed out) in
      >>=-Keeps content (ask (studio.backend.read_file file))
        (λ stored. do
          parsed ← settle (from_adapter (studio.adapter.parse file stored.content))
          change (remember file stored.version (parsed.0))
          next stored parsed)
        (read-Keeps file)
        (λ stored.
          >>=-Keeps content (settle (from_adapter (studio.adapter.parse file stored.content)))
            (λ parsed. do change (remember file stored.version (parsed.0)); next stored parsed)
            (λ s. refl)
            (λ parsed.
              >>=-Keeps content (change (remember file stored.version (parsed.0)))
                (λ _. next stored parsed) (λ s. refl)
                (λ _.
                  gather-Keeps groups environment files
                    (gather_file studio groups environment stored file parsed out))))

  list-Keeps :
      (session : Session Time) (environment : Text)
      → Keeps content (list studio session environment)
  unfolding list
  list-Keeps session environment =
      let groups = session.groups in
      let start : Gathered Number Value = record { flags = []; broken = []; seen = [] } in
      let unseen = not (allowed_anywhere studio.permissions groups environment view) in
      let gathered = λ (files : List Text). (do
        out ← gather studio groups environment files start
        give (finish studio groups environment out)) in
      >>=-Keeps content (settle (lift_invalid (valid_environment environment)))
        (λ _. do
          forbid unseen forbidden
          files ← ask (studio.backend.list_files environment)
          gathered files)
        (λ s. refl)
        (λ _.
          >>=-Keeps content (forbid unseen forbidden)
            (λ _. do files ← ask (studio.backend.list_files environment); gathered files)
            (λ s. refl)
            (λ _.
              >>=-Keeps content (ask (studio.backend.list_files environment)) gathered
                (list_files-Keeps environment)
                (λ files.
                  >>=-Keeps content (gather studio groups environment files start)
                    (λ out. give (finish studio groups environment out))
                    (gather-Keeps groups environment files start) (λ out s. refl))))

  pub get-Keeps :
      (session : Session Time) (environment key : Text)
      → Keeps content (get studio session environment key)
  unfolding get
  get-Keeps session environment key =
      >>=-Keeps content (list studio session environment)
        (λ listed. settle (find_view listed.flags key)) (list-Keeps session environment)
        (λ listed s. refl)
