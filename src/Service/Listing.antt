-- ===== src/Service/Listing.antt =====
-- List and Get: the flags of an environment that the caller may view.
use goff_studio.Base.{
  Bool, not, ◌&&◌, none, some, List, [], ◌∷◌, ◌++◌, if◌then◌else◌, ◌==◌, Text, text_eq, codes,
  is_empty, sort_by, text_less, Result, ok, err,
}
use goff_studio.Auth.{Session}
use goff_studio.Config.{team_names}
use goff_studio.Goff.{Flag}
use goff_studio.Permissions.{Action, view, create, allowed, allowed_anywhere, actions_for}
use goff_studio.Storage.{StoredFile}
use goff_studio.Summary.{summarize}
use goff_studio.Validate.{valid_environment}
use goff_studio.Service.{
  Failure, forbidden, not_found, Broken, Studio, owner, access, team_file_for, from_adapter,
}
use goff_studio.Service.Memory.{State, look, put, remember}
use goff_studio.Service.Checks.{lift_invalid}
use goff_studio.Service.Edits.{may}
use goff_studio.Service.Steps.{Step, settle, give, change, forbid, ask, ◌>>=◌, ◌>>◌}

module _ (Number Value : Type 0) where
  -- FlagView
  pub record FlagView : Type 0 where
    pub flag : Flag Number Value
    pub actions : List Action
    pub summary : Text
    pub file_sha : Text
    pub unknown_team : Bool

  -- What List has gathered: `out.Flags`, `out.Broken` and the map `seen`.
  pub record Gathered : Type 0 where
    pub flags : List (FlagView)
    pub broken : List Broken
    pub seen : List (Text × Text)

-- TeamOption
pub record TeamOption : Type 0 where
  pub name : Text
  pub file : Text

module _ (Number Value : Type 0) where
  -- ListResult
  pub record ListResult : Type 0 where
    pub flags : List (FlagView Number Value)
    pub broken : List Broken
    pub teams : List TeamOption
    pub can_create : Bool

unfoldable pub also_defined : Text → Text → Text → Broken
also_defined key file first = record {
  key = key;
  file = file;
  reason =
      codes "also defined in " ++ first ++ codes "; flag keys must be unique within an environment";
}

module _ {Number Value : Type 0} where
  unfoldable pub key_less : FlagView Number Value → FlagView Number Value → Bool
  key_less a b = text_less a.flag.key b.flag.key

module _ {Number Value : Type 0} where
  -- The loop of Get.
  unfoldable pub find_view :
      List (FlagView Number Value) → Text → Result Failure (FlagView Number Value)
  find_view [] key = err not_found
  find_view (v ∷ vs) key = let later = find_view vs key in if v.flag.key == key then ok v else later

module _ {Number Value Time World : Type 0} (studio : Studio Number Value Time World) where
  -- The view of a flag whose team is known.
  unfoldable pub view_of :
      List Text → Text → Text → Text → Flag Number Value → FlagView Number Value
  view_of groups environment file version f =
      let team = owner studio.config file f.team in
      let owned = record f { team = team; environment = environment } in
      record {
        flag = owned;
        actions =
            actions_for (some studio.permissions) groups environment (access studio.config team);
        summary = summarize studio.runtime.printer owned;
        file_sha = version;
        unknown_team = not (is_empty team) && is_empty (access studio.config team);
      }

  -- The loop body of List for one flag: skipped, a duplicate, or listed.
  unfoldable pub gather_flag :
      List Text
      → Text
      → Text
      → Text
      → Flag Number Value
      → Gathered Number Value
      → Gathered Number Value
  gather_flag groups environment file version f out =
      if not (may studio groups environment (owner studio.config file f.team) view)
      then out
      else elim (look out.seen f.key) [
        | some first ↦ record out { broken = out.broken ++ also_defined f.key file first ∷ [] }
        | none ↦ record {
          flags = out.flags ++ view_of groups environment file version f ∷ [];
          broken = out.broken;
          seen = put f.key file out.seen;
        }
      ]

  unfoldable pub gather_flags :
      List Text
      → Text
      → Text
      → Text
      → List (Flag Number Value)
      → Gathered Number Value
      → Gathered Number Value
  gather_flags groups environment file version [] out = out
  gather_flags groups environment file version (f ∷ fs) out =
      gather_flags groups environment file version fs
        (gather_flag groups environment file version f out)

  -- What one file adds, its broken flags first.
  unfoldable pub gather_file :
      List Text
      → Text
      → StoredFile
      → Text
      → List (Flag Number Value) × List Broken
      → Gathered Number Value
      → Gathered Number Value
  gather_file groups environment stored file (flags, broken) out =
      let shown =
        if may studio groups environment (owner studio.config file []) view
        then out.broken ++ broken
        else out.broken in
      gather_flags groups environment file stored.version flags (record out { broken = shown })

  -- The loop of List over the files.
  unfoldable pub gather :
      List Text
      → Text
      → List Text
      → Gathered Number Value
      → Step (State Number Value Time World) (Gathered Number Value)
  gather groups environment [] out = give out
  gather groups environment (file ∷ files) out = do
    stored ← ask (studio.backend.read_file file)
    parsed ← settle (from_adapter (studio.adapter.parse file stored.content))
    change (remember file stored.version (parsed.0))
    gather groups environment files (gather_file groups environment stored file parsed out)

  -- The loop of List over the teams.
  unfoldable pub team_options : List Text → Text → List Text → List TeamOption
  team_options groups environment [] = []
  team_options groups environment (team ∷ teams) =
      let rest = team_options groups environment teams in
      if allowed (some studio.permissions)
        (record { groups = groups; environment = environment; team = team; action = create })
      then record { name = team; file = team_file_for studio.config environment team } ∷ rest
      else rest

  -- The end of List.
  unfoldable pub finish : List Text → Text → Gathered Number Value → ListResult Number Value
  finish groups environment out = record {
    flags = sort_by key_less out.flags;
    broken = out.broken;
    teams = team_options groups environment (team_names studio.config ++ [] ∷ []);
    can_create = allowed_anywhere studio.permissions groups environment create;
  }

  -- List
  unfoldable pub list :
      Session Time → Text → Step (State Number Value Time World) (ListResult Number Value)
  list session environment = do
    settle (lift_invalid (valid_environment environment))
    forbid (not (allowed_anywhere studio.permissions session.groups environment view)) forbidden
    files ← ask (studio.backend.list_files environment)
    out ← gather session.groups environment files (record { flags = []; broken = []; seen = [] })
    give (finish session.groups environment out)

  -- Get
  unfoldable pub get :
      Session Time → Text → Text → Step (State Number Value Time World) (FlagView Number Value)
  get session environment key = do
    listed ← list session environment
    settle (find_view listed.flags key)
