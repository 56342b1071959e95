-- ===== src/Service/Edits.antt =====
-- What the service does to the text of a file: the functions that it gives a backend as Apply and
-- Changed. An action's mutation of the flag is an argument, as it is in SaveRequest.
use goff_studio.Base.{
  Bool, true, false, not, ◌||◌, Option, none, some, List, [], ◌∷◌, ◌++◌, any, if◌then◌else◌, ◌==◌,
  Text, text_eq, codes, is_empty, trim_space, trim_suffix, Result, ok, err, ◌>>=◌, ◌>>◌, refuse_if,
}
use goff_studio.Config.{single_file}
use goff_studio.Goff.{Variation, Flag}
use goff_studio.Permissions.{Action, create, delete, allowed}
use goff_studio.Service.{
  Failure, forbidden, not_found, invalid, invalid_file, Broken, Runtime, Studio, access, path_base,
  from_adapter, not_renamed,
}
use goff_studio.Service.Memory.{look, put}
use goff_studio.Service.Checks.{valid_team, same_flag_state}

-- The parts of SaveRequest that the change itself reads.
module _ (Number Value : Type 0) where
  pub record SaveRequest : Type 0 where
    pub environment : Text
    pub key : Text
    pub file : Text
    pub file_sha : Text
    pub loaded_flag : Option (Flag Number Value)
    pub action : Action
    pub mutate : Flag Number Value → Flag Number Value
    pub summary : Text

  -- VariationsRequest
  pub record VariationsRequest : Type 0 where
    pub environment : Text
    pub key : Text
    pub file : Text
    pub file_sha : Text
    pub value_type : Text
    pub variations : List (Variation Value)
    pub default : Text
    pub loaded_flag : Option (Flag Number Value)

module _ (Value : Type 0) where
  -- CreateRequest
  pub record CreateRequest : Type 0 where
    pub environment : Text
    pub key : Text
    pub team : Text
    pub file_sha : Text
    pub value_type : Text
    pub variations : List (Variation Value)
    pub default : Text
    pub enabled : Bool
    pub description : Text

-- The first flag of the key, and the loops that look for one.
module _ {Number Value : Type 0} where
  unfoldable pub find_flag : List (Flag Number Value) → Text → Option (Flag Number Value)
  find_flag [] key = none
  find_flag (f ∷ fs) key = let later = find_flag fs key in if f.key == key then some f else later

  unfoldable pub or_not_found : Option (Flag Number Value) → Result Failure (Flag Number Value)
  or_not_found none = err not_found
  or_not_found (some f) = ok f

  -- The loops of locateKey and buildCreate over what a file was parsed to.
  unfoldable pub has_key : List (Flag Number Value) → List Broken → Text → Bool
  has_key flags broken key = any (λ f. f.key == key) flags || any (λ b. b.key == key) broken

-- The error of RenameKey, as Apply of Rename passes it on.
unfoldable pub or_not_renamed : Result Text Text → Result Failure Text
or_not_renamed (err message) = err (invalid (not_renamed message))
or_not_renamed (ok next) = ok next

abbrev pub created_at : Text
created_at = codes "createdAt"

abbrev pub updated_at : Text
updated_at = codes "updatedAt"

-- `area` of commitMessage.
unfoldable pub area_of : Text → Text
area_of file =
    trim_suffix (trim_suffix (trim_suffix (path_base file) (codes ".goff.yaml")) (codes ".yaml"))
      (codes ".yml")

-- commitMessage
unfoldable pub commit_message : Text → Text → Text → Text → Text
commit_message environment file key summary =
    codes "["
    ++ environment
    ++ codes "] "
    ++ area_of file
    ++ codes "/"
    ++ key
    ++ codes ": "
    ++ summary

-- teamSeed
unfoldable pub team_seed : Text → Text → Text
team_seed environment team =
    if is_empty team
    then codes "# Feature flags with no team in "
      ++ environment
      ++ codes ".\n# Managed by GO Feature Flag Studio.\n"
    else codes "# Feature flags owned by "
      ++ team
      ++ codes " in "
      ++ environment
      ++ codes ".\n# Managed by GO Feature Flag Studio.\n"

module _ {Number Value Time : Type 0} (runtime : Runtime Number Value Time) where
  -- TeamOf of adapter.go
  unfoldable pub team_of : List (Text × Value) → Text
  team_of metadata = elim (look metadata (codes "team")) [
    | none ↦ []
    | some v ↦ elim (runtime.as_text v) [ none ↦ [] | some declared ↦ trim_space declared ]
  ]

  -- stamp
  unfoldable pub stamp : Time → Bool → Flag Number Value → Flag Number Value
  stamp now is_created f =
      let at = runtime.of_text (runtime.format now) in
      let meta = if is_created then put created_at at f.metadata else f.metadata in
      record f { metadata = put updated_at at meta }

module _ {Number Value Time World : Type 0} (studio : Studio Number Value Time World) where
  -- Serialize and Validate, with which every change of a flag ends.
  unfoldable pub serialized : Text → Text → Flag Number Value → Result Failure Text
  serialized current key f = do
    next ← from_adapter (studio.adapter.serialize current key f)
    refuse_if (not (studio.adapter.valid next)) (invalid invalid_file)
    ok next

  -- `allowed` of mutateTeamChecked.
  unfoldable pub may : List Text → Text → Text → Action → Bool
  may groups environment team action = allowed (some studio.permissions) (record {
    groups = groups;
    environment = environment;
    team = access studio.config team;
    action = action;
  })

  -- The end of mutateTeamChecked, with the team before the mutation.
  unfoldable pub check_move : List Text → Text → Text → Text → Result Failure (Unit {0})
  check_move groups environment before after =
      let checks : Result Failure (Unit {0}) = do
        valid_team studio.config after
        refuse_if
            (not (may groups environment before delete)
              || not (may groups environment after create))
            forbidden
      in if after == before then ok tt else checks

  -- mutateTeamChecked
  unfoldable pub mutate_team_checked :
      List Text → SaveRequest Number Value → Flag Number Value → Result Failure (Flag Number Value)
  mutate_team_checked groups req target = do
    let before = team_of studio.runtime target.metadata
    refuse_if (not (may groups req.environment before req.action)) forbidden
    let changed = req.mutate target
    check_move groups req.environment before (team_of studio.runtime changed.metadata)
    ok changed

  -- The mutation in `apply` of Save.
  unfoldable pub mutated :
      List Text → SaveRequest Number Value → Flag Number Value → Result Failure (Flag Number Value)
  mutated groups req target =
      if single_file studio.config
      then mutate_team_checked groups req target
      else ok (req.mutate target)

  -- `apply` of Save
  unfoldable pub apply_save :
      List Text → Time → SaveRequest Number Value → Text → Result Failure Text
  apply_save groups now req current = do
    parsed ← from_adapter (studio.adapter.parse req.file current)
    target ← or_not_found (find_flag (parsed.0) req.key)
    changed ← mutated groups req target
    serialized current req.key (stamp studio.runtime now false changed)

  -- flagChanged, of the flag that the editor loaded.
  unfoldable pub flag_changed :
      Text → Text → Option (Flag Number Value) → Text → Result Failure Bool
  flag_changed file key none current = ok false
  flag_changed file key (some loaded) current = elim (studio.adapter.parse file current) [
    | err _ ↦ ok true
    | ok (flags, _) ↦ elim (find_flag flags key) [
      | none ↦ ok true
      | some f ↦ ok (not (same_flag_state studio.runtime loaded f))
    ]
  ]
