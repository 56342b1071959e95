-- ===== src/Service/Contents.antt =====
-- The functions that Create, Delete, Rename and SaveVariations give a backend as Apply.
use goff_studio.Base.{
  true, false, not, none, some, List, [], ◌∷◌, if◌then◌else◌, Text, text_eq, codes, is_empty,
  trim_space, Result, ok, err, ◌>>=◌, ◌>>◌, refuse_if,
}
use goff_studio.Goff.{Flag}
use goff_studio.Permissions.{create, allowed}
use goff_studio.Service.{
  Failure, not_found, invalid, duplicate_key, invalid_file, still_used, forbidden, Studio,
  team_file_for, from_adapter,
}
use goff_studio.Validate.{valid_description}
use goff_studio.Service.Memory.{put}
use goff_studio.Service.Checks.{
  lift_invalid, valid_key, valid_team, check_variations, check_variation_shape, check_default,
  broken_references, meta_description,
}
use goff_studio.Service.Edits.{
  CreateRequest, VariationsRequest, find_flag, or_not_found, has_key, stamp, serialized,
  or_not_renamed,
}

module _ {Number Value Time World : Type 0} (studio : Studio Number Value Time World) where
  -- createFile
  unfoldable pub create_path : CreateRequest Value → Text
  create_path req = team_file_for studio.config req.environment (trim_space req.team)

  -- The checks of prepareCreate on the request itself.
  unfoldable pub check_create : List Text → CreateRequest Value → Result Failure (Unit {0})
  check_create groups req = do
    valid_team studio.config req.team
    refuse_if
        (not (
          allowed (some studio.permissions) (record {
            groups = groups;
            environment = req.environment;
            team = trim_space req.team;
            action = create;
          })))
        forbidden
    valid_key req.key
    check_variations req.variations req.default
    lift_invalid (valid_description req.description)

  -- `created` of buildCreate, before it is stamped.
  unfoldable pub created_flag : CreateRequest Value → Text → Flag Number Value
  created_flag req file =
      let of_text = studio.runtime.of_text in
      let team = trim_space req.team in
      let owned = if is_empty team then [] else (codes "team", of_text team) ∷ [] in
      record {
        key = req.key;
        file = file;
        environment = [];
        value_type = req.value_type;
        enabled = req.enabled;
        variations = req.variations;
        rules = [];
        default = record { variation = req.default; percentage = [] };
        experimentation = none;
        bucketing_key = [];
        metadata =
            if is_empty req.description
            then owned
            else put meta_description (of_text req.description) owned;
        team = [];
        preserved = [];
      }

  -- buildCreate
  unfoldable pub build_create : Time → CreateRequest Value → Text → Text → Result Failure Text
  build_create now req file current = do
    parsed ← from_adapter (studio.adapter.parse file current)
    refuse_if (has_key (parsed.0) (parsed.1) req.key) (duplicate_key req.key file)
    serialized studio current req.key (stamp studio.runtime now true (created_flag req file))

  -- Apply of Delete
  unfoldable pub apply_delete : Text → Text → Result Failure Text
  apply_delete key current = elim (studio.adapter.remove current key) [
    | err _ ↦ err not_found
    | ok next ↦ do refuse_if (not (studio.adapter.valid next)) (invalid invalid_file); ok next
  ]

  -- stampKey
  unfoldable pub stamp_key : Time → Text → Text → Text → Result Failure Text
  stamp_key now file key content = do
    parsed ← from_adapter (studio.adapter.parse file content)
    target ← or_not_found (find_flag (parsed.0) key)
    from_adapter (studio.adapter.serialize content key (stamp studio.runtime now false target))

  -- Apply of Rename
  unfoldable pub apply_rename : Time → Text → Text → Text → Text → Result Failure Text
  apply_rename now file key new_key current = do
    renamed ← or_not_renamed (studio.adapter.rename_key current key new_key)
    next ← stamp_key now file new_key renamed
    refuse_if (not (studio.adapter.valid next)) (invalid invalid_file)
    ok next

  -- The flag that buildVariations writes, with the variations changed.
  unfoldable pub with_variations :
      VariationsRequest Number Value → Flag Number Value → Flag Number Value
  with_variations req target = record target {
    variations = req.variations;
    value_type = req.value_type;
    default =
        if not (is_empty req.default)
        then record { variation = req.default; percentage = [] }
        else target.default;
  }

  -- buildVariations
  unfoldable pub build_variations :
      Time → VariationsRequest Number Value → Text → Result Failure Text
  build_variations now req current = do
    parsed ← from_adapter (studio.adapter.parse req.file current)
    target ← or_not_found (find_flag (parsed.0) req.key)
    check_variation_shape req.variations
    let problems = broken_references target req.variations req.default
    refuse_if (not (is_empty problems)) (invalid (still_used problems))
    check_default req.variations
        (if is_empty req.default then target.default.variation else req.default)
    serialized studio current req.key (stamp studio.runtime now false (with_variations req target))
