-- ===== src/Examples/CreateExamples.antt =====
-- internal/server/service.go: Create over a directory of small files, of a team whose file is
-- missing.
use goff_studio.Base.{ℕ, ◌≡◌, refl, true, false, [], ◌∷◌, Text, codes}
use goff_studio.Storage.FileBackend.{Disk}
use goff_studio.Service.{Studio}
use goff_studio.Service.Memory.{State}
use goff_studio.Service.Edits.{CreateRequest}
use goff_studio.Service.Writes.{SaveResult}
use goff_studio.Service.Creates.{create_flag}
use goff_studio.Service.Files.{files, text_at, files-Lawful}
use goff_studio.Service.Requests.{Requested}
use goff_studio.Service.Fresh.{Added, create_flag-Added}
use goff_studio.Examples.OneLine.{studio_of, root, hash_of, no_faults, start_with, dev, empty_disk}
use goff_studio.Service.{Failure}
use goff_studio.Base.{Result, ok, List}

abbrev nothing_listed : Text → Disk → Result Failure (List Text)
nothing_listed dir disk = ok []

abbrev by_team : Studio ℕ Text ℕ Disk
by_team = record (studio_of (codes "team-files")) {
  backend = files hash_of root no_faults nothing_listed;
}

abbrev start : State ℕ Text ℕ Disk
start = record (start_with []) { world = empty_disk }

abbrev new_flag : CreateRequest Text
new_flag = record {
  environment = codes "dev";
  key = codes "beta";
  team = codes "core";
  file_sha = [];
  value_type = codes "bool";
  variations = record { name = codes "on"; value = codes "true" } ∷ [];
  default = codes "on";
  enabled = true;
  description = codes "new";
}

create_flag-Added_example :
    Requested by_team dev.groups new_flag
    × Added by_team
        (text_at root)
        7
        new_flag
        start.world
        (create_flag by_team dev 7 new_flag start).1.world
unfolding create_flag goff_studio.Service.Creates.prepare_create
    goff_studio.Service.Contents.check_create goff_studio.Service.Checks.valid_team
    goff_studio.Base.trim_space goff_studio.Config.declares_team goff_studio.Base.list_beq
    goff_studio.Permissions.allowed goff_studio.Permissions.allowed_by
    goff_studio.Permissions.rule_allows goff_studio.Permissions.has_group goff_studio.Base.contains
    goff_studio.Permissions.environment_matches goff_studio.Permissions.action_matches
    goff_studio.Permissions.team_matches goff_studio.Service.Checks.valid_key
    goff_studio.Base.contains_any goff_studio.Base.byte_len
    goff_studio.Service.Checks.check_variations goff_studio.Service.Checks.check_variation_shape
    goff_studio.Service.Checks.check_shape goff_studio.Service.Checks.lift_invalid
    goff_studio.Validate.valid_name goff_studio.Validate.has_control_chars
    goff_studio.Base.is_control goff_studio.Service.Checks.check_default
    goff_studio.Validate.valid_description goff_studio.Service.Creates.check_free files
    goff_studio.Config.single_file goff_studio.Service.Creates.locate_key
    goff_studio.Service.Creates.refuse_taken goff_studio.Service.Creates.perform_create
    goff_studio.Service.Writes.stale goff_studio.Service.Writes.is_none
    goff_studio.Service.Creates.create_team_file goff_studio.Service.Creates.after_read
    goff_studio.Service.Files.as_stored goff_studio.Storage.FileBackend.read_file
    goff_studio.Storage.FileBackend.resolve goff_studio.Base.split
    goff_studio.Service.Contents.create_path goff_studio.Service.team_file_for
    goff_studio.Service.team_file goff_studio.Storage.FileBackend.join_root
    goff_studio.Storage.FileBackend.clean_parts goff_studio.Base.has_prefix
    goff_studio.Service.Creates.is_missing goff_studio.Service.Contents.build_create
    goff_studio.Service.from_adapter goff_studio.Service.Edits.has_key
    goff_studio.Service.Edits.team_seed goff_studio.Service.Edits.serialized
    goff_studio.Service.Creates.create_missing goff_studio.Service.Creates.after_create
    goff_studio.Storage.FileBackend.create_file goff_studio.Service.Creates.end_create
    goff_studio.Service.Writes.saved goff_studio.Storage.FileBackend.create_at
    goff_studio.Storage.FileBackend.write_atomic goff_studio.Storage.FileBackend.rename_file
create_flag-Added_example =
    create_flag-Added by_team (files-Lawful hash_of root no_faults nothing_listed) dev 7 new_flag
      start (create_flag by_team dev 7 new_flag start).1
      (record { commit = []; retried = false; live_within = 60 }) refl
