-- ===== src/Examples/FlagsExamples.antt =====
-- internal/server/service.go: List, Delete, Rename, SaveVariations and History over a directory of
-- small files.
use goff_studio.Base.{
  ℕ, ℤ, ◌≡◌, ◌≢◌, refl, true, false, Option, none, some, List, [], ◌∷◌, Text, codes, Result, ok,
  err, trim_space,
}
use goff_studio.Permissions.{create, delete, edit_variations}
use goff_studio.Storage.FileBackend.{Disk}
use goff_studio.Validate.{bounded_limit}
use goff_studio.Service.{Failure, Commit, Studio}
use goff_studio.Service.Memory.{State}
use goff_studio.Service.Checks.{valid_key}
use goff_studio.Service.Edits.{VariationsRequest}
use goff_studio.Service.Listing.{ListResult, list}
use goff_studio.Service.Writes.{SaveResult}
use goff_studio.Service.Removals.{
  delete_change, delete_flag, rename_change, rename, variations_change, save_variations,
}
use goff_studio.Service.History.{history}
use goff_studio.Service.Files.{text_at, files-Lawful}
use goff_studio.Goff.{Flag}
use goff_studio.Service.{Broken}
use goff_studio.Service.Edits.{find_flag, serialized, stamp}
use goff_studio.Service.Contents.{with_variations}
use goff_studio.Service.References.Dangling.{Closed, build_variations-Closed}
use goff_studio.Service.Visible.{Shows, list-Shows}
use goff_studio.Service.Texts.{Deleted, Renamed, Revised}
use goff_studio.Service.Acting.{Acted, delete_flag-Acted, rename-Acted, save_variations-Acted}
use goff_studio.Service.History.Scans.{Answers, history-Answers}
use goff_studio.Examples.OneLine.{
  studio_of, root, hash_of, no_faults, one_line-KnowsFiles, listing, start_with, dev,
}

abbrev by_team : Studio ℕ Text ℕ Disk
by_team = studio_of (codes "team-files")

abbrev beta : Text
beta = codes "beta"

abbrev start : State ℕ Text ℕ Disk
start = start_with (codes "+beta")

abbrev env : Text
env = codes "dev"

abbrev shown_by : Result Failure (ListResult ℕ Text) → ListResult ℕ Text
shown_by (ok l) = l
shown_by (err e) = record { flags = []; broken = []; teams = []; can_create = false }

abbrev listed : ListResult ℕ Text
listed = shown_by (list by_team dev env start).0

list-Shows_example : Shows by_team dev.groups env listed
unfolding list goff_studio.Service.Checks.lift_invalid goff_studio.Validate.valid_environment
    goff_studio.Validate.valid_path_segment goff_studio.Validate.valid_name
    goff_studio.Validate.has_control_chars goff_studio.Base.is_control trim_space
    goff_studio.Base.byte_len goff_studio.Base.contains_any goff_studio.Base.list_beq
    goff_studio.Base.has_prefix goff_studio.Permissions.allowed_anywhere
    goff_studio.Permissions.rule_reaches goff_studio.Permissions.has_group goff_studio.Base.contains
    goff_studio.Permissions.environment_matches goff_studio.Permissions.action_matches
    goff_studio.Service.Files.files goff_studio.Service.Listing.gather
    goff_studio.Service.Files.as_stored goff_studio.Storage.FileBackend.read_file
    goff_studio.Storage.FileBackend.resolve goff_studio.Base.split
    goff_studio.Storage.FileBackend.join_root goff_studio.Storage.FileBackend.clean_parts
    goff_studio.Base.join goff_studio.Service.from_adapter goff_studio.Service.Listing.finish
    goff_studio.Base.sort_by goff_studio.Service.Listing.gather_file
    goff_studio.Service.Listing.team_options goff_studio.Service.Listing.gather_flags
    goff_studio.Config.team_names goff_studio.Service.Listing.gather_flag
    goff_studio.Config.names_of goff_studio.Service.Edits.may goff_studio.Permissions.allowed
    goff_studio.Permissions.allowed_by goff_studio.Permissions.rule_allows
    goff_studio.Permissions.team_matches goff_studio.Service.access goff_studio.Config.declares_team
    goff_studio.Service.owner goff_studio.Config.single_file goff_studio.Service.team_name_of
    goff_studio.Service.trim_first goff_studio.Service.suffixes goff_studio.Base.trim_suffix
    goff_studio.Service.base_from goff_studio.Service.Memory.look
list-Shows_example = list-Shows by_team dev env listed start (list by_team dev env start).1 refl

abbrev done : Text → SaveResult
done version = record { commit = version; retried = false; live_within = 60 }

delete_flag-Acted_example :
    Acted by_team
      (text_at root)
      dev.groups
      env
      beta
      (delete ∷ [])
      (Deleted by_team beta)
      start.world
      (delete_flag by_team dev env beta [] none start).1.world
unfolding delete_flag goff_studio.Service.Listing.get list goff_studio.Service.Checks.lift_invalid
    goff_studio.Validate.valid_environment goff_studio.Validate.valid_path_segment
    goff_studio.Validate.valid_name goff_studio.Validate.has_control_chars
    goff_studio.Base.is_control trim_space goff_studio.Base.byte_len goff_studio.Base.contains_any
    goff_studio.Base.list_beq goff_studio.Base.has_prefix goff_studio.Permissions.allowed_anywhere
    goff_studio.Permissions.rule_reaches goff_studio.Permissions.has_group goff_studio.Base.contains
    goff_studio.Permissions.environment_matches goff_studio.Permissions.action_matches
    goff_studio.Service.Files.files goff_studio.Service.Listing.gather
    goff_studio.Service.Files.as_stored goff_studio.Storage.FileBackend.read_file
    goff_studio.Storage.FileBackend.resolve goff_studio.Base.split
    goff_studio.Storage.FileBackend.join_root goff_studio.Storage.FileBackend.clean_parts
    goff_studio.Base.join goff_studio.Service.from_adapter goff_studio.Service.Listing.find_view
    goff_studio.Service.Listing.finish goff_studio.Base.sort_by
    goff_studio.Service.Listing.gather_file goff_studio.Service.Listing.gather_flags
    goff_studio.Service.Listing.gather_flag goff_studio.Service.Edits.may
    goff_studio.Permissions.allowed goff_studio.Permissions.allowed_by
    goff_studio.Permissions.rule_allows goff_studio.Permissions.team_matches
    goff_studio.Service.access goff_studio.Config.declares_team goff_studio.Service.owner
    goff_studio.Config.single_file goff_studio.Service.team_name_of goff_studio.Service.trim_first
    goff_studio.Service.suffixes goff_studio.Base.trim_suffix goff_studio.Service.base_from
    goff_studio.Service.Memory.look goff_studio.Service.Listing.view_of
    goff_studio.Service.Removals.delete_viewed goff_studio.Service.Removals.may_on
    goff_studio.Service.Writes.stale goff_studio.Service.Writes.is_none
    goff_studio.Service.Writes.write goff_studio.Service.Files.file_write
    goff_studio.Storage.FileBackend.write goff_studio.Service.Files.op_of delete_change
    goff_studio.Service.Memory.remember goff_studio.Storage.FileBackend.check_base
    goff_studio.Service.Files.as_rejected goff_studio.Service.Contents.apply_delete
    goff_studio.Service.Writes.saved goff_studio.Storage.FileBackend.prepared
    goff_studio.Storage.FileBackend.finish_write goff_studio.Storage.FileBackend.write_next
    goff_studio.Storage.FileBackend.write_atomic goff_studio.Storage.FileBackend.rename_file
delete_flag-Acted_example =
    delete_flag-Acted by_team (files-Lawful hash_of root no_faults listing) one_line-KnowsFiles dev
      env beta [] none start (delete_flag by_team dev env beta [] none start).1 (done (codes "#"))
      refl

rename-Acted_example :
    (valid_key (trim_space (codes "gamma ")) ≡ ok tt)
    × (trim_space (codes "gamma ") ≢ beta)
    × Acted by_team
        (text_at root)
        dev.groups
        env
        beta
        (create ∷ delete ∷ [])
        (Renamed by_team 7 beta (trim_space (codes "gamma ")))
        start.world
        (rename by_team dev 7 env beta (codes "gamma ") [] start).1.world
unfolding rename goff_studio.Service.Listing.get list goff_studio.Service.Checks.lift_invalid
    goff_studio.Validate.valid_environment goff_studio.Validate.valid_path_segment
    goff_studio.Validate.valid_name goff_studio.Validate.has_control_chars
    goff_studio.Base.is_control trim_space goff_studio.Base.byte_len goff_studio.Base.contains_any
    goff_studio.Base.list_beq goff_studio.Base.has_prefix goff_studio.Permissions.allowed_anywhere
    goff_studio.Permissions.rule_reaches goff_studio.Permissions.has_group goff_studio.Base.contains
    goff_studio.Permissions.environment_matches goff_studio.Permissions.action_matches
    goff_studio.Service.Files.files goff_studio.Service.Listing.gather
    goff_studio.Service.Files.as_stored goff_studio.Storage.FileBackend.read_file
    goff_studio.Storage.FileBackend.resolve goff_studio.Base.split
    goff_studio.Storage.FileBackend.join_root goff_studio.Storage.FileBackend.clean_parts
    goff_studio.Base.join goff_studio.Service.from_adapter goff_studio.Service.Listing.find_view
    goff_studio.Service.Listing.finish goff_studio.Base.sort_by
    goff_studio.Service.Listing.gather_file goff_studio.Service.Listing.gather_flags
    goff_studio.Service.Listing.gather_flag goff_studio.Service.Edits.may
    goff_studio.Permissions.allowed goff_studio.Permissions.allowed_by
    goff_studio.Permissions.rule_allows goff_studio.Permissions.team_matches
    goff_studio.Service.access goff_studio.Config.declares_team goff_studio.Service.owner
    goff_studio.Config.single_file goff_studio.Service.team_name_of goff_studio.Service.trim_first
    goff_studio.Service.suffixes goff_studio.Base.trim_suffix goff_studio.Service.base_from
    goff_studio.Service.Memory.look goff_studio.Service.Listing.view_of
    goff_studio.Service.Removals.rename_viewed valid_key goff_studio.Service.Removals.may_on
    goff_studio.Service.Writes.stale goff_studio.Service.Writes.is_none
    goff_studio.Service.Removals.check_unused goff_studio.Service.Creates.locate_key
    goff_studio.Service.Memory.remember goff_studio.Service.Edits.has_key
    goff_studio.Service.Creates.refuse_taken goff_studio.Service.Writes.write
    goff_studio.Service.Files.file_write goff_studio.Storage.FileBackend.write
    goff_studio.Service.Files.op_of rename_change goff_studio.Storage.FileBackend.check_base
    goff_studio.Service.Files.as_rejected goff_studio.Service.Contents.apply_rename
    goff_studio.Service.Edits.or_not_renamed goff_studio.Service.Contents.stamp_key
    goff_studio.Service.Edits.or_not_found goff_studio.Service.Edits.find_flag
    goff_studio.Service.Edits.stamp goff_studio.Service.Writes.saved
    goff_studio.Storage.FileBackend.prepared goff_studio.Storage.FileBackend.finish_write
    goff_studio.Storage.FileBackend.write_next goff_studio.Storage.FileBackend.write_atomic
    goff_studio.Storage.FileBackend.rename_file
rename-Acted_example =
    rename-Acted by_team (files-Lawful hash_of root no_faults listing) one_line-KnowsFiles dev 7 env
      beta (codes "gamma ") [] start (rename by_team dev 7 env beta (codes "gamma ") [] start).1
      (done (codes "+gamma")) refl

abbrev two_ways : VariationsRequest ℕ Text
two_ways = record {
  environment = env;
  key = beta;
  file = [];
  file_sha = [];
  value_type = [];
  variations =
      record { name = codes "on"; value = codes "true" }
      ∷ record { name = codes "off"; value = codes "false" }
      ∷ [];
  default = codes "off";
  loaded_flag = none;
}

save_variations-Acted_example :
    Acted by_team
      (text_at root)
      dev.groups
      env
      beta
      (edit_variations ∷ [])
      (Revised by_team 7 two_ways)
      start.world
      (save_variations by_team dev 7 two_ways start).1.world
unfolding save_variations goff_studio.Service.Listing.get list
    goff_studio.Service.Checks.lift_invalid goff_studio.Validate.valid_environment
    goff_studio.Validate.valid_path_segment goff_studio.Validate.valid_name
    goff_studio.Validate.has_control_chars goff_studio.Base.is_control trim_space
    goff_studio.Base.byte_len goff_studio.Base.contains_any goff_studio.Base.list_beq
    goff_studio.Base.has_prefix goff_studio.Permissions.allowed_anywhere
    goff_studio.Permissions.rule_reaches goff_studio.Permissions.has_group goff_studio.Base.contains
    goff_studio.Permissions.environment_matches goff_studio.Permissions.action_matches
    goff_studio.Service.Files.files goff_studio.Service.Listing.gather
    goff_studio.Service.Files.as_stored goff_studio.Storage.FileBackend.read_file
    goff_studio.Storage.FileBackend.resolve goff_studio.Base.split
    goff_studio.Storage.FileBackend.join_root goff_studio.Storage.FileBackend.clean_parts
    goff_studio.Base.join goff_studio.Service.from_adapter goff_studio.Service.Listing.find_view
    goff_studio.Service.Listing.finish goff_studio.Base.sort_by
    goff_studio.Service.Listing.gather_file goff_studio.Service.Listing.gather_flags
    goff_studio.Service.Listing.gather_flag goff_studio.Service.Edits.may
    goff_studio.Permissions.allowed goff_studio.Permissions.allowed_by
    goff_studio.Permissions.rule_allows goff_studio.Permissions.team_matches
    goff_studio.Service.access goff_studio.Config.declares_team goff_studio.Service.owner
    goff_studio.Config.single_file goff_studio.Service.team_name_of goff_studio.Service.trim_first
    goff_studio.Service.suffixes goff_studio.Base.trim_suffix goff_studio.Service.base_from
    goff_studio.Service.Memory.look goff_studio.Service.Listing.view_of
    goff_studio.Service.Removals.save_viewed goff_studio.Service.Removals.may_on
    goff_studio.Service.Writes.stale goff_studio.Service.Writes.is_none
    goff_studio.Service.Writes.write goff_studio.Service.Files.file_write
    goff_studio.Storage.FileBackend.write goff_studio.Service.Files.op_of variations_change
    goff_studio.Service.Memory.remember goff_studio.Storage.FileBackend.check_base
    goff_studio.Service.Files.as_rejected goff_studio.Service.Contents.build_variations
    goff_studio.Service.Edits.or_not_found goff_studio.Service.Edits.find_flag
    goff_studio.Service.Removals.completed goff_studio.Service.Checks.check_variation_shape
    goff_studio.Service.Checks.check_shape goff_studio.Service.Checks.broken_references
    goff_studio.Service.Checks.note_all goff_studio.Service.Checks.sorted_float_keys
    goff_studio.Service.Checks.rule_references goff_studio.Service.Checks.check_default
    goff_studio.Service.Edits.serialized goff_studio.Service.Edits.stamp
    goff_studio.Service.Contents.with_variations goff_studio.Service.Writes.saved
    goff_studio.Storage.FileBackend.prepared goff_studio.Storage.FileBackend.finish_write
save_variations-Acted_example =
    save_variations-Acted by_team (files-Lawful hash_of root no_faults listing) one_line-KnowsFiles
      dev 7 two_ways start (save_variations by_team dev 7 two_ways start).1 (done (codes "+beta"))
      refl

abbrev commits : List Commit
commits =
    record { sha = codes "2"; message = codes "[dev] core/beta: on" }
    ∷ record { sha = codes "1"; message = codes "[dev] core/other: on" }
    ∷ []

abbrev with_history : Studio ℕ Text ℕ Disk
with_history = record by_team {
  backend = record by_team.backend {
    has_history = true;
    history = λ path limit disk. (ok commits, disk);
  };
}

history-Answers_example :
    Answers beta
      (bounded_limit (ℤ.pos 0))
      (some (record { sha = codes "2"; message = codes "[dev] core/beta: on" } ∷ []))
unfolding history goff_studio.Service.Listing.get list goff_studio.Service.Checks.lift_invalid
    goff_studio.Validate.valid_environment goff_studio.Validate.valid_path_segment
    goff_studio.Validate.valid_name goff_studio.Validate.has_control_chars
    goff_studio.Base.is_control trim_space goff_studio.Base.byte_len goff_studio.Base.contains_any
    goff_studio.Base.list_beq goff_studio.Base.has_prefix goff_studio.Permissions.allowed_anywhere
    goff_studio.Permissions.rule_reaches goff_studio.Permissions.has_group goff_studio.Base.contains
    goff_studio.Permissions.environment_matches goff_studio.Permissions.action_matches
    goff_studio.Service.Files.files goff_studio.Service.Listing.gather
    goff_studio.Service.Files.as_stored goff_studio.Storage.FileBackend.read_file
    goff_studio.Storage.FileBackend.resolve goff_studio.Base.split
    goff_studio.Storage.FileBackend.join_root goff_studio.Storage.FileBackend.clean_parts
    goff_studio.Base.join goff_studio.Service.from_adapter goff_studio.Service.Listing.find_view
    goff_studio.Service.Listing.finish goff_studio.Base.sort_by
    goff_studio.Service.Listing.gather_file goff_studio.Service.Listing.gather_flags
    goff_studio.Service.Listing.gather_flag goff_studio.Service.Edits.may
    goff_studio.Permissions.allowed goff_studio.Permissions.allowed_by
    goff_studio.Permissions.rule_allows goff_studio.Permissions.team_matches
    goff_studio.Service.access goff_studio.Config.declares_team goff_studio.Service.owner
    goff_studio.Config.single_file goff_studio.Service.team_name_of goff_studio.Service.trim_first
    goff_studio.Service.suffixes goff_studio.Base.trim_suffix goff_studio.Service.base_from
    goff_studio.Service.Memory.look goff_studio.Service.Listing.view_of
    goff_studio.Service.History.scan_history goff_studio.Service.History.scanned_enough
    bounded_limit goff_studio.Base.filter goff_studio.Service.History.commit_touches
    goff_studio.Service.History.studio_subject goff_studio.Service.History.before_cut
    goff_studio.Service.History.cut
history-Answers_example =
    history-Answers with_history dev env beta (ℤ.pos 0) start
      (history with_history dev env beta (ℤ.pos 0) start).1 refl

abbrev in_file : VariationsRequest ℕ Text
in_file = record two_ways { file = codes "dev/core.goff.yaml" }

build_variations-Closed_example :
    (flags : List (Flag ℕ Text)) × (broken : List Broken) × (target : Flag ℕ Text)
    × (by_team.adapter.parse (codes "dev/core.goff.yaml") (codes "+beta") ≡ ok (flags, broken))
    × (find_flag flags beta ≡ some target)
    × (serialized by_team
          (codes "+beta")
          beta
          (stamp by_team.runtime 7 false (with_variations by_team in_file target))
        ≡ ok (codes "+beta"))
    × Closed (with_variations by_team in_file target)
unfolding goff_studio.Service.Contents.build_variations goff_studio.Service.from_adapter
    goff_studio.Service.Edits.or_not_found find_flag goff_studio.Base.list_beq
    goff_studio.Service.Checks.check_variation_shape goff_studio.Service.Checks.check_shape
    trim_space goff_studio.Service.Checks.lift_invalid goff_studio.Validate.valid_name
    goff_studio.Validate.has_control_chars goff_studio.Base.is_control goff_studio.Base.byte_len
    goff_studio.Base.contains goff_studio.Service.Checks.broken_references
    goff_studio.Service.Checks.note_all goff_studio.Service.Checks.sorted_float_keys
    goff_studio.Base.sort_by goff_studio.Service.Checks.rule_references
    goff_studio.Service.Checks.check_default serialized stamp with_variations
build_variations-Closed_example =
    build_variations-Closed by_team 7 in_file (codes "+beta") (codes "+beta") refl
