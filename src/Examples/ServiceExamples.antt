-- ===== src/Examples/ServiceExamples.antt =====
-- internal/server/service.go: Save over a directory of small files.
use goff_studio.Base.{
  ℕ, ◌≡◌, refl, true, false, none, some, [], nat_eq, Text, text_eq, codes, split, join, has_prefix,
  trim_space, trim_left, is_space, split_from, list_beq, contains,
}
use goff_studio.Config.{single_file, declares_team}
use goff_studio.Permissions.{
  toggle, allowed_anywhere, rule_reaches, has_group, environment_matches, action_matches, allowed,
  allowed_by, rule_allows, team_matches,
}
use goff_studio.Storage.FileBackend.{
  Disk, store, resolve, read_file, check_base, clean_parts, join_root,
}
use goff_studio.Storage.FileBackend as F
use goff_studio.Service.{Studio, access, from_adapter}
use goff_studio.Service.Memory.{look, put, known_sha, invalidate_teams}
use goff_studio.Service.Files.{op_of, file_write, as_rejected, files, text_at, files-Lawful}
use goff_studio.Service.Edits.{
  SaveRequest, apply_save, flag_changed, mutated, mutate_team_checked, team_of, may, find_flag,
  or_not_found, stamp, serialized, check_move,
}
use goff_studio.Service.Writes.{
  SaveResult, save, may_save, stale, is_none, write, save_change, saved,
}
use goff_studio.Examples.OneLine.{
  studio_of, root, hash_of, no_faults, listing, start_with, dev, core_path,
}
use goff_studio.Service.Promises.{UpToDate, Lawful}
use goff_studio.Service.{not_found}
use goff_studio.Service.Refusals.{save_error_keeps_files}
use goff_studio.Storage.FileBackend.{Os, temporary}
use goff_studio.Storage.FileBackend.Atomic.{temporary-differs}
use goff_studio.Service.{stored}
use goff_studio.Base.{Result, ok, sym, ap, ◌∙◌}
use goff_studio.Storage.{StoreError}
use goff_studio.Service.Rights.{Saves, save-Saves}

abbrev toggle_it : SaveRequest ℕ Text
toggle_it = record {
  environment = codes "dev";
  key = codes "beta";
  file = core_path;
  file_sha = [];
  loaded_flag = none;
  action = toggle;
  mutate = λ f. record f { enabled = true };
  summary = codes "on";
}

abbrev single : Studio ℕ Text ℕ Disk
single = studio_of (codes "single-file")

abbrev toggled : SaveResult
toggled = record { commit = codes "+beta"; retried = false; live_within = 60 }

save-Saves_example :
    (before : Text) × (after : Text) × (text_at root (start_with (codes "-beta")).world core_path
      ≡ some before)
    × UpToDate single.backend
        (save_change single dev.groups 7 toggle_it)
        before
        (start_with (codes "-beta")).world
    × Saves single dev.groups 7 toggle_it before after
    × (text_at root (save single dev 7 toggle_it (start_with (codes "-beta"))).1.world core_path
        ≡ some after)
unfolding save may_save single_file list_beq allowed_anywhere rule_reaches has_group
    environment_matches action_matches stale known_sha write invalidate_teams save_change apply_save
    flag_changed files op_of file_write as_rejected read_file check_base resolve clean_parts
    join_root F.write mutated mutate_team_checked team_of look may access declares_team allowed
    allowed_by rule_allows team_matches trim_space trim_left is_space find_flag or_not_found stamp
    put serialized from_adapter check_move saved split split_from has_prefix join contains is_none
    F.prepared F.finish_write F.write_next F.write_atomic F.rename_file
save-Saves_example =
    save-Saves single (files-Lawful hash_of root no_faults listing) dev 7 toggle_it
      (start_with (codes "-beta")) (save single dev 7 toggle_it (start_with (codes "-beta"))).1
      toggled refl

files-Lawful_example : Lawful (files hash_of root no_faults listing) (text_at root)
files-Lawful_example = files-Lawful hash_of root no_faults listing

abbrev rename_refused : Os
rename_refused = record no_faults { rename_fault = λ disk from to. some (StoreError.failed []) }

abbrev failing : Studio ℕ Text ℕ Disk
failing = record single { backend = files hash_of root rename_refused listing }

abbrev core_full : Text
core_full = codes "/r/dev/core.goff.yaml"

core_resolved : resolve root core_path ≡ ok core_full
unfolding resolve split list_beq join_root clean_parts has_prefix join
core_resolved = refl

same_path : {a b : Text} → ◌≡◌ {A = Result StoreError Text} (ok a) (ok b) → a ≡ b
same_path h = cc h

save_error_keeps_files_example :
    (save failing dev 7 toggle_it (start_with (codes "-beta"))).1.world core_full
    ≡ (start_with (codes "-beta")).world core_full
unfolding save may_save single_file list_beq allowed_anywhere rule_reaches has_group contains
    environment_matches action_matches stale is_none write files file_write F.write F.prepared
    read_file resolve split op_of save_change join_root clean_parts has_prefix join check_base
    as_rejected apply_save from_adapter or_not_found find_flag mutated mutate_team_checked may
    allowed allowed_by rule_allows team_matches trim_space access declares_team team_of look
    check_move serialized F.finish_write stamp F.write_next F.write_atomic F.rename_file
    goff_studio.Service.Files.write_error
save_error_keeps_files_example =
    save_error_keeps_files hash_of root rename_refused failing listing refl dev 7 toggle_it
      (start_with (codes "-beta")) (save failing dev 7 toggle_it (start_with (codes "-beta"))).1
      (stored (StoreError.failed [])) refl core_full
      (λ (full, r, e).
        temporary-differs core_full (e ∙ ap temporary (same_path (sym r ∙ core_resolved))))
