-- ===== src/Examples/OneLine.antt =====
-- A directory of small files for the runs of the service. A file of this format is a comment, or
-- `+` or `-` and the key of its one flag, which the team core owns.
use goff_studio.Base.{
  ◌≡◌, refl, subst, All, false, ℕ, Bool, true, none, some, List, [], ◌∷◌, if◌then◌else◌, ◌==◌,
  nat_eq, Text, text_eq, codes, leb, Result, ok,
}
use goff_studio.Auth.{Session}
use goff_studio.Config.{Config}
use goff_studio.Goff.{Flag}
use goff_studio.Permissions.{Set}
use goff_studio.Storage.{Version}
use goff_studio.Storage.FileBackend.{Disk, store, Os}
use goff_studio.Service.{Failure, Studio, Adapter, Runtime}
use goff_studio.Service.Memory.{State}
use goff_studio.Service.Files.{files}
use goff_studio.Service.Standing.{KnowsFiles}

abbrev pub flag_named : Text → Bool → Text → Flag ℕ Text
flag_named file enabled key = record {
  key = key;
  file = file;
  environment = [];
  value_type = codes "bool";
  enabled = enabled;
  variations = record { name = codes "on"; value = codes "true" } ∷ [];
  rules = [];
  default = record { variation = codes "on"; percentage = [] };
  experimentation = none;
  bucketing_key = [];
  metadata = (codes "team", codes "core") ∷ [];
  team = codes "core";
  preserved = [];
}

abbrev pub flags_in : Text → Text → List (Flag ℕ Text)
flags_in file [] = []
flags_in file (mark ∷ key) = if mark == b'#' then [] else flag_named file (mark == b'+') key ∷ []

abbrev pub one_line : Adapter ℕ Text
one_line = record {
  parse = λ file text. ok (flags_in file text, []);
  serialize = λ text key f. ok ((if f.enabled then b'+' else b'-') ∷ key);
  remove = λ text key. ok (codes "#");
  rename_key = λ text key new_key. ok (b'+' ∷ new_key);
  valid = λ text. true;
}

abbrev pub simple : Runtime ℕ Text ℕ
simple = record {
  nought = 0;
  same_number = λ a b. a == b;
  of_text = λ t. t;
  as_text = λ v. some v;
  null = [];
  same_value = λ a b. a == b;
  print = λ v. v;
  printer = record { fixed = λ n. codes "100.00"; greater = λ a b. leb b a; same = λ a b. a == b };
  format = λ t. codes "now";
  is_fresh = λ now loaded_at. true;
}

abbrev pub config_of : Text → Config
config_of layout = record {
  kind = codes "file";
  backend = [];
  bucket = [];
  github = record {
    owner = [];
    repo = [];
    branch = [];
    app_id = [];
    installation_id = [];
    private_key_path = [];
    dev_token = [];
  };
  protected_environments = [];
  teams = record { name = codes "core"; editors = [] } ∷ [];
  permissions = [];
  poll_seconds = 60;
  layout = layout;
}

abbrev pub core_rules : Set
core_rules = record {
  rules =
      record { group = codes "devs"; teams = codes "core" ∷ []; environments = []; actions = [] }
      ∷ [];
}

abbrev pub listing : Text → Disk → Result Failure (List Text)
listing dir disk = ok (codes "dev/core.goff.yaml" ∷ [])

abbrev pub hash_of : Text → Version
hash_of text = text

abbrev pub no_faults : Os
no_faults = record {
  write_fault = λ disk path content. none;
  rename_fault = λ disk from to. none;
  folder_fault = λ disk path. none;
}

flags_in-files : (file text : Text) → All (λ f. f.file ≡ file) (flags_in file text)
flags_in-files file [] = tt
flags_in-files file (mark ∷ key) =
    elim (mark == b'#')
      as (λ b.
        All (λ f. f.file ≡ file) (if b then [] else flag_named file (mark == b'+') key ∷ [])) [
          | true ↦ tt
          | false ↦ (refl, tt)
        ]

pub one_line-KnowsFiles : KnowsFiles one_line
one_line-KnowsFiles file text flags broken h =
    subst (All (λ f. f.file ≡ file)) (cc h) (flags_in-files file text)

abbrev pub root : Text
root = codes "/r"

abbrev pub studio_of : Text → Studio ℕ Text ℕ Disk
studio_of layout = record {
  config = config_of layout;
  backend = files hash_of root no_faults listing;
  adapter = one_line;
  permissions = core_rules;
  runtime = simple;
}

abbrev pub empty_disk : Disk
empty_disk path = none

abbrev pub core_path : Text
core_path = codes "dev/core.goff.yaml"

abbrev pub start_with : Text → State ℕ Text ℕ Disk
start_with text = record {
  cache = [];
  history = [];
  environments = none;
  teams = none;
  world = store empty_disk (codes "/r/dev/core.goff.yaml") text;
}

abbrev pub dev : Session ℕ
dev = record {
  subject = codes "1";
  name = codes "Ada";
  email = codes "ada@example.org";
  groups = codes "devs" ∷ [];
  expiry = 0;
}
