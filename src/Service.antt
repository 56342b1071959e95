-- ===== src/Service.antt =====
-- internal/server/service.go: the flag service. This file has what it is made of: the interface of
-- a storage backend (internal/storage/storage.go), that of the adapter for the files
-- (internal/goff/adapter.go), the state that it keeps, and which team a flag belongs to.
-- `World` is everything outside: a backend's operations may change it, and so may anyone between
-- two of them. What is read of float64, of `any` and of package time is in `Runtime`.
pub mod Memory
pub mod Checks
pub mod Edits
pub mod Contents
pub mod Steps
pub mod Listing
pub mod Writes
pub mod Creates
pub mod Removals
pub mod Promises
pub mod Files
pub mod Visible
pub mod Texts
pub mod Acting
pub mod Owned
pub mod Rights
pub mod References
pub mod Refusals
pub mod Requests
pub mod Fresh
pub mod Reviews
pub mod History
pub mod Environments
pub mod Teams
pub mod Comparing
pub mod Promoting
pub mod Granted
pub mod Keeps
pub mod Standing
use goff_studio.Base.{
  ℕ, Bool, true, false, not, ◌&&◌, Option, none, some, List, [], ◌∷◌, ◌++◌, if◌then◌else◌, ◌==◌,
  nat_eq, Text, text_eq, codes, is_empty, trim_suffix, trim_right_rune, Result, ok, err,
}
use goff_studio.Auth.{Session}
use goff_studio.Config.{Config, single_file, declares_team, no_team_file}
use goff_studio.Goff.{Flag}
use goff_studio.Permissions.{Set}
use goff_studio.Summary.{Printer}
use goff_studio.Storage.{StoredFile, Written, StoreError, Version}
use goff_studio.Validate.{Invalid}

-- The messages of `invalid` in service.go.
pub data Complaint : Type 0 where
  bad : Invalid → Complaint
  key_required key_has_space key_has_whitespace key_too_long key_unchanged : Complaint
  not_a_team : Text → Complaint
  no_variations unnamed_variation : Complaint
  repeated_variation : Text → Complaint
  default_required : Complaint
  unknown_default : Text → Complaint
  still_used : List (Text × Text) → Complaint
  invalid_file : Complaint
  not_renamed : Text → Complaint
  no_flag_file : Text → Text → Complaint
  environment_exists : Text → Complaint
  same_environments no_fields : Complaint
  not_promotable : Text → Complaint
  blocked : List (Text × Text) → Complaint
  would_break : List Text → Complaint

-- The errors of the service; `stored` has those of the storage and `adapter_failed` the adapter's.
pub data Failure : Type 0 where
  forbidden not_found stale_view : Failure
  invalid : Complaint → Failure
  duplicate_key : Text → Text → Failure
  stored : StoreError → Failure
  adapter_failed : Text → Failure

-- An error of the adapter, whose message it holds, passed on.
unfoldable pub from_adapter {ℓ} : {A : Type ℓ} → Result Text A → Result Failure A
from_adapter (err message) = err (adapter_failed message)
from_adapter (ok value) = ok value

-- Identity of storage.go.
pub record Identity : Type 0 where
  pub name : Text
  pub email : Text
  pub subject : Text

-- ChangeOp of storage.go, as the service fills it.
pub record Change : Type 0 where
  pub path : Text
  pub key : Text
  pub base_version : Version
  pub message : Text
  pub apply : Text → Result Failure Text
  pub changed : Text → Result Failure Bool

-- Commit of storage.go, of which the service reads the message.
pub record Commit : Type 0 where
  pub sha : Text
  pub message : Text

-- Backend of storage.go.
pub record Backend (World : Type 0) : Type 0 where
  pub has_history : Bool
  pub read_file : Text → World → Result Failure StoredFile × World
  pub list_files : Text → World → Result Failure (List Text) × World
  pub list_directories : Text → World → Result Failure (List Text) × World
  pub write : Change → Identity → World → Result Failure Written × World
  pub create_file : Text → Text → Text → Identity → World → Result Failure (Unit {0}) × World
  pub history : Text → ℕ → World → Result Failure (List Commit) × World

-- Broken of adapter.go.
pub record Broken : Type 0 where
  pub key : Text
  pub file : Text
  pub reason : Text

module _ (Number Value : Type 0) where
  -- The methods of Adapter that read and write the text of a file.
  pub record Adapter : Type 0 where
    pub parse : Text → Text → Result Text (List (Flag Number Value) × List Broken)
    pub serialize : Text → Text → Flag Number Value → Result Text Text
    pub remove : Text → Text → Result Text Text
    pub rename_key : Text → Text → Text → Result Text Text
    pub valid : Text → Bool

module _ (Number Value Time : Type 0) where
  pub record Runtime : Type 0 where
    pub nought : Number
    pub same_number : Number → Number → Bool
    -- `any(text)`, and `value.(string)`.
    pub of_text : Text → Value
    pub as_text : Value → Option Text
    -- The nil of `any`, `==` on two of `any`, and the verb %v.
    pub null : Value
    pub same_value : Value → Value → Bool
    pub print : Value → Text
    pub printer : Printer Number
    -- now.UTC().Truncate(time.Second).Format(time.RFC3339)
    pub format : Time → Text
    -- now.Sub(then) < envTTL
    pub is_fresh : Time → Time → Bool

  -- What NewService is given, and the packages that the service calls.
  pub record Studio (World : Type 0) : Type 0 where
    pub config : Config
    pub backend : Backend World
    pub adapter : Adapter Number Value
    pub permissions : Set
    pub runtime : Runtime

-- The base of the path, the runes since the last slash being `current`.
unfoldable pub base_from : Text → Text → Text
base_from current [] = current
base_from current (c ∷ s) =
    let here = base_from [] s in
    let later = base_from (current ++ c ∷ []) s in if c == b'/' then here else later

-- path.Base
unfoldable pub path_base : Text → Text
path_base path =
    if is_empty path
    then codes "."
    else if is_empty (trim_right_rune b'/' path)
    then codes "/"
    else base_from [] (trim_right_rune b'/' path)

unfoldable pub suffixes : List Text
suffixes = codes ".goff.yaml" ∷ codes ".goff.yml" ∷ codes ".yaml" ∷ codes ".yml" ∷ []

-- The loop of teamNameOf over the suffixes.
unfoldable pub trim_first : List Text → Text → Text
trim_first [] base = base
trim_first (suffix ∷ rest) base =
    let later = trim_first rest base in
    if not (trim_suffix base suffix == base) then trim_suffix base suffix else later

-- teamNameOf
unfoldable pub team_name_of : Text → Text
team_name_of file = trim_first suffixes (base_from [] file)

-- teamFile
unfoldable pub team_file : Text → Text → Text
team_file environment team = environment ++ codes "/" ++ team ++ codes ".goff.yaml"

-- environmentFile
unfoldable pub environment_file : Text → Text
environment_file environment = environment ++ codes "/" ++ codes "flags.goff.yaml"

module _ (config : Config) where
  -- owner
  unfoldable pub owner : Text → Text → Text
  owner file metadata_team =
      if single_file config
      then metadata_team
      else if not (team_name_of file == no_team_file)
      then team_name_of file
      else []

  -- access
  unfoldable pub access : Text → Text
  access team = if declares_team config team then team else []

  -- teamFileFor
  unfoldable pub team_file_for : Text → Text → Text
  team_file_for environment team =
      if single_file config
      then environment_file environment
      else if is_empty team
      then environment_file environment
      else team_file environment team

module _ {Time : Type 0} where
  -- DisplayName of session.go
  unfoldable pub display_name : Session Time → Text
  display_name session =
      if not (is_empty session.name)
      then session.name
      else if not (is_empty session.email)
      then session.email
      else session.subject

  -- identityOf
  unfoldable pub identity_of : Session Time → Identity
  identity_of session = record {
    name = display_name session;
    email = session.email;
    subject = session.subject;
  }
