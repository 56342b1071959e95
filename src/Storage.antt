-- ===== src/Storage.antt =====
-- internal/storage/storage.go: what every storage backend takes and returns. A text is the content
-- of a file, a version names one content of it.
pub mod FileBackend
pub mod GitHub
use goff_studio.Base.{ℕ, Bool, Option, Text, Result}

abbrev pub Version : Type 0
Version = Text

pub record StoredFile : Type 0 where
  pub path : Text
  pub content : Text
  pub version : Version

pub record Written : Type 0 where
  pub version : Version
  pub retried : Bool

-- The errors of a write: those of the store, and those of the two callbacks (`rejected`).
pub data StoreError : Type 0 where
  not_found : Text → StoreError
  conflict : StoreError
  stale : StoreError
  outside : Text → StoreError
  exists : Text → StoreError
  kept_changing : Text → ℕ → StoreError
  rejected : Text → StoreError
  failed : Text → StoreError

-- ChangeOp, less the key, message and identity, which no decision of a write reads. `changed` may
-- be nil; `max_attempts` of 0 stands for every value that is not positive.
pub record ChangeOp : Type 0 where
  pub path : Text
  pub base_version : Version
  pub apply : Text → Result StoreError Text
  pub changed : Option (Text → Result StoreError Bool)
  pub max_attempts : ℕ
