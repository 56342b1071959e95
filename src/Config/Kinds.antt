-- ===== src/Config/Kinds.antt =====
-- internal/storage/registry.go and resolveKind: the names of the storage kinds. `equal_fold` stands
-- for strings.EqualFold, `registered` for the kinds that backends have registered.
use goff_studio.Base.{
  Bool, true, not, ◌&&◌, Option, none, some, List, [], ◌∷◌, contains, if◌then◌else◌, ◌==◌, Text,
  text_eq, codes, is_empty, trim_space, to_lower, Result, ok, ◌>>◌, refuse_if,
}
use goff_studio.Config.{Config}
use goff_studio.Config.Startup.{ConfigError, required, two_kinds, not_compiled_in}

abbrev pub kind_github : Text
kind_github = codes "github"

abbrev pub kind_file : Text
kind_file = codes "file"

abbrev pub kind_config_map : Text
kind_config_map = codes "configmap"

abbrev pub builtin_kinds : List Text
builtin_kinds =
    kind_github
    ∷ kind_file
    ∷ codes "s3"
    ∷ codes "googleStorage"
    ∷ codes "azureBlobStorage"
    ∷ kind_config_map
    ∷ []

-- LegacyKind
unfoldable pub legacy_kind : Text → Option Text
legacy_kind kind =
    let name = to_lower (trim_space kind) in
    if name == codes "gcs"
    then some (codes "googleStorage")
    else if name == codes "azblob"
    then some (codes "azureBlobStorage")
    else none

module _ (equal_fold : Text → Text → Bool) (registered : List Text) where
  -- A loop of Canonical.
  unfoldable pub known_as : List Text → Text → Option Text
  known_as [] kind = none
  known_as (known ∷ rest) kind =
      let later = known_as rest kind in if equal_fold kind known then some known else later

  -- Canonical
  unfoldable pub canonical : Text → Text
  canonical raw =
      let kind = trim_space raw in
      elim (legacy_kind kind) [
        | some renamed ↦ renamed
        | none ↦ elim (known_as builtin_kinds kind) [
          | some known ↦ known
          | none ↦ elim (known_as registered kind) [ some known ↦ known | none ↦ kind ]
        ]
      ]

  -- resolveKind from the trimmed kind.
  unfoldable pub named_kind : Text → Text
  named_kind kind = if is_empty kind then kind_github else canonical kind

  -- resolveKind
  unfoldable pub resolve_kind : Config → Result ConfigError Text
  resolve_kind c = do
    let kind = trim_space c.kind
    let legacy = trim_space c.backend
    refuse_if
        (not (is_empty legacy) && not (is_empty kind) && not (canonical kind == canonical legacy))
        (two_kinds kind legacy)
    ok (named_kind (if is_empty kind then legacy else kind))

  -- UsesGitHub
  unfoldable pub uses_github : Config → Bool
  uses_github c =
      let kind = if is_empty (trim_space c.kind) then trim_space c.backend else trim_space c.kind in
      if is_empty kind then true else canonical kind == kind_github

  -- requireCompiledIn
  unfoldable pub require_compiled_in : Text → Result ConfigError (Unit {0})
  require_compiled_in kind = refuse_if (not (contains registered kind)) (not_compiled_in kind)

  -- validateObjectStore
  unfoldable pub validate_object_store : Config → Text → Result ConfigError (Unit {0})
  validate_object_store c kind = do
    refuse_if (is_empty (trim_space c.bucket)) (required (codes "storage.bucket"))
    require_compiled_in kind
