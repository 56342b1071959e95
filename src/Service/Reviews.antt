-- ===== src/Service/Reviews.antt =====
-- What the review dialog shows before a change, the attributes that rules use, and Preview. The
-- lines of a diff are `none` where the table of the diff is read out of its bounds, which no call
-- does.
use goff_studio.Base.{
  not, ◌&&◌, Option, none, some, List, [], ◌∷◌, ◌++◌, map, contains, join, if◌then◌else◌, Text,
  text_eq, codes, is_empty, trim_space, sort_by, text_less, Result, ok, err,
}
use goff_studio.Auth.{Session}
use goff_studio.Config.{single_file}
use goff_studio.Diff.{unified_diff}
use goff_studio.Goff.{Condition, condition, Conditions, none_left, child, nil_child, Rule, Flag}
use goff_studio.Goff.Compile.{is_group}
use goff_studio.Permissions.{create, delete, edit_variations}
use goff_studio.Storage.{StoredFile}
use goff_studio.Summary.{summarize}
use goff_studio.Service.{Failure, forbidden, not_found, Studio, from_adapter}
use goff_studio.Service.Memory.{State}
use goff_studio.Service.Checks.{valid_key}
use goff_studio.Service.Edits.{CreateRequest, VariationsRequest, team_seed, or_not_renamed}
use goff_studio.Service.Contents.{create_path, created_flag, build_create, build_variations}
use goff_studio.Service.Steps.{Step, settle, give, attempt, forbid, ask, ◌>>=◌, ◌>>◌}
use goff_studio.Service.Listing.{FlagView, list, get}
use goff_studio.Service.Creates.{is_missing, prepare_create}
use goff_studio.Service.Removals.{may_on, completed, check_unused}

module _ (Number : Type 0) where
  -- RolloutDiff
  pub record RolloutDiff : Type 0 where
    pub before : List (Text × Number)
    pub after : List (Text × Number)

  -- DiffResult
  pub record DiffResult : Type 0 where
    pub description : Text
    pub diff : Option Text
    pub rollout : Option (RolloutDiff)

module _ (Number Value : Type 0) where
  -- DiffRequest
  pub record DiffRequest : Type 0 where
    pub environment : Text
    pub key : Text
    pub mutate : Flag Number Value → Flag Number Value
    pub description : Text
    pub rollout : Option (RolloutDiff Number)

module _ {Number : Type 0} where
  unfoldable pub between : Text → Text → Text → DiffResult Number
  between description before after = record {
    description = description;
    diff = unified_diff before after 3;
    rollout = none;
  }

-- `seen[name] = true`
unfoldable pub see : Text → List Text → List Text
see name seen = if contains seen name then seen else name ∷ seen

unfoldable mutual
  -- collectAttributes
  pub collect_attributes : Condition → List Text → List Text
  collect_attributes (condition op negated children attribute operator value) seen =
      if is_group op
      then collect_all children seen
      else if not (is_empty attribute)
      then see attribute seen
      else seen

  pub collect_all : Conditions → List Text → List Text
  collect_all none_left seen = seen
  collect_all (nil_child cs) seen = collect_all cs seen
  collect_all (child c cs) seen = collect_all cs (collect_attributes c seen)

module _ {Number : Type 0} where
  -- The loop of Attributes over the rules of a flag.
  unfoldable pub rule_attributes : List (Rule Number) → List Text → List Text
  rule_attributes [] seen = seen
  rule_attributes (r ∷ rs) seen = elim r.condition [
    | none ↦ rule_attributes rs seen
    | some c ↦ rule_attributes rs (collect_attributes c seen)
  ]

module _ {Number Value : Type 0} where
  unfoldable pub view_attributes : List (FlagView Number Value) → List Text → List Text
  view_attributes [] seen = seen
  view_attributes (v ∷ vs) seen = view_attributes vs (rule_attributes v.flag.rules seen)

module _ {Number Value Time World : Type 0} (studio : Studio Number Value Time World) where
  -- Attributes
  unfoldable pub attributes : Session Time → Text → Step (State Number Value Time World) (List Text)
  attributes session environment = do
    listed ← list studio session environment
    give (sort_by text_less (view_attributes listed.flags []))

  -- The content that DiffCreate starts from, of what ReadFile has answered.
  unfoldable pub content_or_seed :
      CreateRequest Value → Result Failure StoredFile → Result Failure Text
  content_or_seed req found =
      if is_missing found && not (single_file studio.config)
      then ok (team_seed req.environment (trim_space req.team))
      else elim found [ ok f ↦ ok f.content | err failure ↦ err failure ]

  -- DiffCreate
  unfoldable pub diff_create :
      Session Time
      → Time
      → CreateRequest Value
      → Step (State Number Value Time World) (DiffResult Number)
  diff_create session now req = do
    prepare_create studio session req
    found ← attempt (ask (studio.backend.read_file (create_path studio req)))
    content ← settle (content_or_seed req found)
    next ← settle (build_create studio now req (create_path studio req) content)
    give (
        between
          (codes "Create "
            ++ req.key
            ++ codes " in "
            ++ create_path studio req
            ++ codes ": "
            ++ summarize studio.runtime.printer (created_flag studio req (create_path studio req)))
          content next)

  -- DiffDelete
  unfoldable pub diff_delete :
      Session Time → Text → Text → Step (State Number Value Time World) (DiffResult Number)
  diff_delete session environment key = do
    v ← get studio session environment key
    forbid (not (may_on studio session environment v delete)) forbidden
    f ← ask (studio.backend.read_file v.flag.file)
    elim (studio.adapter.remove f.content key) [
      | err _ ↦ settle (err not_found)
      | ok next ↦
          give (between (codes "Delete " ++ key ++ codes " from " ++ v.flag.file) f.content next)
    ]

  -- DiffRename
  unfoldable pub diff_rename :
      Session Time → Text → Text → Text → Step (State Number Value Time World) (DiffResult Number)
  diff_rename session environment key raw = do
    v ← get studio session environment key
    let new_key = trim_space raw
    settle (valid_key new_key)
    forbid (not (may_on studio session environment v create)) forbidden
    forbid (not (may_on studio session environment v delete)) forbidden
    check_unused studio environment new_key
    f ← ask (studio.backend.read_file v.flag.file)
    next ← settle (or_not_renamed (studio.adapter.rename_key f.content key new_key))
    give (
        between (codes "Rename " ++ key ++ codes " to " ++ new_key ++ codes " in " ++ v.flag.file)
          f.content next)

  -- DiffVariations
  unfoldable pub diff_variations :
      Session Time
      → Time
      → VariationsRequest Number Value
      → Step (State Number Value Time World) (DiffResult Number)
  diff_variations session now req = do
    v ← get studio session req.environment req.key
    forbid (not (may_on studio session req.environment v edit_variations)) forbidden
    f ← ask (studio.backend.read_file v.flag.file)
    next ← settle (build_variations studio now (completed studio req v) f.content)
    give (
        between
          (codes "Change the variations on "
            ++ req.key
            ++ codes " to "
            ++ join (codes ", ") (map (λ x. x.name) req.variations))
          f.content next)

  -- Diff
  unfoldable pub diff :
      Session Time
      → DiffRequest Number Value
      → Step (State Number Value Time World) (DiffResult Number)
  diff session req = do
    v ← get studio session req.environment req.key
    f ← ask (studio.backend.read_file v.flag.file)
    let draft = req.mutate v.flag
    next ← settle (from_adapter (studio.adapter.serialize f.content req.key draft))
    give (record {
      description =
          if is_empty req.description
          then req.key ++ codes " becomes: " ++ summarize studio.runtime.printer draft
          else req.description;
      diff = unified_diff f.content next 3;
      rollout = req.rollout;
    })

  -- The content that Preview evaluates: that of the file, or with the draft in it.
  unfoldable pub draft_content : Text → Text → Option (Flag Number Value) → Result Failure Text
  draft_content content key none = ok content
  draft_content content key (some draft) = from_adapter (studio.adapter.serialize content key draft)

  -- Preview; `evaluate` is Evaluate of evaluate.go with the targeting key and the attributes.
  unfoldable pub preview :
      {Answer : Type 0}
      → (Text → Text → Answer)
      → Session Time
      → Text
      → Text
      → Option (Flag Number Value)
      → Step (State Number Value Time World) Answer
  preview evaluate session environment key draft = do
    v ← get studio session environment key
    f ← ask (studio.backend.read_file v.flag.file)
    content ← settle (draft_content f.content key draft)
    give (evaluate content key)
