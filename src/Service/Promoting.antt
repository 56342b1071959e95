-- ===== src/Service/Promoting.antt =====
-- The methods of internal/server/promote.go: a promotion planned, and carried out by Create or Save.
use goff_studio.Base.{
  false, not, Option, none, some, List, [], ◌∷◌, ◌++◌, if◌then◌else◌, ◌==◌, Text, text_eq, codes,
  is_empty, trim_space, sort_by, text_less, join, Result, ok, err,
}
use goff_studio.Auth.{Session}
use goff_studio.Goff.{Flag}
use goff_studio.Permissions.{edit_rules}
use goff_studio.Promote.{
  Clock, Refusal, missing_variations, is_copyable_field, check_promotable, promote,
}
use goff_studio.Service.{
  Failure, not_found, invalid, same_environments, no_fields, not_promotable, blocked, would_break,
  Studio,
}
use goff_studio.Service.Memory.{State, snapshot}
use goff_studio.Service.Edits.{SaveRequest, CreateRequest}
use goff_studio.Service.Steps.{Step, settle, give, recall, forbid, ◌>>=◌, ◌>>◌}
use goff_studio.Service.Writes.{SaveResult, save}
use goff_studio.Service.Creates.{create_flag}
use goff_studio.Service.Reviews.{DiffResult, diff_create, diff}
use goff_studio.Service.Comparing.{CompareSide, compare_side, promote_blockers}
pub mod Outcomes

-- PromoteRequest
pub record PromoteRequest : Type 0 where
  pub key : Text
  pub from_environment : Text
  pub to_environment : Text
  pub team : Text
  pub fields : List Text
  pub file_sha : Text

-- The loop of planPromotion over the settings.
unfoldable pub check_fields : List Text → Result Failure (Unit {0})
check_fields [] = ok tt
check_fields (f ∷ fs) =
    if is_copyable_field f then check_fields fs else err (invalid (not_promotable f))

unfoldable pub lift_refusal : Result Refusal (Unit {0}) → Result Failure (Unit {0})
lift_refusal (ok value) = ok value
lift_refusal (err (missing_variations names)) = err (invalid (would_break names))

-- `description` of the plan.
unfoldable pub promotion_description : PromoteRequest → Text
promotion_description req =
    codes "Promote "
    ++ req.key
    ++ codes " from "
    ++ req.from_environment
    ++ codes " to "
    ++ req.to_environment
    ++ codes ": "
    ++ join (codes ", ") (sort_by text_less req.fields)

module _ (Number Value : Type 0) where
  -- promotion, with the flag of its source.
  pub record Promotion : Type 0 where
    pub source : CompareSide Number Value
    pub flag : Flag Number Value
    pub target : CompareSide Number Value

module _ {Number Value : Type 0} where
  unfoldable pub flag_of : CompareSide Number Value → Result Failure (Flag Number Value)
  flag_of side = elim side.flag [ none ↦ err not_found | some f ↦ ok f ]

  -- team
  unfoldable pub team_for : PromoteRequest → Promotion Number Value → Text
  team_for req plan =
      if not (is_empty (trim_space req.team)) then trim_space req.team else plan.source.team

  -- createRequest
  unfoldable pub create_request : PromoteRequest → Promotion Number Value → CreateRequest Value
  create_request req plan = record {
    environment = req.to_environment;
    key = req.key;
    team = team_for req plan;
    file_sha = [];
    value_type = plan.flag.value_type;
    variations = plan.flag.variations;
    default = plan.flag.default.variation;
    enabled = false;
    description = [];
  }

module _ {Number Value Time World : Type 0} (clock : Clock Number Time)
    (studio : Studio Number Value Time World) where
  -- The checks of planPromotion on a target that has the flag.
  unfoldable pub check_target :
      Time → List Text → Flag Number Value → Option (Flag Number Value) → Result Failure (Unit {0})
  check_target now fields source none = ok tt
  check_target now fields source (some target) = elim (promote_blockers source target) [
    | [] ↦ lift_refusal (check_promotable clock now source target fields)
    | blocker ∷ more ↦ err (invalid (blocked (blocker ∷ more)))
  ]

  -- planPromotion behind the target.
  unfoldable pub plan_onto :
      Time
      → PromoteRequest
      → CompareSide Number Value
      → Flag Number Value
      → CompareSide Number Value
      → Step (State Number Value Time World) (Promotion Number Value)
  plan_onto now req source flag target = do
    settle (check_target now req.fields flag target.flag)
    give (record { source = source; flag = flag; target = target })

  -- planPromotion behind the source.
  unfoldable pub plan_from :
      Session Time
      → Time
      → PromoteRequest
      → CompareSide Number Value
      → Step (State Number Value Time World) (Promotion Number Value)
  plan_from session now req source = do
    flag ← settle (flag_of source)
    target ← compare_side studio session now req.key req.to_environment
    plan_onto now req source flag target

  -- planPromotion
  unfoldable pub plan_promotion :
      Session Time
      → Time
      → PromoteRequest
      → Step (State Number Value Time World) (Promotion Number Value)
  plan_promotion session now req = do
    forbid (req.from_environment == req.to_environment) (invalid same_environments)
    forbid (is_empty req.fields) (invalid no_fields)
    settle (check_fields req.fields)
    source ← compare_side studio session now req.key req.from_environment
    plan_from session now req source

  -- The SaveRequest of Promote, with the flag of the version that was loaded.
  unfoldable pub promote_request :
      Time
      → PromoteRequest
      → Promotion Number Value
      → Option (Flag Number Value)
      → SaveRequest Number Value
  promote_request now req plan loaded = record {
    environment = req.to_environment;
    key = req.key;
    file = plan.target.file;
    file_sha = req.file_sha;
    loaded_flag = loaded;
    action = edit_rules;
    mutate = promote clock now plan.flag req.fields;
    summary = codes "promoted from " ++ req.from_environment;
  }

  -- Promote behind planPromotion, by whether the target has the flag.
  unfoldable pub carry_out :
      Session Time
      → Time
      → PromoteRequest
      → Promotion Number Value
      → Option (Flag Number Value)
      → Step (State Number Value Time World) SaveResult
  carry_out session now req plan none = create_flag studio session now (create_request req plan)
  carry_out session now req plan (some _) = do
    loaded ← recall (snapshot plan.target.file req.file_sha req.key)
    save studio session now (promote_request now req plan loaded)

  -- Promote
  unfoldable pub promote_flag :
      Session Time → Time → PromoteRequest → Step (State Number Value Time World) SaveResult
  promote_flag session now req = do
    plan ← plan_promotion session now req
    carry_out session now req plan plan.target.flag

  unfoldable pub show_plan :
      Session Time
      → Time
      → PromoteRequest
      → Promotion Number Value
      → Option (Flag Number Value)
      → Step (State Number Value Time World) (DiffResult Number)
  show_plan session now req plan none = diff_create studio session now (create_request req plan)
  show_plan session now req plan (some _) = diff studio session (record {
    environment = req.to_environment;
    key = req.key;
    mutate = promote clock now plan.flag req.fields;
    description = promotion_description req;
    rollout = none;
  })

  -- DiffPromote
  unfoldable pub diff_promote :
      Session Time
      → Time
      → PromoteRequest
      → Step (State Number Value Time World) (DiffResult Number)
  diff_promote session now req = do
    plan ← plan_promotion session now req
    show_plan session now req plan plan.target.flag
