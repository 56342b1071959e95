-- ===== src/Service/Promoting/Outcomes.antt =====
-- internal/server/promote.go: what Promote has done where it succeeds.
use goff_studio.Base.{
  ◌≡◌, ◌≢◌, ◌⊎◌, true, false, Option, none, some, List, All, ◌==◌, Text, text_eq, ok,
}
use goff_studio.Promote.{Clock, is_copyable_field, check_promotable}
use goff_studio.Service.{Studio}
use goff_studio.Service.Listing.{FlagView}
use goff_studio.Service.Comparing.Seen.{Seen}
use goff_studio.Service.Promoting.{PromoteRequest, Promotion, create_request, promote_request}
use goff_studio.Service.Rights.{Saves}
use goff_studio.Service.Requests.{Requested}
use goff_studio.Service.Fresh.{Added}

module _ {Number Value Time World : Type 0} (clock : Clock Number Time)
    (studio : Studio Number Value Time World) where
  -- What a promotion that was planned for the caller has been checked for.
  pub record Planned (texts : Text → Option Text) (groups : List Text) (now : Time)
      (req : PromoteRequest) (plan : Promotion Number Value) : Type 0 where
    pub apart : (req.from_environment == req.to_environment) ≡ false
    pub copyable : All (λ f. is_copyable_field f ≡ true) req.fields
    pub view : FlagView Number Value
    pub source : Seen studio texts groups req.from_environment req.key plan.source view
    pub copied : plan.flag ≡ view.flag
    pub target :
        (plan.target.flag ≡ none)
        ⊎ ((v : FlagView Number Value) × Seen studio texts groups req.to_environment req.key
              plan.target v
            × (plan.flag.value_type ≡ v.flag.value_type)
            × (check_promotable clock now plan.flag v.flag req.fields ≡ ok tt))

  -- Where the target had no flag, one was created in it; otherwise its own was saved.
  abbrev pub Done :
      (World → Text → Option Text)
      → List Text
      → Time
      → PromoteRequest
      → Promotion Number Value
      → World
      → World
      → Type 0
  Done content groups now req plan w w' =
      ((plan.target.flag ≡ none)
        × Requested studio groups (create_request req plan)
        × Added studio content now (create_request req plan) w w')
      ⊎ ((plan.target.flag ≢ none)
          × ((before : Text) × (after : Text) × (content w plan.target.file ≡ some before)
              × Saves studio groups now (promote_request clock studio now req plan none) before
                  after
              × (content w' plan.target.file ≡ some after)))

  -- A promotion that was planned and carried out.
  pub record Carried (content : World → Text → Option Text) (groups : List Text) (now : Time)
      (req : PromoteRequest) (w w' : World) : Type 0 where
    pub plan : Promotion Number Value
    pub planned : Planned (content w) groups now req plan
    pub done : Done content groups now req plan w w'
