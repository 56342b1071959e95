-- ===== src/Service/Granted.antt =====
-- What a right is, said of the rules of permissions.yaml instead of the code that reads them.
use goff_studio.Base.{◌≡◌, true, some, List, Any, Text}
use goff_studio.Permissions.{Action, allowed}
use goff_studio.Permissions.Decision.{Covers, allowed_iff}
use goff_studio.Service.{Studio, access}
use goff_studio.Service.Edits.{may}

module _ {Number Value Time World : Type 0} (studio : Studio Number Value Time World) where
  -- Some rule covers the groups, the environment, the team and the action.
  abbrev pub Covered : List Text → Text → Text → Action → Type 0
  Covered groups environment team action =
      Any
        (Covers
          (record { groups = groups; environment = environment; team = team; action = action }))
        studio.permissions.rules

  -- The same for the team as the configuration knows it: one it does not declare is no team.
  abbrev pub Granted : List Text → Text → Text → Action → Type 0
  Granted groups environment team action =
      Covered groups environment (access studio.config team) action

  pub allowed-Covered :
      (groups : List Text) (environment team : Text) (action : Action)
      → allowed
          (some studio.permissions)
          (record { groups = groups; environment = environment; team = team; action = action })
        ≡ true
      → Covered groups environment team action
  allowed-Covered groups environment team action h = ((allowed_iff studio.permissions _).0 h).1

  pub may-Granted :
      (groups : List Text) (environment team : Text) (action : Action)
      → may studio groups environment team action ≡ true
      → Granted groups environment team action
  unfolding may
  may-Granted groups environment team action h =
      allowed-Covered groups environment (access studio.config team) action h
