-- ===== src/Service/Requests.antt =====
-- What Create checks of a request, and what it makes of the text of a file.
use goff_studio.Base.{
  ◌≡◌, refl, Bool, true, false, not, List, Text, trim_space, ok, refuse_if, >>=-eq-ok, >>-eq-ok,
  refuse_if-eq-ok,
}
use goff_studio.Goff.{Flag}
use goff_studio.Permissions.{create}
use goff_studio.Validate.{valid_description}
use goff_studio.Service.{forbidden, duplicate_key, Broken, Studio, from_adapter}
use goff_studio.Service.Checks.{lift_invalid, valid_key, valid_team, check_variations}
use goff_studio.Service.Edits.{CreateRequest, has_key, stamp, serialized}
use goff_studio.Service.Contents.{create_path, check_create, created_flag, build_create}
use goff_studio.Service.Rights.{from_adapter-ok}
use goff_studio.Service.Granted.{Covered, allowed-Covered}

pub not-false : (b : Bool) → not b ≡ false → b ≡ true
not-false true h = refl
not-false false h = cc

module _ {Number Value Time World : Type 0} (studio : Studio Number Value Time World) where
  -- What a request to create a flag must be, and the right that it needs.
  pub record Requested (groups : List Text) (req : CreateRequest Value) : Type 0 where
    pub team : valid_team studio.config req.team ≡ ok tt
    pub right : Covered studio groups req.environment (trim_space req.team) create
    pub key : valid_key req.key ≡ ok tt
    pub variations : check_variations req.variations req.default ≡ ok tt
    pub description : lift_invalid (valid_description req.description) ≡ ok tt

  pub check_create-Requested :
      (groups : List Text) (req : CreateRequest Value)
      → check_create studio groups req ≡ ok tt
      → Requested groups req
  unfolding check_create
  check_create-Requested groups req h =
      let (t, h1) = >>-eq-ok (valid_team studio.config req.team) _ h in
      let (r, h2) = >>-eq-ok (refuse_if _ forbidden) _ h1 in
      let (k, h3) = >>-eq-ok (valid_key req.key) _ h2 in
      let (v, d) = >>-eq-ok (check_variations req.variations req.default) _ h3 in
      record {
        team = t;
        right =
            allowed-Covered studio groups req.environment (trim_space req.team) create
              (not-false _ (refuse_if-eq-ok _ forbidden r));
        key = k;
        variations = v;
        description = d;
      }

  -- The text `after` of a file is the text `before`, in which the key was new, with the flag.
  pub record Adds (now : Time) (req : CreateRequest Value) (before after : Text) : Type 0 where
    pub flags : List (Flag Number Value)
    pub broken : List Broken
    pub parsed : studio.adapter.parse (create_path studio req) before ≡ ok (flags, broken)
    pub fresh : has_key flags broken req.key ≡ false
    pub written :
        serialized studio before req.key
          (stamp studio.runtime now true (created_flag studio req (create_path studio req)))
        ≡ ok after

  pub build_create-Adds :
      (now : Time) (req : CreateRequest Value) (before after : Text)
      → build_create studio now req (create_path studio req) before ≡ ok after
      → Adds now req before after
  unfolding build_create
  build_create-Adds now req before after h =
      let ((flags, broken), p, h1) =
        >>=-eq-ok (from_adapter (studio.adapter.parse (create_path studio req) before)) _ h in
      let (n, h2) = >>-eq-ok (refuse_if (has_key flags broken req.key) _) _ h1 in
      record {
        flags = flags;
        broken = broken;
        parsed = from_adapter-ok _ p;
        fresh = refuse_if-eq-ok _ (duplicate_key req.key (create_path studio req)) n;
        written = h2;
      }
