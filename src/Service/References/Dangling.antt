-- ===== src/Service/References/Dangling.antt =====
-- A flag that SaveVariations writes has no reference to a variation that it lacks.
use goff_studio.Base.{
  ◌≡◌, Bool, true, false, not, List, [], All, if◌then◌else◌, some, Text, text_eq, is_empty,
  is_empty_iff, ok, >>=-eq-ok, >>-eq-ok, refuse_if, refuse_if-eq-ok,
}
use goff_studio.Goff.{Variation, Outcome, Flag}
use goff_studio.Service.{
  invalid, still_used, default_required, unknown_default, Broken, Studio, from_adapter,
}
use goff_studio.Service.Checks.{check_variation_shape, check_default, broken_references}
use goff_studio.Service.Edits.{VariationsRequest, find_flag, or_not_found, stamp, serialized}
use goff_studio.Service.Contents.{with_variations, build_variations}
use goff_studio.Service.Requests.{not-false}
use goff_studio.Service.Rights.{from_adapter-ok, or_not_found-ok}
use goff_studio.Service.References.{Kept, RuleKept, SplitKept, broken_references-empty}

module _ {Value : Type 0} where
  check_default-Kept :
      (variations : List (Variation Value)) (name : Text)
      → check_default variations name ≡ ok tt
      → Kept variations name
  unfolding check_default
  check_default-Kept variations name h =
      let (_, k) = >>-eq-ok (refuse_if (is_empty name) (invalid default_required)) _ h in
      not-false _ (refuse_if-eq-ok _ (invalid (unknown_default name)) k)

module _ {Number Value : Type 0} where
  -- Every variation that the outcome of a rule or the default names, alone or in a split, is one of
  -- the flag's own.
  pub record Closed (f : Flag Number Value) : Type 0 where
    pub rules : All (RuleKept f.variations) f.rules
    pub default : Kept f.variations f.default.variation
    pub split : SplitKept f.variations f.default

module _ {Number Value : Type 0} where
  -- The default that the flag is given, or keeps.
  default-Kept :
      (variations : List (Variation Value)) (no_default : Bool) (name : Text) (old : Outcome Number)
      → Kept variations (if no_default then old.variation else name)
      → SplitKept variations old
      → (Kept variations
          (if not no_default then record { variation = name; percentage = [] } else old).variation)
        × SplitKept variations
            (if not no_default then record { variation = name; percentage = [] } else old)
  default-Kept variations true name old k s = (k, s)
  default-Kept variations false name old k s = (k, tt)

module _ {Number Value Time World : Type 0} (studio : Studio Number Value Time World) where
  Closed-with_variations :
      (req : VariationsRequest Number Value) (target : Flag Number Value)
      → All (RuleKept req.variations) target.rules
      → SplitKept req.variations target.default
      → Kept req.variations (if is_empty req.default then target.default.variation else req.default)
      → Closed (with_variations studio req target)
  unfolding with_variations
  Closed-with_variations req target r s d =
      let (k, q) =
        default-Kept req.variations (is_empty req.default) req.default target.default d s in
      record { rules = r; default = k; split = q }

  -- Where buildVariations succeeds, the flag that it writes is one of the file, with the variations
  -- changed, and every variation that the outcome of a rule or the default names, alone or in a
  -- split, is one of its own. Progressive rollouts are not spoken of.
  pub build_variations-Closed :
      (now : Time) (req : VariationsRequest Number Value) (current next : Text)
      → build_variations studio now req current ≡ ok next
      → (flags : List (Flag Number Value)) × (broken : List Broken) × (target : Flag Number Value)
        × (studio.adapter.parse req.file current ≡ ok (flags, broken))
        × (find_flag flags req.key ≡ some target)
        × (serialized studio current req.key
              (stamp studio.runtime now false (with_variations studio req target))
            ≡ ok next)
        × Closed (with_variations studio req target)
  unfolding build_variations
  build_variations-Closed now req current next h =
      let ((flags, broken), p, h1) =
        >>=-eq-ok (from_adapter (studio.adapter.parse req.file current)) _ h in
      let (target, f, h2) = >>=-eq-ok (or_not_found (find_flag flags req.key)) _ h1 in
      let (_, h3) = >>-eq-ok (check_variation_shape req.variations) _ h2 in
      let problems = broken_references target req.variations req.default in
      let (e, h4) =
        >>-eq-ok (refuse_if (not (is_empty problems)) (invalid (still_used problems))) _ h3 in
      let default = if is_empty req.default then target.default.variation else req.default in
      let (d, h5) = >>-eq-ok (check_default req.variations default) _ h4 in
      let none_left =
        (is_empty_iff problems).0
          (not-false _ (refuse_if-eq-ok _ (invalid (still_used problems)) e)) in
      let (r, s) = broken_references-empty target req.variations req.default none_left in
      (
        flags,
        broken,
        target,
        from_adapter-ok _ p,
        or_not_found-ok _ f,
        h5,
        Closed-with_variations req target r s (check_default-Kept req.variations default d),
      )
