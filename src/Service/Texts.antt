-- ===== src/Service/Texts.antt =====
-- What Delete, Rename and SaveVariations make of the text of a flag's file.
use goff_studio.Base.{
  ◌≡◌, refl, sym, ap, ◌∙◌, false, true, not, some, List, Text, Result, ok, err, refuse_if, ◌>>◌,
  >>=-eq-ok, >>-eq-ok, refuse_if-eq-ok,
}
use goff_studio.Goff.{Flag}
use goff_studio.Service.{Failure, not_found, invalid, invalid_file, Broken, Studio, from_adapter}
use goff_studio.Service.Edits.{
  VariationsRequest, find_flag, or_not_found, or_not_renamed, stamp, serialized,
}
use goff_studio.Service.Contents.{apply_delete, stamp_key, apply_rename, with_variations}
use goff_studio.Service.Listing.{FlagView}
use goff_studio.Service.Removals.{completed}
use goff_studio.Service.Rights.{from_adapter-ok, or_not_found-ok}
use goff_studio.Service.Requests.{not-false}
use goff_studio.Service.References.Dangling.{Closed}
use goff_studio.Service.Visible.{ok_same}

or_not_renamed-ok : (r : Result Text Text) {a : Text} → or_not_renamed r ≡ ok a → r ≡ ok a
unfolding or_not_renamed
or_not_renamed-ok (err m) h = cc h
or_not_renamed-ok (ok b) h = cc h

module _ {Number Value Time World : Type 0} (studio : Studio Number Value Time World) where
  -- The adapter has removed the key, and the file is still one that can be read.
  abbrev pub Deleted : Text → FlagView Number Value → Text → Text → Type 0
  Deleted key v before after =
      (studio.adapter.remove before key ≡ ok after) × (studio.adapter.valid after ≡ true)

  -- The adapter has renamed the key, the flag under the new one is stamped, and the file can be read.
  abbrev pub Renamed : Time → Text → Text → FlagView Number Value → Text → Text → Type 0
  Renamed now key new_key v before after =
      (renamed : Text) × (studio.adapter.rename_key before key new_key ≡ ok renamed)
      × ((flags : List (Flag Number Value)) × (broken : List Broken) × (target : Flag Number Value)
          × (studio.adapter.parse v.flag.file renamed ≡ ok (flags, broken))
          × (find_flag flags new_key ≡ some target)
          × (studio.adapter.serialize renamed new_key (stamp studio.runtime now false target)
              ≡ ok after)
          × (studio.adapter.valid after ≡ true))

  -- The flag has the new variations and is stamped, and names no variation that it lacks.
  abbrev pub Revised :
      Time → VariationsRequest Number Value → FlagView Number Value → Text → Text → Type 0
  Revised now req v before after =
      let full = completed studio req v in
      (flags : List (Flag Number Value)) × (broken : List Broken) × (target : Flag Number Value)
      × (studio.adapter.parse v.flag.file before ≡ ok (flags, broken))
      × (find_flag flags req.key ≡ some target)
      × (serialized studio before req.key
            (stamp studio.runtime now false (with_variations studio full target))
          ≡ ok after)
      × Closed (with_variations studio full target)

  pub apply_delete-Deleted :
      (key before after : Text)
      → apply_delete studio key before ≡ ok after
      → (studio.adapter.remove before key ≡ ok after) × (studio.adapter.valid after ≡ true)
  unfolding apply_delete
  apply_delete-Deleted key before after h = by_removal (studio.adapter.remove before key) refl h
    where
      by_removal :
          (r : Result Text Text)
          → studio.adapter.remove before key ≡ r
          → elim r as (λ _. Result Failure Text) [
            | err _ ↦ err not_found
            | ok next ↦
                refuse_if (not (studio.adapter.valid next)) (invalid invalid_file) >> ok next
          ]
            ≡ ok after
          → (studio.adapter.remove before key ≡ ok after) × (studio.adapter.valid after ≡ true)
      by_removal (err m) q k = absurd (cc k)
      by_removal (ok next) q k =
          let (v, e) =
            >>-eq-ok (refuse_if (not (studio.adapter.valid next)) (invalid invalid_file)) _ k in
          let same : next ≡ after = ok_same e in
          (
            q ∙ ap (λ x. ok x) same,
            ap studio.adapter.valid (sym same)
                ∙ not-false _ (refuse_if-eq-ok _ (invalid invalid_file) v),
          )

  pub apply_rename-Renamed :
      (now : Time) (key new_key : Text) (v : FlagView Number Value) (before after : Text)
      → apply_rename studio now v.flag.file key new_key before ≡ ok after
      → Renamed now key new_key v before after
  unfolding apply_rename stamp_key
  apply_rename-Renamed now key new_key v before after h =
      let (renamed, r, h1) =
        >>=-eq-ok (or_not_renamed (studio.adapter.rename_key before key new_key)) _ h in
      let (next, n, h2) = >>=-eq-ok (stamp_key studio now v.flag.file new_key renamed) _ h1 in
      let (ok_next, e) =
        >>-eq-ok (refuse_if (not (studio.adapter.valid next)) (invalid invalid_file)) _ h2 in
      let same : next ≡ after = ok_same e in
      let ((flags, broken), p, n1) =
        >>=-eq-ok (from_adapter (studio.adapter.parse v.flag.file renamed)) _ n in
      let (target, f, n2) = >>=-eq-ok (or_not_found (find_flag flags new_key)) _ n1 in
      (
        renamed,
        or_not_renamed-ok _ r,
        (
          flags,
          broken,
          target,
          from_adapter-ok _ p,
          or_not_found-ok _ f,
          from_adapter-ok _ n2 ∙ ap (λ x. ok x) same,
          ap studio.adapter.valid (sym same)
              ∙ not-false _ (refuse_if-eq-ok _ (invalid invalid_file) ok_next),
        ),
      )
