-- ===== src/Config/Agreement.antt =====
-- The two places that read the storage kind from the configuration.
use goff_studio.Base.{
  ◌≡◌, refl, sym, ap, ◌∙◌, inl, inr, Bool, true, not, ◌&&◌, List, if◌then◌else◌, ◌==◌, ==_refl,
  Bool-cases, Text, text_eq, is_empty, trim_space, ok, >>-eq-ok, refuse_if,
}
use goff_studio.Config.{Config}
use goff_studio.Config.Startup.{two_kinds}
use goff_studio.Config.Kinds.{kind_github, canonical, named_kind, resolve_kind, uses_github}

module _ (equal_fold : Text → Text → Bool) (registered : List Text) where
  named_github :
      (kind : Text)
      → (named_kind equal_fold registered kind == kind_github)
        ≡ (if is_empty kind then true else canonical equal_fold registered kind == kind_github)
  unfolding named_kind
  named_github kind = elim (Bool-cases (is_empty kind)) [
    | inl t ↦ rw t (==_refl kind_github)
    | inr f ↦ rw f refl
  ]

  -- UsesGitHub says yes of a configuration exactly when the kind that the checks resolve is GitHub's.
  pub uses_github-resolve_kind :
      (c : Config) (kind : Text)
      → resolve_kind equal_fold registered c ≡ ok kind
      → uses_github equal_fold registered c ≡ (kind == kind_github)
  unfolding resolve_kind uses_github
  uses_github-resolve_kind c kind h =
      let own = trim_space c.kind in
      let legacy = trim_space c.backend in
      let chosen = if is_empty own then legacy else own in
      let (_, k) =
        >>-eq-ok
          (refuse_if
            (not (is_empty legacy)
              && not (is_empty own)
              && not
                  (canonical equal_fold registered own == canonical equal_fold registered legacy))
            (two_kinds own legacy))
          (ok (named_kind equal_fold registered chosen)) h in
      let e : named_kind equal_fold registered chosen ≡ kind = cc k in
      sym (named_github chosen) ∙ ap (λ x. x == kind_github) e
