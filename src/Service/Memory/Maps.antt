-- ===== src/Service/Memory/Maps.antt =====
-- Looking up in a map after a put.
use goff_studio.Base.{
  ◌≡◌, ◌≢◌, refl, sym, ap, ◌∙◌, inl, inr, Bool, false, none, some, List, [], ◌∷◌, if◌then◌else◌,
  filter, Comparable, ◌==◌, ==_iff, ==_refl, Bool-cases,
}
use goff_studio.Service.Memory.{look, put}

pub not_same {κ} : {K : Type κ} ⦃c : Comparable K⦄ (a b : K) → a ≢ b → (a == b) ≡ false
not_same a b n = elim (Bool-cases (a == b)) [ inl t ↦ absurd (n ((==_iff a b).0 t)) | inr f ↦ f ]

module _ {κ ν} {K : Type κ} {V : Type ν} ⦃c : Comparable K⦄ where
  pub look-put : (k : K) (v : V) (m : List (K × V)) → look (put k v m) k ≡ some v
  unfolding look put
  look-put k v [] = rw (==_refl k) refl
  look-put k v ((k', w) ∷ m) = elim (Bool-cases (k' == k)) [
    | inl t ↦ rw (t, t) refl
    | inr f ↦ rw (f, f) (look-put k v m)
  ]

  pub look-put_other :
      (k k' : K) (v : V) (m : List (K × V)) → k ≢ k' → look (put k v m) k' ≡ look m k'
  unfolding look put
  look-put_other k k' v [] n = rw (not_same k k' n) refl
  look-put_other k k' v ((k'', w) ∷ m) n = elim (Bool-cases (k'' == k)) [
    | inl t ↦ rw (t, not_same k'' k' (λ e. n (sym ((==_iff k'' k).0 t) ∙ e))) refl
    | inr f ↦ elim (Bool-cases (k'' == k')) [
      | inl t ↦ rw (f, t) refl
      | inr g ↦ rw (f, g) (look-put_other k k' v m n)
    ]
  ]

  -- A filter that reads the keys keeps the entry of a key that passes, and no other.
  pub look-filter :
      (p : K → Bool) (m : List (K × V)) (k : K)
      → look (filter (λ entry. p entry.0) m) k ≡ (if p k then look m k else none)
  unfolding look filter
  look-filter p [] k = elim (Bool-cases (p k)) [ inl t ↦ rw t refl | inr f ↦ rw f refl ]
  look-filter p ((k', w) ∷ m) k = elim (Bool-cases (k' == k)) [
    | inl t ↦ elim (Bool-cases (p k)) [
      | inl q ↦ rw (ap p ((==_iff k' k).0 t) ∙ q, t, q) refl
      | inr q ↦ rw (ap p ((==_iff k' k).0 t) ∙ q, t, q) (look-filter p m k ∙ rw q refl)
    ]
    | inr f ↦ elim (Bool-cases (p k')) [
      | inl q ↦ rw (q, f) (look-filter p m k)
      | inr q ↦ rw (q, f) (look-filter p m k)
    ]
  ]
