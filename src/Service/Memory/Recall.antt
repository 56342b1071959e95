-- ===== src/Service/Memory/Recall.antt =====
-- What the service recalls of a file that it has read.
use goff_studio.Base.{
  ◌≡◌, ◌≢◌, refl, sym, ap, ◌∙◌, ◌⊎◌, inl, inr, arith, false, Option, none, some, List, [], ◌∷◌,
  length, ltb, if◌then◌else◌, ◌==◌, ==_iff, Bool-cases, Text, text_eq,
}
use goff_studio.Goff.{Flag}
use goff_studio.Service.Memory.{
  look, put, CacheKey, cache_key_eq, FlagMap, State, by_key, entry_flag, max_remembered,
  trim_history, remember, snapshot,
}
use goff_studio.Service.Memory.Maps.{look-put, look-put_other, look-filter}

unequal : (a b : Text) → (a == b) ≡ false → a ≢ b
unequal a b f e = absurd (ground (arith, ==_iff a b, f, e))

module _ {Number Value : Type 0} where
  -- The last flag of the key, and before it what `start` gives.
  abbrev pub last_flag :
      Option (Flag Number Value) → List (Flag Number Value) → Text → Option (Flag Number Value)
  last_flag start [] key = start
  last_flag start (f ∷ fs) key = last_flag (if f.key == key then some f else start) fs key

  look-by_key :
      (m : FlagMap Number Value) (flags : List (Flag Number Value)) (key : Text)
      → look (by_key m flags) key ≡ last_flag (look m key) flags key
  unfolding by_key
  look-by_key m [] key = refl
  look-by_key m (f ∷ fs) key =
      look-by_key (put f.key f m) fs key ∙ ap (λ o. last_flag o fs key) (look-first m f key)
    where
      look-first :
          (m : FlagMap Number Value) (f : Flag Number Value) (key : Text)
          → look (put f.key f m) key ≡ (if f.key == key then some f else look m key)
      look-first m f key = elim (Bool-cases (f.key == key)) [
        | inl t ↦
            rw t (ap (look (put f.key f m)) (sym ((==_iff f.key key).0 t)) ∙ look-put f.key f m)
        | inr g ↦ rw g (look-put_other f.key key f m (unequal f.key key g))
      ]

abbrev pub cache_key : Text → Text → CacheKey
cache_key file sha = record { file = file; sha = sha }

module _ {Number Value : Type 0} where
  look-trim :
      (sha : Text) (h : List (CacheKey × FlagMap Number Value)) (k : CacheKey)
      → (look (trim_history sha h) k ≡ look h k)
        ⊎ ((look (trim_history sha h) k ≡ none) × (k.sha ≢ sha))
  unfolding trim_history
  look-trim sha h k = elim (Bool-cases (ltb max_remembered (length h))) [
    | inl t ↦ elim (Bool-cases (k.sha == sha)) [
      | inl q ↦ inl (rw t (look-filter (λ x. x.sha == sha) h k ∙ rw q refl))
      | inr q ↦ inr (rw t (look-filter (λ x. x.sha == sha) h k ∙ rw q refl), unequal k.sha sha q)
    ]
    | inr f ↦ inl (rw f refl)
  ]

module _ {Number Value Time World : Type 0} where
  look-remembered :
      (file sha : Text) (flags : List (Flag Number Value)) (s : State Number Value Time World)
      → look (remember file sha flags s).history (cache_key file sha) ≡ some (by_key [] flags)
  unfolding remember
  look-remembered file sha flags s =
      let k = cache_key file sha in
      elim (look-trim sha (put k (by_key [] flags) s.history) k) [
        | inl e ↦ e ∙ look-put k (by_key [] flags) s.history
        | inr (_, n) ↦ absurd (n refl)
      ]

  -- The snapshot of a version just remembered is the last flag of the key among those read.
  pub snapshot-remember :
      (file sha : Text) (flags : List (Flag Number Value)) (key : Text)
      → (s : State Number Value Time World)
      → snapshot file sha key (remember file sha flags s) ≡ last_flag none flags key
  unfolding snapshot entry_flag look
  snapshot-remember file sha flags key s =
      ap (λ o. entry_flag o key) (look-remembered file sha flags s) ∙ look-by_key [] flags key

  -- Remembering a version leaves each snapshot of every other version as it is, or forgets it, and
  -- this only of a version with another sha.
  pub snapshot-remember_other :
      (file sha : Text) (flags : List (Flag Number Value)) (s : State Number Value Time World)
      → (file' sha' key : Text) → cache_key file sha ≢ cache_key file' sha'
      → (snapshot file' sha' key (remember file sha flags s) ≡ snapshot file' sha' key s)
        ⊎ ((snapshot file' sha' key (remember file sha flags s) ≡ none) × (sha' ≢ sha))
  unfolding snapshot remember entry_flag
  snapshot-remember_other file sha flags s file' sha' key n =
      let k = cache_key file sha in
      let k' = cache_key file' sha' in
      let kept = look-put_other k k' (by_key [] flags) s.history n in
      elim (look-trim sha (put k (by_key [] flags) s.history) k') [
        | inl e ↦ inl (ap (λ o. entry_flag o key) (e ∙ kept))
        | inr (e, m) ↦ inr (ap (λ o. entry_flag o key) e, m)
      ]
