-- ===== src/Service/Memory.antt =====
-- What the service remembers of the files it has read: the maps `cache` and `history`, and the
-- index of the environments. A map is the list of its entries, one for each key.
pub mod Maps
pub mod Recall
use goff_studio.Base.{
  ◌≡◌, ◌↔◌, ap, arith, ==_iff, text_less, sort_by, ℕ, Bool, true, false, not, ◌&&◌, Option, none,
  some, List, [], ◌∷◌, ◌++◌, length, filter, ltb, if◌then◌else◌, Comparable, ◌==◌, Text, text_eq,
  codes, has_prefix, nat_eq,
}
use goff_studio.Goff.{Flag}

module _ {κ ν} {K : Type κ} {V : Type ν} ⦃c : Comparable K⦄ where
  -- `m[k]`, and its comma-ok form.
  unfoldable pub look : List (K × V) → K → Option V
  look [] k = none
  look ((k', v) ∷ m) k = let later = look m k in if k' == k then some v else later

  -- `m[k] = v`
  unfoldable pub put : K → V → List (K × V) → List (K × V)
  put k v [] = (k, v) ∷ []
  put k v ((k', w) ∷ m) = let later = put k v m in if k' == k then (k', v) ∷ m else (k', w) ∷ later

-- cacheKey
pub record CacheKey : Type 0 where
  pub file : Text
  pub sha : Text

unfoldable pub same_cache_key : CacheKey → CacheKey → Bool
same_cache_key a b = a.file == b.file && a.sha == b.sha

module _ (Number Value : Type 0) where
  abbrev pub FlagMap : Type 0
  FlagMap = List (Text × Flag Number Value)

  -- cachedFile
  pub record CachedFile : Type 0 where
    pub sha : Text
    pub flags : FlagMap

same_parts : (a b : CacheKey) → a.file ≡ b.file → a.sha ≡ b.sha → a ≡ b
same_parts a b f s = cc

pub same_cache_key_iff : (a b : CacheKey) → (same_cache_key a b ≡ true) ↔ (a ≡ b)
unfolding same_cache_key
same_cache_key_iff a b = (
  λ h.
      same_parts a b (ground (arith, ==_iff a.file b.file, ==_iff a.sha b.sha))
        (ground (arith, ==_iff a.file b.file, ==_iff a.sha b.sha)),
  λ e.
      ground
        (arith, ==_iff a.file b.file, ==_iff a.sha b.sha, ap (λ k. k.file) e, ap (λ k. k.sha) e),
)

instance abbrev pub cache_key_eq : Comparable CacheKey
cache_key_eq = record { same = same_cache_key; same_iff = same_cache_key_iff }

-- teamCounts
abbrev pub TeamCounts : Type 0
TeamCounts = List (Text × List (Text × ℕ))

module _ (Number Value Time World : Type 0) where
  -- The fields of Service that change, and the world. `environments` and `teams` hold what was
  -- loaded with the time when it was; `none` is nil.
  pub record State : Type 0 where
    pub cache : List (Text × CachedFile Number Value)
    pub history : List (CacheKey × FlagMap Number Value)
    pub environments : Option (List Text × Time)
    pub teams : Option (TeamCounts × Time)
    pub world : World

module _ {Number Value : Type 0} where
  -- The map `byKey` of remember: a later flag takes the place of an earlier one.
  unfoldable pub by_key : FlagMap Number Value → List (Flag Number Value) → FlagMap Number Value
  by_key m [] = m
  by_key m (f ∷ fs) = by_key (put f.key f m) fs

module _ {Number Value : Type 0} where
  -- The flag of an entry of `history`, where there is one.
  unfoldable pub entry_flag : Option (FlagMap Number Value) → Text → Option (Flag Number Value)
  entry_flag none key = none
  entry_flag (some entry) key = look entry key

-- The bound on `history` in remember.
abbrev pub max_remembered : ℕ
max_remembered = 256

module _ {Number Value : Type 0} where
  -- The end of remember: over the bound only the entries of this version stay.
  unfoldable pub trim_history :
      Text → List (CacheKey × FlagMap Number Value) → List (CacheKey × FlagMap Number Value)
  trim_history sha history =
      if ltb max_remembered (length history)
      then filter (λ entry. entry.0.sha == sha) history
      else history

  -- The keys of the entries that pass: the loop of CachedFilesFor.
  unfoldable pub cached_files : Text → Text → List (Text × CachedFile Number Value) → List Text
  cached_files environment key [] = []
  cached_files environment key ((file, entry) ∷ rest) =
      let others = cached_files environment key rest in
      if not (has_prefix file (environment ++ codes "/"))
      then others
      else elim (look entry.flags key) [ some _ ↦ file ∷ others | none ↦ others ]

module _ {Number Value Time World : Type 0} where
  -- remember
  unfoldable pub remember :
      Text
      → Text
      → List (Flag Number Value)
      → State Number Value Time World
      → State Number Value Time World
  remember file sha flags s =
      let map = by_key [] flags in
      record s {
        cache = put file (record { sha = sha; flags = map }) s.cache;
        history = trim_history sha (put (record { file = file; sha = sha }) map s.history);
      }

  -- snapshot
  unfoldable pub snapshot :
      Text → Text → Text → State Number Value Time World → Option (Flag Number Value)
  snapshot file sha key s = entry_flag (look s.history (record { file = file; sha = sha })) key

  -- knownSHA
  unfoldable pub known_sha : Text → Text → State Number Value Time World → Bool
  known_sha file sha s = elim (look s.history (record { file = file; sha = sha })) [
    | none ↦ false
    | some _ ↦ true
  ]

  -- CachedFilesFor
  unfoldable pub cached_files_for : Text → Text → State Number Value Time World → List Text
  cached_files_for environment key s = sort_by text_less (cached_files environment key s.cache)

  -- invalidateTeams
  unfoldable pub invalidate_teams : State Number Value Time World → State Number Value Time World
  invalidate_teams s = record s { teams = none }

  -- invalidateEnvironments
  unfoldable pub invalidate_environments :
      State Number Value Time World → State Number Value Time World
  invalidate_environments s = record s { environments = none; teams = none }
