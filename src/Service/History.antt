-- ===== src/Service/History.antt =====
-- History: the commits of a flag's file that are about the flag. The texts are lists of runes where
-- the code reads bytes; a key is not empty.
pub mod Scans
use goff_studio.Base.{
  ℕ, zero, suc, Bool, true, false, not, ◌&&◌, ◌||◌, Option, none, some, List, [], ◌∷◌, ◌++◌, ℤ,
  length, take, drop, filter, ltb, leb, if◌then◌else◌, ◌==◌, nat_eq, Text, text_eq, codes,
  has_prefix, Result, ok, err,
}
use goff_studio.Auth.{Session}
use goff_studio.Validate.{bounded_limit}
use goff_studio.Service.{Failure, Commit, Studio}
use goff_studio.Service.Memory.{State}
use goff_studio.Service.Steps.{Step, give, ask, ◌>>=◌, ◌>>◌}
use goff_studio.Service.Listing.{FlagView, get}

-- MaxHistoryScan
abbrev pub max_history_scan : ℕ
max_history_scan = 200

-- strings.Cut: what is before and behind the separator.
unfoldable pub cut : Text → Text → Option (Text × Text)
cut sep [] = none
cut sep (c ∷ s) =
    let later = cut sep s in
    if has_prefix (c ∷ s) sep
    then some ([], drop (length sep) (c ∷ s))
    else elim later [ none ↦ none | some (before, after) ↦ some (c ∷ before, after) ]

unfoldable pub before_cut : Text → Text → Text
before_cut sep s = elim (cut sep s) [ none ↦ s | some (before, after) ↦ before ]

-- isKeyByte
unfoldable pub is_key_byte : ℕ → Bool
is_key_byte b =
    b == b'-'
    || b == b'_'
    || b == b'.'
    || leb b'0' b && leb b b'9'
    || leb b'a' b && leb b b'z'
    || leb b'A' b && leb b b'Z'

-- Whether no key goes on at a place, there being nothing or no byte of a key.
unfoldable pub ends_key : Text → Bool
ends_key [] = true
ends_key (c ∷ s) = not (is_key_byte c)

-- The second loop of commitTouches; `before` has what comes before a place, its last rune first.
unfoldable pub has_token : Text → Text → Text → Bool
has_token key before [] = false
has_token key before (c ∷ s) =
    let later = has_token key (c ∷ before) s in
    if has_prefix (c ∷ s) key && ends_key before && ends_key (drop (length key) (c ∷ s))
    then true
    else later

-- The nested `if`s of commitTouches: a subject of Studio, by its key and its summary.
unfoldable pub studio_subject : Text → Option (Text × Text)
studio_subject [] = none
studio_subject (c ∷ s) = if not (c == b'[') then none else elim (cut (codes "] ") s) [
  | none ↦ none
  | some (env, rest) ↦ elim (cut (codes "/") rest) [
    | none ↦ none
    | some (area, entry) ↦ cut (codes ": ") entry
  ]
]

-- commitTouches
unfoldable pub commit_touches : Text → Text → Bool
commit_touches message key =
    let subject = before_cut (codes "\n") message in
    elim (studio_subject subject) [
      | some (got, summary) ↦ got == key || summary == codes "renamed to " ++ key
      | none ↦ has_token key [] subject
    ]

-- The test behind a scan of History.
unfoldable pub scanned_enough : ℕ → ℕ → List Commit → List Commit → Bool
scanned_enough want scan commits out =
    leb want (length out) || ltb (length commits) scan || leb max_history_scan scan

module _ {Number Value Time World : Type 0} (studio : Studio Number Value Time World) where
  -- The loop of History on fuel; `none` is a loop that has used it up.
  unfoldable pub scan_history :
      ℕ → Text → Text → ℕ → ℕ → Step (State Number Value Time World) (Option (List Commit))
  scan_history zero file key want scan = give none
  scan_history (suc fuel) file key want scan = do
    commits ← ask (studio.backend.history file scan)
    let out = filter (λ c. commit_touches c.message key) commits
    if scanned_enough want scan commits out
        then give (some (take want out))
        else scan_history fuel file key want max_history_scan

  -- History; its loop is given two turns.
  unfoldable pub history :
      Session Time → Text → Text → ℤ → Step (State Number Value Time World) (Option (List Commit))
  history session environment key limit =
      if not studio.backend.has_history then give (some []) else do
        v ← get studio session environment key
        scan_history 2 v.flag.file key (bounded_limit limit) (bounded_limit limit)
