-- ===== src/Permissions/Grants/Merged.antt =====
-- `GrantsFor` against a description without positions: each group once, with the rights of all
-- the rules that apply to it.
use goff_studio.Base.{
  ℕ, suc, ◌+◌, Bool, true, false, ◌||◌, ◌≡◌, refl, sym, ◌∙◌, Option, none, some, List, [], ◌∷◌,
  ◌++◌, map, if◌then◌else◌, ◌==◌, ==_iff, Text, text_eq, length, filter, arith, Bool-cases,
  Option-cases, inl, inr,
}
use goff_studio.Permissions.{Rule, Set}
use goff_studio.Permissions.Grants.{
  Grant, Collected, index_lookup, merge_at, collect, grant_of, grant_applies, collect_rules,
  grants_for,
}

-- The grants of two rules for one group.
abbrev pub both : Grant → Grant → Grant
both a b = record a { all_teams = a.all_teams || b.all_teams; writes = a.writes || b.writes }

abbrev pub absorb : Grant → Option Grant → Grant
absorb a none = a
absorb a (some b) = both a b

-- All the grants of a group, merged; `none` where there is no grant for it.
pub merged : Text → List Grant → Option Grant
merged group [] = none
merged group (a ∷ rest) =
    if a.group == group then some (absorb a (merged group rest)) else merged group rest

-- The first entry of a group.
pub find_grant : List Grant → Text → Option Grant
find_grant [] group = none
find_grant (a ∷ rest) group = if a.group == group then some a else find_grant rest group

-- No group has two entries.
abbrev pub Once : List Grant → Type 0
Once [] = Unit
Once (a ∷ rest) = (find_grant rest a.group ≡ none) × Once rest

pub applicable : Text → Text → List Rule → List Grant
applicable environment team rules = map grant_of (filter (grant_applies environment team) rules)

-- One step of the loop with no index: merge into the group's entry, or append one.
add : List Grant → Grant → List Grant
add [] grant = grant ∷ []
add (a ∷ rest) grant = if a.group == grant.group then both a grant ∷ rest else a ∷ add rest grant

position_from : ℕ → List Grant → Text → Option ℕ
position_from n [] group = none
position_from n (a ∷ rest) group =
    if a.group == group then some n else position_from (suc n) rest group

-- The map from a group to its place is right.
abbrev IsIndex : List (Text × ℕ) → List Grant → Type 0
IsIndex index out = (g : Text) → index_lookup index g ≡ position_from 0 out g

abbrev or_else : Option ℕ → Option ℕ → Option ℕ
or_else none o = o
or_else (some k) o = some k

position_from-append :
    (n : ℕ) (out : List Grant) (x : Grant) (g : Text)
    → position_from n (out ++ x ∷ []) g
      ≡ or_else (position_from n out g) (if x.group == g then some (n + length out) else none)
unfolding position_from
position_from-append n [] x g = ground arith
position_from-append n (a ∷ out) x g = ground (arith, position_from-append (suc n) out x g)

add_new :
    (n : ℕ) (out : List Grant) (x : Grant)
    → position_from n out x.group ≡ none
    → add out x ≡ out ++ x ∷ []
unfolding position_from add
add_new n [] x h = refl
add_new n (a ∷ out) x h = ground (arith, add_new (suc n) out x)

add_old :
    (n k : ℕ) (out : List Grant) (x : Grant)
    → position_from n out x.group ≡ some k
    → (at : ℕ) × (k ≡ n + at) × (merge_at out at x ≡ add out x)
unfolding position_from add merge_at
add_old n k [] x h = cc
add_old n k (a ∷ out) x h = elim (Bool-cases (a.group == x.group)) [
  | inl e ↦ (0, ground arith, ground arith)
  | inr e ↦
      let (at, p, q) = add_old (suc n) k out x (ground arith) in
      (suc at, omega arith, ground (arith, q))
]

position_from-add :
    (n k : ℕ) (out : List Grant) (x : Grant) (g : Text)
    → position_from n out x.group ≡ some k
    → position_from n (add out x) g ≡ position_from n out g
unfolding position_from add
position_from-add n k [] x g h = cc
position_from-add n k (a ∷ out) x g h = ground (arith, position_from-add (suc n) k out x g)

-- One step of the loop is `add`, and keeps the map right.
collect-out :
    (st : Collected) (x : Grant) → IsIndex st.index st.out → (collect st x).out ≡ add st.out x
unfolding collect
collect-out st x inv = elim (Option-cases (index_lookup st.index x.group)) [
  | inl e ↦ ground (arith, e, add_new 0 st.out x (sym (inv x.group) ∙ e))
  | inr (k, e) ↦
      let (at, p, q) = add_old 0 k st.out x (sym (inv x.group) ∙ e) in
      let same : k ≡ at = omega arith in ground (arith, e, q, same)
]

collect-IsIndex :
    (st : Collected) (x : Grant)
    → IsIndex st.index st.out
    → IsIndex (collect st x).index (collect st x).out
unfolding collect index_lookup
collect-IsIndex st x inv g = elim (Option-cases (index_lookup st.index x.group)) [
  | inl e ↦
      ground (arith, e, inv g, inv x.group, position_from-append 0 st.out x g, ==_iff x.group g)
  | inr (k, e) ↦
      let (at, p, q) = add_old 0 k st.out x (sym (inv x.group) ∙ e) in
      let same : k ≡ at = omega arith in
      ground (arith, e, q, same, inv g, position_from-add 0 k st.out x g (sym (inv x.group) ∙ e))
]

find-add :
    (out : List Grant) (x : Grant) (g : Text)
    → find_grant (add out x) g ≡ (
        if x.group == g
        then some (elim (find_grant out g) [ none ↦ x | some a ↦ both a x ])
        else find_grant out g)
unfolding find_grant add
find-add [] x g = ground arith
find-add (a ∷ out) x g =
    ground (arith, find-add out x g, ==_iff a.group x.group, ==_iff a.group g, ==_iff x.group g)

Once-add : (out : List Grant) (x : Grant) → Once out → Once (add out x)
unfolding find_grant add
Once-add [] x h = (refl, tt)
Once-add (a ∷ out) x h = ground (
  arith,
  find-add out x a.group,
  Once-add out x h.1,
  ==_iff a.group x.group,
  ==_iff x.group a.group,
)

abbrev gathered : Option Grant → Option Grant → Option Grant
gathered none o = o
gathered (some a) o = some (absorb a o)

step-IsIndex :
    (b : Bool) (st : Collected) (x : Grant)
    → IsIndex st.index st.out
    → IsIndex (if b then collect st x else st).index (if b then collect st x else st).out
step-IsIndex true st x inv = collect-IsIndex st x inv
step-IsIndex false st x inv = inv

step-Once :
    (b : Bool) (st : Collected) (x : Grant)
    → IsIndex st.index st.out
    → Once st.out
    → Once (if b then collect st x else st).out
step-Once true st x inv h = rw (collect-out st x inv) (Once-add st.out x h)
step-Once false st x inv h = h

module _ (environment team : Text) where
  collect_rules-Once :
      (rules : List Rule) (st : Collected)
      → IsIndex st.index st.out
      → Once st.out
      → Once (collect_rules environment team rules st).out
  unfolding collect_rules
  collect_rules-Once [] st inv h = h
  collect_rules-Once (rule ∷ rules) st inv h =
      let b = grant_applies environment team rule in
      collect_rules-Once rules (if b then collect st (grant_of rule) else st)
        (step-IsIndex b st (grant_of rule) inv) (step-Once b st (grant_of rule) inv h)

  find-collect_rules :
      (rules : List Rule) (st : Collected) (g : Text)
      → IsIndex st.index st.out
      → find_grant (collect_rules environment team rules st).out g
        ≡ gathered (find_grant st.out g) (merged g (applicable environment team rules))
  unfolding collect_rules applicable merged filter
  find-collect_rules [] st g inv = ground arith
  find-collect_rules (rule ∷ rules) st g inv = ground (
    arith,
    find-collect_rules rules (collect st (grant_of rule)) g
        (collect-IsIndex st (grant_of rule) inv),
    find-collect_rules rules st g inv,
    collect-out st (grant_of rule) inv,
    find-add st.out (grant_of rule) g,
  )

-- For every group `GrantsFor` lists at most one grant: that of all the applicable rules of the
-- group merged, and none where no rule of the group applies.
pub grants_for_lem :
    (s : Set) (environment team : Text)
    → Once (grants_for (some s) environment team)
      × ((g : Text)
          → find_grant (grants_for (some s) environment team) g
            ≡ merged g (applicable environment team s.rules))
unfolding grants_for position_from index_lookup merged find_grant
grants_for_lem s environment team = (
  collect_rules-Once environment team s.rules _ (λ g. refl) tt,
  λ g. find-collect_rules environment team s.rules (record { out = []; index = [] }) g (λ g. refl),
)
