-- ===== src/Service/History/Scans.antt =====
-- The loop of History ends at its second turn, and what it answers.
use goff_studio.Base.{
  ℕ, zero, suc, ◌≤◌, ◌≡◌, refl, sym, ap, subst, arith, Bool, true, false, not, Option, some, List,
  [], ◌∷◌, length, take, filter, leb, All, ◌⊎◌, inl, inr, All-of_Member, passes_of_filter,
  if◌then◌else◌, Bool-cases, ℤ, Text, Result, ok,
}
use goff_studio.Auth.{Session}
use goff_studio.Validate.{bounded_limit}
use goff_studio.Service.{Failure, Commit, Studio}
use goff_studio.Service.Memory.{State}
use goff_studio.Service.Steps.{Step, ask, give, >>=-ok}
use goff_studio.Service.Listing.{get}
use goff_studio.Service.Visible.{ok_same}
use goff_studio.Service.History.{
  max_history_scan, commit_touches, scanned_enough, scan_history, history,
}

All-filter {ℓ} : {A : Type ℓ} (p : A → Bool) (xs : List A) → All (λ a. p a ≡ true) (filter p xs)
All-filter p xs = All-of_Member (λ a. p a ≡ true) (filter p xs) (λ a m. passes_of_filter p xs m)

All-take {ℓ} : {A : Type ℓ} (P : A → Type 0) (n : ℕ) (xs : List A) → All P xs → All P (take n xs)
All-take P zero xs h = tt
All-take P (suc n) [] h = tt
All-take P (suc n) (x ∷ xs) (p, h) = (p, All-take P n xs h)

length-take : {A : Type 0} (n : ℕ) (xs : List A) → length (take n xs) ≤ n
length-take zero xs = omega arith
length-take (suc n) [] = omega arith
length-take (suc n) (x ∷ xs) = omega (arith, length-take n xs)

-- Commits about the flag of the key, at most `want` of them.
pub record Answers (key : Text) (want : ℕ) (found : Option (List Commit)) : Type 0 where
  pub commits : List Commit
  pub found_is : found ≡ some commits
  pub touch : All (λ c. commit_touches c.message key ≡ true) commits
  pub at_most : length commits ≤ want

either_step :
    {S A : Type 0} (b : Bool) (without with_it : Step S A) (s : S) {r : Result Failure A × S}
    → (if not b then without else with_it) s ≡ r
    → (without s ≡ r) ⊎ (with_it s ≡ r)
either_step true without with_it s h = inr h
either_step false without with_it s h = inl h

module _ {Number Value Time World : Type 0} (studio : Studio Number Value Time World) where
  -- A turn that ends the loop.
  ends_scan :
      (key : Text) (want : ℕ) (commits : List Commit) {found : Option (List Commit)}
      → some (take want (filter (λ c. commit_touches c.message key) commits)) ≡ found
      → Answers key want found
  ends_scan key want commits e = record {
    commits = take want (filter (λ c. commit_touches c.message key) commits);
    found_is = sym e;
    touch = All-take _ want _ (All-filter (λ c. commit_touches c.message key) commits);
    at_most = length-take want _;
  }

  -- A turn of the loop either ends it or is followed by a scan of the most commits.
  one_turn :
      (fuel : ℕ) (file key : Text) (want scan : ℕ) {found : Option (List Commit)}
      → (s s' : State Number Value Time World)
      → scan_history studio (suc fuel) file key want scan s ≡ (ok found, s')
      → Answers key want found
        ⊎ ((leb max_history_scan scan ≡ false)
            × ((mid : State Number Value Time World) × (scan_history studio fuel file key want
                    max_history_scan mid
                  ≡ (ok found, s'))))
  unfolding scan_history scanned_enough
  one_turn fuel file key want scan s s' h =
      let touching = filter (λ (c : Commit). commit_touches c.message key) in
      let (commits, mid, e, k) =
        >>=-ok (ask (studio.backend.history file scan))
          (λ commits.
            if scanned_enough want scan commits (touching commits)
            then give (some (take want (touching commits)))
            else scan_history studio fuel file key want max_history_scan)
          s s' h in
      elim (Bool-cases (scanned_enough want scan commits (touching commits))) [
        | inl t ↦ inl (ends_scan key want commits (ok_same (ap (λ x. x.0) (rw t at k))))
        | inr f ↦ inr (ground (arith, f), (mid, rw f at k))
      ]

  two_turns :
      (fuel : ℕ) (file key : Text) (want scan : ℕ) {found : Option (List Commit)}
      → (s s' : State Number Value Time World)
      → scan_history studio (suc (suc fuel)) file key want scan s ≡ (ok found, s')
      → Answers key want found
  two_turns fuel file key want scan s s' h = elim (one_turn (suc fuel) file key want scan s s' h) [
    | inl a ↦ a
    | inr (_, (mid, k)) ↦ elim (one_turn fuel file key want max_history_scan mid s' k) [
      | inl a ↦ a
      | inr (q, _) ↦ absurd (ground (arith, q))
    ]
  ]

  -- Where a call of History does not fail, its loop has ended within its two turns, with at most as
  -- many commits as the limit allows, each of them about the flag.
  pub history-Answers :
      (session : Session Time) (environment key : Text) (limit : ℤ) {found : Option (List Commit)}
      → (s s' : State Number Value Time World)
      → history studio session environment key limit s ≡ (ok found, s')
      → Answers key (bounded_limit limit) found
  unfolding history
  history-Answers session environment key limit s s' h =
      elim (either_step studio.backend.has_history (give (some [])) _ s h) [
        | inl k ↦
            subst (Answers key (bounded_limit limit)) (ok_same (ap (λ x. x.0) k))
              (record { commits = []; found_is = refl; touch = tt; at_most = omega arith })
        | inr k ↦
            let want = bounded_limit limit in
            let (v, mid, e, k') =
              >>=-ok (get studio session environment key)
                (λ v. scan_history studio 2 v.flag.file key want want) s s' k in
            two_turns 0 v.flag.file key want want mid s' k'
      ]
