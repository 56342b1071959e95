-- ===== src/Service/Steps.antt =====
-- A method of the service: a step on its state that ends with a value or an error. The state comes
-- back with an error too, since what was remembered or written before it stays.
use goff_studio.Base.{◌≡◌, refl, Bool, true, false, Result, ok, err, refuse_if}
use goff_studio.Service.{Failure}
use goff_studio.Service.Memory.{State}

module _ (S : Type 0) where
  abbrev pub Step : Type 0 → Type 0
  Step A = S → Result Failure A × S

module _ {S A : Type 0} where
  -- An outcome that is known, as a step that leaves the state as it is.
  abbrev pub settle : Result Failure A → Step S A
  settle r s = (r, s)

  abbrev pub give : A → Step S A
  give a s = (ok a, s)

  -- Whatever the service holds.
  abbrev pub recall : (S → A) → Step S A
  recall f s = (ok (f s), s)

  -- `defer` of a change of the state.
  abbrev pub afterwards : (S → S) → Step S A → Step S A
  afterwards change m s = let (r, s') = m s in (r, change s')

  -- errors.Is and the error handling around a step: the step goes on with its outcome.
  abbrev pub attempt : Step S A → Step S (Result Failure A)
  attempt m s = let (r, s') = m s in (ok r, s')

module _ {S : Type 0} where
  abbrev pub change : (S → S) → Step S (Unit {0})
  change f s = (ok tt, f s)

  abbrev pub forbid : Bool → Failure → Step S (Unit {0})
  forbid b failure s = (refuse_if b failure, s)

infixl 5 ◌>>=◌ ◌>>◌
abbrev pub ◌>>=◌ : {S A B : Type 0} → Step S A → (A → Step S B) → Step S B
◌>>=◌ m rest s = let (r, s') = m s in elim r [ err e ↦ (err e, s') | ok a ↦ rest a s' ]

abbrev pub ◌>>◌ : {S B : Type 0} → Step S (Unit {0}) → Step S B → Step S B
m >> rest = m >>= λ _. rest

module _ {Number Value Time World A : Type 0} where
  -- A call of the backend.
  abbrev pub ask : (World → Result Failure A × World) → Step (State Number Value Time World) A
  ask op s = let (r, w) = op s.world in (r, record s { world = w })

-- What a step that succeeded has done.
module _ {S A B : Type 0} where
  pub >>=-ok :
      (m : Step S A) (rest : A → Step S B) (s s' : S) {b : B}
      → (m >>= rest) s ≡ (ok b, s')
      → (a : A) × (mid : S) × (m s ≡ (ok a, mid)) × (rest a mid ≡ (ok b, s'))
  >>=-ok m rest s s' {b} h = after_outcome (m s) refl h
    where
      after_outcome :
          (r : Result Failure A × S)
          → m s ≡ r
          → elim r.0 as (λ _. Result Failure B × S) [ err e ↦ (err e, r.1) | ok a ↦ rest a r.1 ]
            ≡ (ok b, s')
          → (a : A) × (mid : S) × (m s ≡ (ok a, mid)) × (rest a mid ≡ (ok b, s'))
      after_outcome (err e, mid) q k = cc
      after_outcome (ok a, mid) q k = (a, mid, q, k)

-- The same of a guard and of an outcome that is known: what is left has the state of before.
module _ {S B : Type 0} (s : S) where
  pub forbid-ok :
      (b : Bool) (failure : Failure) (left : Result Failure B × S) {result : B} {s' : S}
      → elim (refuse_if b failure) as (λ _. Result Failure B × S) [
        | err e ↦ (err e, s)
        | ok _ ↦ left
      ]
        ≡ (ok result, s')
      → (b ≡ false) × (left ≡ (ok result, s'))
  forbid-ok true failure left h = cc
  forbid-ok false failure left h = (refl, h)

module _ {S A B : Type 0} (s : S) where
  pub settle-ok :
      (r : Result Failure A) (left : A → Result Failure B × S) {result : B} {s' : S}
      → elim r as (λ _. Result Failure B × S) [ err e ↦ (err e, s) | ok a ↦ left a ]
        ≡ (ok result, s')
      → (a : A) × (r ≡ ok a) × (left a ≡ (ok result, s'))
  settle-ok (err e) left h = cc
  settle-ok (ok a) left h = (a, refl, h)
