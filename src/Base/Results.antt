-- ===== src/Base/Results.antt =====
-- Fallible code: a value, or an error of the component's own type.
use mathlib.Core.Path.{◌≡◌, refl}
use mathlib.Core.Logic.{◌↔◌}
use mathlib.Core.Bool.{Bool, true, false}

pub data Result {ε α} (E : Type ε) (A : Type α) : Type (ε ⊔ α) where
  err : E → Result E A
  ok : A → Result E A

-- `if bad { return err }`
abbrev pub refuse_if {ε} : {E : Type ε} → Bool → E → Result E (Unit {0})
refuse_if bad error = elim bad [ true ↦ err error | false ↦ ok tt ]

-- `x, err := m; if err != nil { return err }`
infixl 5 ◌>>=◌ ◌>>◌
abbrev pub ◌>>=◌ {ε α β} :
    {E : Type ε} {A : Type α} {B : Type β} (m : Result E A) (rest : A → Result E B) → Result E B
err error >>= rest = err error
ok value >>= rest = rest value

abbrev pub ◌>>◌ {ε β} : {E : Type ε} {B : Type β} → Result E (Unit {0}) → Result E B → Result E B
check >> rest = check >>= λ _. rest

-- A step that succeeded, and the rest behind it.
pub >>=-eq-ok {ε α β} :
    {E : Type ε} {A : Type α} {B : Type β} {result : B} (step : Result E A) (rest : A → Result E B)
    → (step >>= rest) ≡ ok result
    → (value : A) × (step ≡ ok value) × (rest value ≡ ok result)
>>=-eq-ok (err error) rest h = cc
>>=-eq-ok (ok value) rest h = (value, refl, h)

pub >>-eq-ok {ε β} :
    {E : Type ε} {B : Type β} {result : B} (check : Result E (Unit {0})) (rest : Result E B)
    → (check >> rest) ≡ ok result
    → (check ≡ ok tt) × (rest ≡ ok result)
>>-eq-ok (err error) rest h = cc
>>-eq-ok (ok _) rest h = (refl, h)

pub refuse_if-eq-ok {ℓ} : {E : Type ℓ} (b : Bool) (e : E) → (refuse_if b e ≡ ok tt) → b ≡ false
refuse_if-eq-ok true e h = cc
refuse_if-eq-ok false e h = refl

-- A guard lets a function go on exactly when its test fails.
pub refuse_if->>-iff {ε β} :
    {E : Type ε} {B : Type β} {result : B} (bad : Bool) (error : E) (rest : Result E B)
    → ((refuse_if bad error >> rest) ≡ ok result) ↔ ((bad ≡ false) × (rest ≡ ok result))
refuse_if->>-iff true error rest = (λ h. cc, λ (b, h). cc b)
refuse_if->>-iff false error rest = (λ h. (refl, h), λ (b, h). h)
