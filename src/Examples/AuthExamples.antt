-- ===== src/Examples/AuthExamples.antt =====
-- internal/auth/session.go with a library that seals by a checksum and knows one session.
use goff_studio.Base.{
  ℕ, ◌+◌, false, ◌≡◌, refl, Option, none, some, [], ◌∷◌, Text, codes, arith, ltb, nat_beq,
  if◌then◌else◌, ok, err,
}
use goff_studio.Auth.{
  Session, Library, AuthError, expired, seal, open_raw, read_session, read_payload, read_raw, read,
  write,
}
use goff_studio.Auth.Sealing.{IsFaithful, read-write, expired-read}

abbrev ada : Session ℕ
ada = record {
  subject = codes "1";
  name = codes "Ada";
  email = codes "ada@example.org";
  groups = codes "devs" ∷ [];
  expiry = 90;
}

-- The sealed text begins with the sum of the nonce.
abbrev sum : Text → ℕ
sum [] = 0
sum (c ∷ s) = c + sum s

abbrev check_sum : ℕ → Text → Option Text
check_sum n [] = none
check_sum n (c ∷ s) = if nat_beq c n then some s else none

abbrev simple : Library ℕ
simple = record {
  nonce_size = 2;
  seal = λ nonce payload. sum nonce ∷ payload;
  unseal = λ nonce body. check_sum (sum nonce) body;
  encode = λ s. s;
  decode = λ s. some s;
  marshal = λ session. session.subject;
  unmarshal = λ payload. some ada;
  is_zero = λ t. nat_beq t 0;
  after = λ a b. ltb b a;
}

simple-IsFaithful : IsFaithful simple
simple-IsFaithful = record { unseals = λ nonce payload e. ground arith; decodes = λ s. refl }

abbrev nonce : Text
nonce = 7 ∷ 8 ∷ []

fresh_run : expired simple 80 ada ≡ false
unfolding expired
fresh_run = refl

read_run : read simple 80 (some (write simple nonce ada)) ≡ ok ada
unfolding read write seal open_raw read_session read_payload read_raw expired
read_run = refl

late_run : read simple 91 (some (write simple nonce ada)) ≡ err AuthError.no_session
unfolding read write seal open_raw read_session read_payload read_raw expired
late_run = refl

forged_run : read simple 80 (some (7 ∷ 8 ∷ 9 ∷ codes "1")) ≡ err AuthError.no_session
unfolding read open_raw read_session read_payload read_raw
forged_run = refl

read-write_example : read simple 80 (some (write simple nonce ada)) ≡ ok ada
read-write_example = read-write simple simple-IsFaithful 80 nonce ada refl refl fresh_run

expired-read_example : expired simple 80 ada ≡ false
expired-read_example = expired-read simple 80 (some (write simple nonce ada)) ada read_run
