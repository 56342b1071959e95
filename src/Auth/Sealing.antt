-- ===== src/Auth/Sealing.antt =====
-- What a session cookie gives back.
use mathlib.Core.Path.{subst}
use goff_studio.Base.{
  ℕ, false, ◌≡◌, ◌≢◌, ◌↔◌, refl, ap, ◌∙◌, inl, inr, Option, none, some, [], ◌∷◌, ◌++◌, length,
  length-append, take, drop, ltb, ==_iff, ==_refl, Text, text_eq, is_empty, is_empty_iff, Result,
  ok, err, arith, Bool-cases,
}
use goff_studio.Auth.{
  Session, Library, AuthError, check_state, expired, seal, open_raw, read_session, read_payload,
  read_raw, read, write,
}

-- A library whose unsealing and decoding undo its sealing and encoding.
pub record IsFaithful {Time : Type 0} (library : Library Time) : Type 0 where
  pub unseals :
      (nonce payload : Text)
      → length nonce ≡ library.nonce_size
      → library.unseal nonce (library.seal nonce payload) ≡ some payload
  pub decodes : (s : Text) → library.decode (library.encode s) ≡ some s

take-prefix : (xs ys : Text) → take (length xs) (xs ++ ys) ≡ xs
take-prefix [] ys = refl
take-prefix (x ∷ xs) ys = ap (◌∷◌ x) (take-prefix xs ys)

drop-prefix : (xs ys : Text) → drop (length xs) (xs ++ ys) ≡ ys
drop-prefix [] ys = refl
drop-prefix (x ∷ xs) ys = drop-prefix xs ys

long_enough : (n : ℕ) (xs ys : Text) → length xs ≡ n → ltb (length (xs ++ ys)) n ≡ false
long_enough n xs ys e = ground (arith, length-append xs ys)

some_injective : (a b : Text) → some a ≡ some b → a ≡ b
some_injective a b e = ap content e
  where
    content : Option Text → Text
    content none = []
    content (some x) = x

is_empty-false : (s : Text) → s ≢ [] → is_empty s ≡ false
is_empty-false [] n = absurd (n refl)
is_empty-false (c ∷ s) n = refl

accepted :
    (value got : Text) → value ≡ got → is_empty got ≡ false → check_state (some value) got ≡ ok tt
unfolding check_state
accepted value got e n = rw e (rw (n, ==_refl got) refl)

-- CheckState accepts exactly the state of the cookie, when it is not empty.
pub check_state_iff :
    (cookie : Option Text) (got : Text)
    → (check_state cookie got ≡ ok tt) ↔ ((cookie ≡ some got) × (got ≢ []))
unfolding check_state
check_state_iff none got = (λ h. cc h, λ (e, n). cc e)
check_state_iff (some value) got = (
  λ h.
      let e : value ≡ got = ground (arith, ==_iff value got) in
      (ap some e, λ n. ground (arith, (is_empty_iff got).1 n)),
  λ (e, n).
      let same : value ≡ got = some_injective value got e in
      accepted value got same ((is_empty-false got) n),
)

failed : {A : Type 0} {a : A} {e : AuthError} → err e ≢ ok a
failed h = cc h

module _ {Time : Type 0} where
  session_or : Session Time → Result AuthError (Session Time) → Session Time
  session_or other (ok x) = x
  session_or other (err e) = other

  ok_injective :
      (a b : Session Time) → ◌≡◌ {A = Result AuthError (Session Time)} (ok a) (ok b) → a ≡ b
  unfolding session_or
  ok_injective a b e = ap (session_or a) e

module _ {Time : Type 0} (library : Library Time) where
  opened :
      IsFaithful library
      → (nonce payload : Text) → length nonce ≡ library.nonce_size
      → open_raw library (nonce ++ library.seal nonce payload) ≡ some payload
  unfolding open_raw
  opened faithful nonce payload size =
      let body = library.seal nonce payload in
      let first = subst (λ n. take n (nonce ++ body) ≡ nonce) size (take-prefix nonce body) in
      let rest = subst (λ n. drop n (nonce ++ body) ≡ body) size (drop-prefix nonce body) in
      rw (long_enough library.nonce_size nonce body size) (
        ap (λ x. library.unseal x (drop library.nonce_size (nonce ++ body))) first
        ∙ ap (library.unseal nonce) rest
        ∙ faithful.unseals nonce payload size)

  expired-read_session :
      (now : Time) (answer : Option (Session Time)) (session : Session Time)
      → read_session library now answer ≡ ok session
      → expired library now session ≡ false
  unfolding read_session
  expired-read_session now none session h = absurd (failed h)
  expired-read_session now (some found) session h = elim (Bool-cases (expired library now found)) [
    | inl t ↦ absurd (failed (rw t at h))
    | inr t ↦ subst (λ x. expired library now x ≡ false) (ok_injective found session (rw t at h)) t
  ]

  expired-read_payload :
      (now : Time) (answer : Option Text) (session : Session Time)
      → read_payload library now answer ≡ ok session
      → expired library now session ≡ false
  unfolding read_payload
  expired-read_payload now none session h = absurd (failed h)
  expired-read_payload now (some payload) session h =
      expired-read_session now (library.unmarshal payload) session h

  expired-read_raw :
      (now : Time) (answer : Option Text) (session : Session Time)
      → read_raw library now answer ≡ ok session
      → expired library now session ≡ false
  unfolding read_raw
  expired-read_raw now none session h = absurd (failed h)
  expired-read_raw now (some raw) session h =
      expired-read_payload now (open_raw library raw) session h

  -- The cookie that Write has set with a nonce of the right size is read back as the session it was
  -- written for, as long as this has not expired, the JSON form of the session being read back too
  -- and AES-GCM and base64 undoing themselves.
  pub read-write :
      IsFaithful library
      → (now : Time) (nonce : Text) (session : Session Time) → length nonce ≡ library.nonce_size
      → library.unmarshal (library.marshal session) ≡ some session
      → expired library now session ≡ false
      → read library now (some (write library nonce session)) ≡ ok session
  unfolding read write seal read_raw read_payload read_session
  read-write faithful now nonce session size json e =
      ap (read_raw library now)
        (faithful.decodes (nonce ++ library.seal nonce (library.marshal session)))
      ∙ ap (read_payload library now) (opened faithful nonce (library.marshal session) size)
      ∙ ap (read_session library now) json
      ∙ rw e refl

  -- No cookie is read as a session that has expired.
  pub expired-read :
      (now : Time) (cookie : Option Text) (session : Session Time)
      → read library now cookie ≡ ok session
      → expired library now session ≡ false
  unfolding read
  expired-read now none session h = absurd (failed h)
  expired-read now (some value) session h = expired-read_raw now (library.decode value) session h
