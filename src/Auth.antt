-- ===== src/Auth.antt =====
-- internal/auth/session.go: the sealed session cookie and the sign-in state. AES-GCM, base64, JSON
-- and package time are parameters; a text is a list of bytes here.
pub mod Sealing
use goff_studio.Base.{
  ℕ, Bool, true, false, not, ◌&&◌, ◌||◌, Option, none, some, List, [], ◌∷◌, ◌++◌, length, take,
  drop, ltb, if◌then◌else◌, ◌==◌, Text, text_eq, is_empty, Result, ok, err,
}

module _ (Time : Type 0) where
  pub record Session : Type 0 where
    pub subject : Text
    pub name : Text
    pub email : Text
    pub groups : List Text
    pub expiry : Time

  -- What the code calls of the standard library.
  pub record Library : Type 0 where
    pub nonce_size : ℕ
    pub seal : Text → Text → Text
    pub unseal : Text → Text → Option Text
    pub encode : Text → Text
    pub decode : Text → Option Text
    pub marshal : Session → Text
    pub unmarshal : Text → Option Session
    pub is_zero : Time → Bool
    pub after : Time → Time → Bool

pub data AuthError : Type 0 where
  no_session missing_cookie state_mismatch : AuthError

-- CheckState, of the value of the state cookie.
unfoldable pub check_state : Option Text → Text → Result AuthError (Unit {0})
check_state none got = err missing_cookie
check_state (some value) got =
    if is_empty value || is_empty got || not (value == got) then err state_mismatch else ok tt

module _ {Time : Type 0} (library : Library Time) where
  -- Expired
  unfoldable pub expired : Time → Session Time → Bool
  expired now session = not (library.is_zero session.expiry) && library.after now session.expiry

  -- seal, with the nonce that was read from the source of randomness.
  unfoldable pub seal : Text → Text → Text
  seal nonce payload = library.encode (nonce ++ library.seal nonce payload)

  -- open, of the decoded bytes.
  unfoldable pub open_raw : Text → Option Text
  open_raw raw =
      if ltb (length raw) library.nonce_size
      then none
      else library.unseal (take library.nonce_size raw) (drop library.nonce_size raw)

  -- The end of Read, of what json.Unmarshal has answered.
  unfoldable pub read_session : Time → Option (Session Time) → Result AuthError (Session Time)
  read_session now none = err no_session
  read_session now (some session) = if expired now session then err no_session else ok session

  -- Read from what open has answered.
  unfoldable pub read_payload : Time → Option Text → Result AuthError (Session Time)
  read_payload now none = err no_session
  read_payload now (some payload) = read_session now (library.unmarshal payload)

  -- The same from the decoding of the cookie's value.
  unfoldable pub read_raw : Time → Option Text → Result AuthError (Session Time)
  read_raw now none = err no_session
  read_raw now (some raw) = read_payload now (open_raw raw)

  -- Read, of the value of the session cookie.
  unfoldable pub read : Time → Option Text → Result AuthError (Session Time)
  read now none = err no_session
  read now (some value) = read_raw now (library.decode value)

  -- The value of the cookie that Write sets.
  unfoldable pub write : Text → Session Time → Text
  write nonce session = seal nonce (library.marshal session)
