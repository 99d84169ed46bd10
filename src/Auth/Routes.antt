-- ===== src/Auth/Routes.antt =====
-- web/server/src/routes/auth.js and web/server/src/middleware/auth.js. A text field of the body that
-- is absent is the empty text. The rate limits of the package express-rate-limit stand before these
-- handlers. Each handler gives its reply, the calls on the session in order, and the new state.
use beyond_ads_dns.Prelude.{
  ℕ, Bool, true, false, not, ◌&&◌, ◌||◌, Option, none, some, List, [], ◌∷◌, ◌=?◌, nat-Eq, list-Eq,
  if◌then◌else◌,
}
use beyond_ads_dns.Js.Text.{Text, text, is_empty, trim}
use beyond_ads_dns.Auth.{
  Bcrypt, Admin, SetError, WriteFault, get_ui_username, can_edit_password, is_auth_enabled,
  verify_password, set_admin_password,
}

pub data Answer : Type 0 where
  accepted : Answer
  rejected : ℕ → Answer

pub data SessionCall : Type 0 where
  regenerate authenticate save : SessionCall

-- Which call of the session's store reports an error.
pub record SessionFaults : Type 0 where
  pub regenerate_fails : Bool
  pub save_fails : Bool

pub data Method : Type 0 where
  get post other : Method

abbrev pub is_get : Method → Bool
is_get get = true
is_get _ = false

abbrev pub is_post : Method → Bool
is_post post = true
is_post _ = false

-- The requests that need no session.
abbrev pub is_open : Text → Method → Bool
is_open p m =
    ((p =? text "/api/auth/login" || p =? text "/auth/login") && is_post m)
    || ((p =? text "/api/auth/status" || p =? text "/auth/status") && is_get m)
    || ((p =? text "/api/health" || p =? text "/health") && is_get m)

-- The session after a password that was right.
abbrev pub open_session : SessionFaults → Answer × List SessionCall
open_session f =
    if f.regenerate_fails
    then (rejected 500, regenerate ∷ [])
    else if f.save_fails
    then (rejected 500, regenerate ∷ (authenticate ∷ (save ∷ [])))
    else (accepted, regenerate ∷ (authenticate ∷ (save ∷ [])))

abbrev pub set_reply : Option SetError × Admin → Answer × Admin
set_reply (none, s) = (accepted, s)
set_reply (some e, s) = (rejected 400, s)

module _ (bcrypt : Bcrypt) where
  -- Whether the request goes on to its handler; it is answered 401 otherwise.
  unfoldable pub auth_middleware : Text → Bool → Text → Method → Admin → Bool × Admin
  unfolding is_auth_enabled
  auth_middleware salt authenticated p m s =
      let (enabled, s') = is_auth_enabled bcrypt salt s in
      (if not enabled then true else if authenticated then true else is_open p m, s')

  unfoldable pub login :
      Text → SessionFaults → Text → Text → Admin → (Answer × List SessionCall) × Admin
  unfolding is_auth_enabled verify_password
  login salt f username password s =
      let (enabled, s') = is_auth_enabled bcrypt salt s in
      let (right, s'') = verify_password bcrypt salt (trim username) password s' in
      if not enabled
      then ((accepted, []), s')
      else if is_empty username || is_empty password
      then ((rejected 400, []), s')
      else if not right
      then ((rejected 401, []), s'')
      else (open_session f, s'')

  unfoldable pub set_password : Text → WriteFault → Bool → Text → Text → Admin → Answer × Admin
  unfolding is_auth_enabled verify_password set_admin_password
  set_password salt fault authenticated current new_password s =
      let (enabled, s') = is_auth_enabled bcrypt salt s in
      let new_pwd = trim new_password in
      let (right, s'') = verify_password bcrypt salt (get_ui_username s') current s' in
      if enabled && not authenticated
      then (rejected 401, s')
      else if is_empty new_pwd
      then (rejected 400, s')
      else if enabled && is_empty current
      then (rejected 400, s')
      else if enabled && not right
      then (rejected 401, s'')
      else set_reply (set_admin_password bcrypt salt fault new_pwd (if enabled then s'' else s'))

-- The body of `GET /api/auth/status`.
pub record AuthStatus : Type 0 where
  pub authenticated : Bool
  pub auth_enabled : Bool
  pub username : Option Text
  pub password_editable : Bool
  pub can_set_initial_password : Bool

module _ (bcrypt : Bcrypt) where
  unfoldable pub auth_status : Text → Bool → Admin → AuthStatus × Admin
  unfolding is_auth_enabled can_edit_password
  auth_status salt session s =
      let (enabled, s') = is_auth_enabled bcrypt salt s in
      (
        record {
          authenticated = session;
          auth_enabled = enabled;
          username = if enabled then some (get_ui_username s') else none;
          password_editable = can_edit_password s';
          can_set_initial_password = not enabled && can_edit_password s';
        },
        s',
      )
