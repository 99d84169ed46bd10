-- ===== src/Auth.antt =====
-- web/server/src/auth.js: the administrator's password, from the environment or a file.
pub mod Routes
pub mod Hash
pub mod Laws
use beyond_ads_dns.Prelude.{
  ℕ, ◌≡◌, ◌≢◌, Bool, true, false, not, Option, none, some, List, [], ◌=?◌, nat-Eq, list-Eq, ltb,
  length, if◌then◌else◌,
}
use beyond_ads_dns.Js.Text.{Text, text, is_empty, trim}
use beyond_ads_dns.Js.Value.{is_some}
use beyond_ads_dns.Normalize.Entries.{or_text}

-- The package bcryptjs, over the salt that it draws: the comparison accepts what was hashed, and a
-- hash is not empty and has no blanks around it.
pub record Bcrypt : Type 0 where
  pub hash : Text → Text → Text
  pub compare : Text → Text → Bool
  pub compare-hash : (salt p : Text) → compare p (hash salt p) ≡ true
  pub hash-ne-nil : (salt p : Text) → hash salt p ≢ []
  pub trim-hash : (salt p : Text) → trim (hash salt p) ≡ hash salt p

-- The variables of the module and of the environment, an unset one being the empty text, and the
-- content of the password file, where it can be read.
pub record Admin : Type 0 where
  pub stored_hash : Option Text
  pub env_password_was_set : Bool
  pub ui_password : Text
  pub admin_password : Text
  pub ui_username : Text
  pub admin_username : Text
  pub file : Option Text

abbrev pub get_ui_password : Admin → Text
get_ui_password s = or_text s.ui_password s.admin_password

abbrev pub get_ui_username : Admin → Text
get_ui_username s = trim (or_text s.ui_username (or_text s.admin_username (text "admin")))

-- `if (storedHash)`
abbrev pub is_held : Option Text → Bool
is_held none = false
is_held (some h) = not (is_empty h)

-- `storedHash = h`
abbrev pub remember : Text → Admin → Admin
remember h s = record {
  stored_hash = some h;
  env_password_was_set = s.env_password_was_set;
  ui_password = s.ui_password;
  admin_password = s.admin_password;
  ui_username = s.ui_username;
  admin_username = s.admin_username;
  file = s.file;
}

-- The hash is kept, and both variables are deleted.
abbrev pub take_env : Text → Admin → Admin
take_env h s = record {
  stored_hash = some h;
  env_password_was_set = true;
  ui_password = [];
  admin_password = [];
  ui_username = s.ui_username;
  admin_username = s.admin_username;
  file = s.file;
}

abbrev pub with_file : Option Text → Admin → Admin
with_file content s = record {
  stored_hash = s.stored_hash;
  env_password_was_set = s.env_password_was_set;
  ui_password = s.ui_password;
  admin_password = s.admin_password;
  ui_username = s.ui_username;
  admin_username = s.admin_username;
  file = content;
}

abbrev pub read_hash : Option Text → Admin → Option Text × Admin
read_hash none s = (none, s)
read_hash (some content) s = (some (trim content), remember (trim content) s)

pub data SetError : Type 0 where
  from_environment too_short not_written : SetError

-- `if (!hash) return false; if (username !== getUiUsername()) return false;`, then the comparison.
abbrev pub check_hash : (Text → Text → Bool) → Text → Text → Text → Option Text → Bool
check_hash compare wanted username password none = false
check_hash compare wanted username password (some h) =
    if is_empty h then false else if username =? wanted then compare password h else false

-- A failed write leaves some content in the file; `none` is a write that succeeds.
abbrev pub WriteFault : Type 0
WriteFault = Option (Option Text)

abbrev pub written : Text → WriteFault → Admin → Option SetError × Admin
written h none s = (none, remember h (with_file (some h) s))
written h (some left) s = (some not_written, with_file left s)

unfoldable pub can_edit_password : Admin → Bool
can_edit_password s = if s.env_password_was_set then false else is_empty (get_ui_password s)

module _ (bcrypt : Bcrypt) where
  open bcrypt use {hash, compare}

  unfoldable pub load_stored_hash : Text → Admin → Option Text × Admin
  load_stored_hash salt s =
      if is_held s.stored_hash
      then (s.stored_hash, s)
      else if not (is_empty (get_ui_password s))
      then (some (hash salt (get_ui_password s)), take_env (hash salt (get_ui_password s)) s)
      else read_hash s.file s

  unfoldable pub is_auth_enabled : Text → Admin → Bool × Admin
  unfolding load_stored_hash
  is_auth_enabled salt s = (is_some (load_stored_hash salt s).0, (load_stored_hash salt s).1)

  unfoldable pub verify_password : Text → Text → Text → Admin → Bool × Admin
  unfolding load_stored_hash
  verify_password salt username password s =
      let (h, s') = load_stored_hash salt s in
      (check_hash compare (get_ui_username s') username password h, s')

  unfoldable pub set_admin_password : Text → WriteFault → Text → Admin → Option SetError × Admin
  unfolding can_edit_password
  set_admin_password salt fault new_password s =
      let pwd = trim new_password in
      if not (can_edit_password s)
      then (some from_environment, s)
      else if ltb (length pwd) 6
      then (some too_short, s)
      else written (hash salt pwd) fault s
