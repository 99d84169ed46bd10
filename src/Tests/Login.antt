-- ===== src/Tests/Login.antt =====
-- Passwords and sessions.
use beyond_ads_dns.Prelude.{
  list_eq, ℕ, suc, zero, ◌≡◌, ◌≢◌, ◌↔◌, ◌⊎◌, refl, ap, Bool, true, false, ◌&&◌, none, some, [], ◌∷◌,
  ◌=?◌, nat-Eq, list-Eq, list_eq_iff, length,
}
use beyond_ads_dns.Js.Text.{Text, text, is_empty, trim, trim_start, trim_end, is_space}
use beyond_ads_dns.Normalize.Entries.{or_text}
use beyond_ads_dns.Auth.{
  Bcrypt, Admin, WriteFault, get_ui_username, load_stored_hash, is_auth_enabled, verify_password,
  set_admin_password,
}
use beyond_ads_dns.Auth.Routes.{
  accepted, regenerate, authenticate, save, SessionFaults, Method, auth_middleware, login,
  set_password,
}
use beyond_ads_dns.Auth.Laws.{
  authenticates, restart, authenticates-login_iff, verify_password-set_admin_password,
  set_password_protected, auth_middleware_iff, blank_password_file_locks_out,
}
use beyond_ads_dns.Auth.Hash.{InForce, from_file}

-- A weak hash: the length of the password, in unary.
abbrev dollars : ℕ → Text
dollars zero = []
dollars (suc n) = b'$' ∷ dollars n

trim_end-dollars : (n : ℕ) → trim_end (dollars n) ≡ dollars n
unfolding trim_end is_space
trim_end-dollars zero = refl
trim_end-dollars (suc n) = ap (λ s. b'$' ∷ s) (trim_end-dollars n)

abbrev weak_hash : Text → Text → Text
weak_hash salt p = dollars (suc (length p))

trim-weak_hash : (salt p : Text) → trim (weak_hash salt p) ≡ weak_hash salt p
unfolding trim trim_start is_space
trim-weak_hash salt p = trim_end-dollars (suc (length p))

weak_hash-ne-nil : (salt p : Text) → weak_hash salt p ≢ []
weak_hash-ne-nil salt p e = cc

abbrev weak : Bcrypt
weak = record {
  hash = weak_hash;
  compare = λ p h. weak_hash [] p =? h;
  compare-hash = λ salt p. (list_eq_iff (weak_hash [] p) (weak_hash salt p)).1 refl;
  hash-ne-nil = weak_hash-ne-nil;
  trim-hash = trim-weak_hash;
}

abbrev fresh : Admin
fresh = record {
  stored_hash = none;
  env_password_was_set = false;
  ui_password = [];
  admin_password = [];
  ui_username = [];
  admin_username = [];
  file = some (text "$$$$$$$$$");
}

abbrev in_env : Admin
in_env = record {
  stored_hash = none;
  env_password_was_set = false;
  ui_password = text "hunter22";
  admin_password = [];
  ui_username = [];
  admin_username = [];
  file = none;
}

abbrev blank_file : Admin
blank_file = record {
  stored_hash = none;
  env_password_was_set = false;
  ui_password = [];
  admin_password = [];
  ui_username = [];
  admin_username = [];
  file = some (text " ");
}

abbrev works : SessionFaults
works = record { regenerate_fails = false; save_fails = false }

login_test :
    (login weak [] works (text " admin") (text "hunter22") in_env).0
    ≡ (accepted, regenerate ∷ (authenticate ∷ (save ∷ [])))
unfolding login list_eq trim
login_test = refl

authenticates-login_iff_example :
    (authenticates (login weak [] works (text "admin") (text "hunter22") in_env).0.1 ≡ true) ↔ (
      (h : Text) × InForce weak [] in_env h
      × (is_empty h ≡ false)
      × (is_empty (text "admin") ≡ false)
      × (trim (text "admin") ≡ trim (or_text [] (or_text [] (text "admin"))))
      × (is_empty (text "hunter22") ≡ false)
      × (weak.compare (text "hunter22") h ≡ true)
      × (works.regenerate_fails ≡ false))
authenticates-login_iff_example =
    authenticates-login_iff weak [] (text "admin") (text "hunter22") works in_env

new_is_set : (set_admin_password weak [] none (text " correct horse ") fresh).0 ≡ none
unfolding set_admin_password trim
new_is_set = refl

verify_password-set_admin_password_example :
    ((verify_password weak []
        (get_ui_username fresh)
        (text " correct horse ")
        (set_admin_password weak [] none (text " correct horse ") fresh).1).0
      ≡ weak.compare (text " correct horse ") (weak.hash [] (trim (text " correct horse "))))
    × ((verify_password weak []
          (get_ui_username fresh)
          (text " correct horse ")
          (restart (set_admin_password weak [] none (text " correct horse ") fresh).1)).0
        ≡ weak.compare (text " correct horse ") (weak.hash [] (trim (text " correct horse "))))
    × (weak.compare (trim (text " correct horse ")) (weak.hash [] (trim (text " correct horse ")))
        ≡ true)
verify_password-set_admin_password_example =
    verify_password-set_admin_password weak [] [] (text " correct horse ") (text " correct horse ")
      none fresh new_is_set

-- The password that was set, typed as it was, is refused.
typed_test :
    weak.compare (text " correct horse ") (weak.hash [] (trim (text " correct horse "))) ≡ false
unfolding trim list_eq
typed_test = refl

fresh_enabled : (is_auth_enabled weak [] fresh).0 ≡ true
unfolding is_auth_enabled
fresh_enabled = refl

fresh_wrong :
    (true
      && (verify_password weak []
          (get_ui_username (is_auth_enabled weak [] fresh).1)
          (text "guess")
          (is_auth_enabled weak [] fresh).1).0)
    ≡ false
unfolding is_auth_enabled verify_password trim list_eq
fresh_wrong = refl

set_password_protected_example :
    ((set_password weak [] none true (text "guess") (text "mine now") fresh).0 ≢ accepted)
    × ((set_password weak [] none true (text "guess") (text "mine now") fresh).1
        ≡ (load_stored_hash weak [] fresh).1)
set_password_protected_example =
    set_password_protected weak [] (text "guess") (text "mine now") none true fresh fresh_enabled
      fresh_wrong

fresh-InForce : InForce weak [] fresh (text "$$$$$$$$$")
unfolding trim
fresh-InForce = from_file (text "$$$$$$$$$") refl refl refl refl

auth_middleware_iff_example :
    ((auth_middleware weak [] false (text "/api/config") Method.get fresh).0 ≡ true) ↔ (
      (false ≡ true)
      ⊎ ((Method.get ≡ Method.post)
          × ((text "/api/config" ≡ text "/api/auth/login")
              ⊎ (text "/api/config" ≡ text "/auth/login")))
      ⊎ ((Method.get ≡ Method.get)
          × ((text "/api/config" ≡ text "/api/auth/status")
              ⊎ (text "/api/config" ≡ text "/auth/status")))
      ⊎ ((Method.get ≡ Method.get)
          × ((text "/api/config" ≡ text "/api/health") ⊎ (text "/api/config" ≡ text "/health"))))
auth_middleware_iff_example =
    auth_middleware_iff weak [] (text "/api/config") (text "$$$$$$$$$") Method.get fresh false
      fresh-InForce

blank_password_file_locks_out_example :
    ((is_auth_enabled weak [] blank_file).0 ≡ true)
    × ((f : SessionFaults) (username password : Text)
        → authenticates (login weak [] f username password blank_file).0.1 ≡ false)
    × ((fault : WriteFault) (session : Bool) (current p : Text)
        → (set_password weak [] fault session current p blank_file).0 ≢ accepted)
blank_password_file_locks_out_example =
    blank_password_file_locks_out weak [] (text " ") blank_file refl refl refl (unfold trim in refl)
