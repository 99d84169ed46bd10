-- ===== src/Auth/Laws.antt =====
-- Who gets a session, and who changes the password.
use beyond_ads_dns.Prelude.{
  ◌≡◌, ◌≢◌, ◌↔◌, ◌⊎◌, refl, Bool, true, false, ◌&&◌, ◌||◌, none, some, List, [], ◌∷◌, nat-Eq,
  list-Eq, list_eq_iff, arith, ◌=?◌, if◌then◌else◌, Bool-cases, inl, inr, sym, ◌∙◌,
}
use beyond_ads_dns.Js.Text.{Text, text, is_empty, trim}
use beyond_ads_dns.Normalize.Entries.{or_text}
use beyond_ads_dns.Auth.{
  Bcrypt, Admin, WriteFault, get_ui_password, get_ui_username, is_held, remember, with_file,
  load_stored_hash, is_auth_enabled, verify_password, set_admin_password,
}
use beyond_ads_dns.Auth.Routes.{
  accepted, get, post, other, is_get, is_post, SessionCall, authenticate, SessionFaults, Method,
  is_open, auth_middleware, login, set_password,
}
use beyond_ads_dns.Auth.Hash.{
  InForce, load_stored_hash_idempotent, hash-not-empty, load_stored_hash-InForce,
  InForce-load_stored_hash, check_hash_iff, verify_password-loaded,
}

abbrev pub authenticates : List SessionCall → Bool
authenticates [] = false
authenticates (authenticate ∷ calls) = true
authenticates (call ∷ calls) = authenticates calls

-- The state of a process that starts again with the same environment, without a password in it.
abbrev pub restart : Admin → Admin
restart s = record {
  stored_hash = none;
  env_password_was_set = false;
  ui_password = [];
  admin_password = [];
  ui_username = s.ui_username;
  admin_username = s.admin_username;
  file = s.file;
}

module _ (bcrypt : Bcrypt) where
  open bcrypt use {hash, compare}

  -- The tests of the handler.
  login_guards :
      (salt username password : Text) (f : SessionFaults) (s : Admin)
      → (authenticates (login bcrypt salt f username password s).0.1 ≡ true) ↔ (
          ((is_auth_enabled bcrypt salt s).0 ≡ true)
          × (is_empty username ≡ false)
          × (is_empty password ≡ false)
          × ((verify_password bcrypt salt
                (trim username)
                password
                (is_auth_enabled bcrypt salt s).1).0
              ≡ true)
          × (f.regenerate_fails ≡ false))
  unfolding login
  login_guards salt username password f s = ground arith

  is_auth_enabled-loaded :
      (salt h : Text) (s : Admin)
      → (load_stored_hash bcrypt salt s).0 ≡ some h
      → (is_auth_enabled bcrypt salt s).0 ≡ true
  unfolding is_auth_enabled
  is_auth_enabled-loaded salt h s e = rw e refl

  -- A login opens a session exactly when a hash is in force, held or from the environment or the file, and
  -- not empty; the name, without the blanks around it, is the configured one; the password, as it is
  -- typed, compares with that hash; neither is empty; and the old session is dropped without an error.
  pub authenticates-login_iff :
      (salt username password : Text) (f : SessionFaults) (s : Admin)
      → (authenticates (login bcrypt salt f username password s).0.1 ≡ true) ↔ (
          (h : Text) × InForce bcrypt salt s h
          × (is_empty h ≡ false)
          × (is_empty username ≡ false)
          × (trim username ≡ trim (or_text s.ui_username (or_text s.admin_username (text "admin"))))
          × (is_empty password ≡ false)
          × (compare password h ≡ true)
          × (f.regenerate_fails ≡ false))
  authenticates-login_iff salt username password f s =
      let (guarded, enough) = login_guards salt username password f s in
      let right = verify_password-loaded bcrypt salt (trim username) password s in
      let (checked, passes) =
        check_hash_iff bcrypt (get_ui_username s) (trim username) password
          (load_stored_hash bcrypt salt s).0 in
      (
        λ e.
            let (on, named, given, verified, fresh) = guarded e in
            let (h, loaded, filled, same, compared) = checked (sym right ∙ verified) in
            (
              h,
              load_stored_hash-InForce bcrypt salt h s loaded,
              filled,
              named,
              same,
              given,
              compared,
              fresh,
            ),
        λ (h, force, filled, named, same, given, compared, fresh).
            let loaded = InForce-load_stored_hash bcrypt salt h s force in
            enough (
              is_auth_enabled-loaded salt h s loaded,
              named,
              given,
              right ∙ passes (h, loaded, filled, same, compared),
              fresh,
            ),
      )

  set_admin_password-none :
      (salt p : Text) (fault : WriteFault) (s : Admin)
      → (set_admin_password bcrypt salt fault p s).0 ≡ none
      → (set_admin_password bcrypt salt fault p s).1
        ≡ remember (hash salt (trim p)) (with_file (some (hash salt (trim p))) s)
  unfolding set_admin_password
  set_admin_password-none salt p fault s h = ground arith

  verify_password-remember :
      (again h q : Text) (s : Admin)
      → is_empty h ≡ false
      → (verify_password bcrypt again (get_ui_username s) q (remember h s)).0 ≡ compare q h
  unfolding verify_password
  verify_password-remember again h q s filled =
      rw (filled, (list_eq_iff (get_ui_username s) (get_ui_username s)).1 refl) (ground arith)

  verify_password-restart :
      (again h q : Text) (s : Admin)
      → is_empty h ≡ false
      → trim h ≡ h
      → (verify_password bcrypt again
          (get_ui_username s)
          q
          (restart (remember h (with_file (some h) s)))).0
        ≡ compare q h
  unfolding verify_password
  verify_password-restart again h q s filled clean =
      rw (clean, filled, (list_eq_iff (get_ui_username s) (get_ui_username s)).1 refl)
        (ground arith)

  -- After the password p was set, any q is checked for the configured name, in this process and in one that
  -- is started again, as the hash of p without the blanks around it compares with q as it is. So p
  -- without these blanks is right; p with them is right only where the comparison takes it for the same.
  pub verify_password-set_admin_password :
      (salt again p q : Text) (fault : WriteFault) (s : Admin)
      → (set_admin_password bcrypt salt fault p s).0 ≡ none
      → ((verify_password bcrypt again
            (get_ui_username s)
            q
            (set_admin_password bcrypt salt fault p s).1).0
          ≡ compare q (hash salt (trim p)))
        × ((verify_password bcrypt again
              (get_ui_username s)
              q
              (restart (set_admin_password bcrypt salt fault p s).1)).0
            ≡ compare q (hash salt (trim p)))
        × (compare (trim p) (hash salt (trim p)) ≡ true)
  verify_password-set_admin_password salt again p q fault s h =
      rw (set_admin_password-none salt p fault s h) (
        verify_password-remember again (hash salt (trim p)) q
            (with_file (some (hash salt (trim p))) s) (hash-not-empty bcrypt salt (trim p)),
        verify_password-restart again (hash salt (trim p)) q s (hash-not-empty bcrypt salt (trim p))
            (bcrypt.trim-hash salt (trim p)),
        bcrypt.compare-hash salt (trim p),
      )

  -- Where a password is configured, a request that has no session, or gives another current password,
  -- is refused, and neither the hash nor the file changes.
  pub set_password_protected :
      (salt current p : Text) (fault : WriteFault) (authenticated : Bool) (s : Admin)
      → (is_auth_enabled bcrypt salt s).0 ≡ true
      → (authenticated
          && (verify_password bcrypt salt
              (get_ui_username (is_auth_enabled bcrypt salt s).1)
              current
              (is_auth_enabled bcrypt salt s).1).0)
        ≡ false
      → ((set_password bcrypt salt fault authenticated current p s).0 ≢ accepted)
        × ((set_password bcrypt salt fault authenticated current p s).1
            ≡ (load_stored_hash bcrypt salt s).1)
  unfolding set_password is_auth_enabled verify_password
  set_password_protected salt current p fault authenticated s on wrong =
      let (again, _) = load_stored_hash_idempotent bcrypt salt salt s in ground (arith, again)

  either_iff :
      {P Q : Type 0} (a b : Bool) → (a ≡ true) ↔ P → (b ≡ true) ↔ Q → ((a || b) ≡ true) ↔ (P ⊎ Q)
  either_iff a b (f, g) (h, k) = (
    (λ e. elim (Bool-cases a) [ inl x ↦ inl (f x) | inr x ↦ inr (h (rw x at e)) ]),
    (λ c. elim c [ inl x ↦ rw (g x) refl | inr y ↦ rw (k y) (ground arith) ]),
  )

  both_iff :
      {P Q : Type 0} (a b : Bool) → (a ≡ true) ↔ P → (b ≡ true) ↔ Q → ((a && b) ≡ true) ↔ (Q × P)
  both_iff a b (f, g) (h, k) =
      (λ e. (h (ground arith), f (ground arith)), λ (y, x). rw (g x, k y) refl)

  is_post_iff : (m : Method) → (is_post m ≡ true) ↔ (m ≡ post)
  is_post_iff post = (λ e. refl, λ e. refl)
  is_post_iff get = (λ e. cc, λ e. cc)
  is_post_iff other = (λ e. cc, λ e. cc)

  is_get_iff : (m : Method) → (is_get m ≡ true) ↔ (m ≡ get)
  is_get_iff get = (λ e. refl, λ e. refl)
  is_get_iff post = (λ e. cc, λ e. cc)
  is_get_iff other = (λ e. cc, λ e. cc)

  path_iff : (p q r : Text) → ((p =? q || p =? r) ≡ true) ↔ ((p ≡ q) ⊎ (p ≡ r))
  path_iff p q r = either_iff (p =? q) (p =? r) (list_eq_iff p q) (list_eq_iff p r)

  is_open_iff :
      (p : Text) (m : Method)
      → (is_open p m ≡ true) ↔ (
          (((m ≡ post) × ((p ≡ text "/api/auth/login") ⊎ (p ≡ text "/auth/login")))
            ⊎ ((m ≡ get) × ((p ≡ text "/api/auth/status") ⊎ (p ≡ text "/auth/status"))))
          ⊎ ((m ≡ get) × ((p ≡ text "/api/health") ⊎ (p ≡ text "/health"))))
  is_open_iff p m =
      either_iff _ _
        (either_iff _ _
          (both_iff _ _ (path_iff p (text "/api/auth/login") (text "/auth/login")) (is_post_iff m))
          (both_iff _ _ (path_iff p (text "/api/auth/status") (text "/auth/status"))
            (is_get_iff m)))
        (both_iff _ _ (path_iff p (text "/api/health") (text "/health")) (is_get_iff m))

  with_session_iff :
      {P Q R : Type 0} (session b : Bool)
      → (b ≡ true) ↔ ((P ⊎ Q) ⊎ R)
      → ((if session then true else b) ≡ true) ↔ ((session ≡ true) ⊎ P ⊎ Q ⊎ R)
  with_session_iff true b h = (λ e. inl refl, λ c. refl)
  with_session_iff false b (f, g) = (
    λ e. elim (f e) [
      | inl (inl x) ↦ inr (inl x)
      | inl (inr y) ↦ inr (inr (inl y))
      | inr z ↦ inr (inr (inr z))
    ],
    λ c. elim c [
      | inl e ↦ cc
      | inr (inl x) ↦ g (inl (inl x))
      | inr (inr (inl y)) ↦ g (inl (inr y))
      | inr (inr (inr z)) ↦ g (inr z)
    ],
  )

  -- With a hash in force, a request goes on exactly where it has a session, or is a POST to one of the two
  -- paths of the login, or a GET of one of the two paths of the status and of the health check.
  pub auth_middleware_iff :
      (salt p h : Text) (m : Method) (s : Admin) (authenticated : Bool)
      → InForce bcrypt salt s h
      → ((auth_middleware bcrypt salt authenticated p m s).0 ≡ true) ↔ (
          (authenticated ≡ true)
          ⊎ ((m ≡ post) × ((p ≡ text "/api/auth/login") ⊎ (p ≡ text "/auth/login")))
          ⊎ ((m ≡ get) × ((p ≡ text "/api/auth/status") ⊎ (p ≡ text "/auth/status")))
          ⊎ ((m ≡ get) × ((p ≡ text "/api/health") ⊎ (p ≡ text "/health"))))
  unfolding auth_middleware
  auth_middleware_iff salt p h m s authenticated force =
      rw (is_auth_enabled-loaded salt h s (InForce-load_stored_hash bcrypt salt h s force))
        (with_session_iff authenticated (is_open p m) (is_open_iff p m))

  -- A password file of blanks, with no hash held and no password in the environment: a password counts
  -- as configured, no login opens a session, and no request can set a password.
  pub blank_password_file_locks_out :
      (salt blanks : Text) (s : Admin)
      → is_held s.stored_hash ≡ false
      → is_empty (get_ui_password s) ≡ true
      → s.file ≡ some blanks
      → trim blanks ≡ []
      → ((is_auth_enabled bcrypt salt s).0 ≡ true)
        × ((f : SessionFaults) (username password : Text)
            → authenticates (login bcrypt salt f username password s).0.1 ≡ false)
        × ((fault : WriteFault) (session : Bool) (current p : Text)
            → (set_password bcrypt salt fault session current p s).0 ≢ accepted)
  unfolding login set_password load_stored_hash
  blank_password_file_locks_out salt blanks s none_held no_env there blank =
      (ground arith, λ f username password. ground arith, λ fault session current p. ground arith)
