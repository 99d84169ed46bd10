-- ===== src/Auth/Hash.antt =====
-- The hash that is in force, and the comparison with it, of web/server/src/auth.js.
use beyond_ads_dns.Prelude.{
  ◌≡◌, ◌≢◌, ◌↔◌, refl, true, false, none, some, [], ◌∷◌, nat-Eq, list-Eq, list_eq_iff, arith, ◌=?◌,
  Option, Bool-cases, inl, inr, sym,
}
use beyond_ads_dns.Js.Text.{Text, is_empty, trim}
use beyond_ads_dns.Normalize.Entries.{or_text}
use beyond_ads_dns.Auth.{
  Bcrypt, Admin, get_ui_password, get_ui_username, is_held, read_hash, check_hash,
  can_edit_password, load_stored_hash, is_auth_enabled, verify_password,
}

-- The hash that a password is compared with: the one that is held, or else that of the password in the
-- environment, or else what the file has, without the blanks around it.
pub data InForce (bcrypt : Bcrypt) (salt : Text) (s : Admin) (h : Text) : Type 0 where
  from_memory : s.stored_hash ≡ some h → is_empty h ≡ false → InForce bcrypt salt s h
  from_environment :
      is_held s.stored_hash ≡ false
      → is_empty (or_text s.ui_password s.admin_password) ≡ false
      → h ≡ bcrypt.hash salt (or_text s.ui_password s.admin_password)
      → InForce bcrypt salt s h
  from_file :
      (content : Text)
      → is_held s.stored_hash ≡ false
      → is_empty (or_text s.ui_password s.admin_password) ≡ true
      → s.file ≡ some content
      → h ≡ trim content
      → InForce bcrypt salt s h

not_empty : (s : Text) → s ≢ [] → is_empty s ≡ false
not_empty [] h = absurd (h refl)
not_empty (c ∷ s) h = refl

module _ (bcrypt : Bcrypt) where
  open bcrypt use {hash, compare}

  pub hash-not-empty : (salt p : Text) → is_empty (hash salt p) ≡ false
  hash-not-empty salt p = not_empty (hash salt p) (bcrypt.hash-ne-nil salt p)

  -- Loading the hash a second time, whatever salt is drawn, gives the same hash and the same state,
  -- and loading does not change whether the password can be edited.
  pub load_stored_hash_idempotent :
      (salt again : Text) (s : Admin)
      → (load_stored_hash bcrypt again (load_stored_hash bcrypt salt s).1
          ≡ load_stored_hash bcrypt salt s)
        × (can_edit_password (load_stored_hash bcrypt salt s).1 ≡ can_edit_password s)
  unfolding load_stored_hash can_edit_password
  load_stored_hash_idempotent salt again s = ground (arith, hash-not-empty salt (get_ui_password s))

  pub load_stored_hash-InForce :
      (salt h : Text) (s : Admin)
      → (load_stored_hash bcrypt salt s).0 ≡ some h
      → InForce bcrypt salt s h
  unfolding load_stored_hash
  load_stored_hash-InForce salt h s e = elim (Bool-cases (is_held s.stored_hash)) [
    | inl on ↦ from_memory (rw on at e) (kept-filled s.stored_hash h (rw on at e) on)
    | inr off ↦ elim (Bool-cases (is_empty (get_ui_password s))) [
      | inr there ↦ from_environment off there (some_injective (sym (rw (off, there) at e)))
      | inl blank ↦ read_from_file s.file refl off blank (rw (off, blank) at e)
    ]
  ]
    where
      some_injective : {x y : Text} → some x ≡ some y → x ≡ y
      some_injective q = cc

      kept-filled :
          (o : Option Text) (h : Text) → o ≡ some h → is_held o ≡ true → is_empty h ≡ false
      kept-filled none h q on = cc
      kept-filled (some g) h q on = ground arith

      read_from_file :
          (o : Option Text)
          → s.file ≡ o
          → is_held s.stored_hash ≡ false
          → is_empty (get_ui_password s) ≡ true
          → (read_hash o s).0 ≡ some h
          → InForce bcrypt salt s h
      read_from_file none at off blank q = cc
      read_from_file (some content) at off blank q =
          from_file content off blank at (some_injective (sym q))

  pub InForce-load_stored_hash :
      (salt h : Text) (s : Admin)
      → InForce bcrypt salt s h
      → (load_stored_hash bcrypt salt s).0 ≡ some h
  unfolding load_stored_hash
  InForce-load_stored_hash salt h s (from_memory e filled) = rw (e, filled) refl
  InForce-load_stored_hash salt h s (from_environment off on e) = rw (off, on, e) refl
  InForce-load_stored_hash salt h s (from_file content off blank there e) =
      rw (off, blank, there, e) refl

  -- The comparison after the name and the hash were tested.
  pub check_hash_iff :
      (wanted username password : Text) (o : Option Text)
      → (check_hash compare wanted username password o ≡ true) ↔ (
          (h : Text) × (o ≡ some h)
          × (is_empty h ≡ false)
          × (username ≡ wanted)
          × (compare password h ≡ true))
  check_hash_iff wanted username password none = (λ e. cc, λ (h, e, _, _, _). cc)
  check_hash_iff wanted username password (some g) = (
    λ e.
        let (p, q, r) : (is_empty g ≡ false)
            × ((username =? wanted) ≡ true)
            × (compare password g ≡ true) =
          ground arith in
        (g, refl, p, (list_eq_iff username wanted).0 q, r),
    λ (h, e, p, q, r). passed g h e p ((list_eq_iff username wanted).1 q) r,
  )
    where
      passed :
          (g h : Text)
          → some g ≡ some h
          → is_empty h ≡ false
          → (username =? wanted) ≡ true
          → compare password h ≡ true
          → check_hash compare wanted username password (some g) ≡ true
      passed g h e p q r = let same : g ≡ h = cc in rw (same, p, q, r) refl

  load_stored_hash-username :
      (salt : Text) (s : Admin)
      → get_ui_username (load_stored_hash bcrypt salt s).1 ≡ get_ui_username s
  unfolding load_stored_hash
  load_stored_hash-username salt s = ground arith

  -- The password is compared with the hash that the test for one has loaded.
  pub verify_password-loaded :
      (salt username password : Text) (s : Admin)
      → (verify_password bcrypt salt username password (is_auth_enabled bcrypt salt s).1).0
        ≡ check_hash compare
            (get_ui_username s)
            username
            password
            (load_stored_hash bcrypt salt s).0
  unfolding verify_password is_auth_enabled
  verify_password-loaded salt username password s =
      rw ((load_stored_hash_idempotent salt salt s).0, load_stored_hash-username salt s) refl
