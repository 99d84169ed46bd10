-- ===== src/Routes/System/Laws/Bounds.antt =====
-- The bounds of the numbers that `PUT /api/system/config` saves, whatever the body holds, and what becomes
-- of a mode of anonymisation that the body leaves out.
use beyond_ads_dns.Prelude.{
  ℕ, ◌≤◌, ◌≡◌, refl, ap, ◌∙◌, ◌==◌, String, true, false, Option, none, some, List, [], ◌∷◌, All,
  inl, inr, arith,
}
use beyond_ads_dns.Prelude.Int.{ℤ, pos, negsuc}
use beyond_ads_dns.Js.Text.{Text, text}
use beyond_ads_dns.Js.Value.{Number, Value, undefined, obj, str, Fields, put, remove, is_truthy}
use beyond_ads_dns.Js.Path.{prop, is_undefined}
use beyond_ads_dns.Js.Path.Laws.{prop-put}
use beyond_ads_dns.Js.Value.Laws.{find-remove}
use beyond_ads_dns.Js.Convert.{text_of, text_or}
use beyond_ads_dns.Js.Text.{lower}
use beyond_ads_dns.Normalize.Unique.{includes}
use beyond_ads_dns.Prelude.{list_eq, nat-Eq, list-Eq}
use beyond_ads_dns.Routes.System.Reads.{
  nat_value, clamp_listeners, int_or, int_of, with_fields, put_all,
}
use beyond_ads_dns.Routes.System.Sections.{
  server_section, query_store_section, store_fields, early_fields, late_fields, positive,
  retention_of, retention_hours, max_size, drop_size, put_size, anonymize_value, anonymize_modes,
}
use beyond_ads_dns.Routes.System.{sections, system_edit, accepted_body}
use beyond_ads_dns.Routes.System.Laws.{apply_sections-Gives}

-- The section holds a whole number under the key, within the bounds.
abbrev pub IsWithin : ℕ → ℕ → String → Value → Type 0
IsWithin least most key v = (n : ℕ) × (prop key v ≡ nat_value n) × (least ≤ n) × (n ≤ most)

abbrev pub IsAtLeast : ℕ → String → Value → Type 0
IsAtLeast least key v = (n : ℕ) × (prop key v ≡ nat_value n) × (least ≤ n)

clamp_listeners_bounds : (n : ℤ) → (1 ≤ clamp_listeners n) × (clamp_listeners n ≤ 64)
clamp_listeners_bounds (pos n) = ground arith
clamp_listeners_bounds (negsuc n) = omega arith

retention_of_bounds : (h d : Option ℤ) → 1 ≤ retention_of (positive h) (positive d)
retention_of_bounds none none = omega arith
retention_of_bounds none (some (pos d)) = ground arith
retention_of_bounds none (some (negsuc d)) = omega arith
retention_of_bounds (some (pos n)) none = ground arith
retention_of_bounds (some (pos n)) (some (pos d)) = ground arith
retention_of_bounds (some (pos n)) (some (negsuc d)) = ground arith
retention_of_bounds (some (negsuc n)) none = omega arith
retention_of_bounds (some (negsuc n)) (some (pos d)) = ground arith
retention_of_bounds (some (negsuc n)) (some (negsuc d)) = omega arith

some-value : (v w : Value) → ◌≡◌ {A = Option Value} (some v) (some w) → w ≡ v
some-value v w e = cc

prop-remove :
    (j k : String) (o : Fields) → (j == k) ≡ false → prop k (obj (remove j o)) ≡ prop k (obj o)
prop-remove j k o h = rw (find-remove j k o) (rw h refl)

prop-drop_size :
    (k : String) (m : Option ℕ) (o : Fields)
    → ("max_size_mb" == k) ≡ false
    → prop k (obj (drop_size m o)) ≡ prop k (obj o)
prop-drop_size k (some n) o h = refl
prop-drop_size k none o h = prop-remove "max_size_mb" k o h

prop-put_size :
    (k : String) (m : Option ℕ) (o : Fields)
    → ("max_size_mb" == k) ≡ false
    → prop k (obj (put_size m o)) ≡ prop k (obj o)
prop-put_size k (some n) o h = prop-put "max_size_mb" k (nat_value n) o ∙ rw h refl
prop-put_size k none o h = refl

-- A key that is not among those written.
prop-put_all :
    (k : String) (kvs : List (String × Value)) (o : Fields)
    → All (λ (kv : String × Value). (kv.0 == k) ≡ false) kvs
    → prop k (obj (put_all kvs o)) ≡ prop k (obj o)
unfolding put_all
prop-put_all k [] o h = refl
prop-put_all k ((j, v) ∷ kvs) o (h, hs) =
    prop-put_all k kvs (put j v o) hs ∙ (prop-put j k v o ∙ rw h refl)

module _ (number_text : Number → Text) (parse_float : Text → Option Number) where
  server_section-IsWithin :
      (b old v : Value)
      → server_section number_text parse_float b old ≡ some v
      → IsWithin 1 64 "reuse_port_listeners" v
  unfolding server_section with_fields put_all
  server_section-IsWithin b old v h =
      let n : ℤ = int_or 4 (int_of number_text (prop "reuse_port_listeners" b)) in
      let (low, high) = clamp_listeners_bounds n in
      (clamp_listeners n, rw (some-value _ v h) (simp (prop-put)), low, high)

  -- The deletions at the end leave the other keys.
  store-kept :
      (k : String) (b old v : Value)
      → ("max_size_mb_from_env" == k) ≡ false
      → ("retention_days" == k) ≡ false
      → ("flush_interval" == k) ≡ false
      → ("max_size_mb" == k) ≡ false
      → query_store_section number_text parse_float b old ≡ some v
      → prop k v ≡ prop k (obj (store_fields number_text parse_float b old))
  unfolding query_store_section
  store-kept k b old v p q r m h =
      ap (prop k) (some-value _ v h)
      ∙ prop-remove "max_size_mb_from_env" k _ p
      ∙ prop-remove "retention_days" k _ q
      ∙ prop-remove "flush_interval" k _ r
      ∙ prop-drop_size k (max_size number_text parse_float b) _ m

  store-hours :
      (b old : Value)
      → prop "retention_hours" (obj (store_fields number_text parse_float b old))
        ≡ nat_value (retention_hours number_text parse_float b)
  unfolding store_fields
  store-hours b old =
      prop-put_all "retention_hours" (late_fields number_text parse_float b)
        (put_size (max_size number_text parse_float b)
          (with_fields (early_fields number_text parse_float b) old))
        (refl, (refl, (refl, (refl, tt))))
      ∙ prop-put_size "retention_hours" (max_size number_text parse_float b)
          (with_fields (early_fields number_text parse_float b) old) refl
      ∙ simp prop-put

  query_store_section-IsAtLeast :
      (b old v : Value)
      → query_store_section number_text parse_float b old ≡ some v
      → IsAtLeast 1 "retention_hours" v
  query_store_section-IsAtLeast b old v h = (
    retention_hours number_text parse_float b,
    store-kept "retention_hours" b old v refl refl refl refl h ∙ store-hours b old,
    retention_of_bounds (int_of number_text (prop "retention_hours" b))
        (int_of number_text (prop "retention_days" b)),
  )

  -- Whatever the body holds, over an override that is an object, a save of its section `server` leaves from 1 to 64 listeners in the
  -- configuration, and one of its section `query_store` a retention of one hour at least.
  pub system_edit_bounds :
      (merged body : Value) (o : Fields) (c : Value)
      → system_edit number_text parse_float merged body (obj o) ≡ some c
      → (is_truthy (prop "server" (accepted_body number_text parse_float merged body)) ≡ true
          → IsWithin 1 64 "reuse_port_listeners" (prop "server" c))
        × (is_truthy (prop "query_store" (accepted_body number_text parse_float merged body)) ≡ true
            → IsAtLeast 1 "retention_hours" (prop "query_store" c))
  unfolding system_edit
  system_edit_bounds merged body o c h = (
    λ sent.
        apply_sections-Gives (accepted_body number_text parse_float merged body) "server"
          (IsWithin 1 64 "reuse_port_listeners") (sections number_text parse_float) o c
          (
            λ e. server_section-IsWithin,
            (
              λ e. cc,
              (λ e. cc, (λ e. cc, (λ e. cc, (λ e. cc, (λ e. cc, (λ e. cc, (λ e. cc, tt))))))),
            ),
          )
          (inl refl) sent h,
    λ sent.
        apply_sections-Gives (accepted_body number_text parse_float merged body) "query_store"
          (IsAtLeast 1 "retention_hours") (sections number_text parse_float) o c
          (
            λ e. cc,
            (
              λ e. cc,
              (
                λ e. query_store_section-IsAtLeast,
                (λ e. cc, (λ e. cc, (λ e. cc, (λ e. cc, (λ e. cc, (λ e. cc, tt)))))),
              ),
            ),
          )
          (inr (inr (inl refl))) sent h,
  )

  undefined_mode :
      (v : Value)
      → is_undefined v ≡ true
      → anonymize_value number_text parse_float v ≡ str (text "undefined")
  unfolding text_or text_of includes lower list_eq
  undefined_mode undefined h = refl
  undefined_mode _ h = cc

  store-mode :
      (b old : Value)
      → prop "anonymize_client_ip" (obj (store_fields number_text parse_float b old))
        ≡ anonymize_value number_text parse_float (prop "anonymize_client_ip" b)
  unfolding store_fields
  store-mode b old = simp prop-put

  -- A section `query_store` that leaves the mode of anonymisation out is saved with the text
  -- "undefined" as its mode, which is none of the modes.
  pub query_store_section-undefined :
      (b old v : Value)
      → is_undefined (prop "anonymize_client_ip" b) ≡ true
      → query_store_section number_text parse_float b old ≡ some v
      → (prop "anonymize_client_ip" v ≡ str (text "undefined"))
        × (includes (text "undefined") anonymize_modes ≡ false)
  unfolding includes list_eq
  query_store_section-undefined b old v h e = (
    store-kept "anonymize_client_ip" b old v refl refl refl refl e
        ∙ store-mode b old
        ∙ undefined_mode (prop "anonymize_client_ip" b) h,
    refl,
  )
