-- ===== src/Routes/System/Cache/Refresh.antt =====
-- The edits of `cache.refresh` by `PUT /api/system/config` in web/server/src/routes/config.js: one step for
-- each field of the body, each over a fresh copy of the settings.
use beyond_ads_dns.Prelude.{
  ℕ, String, Bool, false, not, ◌&&◌, Option, none, some, List, [], ◌∷◌, ◌=?◌, nat-Eq, list-Eq,
  if◌then◌else◌,
}
use beyond_ads_dns.Prelude.Int.{ℤ}
use beyond_ads_dns.Js.Text.{Text, text, is_empty, trim, lower}
use beyond_ads_dns.Js.Value.{
  Number, Value, undefined, bool, num, str, obj, Fields, put, remove, strict_equal,
}
use beyond_ads_dns.Js.Path.{prop}
use beyond_ads_dns.Js.Convert.{text_of, text_or}
use beyond_ads_dns.Normalize.Unique.{includes}
use beyond_ads_dns.Routes.Dns.{spread}
use beyond_ads_dns.Routes.System.Reads.{
  whole, text_value, is_given, is_present, is_true, is_at_least, is_at_most_one, is_not_negative,
  is_hundredth, int_of,
}

-- `overrideConfig.cache.refresh = { ...(overrideConfig.cache?.refresh || {}), [k]: v };`
unfoldable pub put_refresh : String → Value → Fields → Fields
unfolding put
put_refresh k v cache = put "refresh" (obj (put k v (spread (prop "refresh" (obj cache))))) cache

abbrev pub put_refresh_if : Bool → String → Value → Fields → Fields
put_refresh_if b k v cache = if b then put_refresh k v cache else cache

abbrev pub modes : List Text
modes = text "aggressive" ∷ (text "balanced" ∷ (text "conservative" ∷ (text "custom" ∷ [])))

-- The mode, or its deletion where it is "".
unfoldable pub put_mode : Text → Fields → Fields
unfolding put remove includes put_refresh
put_mode mode cache =
    if includes mode modes
    then put_refresh "refresh_mode" (str mode) cache
    else if is_empty mode
    then put "refresh"
        (obj (
          remove "refresh_mode"
            (put "refresh_mode" undefined (spread (prop "refresh" (obj cache))))))
        cache
    else cache

module _ (number_text : Number → Text) (parse_float : Text → Option Number) (body : Value) where
  abbrev pub put_int : ℕ → String → Option ℤ → Fields → Fields
  put_int least k none cache = cache
  put_int least k (some n) cache = put_refresh_if (is_at_least least n) k (whole n) cache

  -- A whole number that is given and at least this.
  unfoldable pub int_step : ℕ → String → String → Fields → Fields
  unfolding int_of put_refresh
  int_step least sent k cache =
      if is_given (prop sent body)
      then put_int least k (int_of number_text (prop sent body)) cache
      else cache

  abbrev pub put_float : (Number → Bool) → String → Option Number → Fields → Fields
  put_float valid k none cache = cache
  put_float valid k (some n) cache = put_refresh_if (valid n) k (num n) cache

  -- A fraction that is given and in range.
  unfoldable pub float_step : (Number → Bool) → String → String → Fields → Fields
  unfolding text_of put_refresh
  float_step valid sent k cache =
      if is_given (prop sent body)
      then put_float valid k (parse_float (text_of number_text (prop sent body))) cache
      else cache

  abbrev pub sent_text : String → Text
  sent_text sent = trim (text_of number_text (prop sent body))

  -- A text that is more than blanks.
  unfoldable pub text_step : String → String → Fields → Fields
  unfolding text_of put_refresh
  text_step sent k cache =
      put_refresh_if (is_present (prop sent body) && not (is_empty (sent_text sent))) k
        (str (sent_text sent)) cache

  unfoldable pub flag_step : String → String → Fields → Fields
  unfolding put_refresh strict_equal
  flag_step sent k cache =
      put_refresh_if (is_present (prop sent body)) k (is_true (prop sent body)) cache

  -- The window of the sweep: "0" where it is switched off, and a text that is not zero.
  unfoldable pub sweep_hit_window_step : Fields → Fields
  unfolding text_of put_refresh strict_equal
  sweep_hit_window_step cache =
      if strict_equal (prop "sweep_hit_window_enabled" body) (bool false)
      then put_refresh "sweep_hit_window" (text_value "0") cache
      else put_refresh_if
          (is_present (prop "sweep_hit_window" body)
            && not (is_empty (sent_text "sweep_hit_window"))
            && not (sent_text "sweep_hit_window" =? text "0")
            && not (sent_text "sweep_hit_window" =? text "0s"))
          "sweep_hit_window" (str (sent_text "sweep_hit_window")) cache

  unfoldable pub mode_step : Fields → Fields
  unfolding text_or put_mode
  mode_step cache =
      if is_present (prop "refresh_mode" body)
      then put_mode (lower (trim (text_or number_text (prop "refresh_mode" body) ""))) cache
      else cache

  abbrev pub is_sample_rate : Number → Bool
  is_sample_rate n = is_hundredth n && is_at_most_one n

  abbrev pub is_fraction : Number → Bool
  is_fraction n = is_not_negative n && is_at_most_one n

  -- The steps for the sweep.
  unfoldable pub sweep_steps : Fields → Fields
  unfolding int_step float_step text_step sweep_hit_window_step
  sweep_steps cache = int_step 1 "max_batch_size" "max_batch_size" (
      text_step "sweep_window" "sweep_window" (
        text_step "sweep_interval" "sweep_interval" (
          int_step 1 "max_inflight" "max_inflight" (
            sweep_hit_window_step (
              int_step 0 "sweep_min_hits" "sweep_min_hits" (
                float_step is_sample_rate "hit_count_sample_rate" "hit_count_sample_rate"
                  cache))))))

  -- The steps for stale entries.
  unfoldable pub stale_steps : Fields → Fields
  unfolding flag_step text_step
  stale_steps cache =
      text_step "expired_entry_ttl" "expired_entry_ttl"
        (text_step "stale_ttl" "stale_ttl" (flag_step "serve_stale" "serve_stale" cache))

  -- The steps for the refresh of hot and warm entries.
  unfoldable pub hot_steps : Fields → Fields
  unfolding int_step float_step text_step flag_step
  hot_steps cache = float_step is_fraction "refresh_warm_ttl_fraction" "warm_ttl_fraction" (
      text_step "refresh_warm_ttl" "warm_ttl" (
        int_step 0 "refresh_warm_threshold" "warm_threshold" (
          float_step is_fraction "refresh_hot_ttl_fraction" "hot_ttl_fraction" (
            text_step "refresh_hot_ttl" "hot_ttl" (
              text_step "refresh_min_ttl" "min_ttl" (
                float_step is_not_negative "refresh_hot_threshold_rate" "hot_threshold_rate" (
                  int_step 0 "refresh_hot_threshold" "hot_threshold" (
                    text_step "refresh_hit_window" "hit_window"
                      (flag_step "refresh_enabled" "enabled" cache)))))))))

  unfoldable pub refresh_steps : Fields → Fields
  unfolding sweep_steps stale_steps hot_steps flag_step mode_step text_step
  refresh_steps cache = text_step "refresh_lock_ttl" "lock_ttl" (
      mode_step (
        flag_step "refresh_past_auth_ttl" "refresh_past_auth_ttl"
          (hot_steps (stale_steps (sweep_steps cache)))))
