-- ===== src/Routes/System/Cache.antt =====
-- The section `cache` of `PUT /api/system/config` in web/server/src/routes/config.js.
pub mod Refresh
use beyond_ads_dns.Prelude.{
  ℕ, String, Bool, true, false, not, ◌&&◌, ◌||◌, Option, none, some, List, [], ◌∷◌, if◌then◌else◌,
}
use beyond_ads_dns.Prelude.Int.{ℤ, pos}
use beyond_ads_dns.Js.Text.{Text, text, is_empty, trim, lower}
use beyond_ads_dns.Js.Value.{
  Number, Value, undefined, str, obj, arr, Fields, end, put, remove, find, is_some, strict_equal,
}
use beyond_ads_dns.Js.Path.{prop, is_undefined}
use beyond_ads_dns.Js.Convert.{text_of, text_or}
use beyond_ads_dns.Routes.Dns.{spread}
use beyond_ads_dns.Routes.Settings.{or_default}
use beyond_ads_dns.Routes.Update.{or_falsy}
use beyond_ads_dns.Routes.System.Reads.{
  nat_value, whole, text_value, put_all, with_fields, is_given, is_present, is_true, int_or,
  at_least_zero, texts_or_value, lower_or, int_of, trimmed_or, split_commas,
}
use Refresh.{refresh_steps}

-- `{ ...(cond ? { [k]: v } : {}) }`
abbrev pub put_given : Bool → String → Value → Fields → Fields
put_given true k v o = put k v o
put_given false k v o = o

-- `v !== undefined && v !== ""`, for `redis_max_keys`.
abbrev pub is_max_keys_sent : Value → Bool
is_max_keys_sent undefined = false
is_max_keys_sent (str s) = not (is_empty s)
is_max_keys_sent v = true

-- `Number.isNaN(v) ? 10000 : Math.max(0, v)`
abbrev pub max_keys : Option ℤ → ℕ
max_keys none = 10000
max_keys (some n) = at_least_zero n

-- `key in v`, which throws for a value that is no object.
abbrev pub has_key : String → Value → Option Bool
has_key k (obj o) = some (is_some (find k o))
has_key k (arr xs) = some false
has_key k _ = none

module _ (number_text : Number → Text) (parse_float : Text → Option Number) where
  -- The new `redis`, of the mode.
  unfoldable pub redis_fields : Value → Value → Text → Fields
  unfolding with_fields int_of text_or strict_equal split_commas
  redis_fields body old mode =
      with_fields
        (("address", or_falsy (prop "redis_address" body) (text_value "redis:6379"))
          ∷ (("db", whole (int_or 0 (int_of number_text (prop "redis_db" body))))
              ∷ (("password", str (trimmed_or number_text (prop "redis_password" body) ""))
                  ∷ ((
                    "lru_size",
                    whole (int_or 10000 (int_of number_text (prop "redis_lru_size" body))),
                  )
                      ∷ ((
                        "max_keys",
                        if is_max_keys_sent (prop "redis_max_keys" body)
                            then nat_value
                                (max_keys (int_of number_text (prop "redis_max_keys" body)))
                            else or_default (prop "max_keys" (prop "redis" old)) (nat_value 10000),
                      )
                          ∷ (("mode", str mode)
                              ∷ ((
                                "master_name",
                                str (trimmed_or number_text (prop "redis_master_name" body) ""),
                              )
                                  ∷ ((
                                    "sentinel_addrs",
                                    texts_or_value (prop "redis_sentinel_addrs" body),
                                  )
                                      ∷ ((
                                        "cluster_addrs",
                                        texts_or_value (prop "redis_cluster_addrs" body),
                                      )
                                          ∷ ((
                                            "degraded_on_unavailable",
                                            is_true (prop "redis_degraded_on_unavailable" body),
                                          )
                                              ∷ []))))))))))
        (prop "redis" old)

  abbrev pub log_interval : Value → Text
  log_interval body = trim (text_of number_text (prop "servfail_log_interval" body))

  -- The new `cache` before the edits of its parts.
  unfoldable pub cache_fields : Value → Value → Text → Fields
  unfolding redis_fields text_of
  cache_fields body old mode = put "respect_source_ttl" (is_true (prop "respect_source_ttl" body)) (
      put_given
        (is_present (prop "servfail_log_interval" body) && not (is_empty (log_interval body)))
        "servfail_log_interval" (str (log_interval body))
        (put_given (is_given (prop "servfail_refresh_threshold" body)) "servfail_refresh_threshold"
          (nat_value (
            at_least_zero (int_or 0 (int_of number_text (prop "servfail_refresh_threshold" body)))))
          (with_fields
            (("redis", obj (redis_fields body old mode))
              ∷ (("min_ttl", or_falsy (prop "min_ttl" body) (text_value "300s"))
                  ∷ (("max_ttl", or_falsy (prop "max_ttl" body) (text_value "1h"))
                      ∷ (("negative_ttl", or_falsy (prop "negative_ttl" body) (text_value "5m"))
                          ∷ ((
                            "servfail_backoff",
                            or_falsy (prop "servfail_backoff" body) (text_value "60s"),
                          )
                              ∷ [])))))
            old)))

  -- A sent key without a text deletes the interval.
  unfoldable pub without_interval : Value → Bool → Fields → Fields
  unfolding remove text_or
  without_interval body sent o =
      if sent && is_empty (trim (text_or number_text (prop "servfail_log_interval" body) ""))
      then remove "servfail_log_interval" o
      else o

  -- A text is written under the key, an empty one deletes the key.
  abbrev pub put_or_remove : String → Text → Fields → Fields
  put_or_remove k s o = if is_empty s then remove k o else put k (str s) o

  unfoldable pub with_grace_period : Value → Fields → Fields
  unfolding remove put text_or
  with_grace_period body o =
      if is_present (prop "redis_lru_grace_period" body)
      then put "redis"
          (obj (
            put_or_remove "lru_grace_period"
              (trim (text_or number_text (prop "redis_lru_grace_period" body) ""))
              (spread (prop "redis" (obj o)))))
          o
      else o

  unfoldable pub with_ttl_cap : Value → Fields → Fields
  unfolding remove put text_or
  with_ttl_cap body o =
      if is_present (prop "client_ttl_cap" body)
      then put_or_remove "client_ttl_cap"
          (trim (text_or number_text (prop "client_ttl_cap" body) "")) o
      else o

  abbrev pub finish_cache : Value → Fields → Option Bool → Option Value
  finish_cache body o none = none
  finish_cache body o (some sent) = some (
      obj (
        with_ttl_cap body (
          with_grace_period body
            (refresh_steps number_text parse_float body (without_interval body sent o)))))

  abbrev pub cache_of_mode : Value → Value → Option Text → Option Value
  cache_of_mode body old none = none
  cache_of_mode body old (some mode) =
      finish_cache body (cache_fields body old mode) (has_key "servfail_log_interval" body)

  unfoldable pub cache_section : Value → Value → Option Value
  unfolding cache_fields without_interval refresh_steps with_grace_period with_ttl_cap lower
  cache_section body old = cache_of_mode body old (lower_or (prop "redis_mode" body) "standalone")
