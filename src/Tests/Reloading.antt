-- ===== src/Tests/Reloading.antt =====
-- The reload of the blocklists over a control server that is busy at first, and the list of errors.
use mathlib.Core.Option
use beyond_ads_dns.Prelude.{
  ℕ, zero, suc, ◌≡◌, ◌≤◌, ◌↔◌, refl, true, false, none, some, [], ◌∷◌, length, list_eq, ◌⊎◌, inl,
  nat-Eq, list-Eq,
}
use beyond_ads_dns.Js.Text.{Text, text, is_empty, trim, lower}
use beyond_ads_dns.Js.Convert.{text_or}
use beyond_ads_dns.Normalize.Unique.{includes}
use beyond_ads_dns.Config.Options.{levels}
use beyond_ads_dns.Js.Value.{Value, Fields, obj, str, field, end, put, find}
use beyond_ads_dns.Config.Merge.{merge_deep}
use beyond_ads_dns.Config.Store.{Disk, read_merged_config}
use beyond_ads_dns.Routes.Settings.{ok}
use beyond_ads_dns.Routes.Dns.{spread}
use beyond_ads_dns.Control.{Link, Fetched, answered, Response, post, request, ok_true}
use beyond_ads_dns.Control.Retry.{apply_blocklists, attempts, round, backoff_delays}
use beyond_ads_dns.Control.Retry.Laws.{IsPrefix, sum}
use beyond_ads_dns.Control.Retry.Outcome.{Reaches, apply_blocklists_iff, apply_blocklists_bounds}
use beyond_ads_dns.Control.Errors.{
  configured_level, errors_reply, bearer_token, restart, restarting,
}
use beyond_ads_dns.Control.Errors.Laws.{errors_reply-configured}
use beyond_ads_dns.Tests.Files.{plain_yaml, ctx, print_number}

abbrev link : Link
link = record { url = text "http://dns:8081"; token = [] }

abbrev response : ℕ → Response
response status = record {
  status = status;
  text_body = some (text "busy");
  json_body = some (obj reported);
}
  where
    reported : Fields
    reported = field "log_level" (str (text "debug")) end

abbrev busy_once : ℕ → Fetched
busy_once zero = answered (response 429)
busy_once (suc n) = answered (response 200)

retried_test :
    apply_blocklists link busy_once
    ≡ (some (request link post "/blocklists/reload" none), 4000 ∷ [], ok ok_true)
unfolding apply_blocklists attempts round
retried_test = refl

apply_blocklists_iff_example :
    ((apply_blocklists link busy_once).2 ≡ ok ok_true)
    ↔ ((is_empty link.url ≡ false) × Reaches 4 busy_once 0)
apply_blocklists_iff_example = apply_blocklists_iff link busy_once

apply_blocklists_bounds_example :
    IsPrefix (apply_blocklists link busy_once).1 backoff_delays
    × (length (apply_blocklists link busy_once).1 ≤ 4)
    × (sum (apply_blocklists link busy_once).1 ≤ 60000)
apply_blocklists_bounds_example = apply_blocklists_bounds link busy_once

restart_test : restart (text "secret") (text "Bearer  secret") [] ≡ (ok restarting, true)
unfolding restart bearer_token list_eq
restart_test = refl

abbrev logging : Value
logging = obj (field "logging" (obj (field "level" (str (text "Info")) end)) end)

abbrev logging_disk : Disk Value
logging_disk p = some logging

logging_merged : read_merged_config plain_yaml [] (text "config.yaml") logging_disk ≡ some logging
unfolding read_merged_config merge_deep
logging_merged = refl

abbrev reported : Value
reported = obj (field "log_level" (str (text "debug")) end)

info_test :
    errors_reply plain_yaml ctx print_number logging_disk (answered (response 200))
    ≡ ok (obj (field "log_level" (str (text "info")) end))
unfolding errors_reply Option.bind configured_level merge_deep lower trim list_eq read_merged_config
info_test = refl

errors_reply-configured_example :
    (level : Text) × (errors_reply plain_yaml ctx print_number logging_disk
        (answered (response 200))
      ≡ ok (obj (put "log_level" (str level) (spread reported))))
    × (((includes (trim (lower (text_or print_number (str (text "Info")) ""))) levels ≡ true)
          × (level ≡ trim (lower (text_or print_number (str (text "Info")) ""))))
        ⊎ ((includes (trim (lower (text_or print_number (str (text "Info")) ""))) levels ≡ false)
            × (level ≡ text "warning")))
unfolding find
errors_reply-configured_example =
    errors_reply-configured print_number plain_yaml ctx logging_disk (response 200) logging reported
      (str (text "Info")) refl logging_merged refl refl (inl (refl, refl))
