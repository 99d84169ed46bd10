-- ===== src/Routes/Webhooks.antt =====
-- `PUT /api/webhooks` of web/server/src/routes/webhooks.js, with the targets and rate limits that
-- `GET /api/webhooks` shows (resolveRateLimit and normalizeWebhookTargets). `Number(v)` is a parameter,
-- `none` for NaN; a spread of a value that is no object is taken as empty.
pub mod Laws
use mathlib.Core.Option
use beyond_ads_dns.Prelude.{
  String, Bool, true, false, not, ◌&&◌, Option, none, some, List, [], ◌∷◌, ◌=?◌, nat-Eq, list-Eq,
  if◌then◌else◌,
}
use beyond_ads_dns.Js.Text.{Text, text, is_empty, trim, lower}
use beyond_ads_dns.Js.Value.{
  Number, Value, undefined, null, bool, num, str, obj, arr, Items, Fields, end, nil, cons, field,
  put, remove, is_truthy, strict_equal,
}
use beyond_ads_dns.Js.Path.{prop, is_undefined}
use beyond_ads_dns.Js.Convert.{text_of, text_or, items_of}
use beyond_ads_dns.Normalize.Entries.{or_text}
use beyond_ads_dns.Config.Store.{Yaml, Disk, Faults}
use beyond_ads_dns.Scheduler.{
  UsageStats, ScheduleError, validate_usage_stats_schedule, normalize_usage_stats_schedule,
}
use beyond_ads_dns.Routes.Settings.{Ctx, Reply, assign, or_default}
use beyond_ads_dns.Routes.Update.{or_falsy, saved_reply}
use beyond_ads_dns.Routes.Dns.{spread}
use beyond_ads_dns.Routes.Edit.{Edit, thrown, denied, saves, saves_all, modify}
use beyond_ads_dns.Routes.System.Reads.{nat_value, text_value, is_given}

-- `{ ...old, ...new }`
unfoldable pub put_over : Fields → Fields → Fields
unfolding put
put_over end o = o
put_over (field k v rest) o = put_over rest (put k v o)

-- `v && typeof v === "object" ? v : {}`
abbrev pub context_value : Value → Value
context_value (obj o) = obj o
context_value (arr xs) = arr xs
context_value v = obj end

-- `max` and `tf`.
pub record RateLimit : Type 0 where
  pub max : Value
  pub timeframe : Value

abbrev pub webhooks_saved : Value
webhooks_saved =
    saved_reply
      (field "message" (str (text "Webhooks saved. Restart the DNS service to apply changes.")) end)

module _ (number_text : Number → Text) (number_of : Value → Option Number) where
  -- `Number(v) || 60`
  abbrev pub number_or_60 : Value → Value
  number_or_60 v = elim (number_of v) [
    | none ↦ nat_value 60
    | some n ↦ or_falsy (num n) (nat_value 60)
  ]

  unfoldable pub resolve_rate_limit : Value → Value → RateLimit
  resolve_rate_limit hook parent =
      let max =
        or_default (prop "rate_limit_max_messages" hook) (prop "rate_limit_max_messages" parent) in
      let tf = or_default (prop "rate_limit_timeframe" hook) (prop "rate_limit_timeframe" parent) in
      let legacy =
        or_default (prop "rate_limit_per_minute" hook) (prop "rate_limit_per_minute" parent) in
      if is_given max
      then record { max = number_or_60 max; timeframe = or_falsy tf (text_value "1m") }
      else if is_given legacy
      then record { max = number_or_60 legacy; timeframe = text_value "1m" }
      else record { max = nat_value 60; timeframe = text_value "1m" }

  abbrev pub target_fields : Value → Value → RateLimit → Fields
  target_fields t format limit = field "url" (str (trim (text_or number_text (prop "url" t) ""))) (
      field "timeout"
        (str (or_text (trim (text_or number_text (prop "timeout" t) "5s")) (text "5s")))
        (field "target"
          (str (or_text (lower (trim (text_or number_text format "default"))) (text "default")))
          (field "rate_limit_max_messages" limit.max (
            field "rate_limit_timeframe" limit.timeframe
              (field "context" (context_value (prop "context" t)) end)))))

  -- `String(t?.target || t?.format || "default")` is read of the first of the two.
  abbrev pub shown_target : Value → Value → Value
  shown_target t hook =
      obj
        (target_fields t (or_falsy (prop "target" t) (prop "format" t)) (resolve_rate_limit t hook))

  -- The targets with an address.
  unfoldable pub shown_targets : Value → Items → Items
  unfolding text_or lower trim resolve_rate_limit
  shown_targets hook nil = nil
  shown_targets hook (cons t ts) =
      let rest = shown_targets hook ts in
      if is_truthy (prop "url" (shown_target t hook)) then cons (shown_target t hook) rest else rest

  -- The one target of the old form, which throws where the address is no text.
  abbrev pub old_target : Value → Value → Value → Option Items
  old_target hook parent undefined = some nil
  old_target hook parent null = some nil
  old_target hook parent (str url) = some (
      if is_empty (trim url)
      then nil
      else cons
          (obj (
            target_fields hook (or_falsy (prop "target" hook) (prop "format" hook))
              (resolve_rate_limit hook parent)))
          nil)
  old_target hook parent v = none

  abbrev pub targets_or_old : Value → Value → Items → Option Items
  targets_or_old hook parent nil = old_target hook parent (prop "url" hook)
  targets_or_old hook parent (cons t ts) = some (shown_targets hook (cons t ts))

  unfoldable pub normalize_webhook_targets : Value → Value → Option Items
  unfolding shown_targets text_or lower trim resolve_rate_limit
  normalize_webhook_targets hook parent =
      targets_or_old hook parent (items_of (prop "targets" hook))

  -- What the saved hook is given of the sent one: whether it is on, its limit and its timeframe.
  unfoldable pub hook_limits : Value → Fields → Fields
  unfolding put text_or
  hook_limits input hook =
      let on =
        if is_undefined (prop "enabled" input)
        then hook
        else put "enabled" (bool (is_truthy (prop "enabled" input))) hook in
      let limited =
        if is_undefined (prop "rate_limit_max_messages" input)
        then on
        else put "rate_limit_max_messages"
            (elim (number_of (prop "rate_limit_max_messages" input)) [
              | none ↦ nat_value 60
              | some n ↦ num n
            ])
            on in
      if is_undefined (prop "rate_limit_timeframe" input)
      then limited
      else put "rate_limit_timeframe"
          (str (
            or_text (trim (text_or number_text (prop "rate_limit_timeframe" input) "1m"))
              (text "1m")))
          limited

  abbrev pub saved_limit : Value → Fields → RateLimit
  saved_limit t hook = record {
    max =
        or_default (prop "rate_limit_max_messages" t)
          (or_default (prop "rate_limit_max_messages" (obj hook)) (nat_value 60));
    timeframe =
        or_default (prop "rate_limit_timeframe" t)
          (or_default (prop "rate_limit_timeframe" (obj hook)) (text_value "1m"));
  }

  abbrev pub saved_target : Fields → Value → Fields
  saved_target hook t = target_fields t (prop "target" t) (saved_limit t hook)

  unfoldable pub saved_targets : Fields → Items → Items
  unfolding text_or lower trim
  saved_targets hook nil = nil
  saved_targets hook (cons t ts) =
      let rest = saved_targets hook ts in
      if is_truthy (prop "url" (obj (saved_target hook t)))
      then cons (obj (saved_target hook t)) rest
      else rest

  -- Without a target the address of the old form goes too.
  abbrev pub with_targets : Items → Fields → Fields
  with_targets nil hook =
      remove "context" (remove "target" (remove "url" (put "targets" (arr nil) hook)))
  with_targets (cons t ts) hook = put "targets" (arr (cons t ts)) hook

  abbrev pub hook_targets : Value → Fields → Fields
  hook_targets (arr ts) hook = with_targets (saved_targets hook ts) hook
  hook_targets v hook = hook

  -- The new hook.
  unfoldable pub hook_fields : Value → Value → Fields
  unfolding put remove hook_limits saved_targets
  hook_fields input existing =
      hook_targets (prop "targets" input) (hook_limits input (spread existing))

  -- `updateHook(key, input)`, which changes nothing for an input that is falsy.
  unfoldable pub update_hook : String → Value → Value → Option Value
  unfolding hook_fields
  update_hook key input webhooks =
      if is_truthy input
      then assign key (obj (hook_fields input (prop key webhooks))) webhooks
      else some webhooks

  abbrev pub read_stats : Value → UsageStats
  read_stats v = record {
    enabled = strict_equal (prop "enabled" v) (bool true);
    url = text_or number_text (prop "url" v) "";
    schedule_time = text_or number_text (prop "schedule_time" v) "";
    schedule_timezone = text_or number_text (prop "schedule_timezone" v) "";
    target = text_or number_text (prop "target" v) "";
  }

  abbrev pub stats_value : UsageStats → Value
  stats_value s = obj (
      field "enabled" (bool s.enabled) (
        field "url" (str s.url) (
          field "schedule_time" (str s.schedule_time) (
            field "schedule_timezone" (str s.schedule_timezone)
              (field "target" (str s.target) end)))))

  abbrev pub normalized_stats : Option UsageStats → Value
  normalized_stats none = null
  normalized_stats (some s) = stats_value s

  module _ (is_timezone is_url : Text → Bool) where
    abbrev pub stats_input : Value → Value → Value
    stats_input sent webhooks =
        obj (put_over (spread sent) (spread (prop "usage_stats_webhook" webhooks)))

    abbrev pub save_webhooks : Value → Option Value → Edit
    save_webhooks config none = thrown
    save_webhooks config (some webhooks) =
        saves_all (assign "webhooks" webhooks config) webhooks_saved

    abbrev pub save_stats : Value → Value → UsageStats → Option ScheduleError → Edit
    save_stats config webhooks stats (some error) = denied 400
    save_stats config webhooks stats none = save_webhooks config (
        assign "usage_stats_webhook"
          (normalized_stats (normalize_usage_stats_schedule (some stats))) webhooks)

    -- The schedule of the statistics is checked after the hooks were changed, before the write.
    unfoldable pub update_stats : Value → Value → Value → Edit
    unfolding put_over text_or strict_equal validate_usage_stats_schedule
        normalize_usage_stats_schedule
    update_stats sent config webhooks =
        if is_undefined sent
        then save_webhooks config (some webhooks)
        else save_stats config webhooks (read_stats (stats_input sent webhooks)) (
            validate_usage_stats_schedule is_timezone is_url
              (some (read_stats (stats_input sent webhooks))))

    abbrev pub update_webhooks : Value → Value → Option Value → Edit
    update_webhooks body config none = thrown
    update_webhooks body config (some webhooks) =
        update_stats (prop "usage_stats_webhook" body) config webhooks

    abbrev pub edit_webhooks : Value → Option Value → Edit
    edit_webhooks body none = thrown
    edit_webhooks body (some config) = update_webhooks body config (
        Option.bind
          (update_hook "on_block" (prop "on_block" body)
            (or_falsy (prop "webhooks" config) (obj end)))
          (update_hook "on_error" (prop "on_error" body)))

    unfoldable pub webhooks_edit : Value → Value → Edit
    unfolding update_hook update_stats
    webhooks_edit body config =
        edit_webhooks body (assign "webhooks" (or_falsy (prop "webhooks" config) (obj end)) config)

    unfoldable pub put_webhooks :
        {Content : Type 0}
        → Yaml Content
        → Ctx
        → Value
        → Text
        → Faults Content
        → Disk Content
        → Reply Value × Disk Content
    unfolding modify webhooks_edit
    put_webhooks yaml ctx body suffix f disk = modify yaml ctx (webhooks_edit body) suffix f disk
