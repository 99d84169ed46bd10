-- ===== src/Control/Errors.antt =====
-- The handlers of web/server/src/routes/control.js that do more than pass a request on: the restart, the
-- list of errors with the level in force, and the change of that level.
pub mod Laws
use mathlib.Core.Option
use beyond_ads_dns.Prelude.{
  String, Bool, true, false, not, ◌&&◌, ◌||◌, Option, none, some, List, [], ◌∷◌, ◌=?◌, nat-Eq,
  list-Eq, if◌then◌else◌,
}
use beyond_ads_dns.Js.Text.{Text, text, is_empty, trim, lower}
use beyond_ads_dns.Js.Value.{
  Number, Value, undefined, null, bool, num, str, obj, arr, Fields, end, field, put, is_truthy,
}
use beyond_ads_dns.Js.Path.{prop}
use beyond_ads_dns.Js.Convert.{text_or, text_or_default}
use beyond_ads_dns.Address.{after_prefix}
use beyond_ads_dns.Normalize.Unique.{includes}
use beyond_ads_dns.Config.Options.{levels, normalize_error_log_level}
use beyond_ads_dns.Config.Store.{Yaml, Disk, Faults, read_merged_config}
use beyond_ads_dns.Routes.Settings.{Ctx, Reply, ok, refused, assign, has_no_path, ok_or_500}
use beyond_ads_dns.Routes.Update.{or_falsy, saved_reply}
use beyond_ads_dns.Routes.Dns.{spread}
use beyond_ads_dns.Routes.Edit.{Edit, saves_all, modify}
use beyond_ads_dns.Control.{
  Link, get, Request, Response, Fetched, failed, answered, is_ok, request, refuse_502,
}

abbrev pub trimmed_or_empty : Option Text → Text
trimmed_or_empty none = []
trimmed_or_empty (some s) = trim s

-- The token of `Authorization: Bearer …`, or "".
unfoldable pub bearer_token : Text → Text
unfolding after_prefix trim
bearer_token auth = trimmed_or_empty (after_prefix (text "Bearer ") auth)

abbrev pub restarting : Value
restarting = saved_reply (field "message" (str (text "Restarting...")) end)

-- The reply of `POST /api/restart`, and whether the process ends after it; the two headers are "" where
-- they are not set.
unfoldable pub restart : Text → Text → Text → Reply Value × Bool
restart token auth header =
    if not (is_empty token) && not (bearer_token auth =? token) && not (header =? token)
    then (refused 401, false)
    else (ok restarting, true)

-- `["error", …].includes(v)`
abbrev pub is_level : Value → Bool
is_level (str s) = includes s levels
is_level v = false

-- The level that the control server reports, or "warning"; on `null`, reading it throws.
abbrev pub reported_level : Value → Option Value
reported_level null = none
reported_level v =
    some (if is_level (prop "log_level" v) then prop "log_level" v else str (text "warning"))

-- `{ ...data, log_level: logLevel }`
abbrev pub with_level : Value → Option Value → Option Value
with_level v none = none
with_level v (some level) = some (obj (put "log_level" level (spread v)))

module _ (number_text : Number → Text) where
  -- `merged?.logging?.level || merged?.control?.errors?.log_level`, normalised.
  unfoldable pub configured_level : Value → Text
  unfolding text_or normalize_error_log_level
  configured_level merged = normalize_error_log_level (
      text_or number_text
        (or_falsy (prop "level" (prop "logging" merged))
          (prop "log_level" (prop "errors" (prop "control" merged))))
        "")

  -- A level that is configured comes first; a configuration that cannot be read is passed over.
  abbrev pub level_of : Option Value → Value → Option Value
  level_of none v = reported_level v
  level_of (some merged) v =
      if is_empty (configured_level merged)
      then reported_level v
      else some (str (configured_level merged))

module _ {Content : Type 0} (yaml : Yaml Content) (ctx : Ctx) (number_text : Number → Text) where
  open ctx use {default_config_path, config_path}

  -- What is in force, of what the control server answered.
  abbrev pub with_log_level : Disk Content → Value → Option Value
  with_log_level disk v = with_level v (
      if has_no_path yaml ctx
      then reported_level v
      else level_of number_text (read_merged_config yaml default_config_path config_path disk) v)

  unfoldable pub errors_reply : Disk Content → Fetched → Reply Value
  unfolding put
  errors_reply disk failed = refused 500
  errors_reply disk (answered r) =
      if is_ok r.status
      then ok_or_500 (Option.bind r.json_body (with_log_level disk))
      else refuse_502 r.text_body

  unfoldable pub get_errors : Link → (Request → Fetched) → Disk Content → List Request × Reply Value
  unfolding request errors_reply configured_level read_merged_config
  get_errors link fetch disk = if is_empty link.url then ([], refused 400) else (
    request link get "/errors" none ∷ [],
    errors_reply disk (fetch (request link get "/errors" none)),
  )

  -- `String(body.log_level ?? "warning").toLowerCase()`
  abbrev pub sent_level : Value → Text
  sent_level body = lower (text_or_default number_text (prop "log_level" body) "warning")

  abbrev pub level_saved : Text → Value
  level_saved level = saved_reply (
      field "log_level" (str level)
        (field "message" (str (text "Saved. Restart the DNS service to apply.")) end))

  unfoldable pub log_level_edit : Text → Value → Edit
  log_level_edit level config =
      saves_all
        (Option.bind (assign "level" (str level) (or_falsy (prop "logging" config) (obj end)))
          (λ logging. assign "logging" logging config))
        (level_saved level)

  -- A level that is none of the four is refused before the override is read.
  unfoldable pub put_log_level :
      Value → Text → Faults Content → Disk Content → Reply Value × Disk Content
  unfolding modify log_level_edit text_or_default includes lower
  put_log_level body suffix f disk =
      if includes (sent_level body) levels
      then modify yaml ctx (log_level_edit (sent_level body)) suffix f disk
      else (refused 400, disk)
