-- ===== src/Routes/Settings.antt =====
-- `GET /api/config`, `GET /api/config/export`, `POST /api/config/import` of
-- web/server/src/routes/config.js, and `GET` and `PUT /api/dns/safe-search` of
-- web/server/src/routes/dns.js.
pub mod Laws
use mathlib.Core.Option
use beyond_ads_dns.Prelude.{
  ℕ, String, Bool, true, false, not, ◌&&◌, Option, none, some, List, if◌then◌else◌,
}
use beyond_ads_dns.Js.Text.{Text, text, is_empty}
use beyond_ads_dns.Js.Value.{
  Value, undefined, null, bool, num, str, arr, obj, Items, Fields, end, field, put, is_truthy,
  strict_equal,
}
use beyond_ads_dns.Js.Path.{prop}
use beyond_ads_dns.Config.Merge.{merge_deep, config_differences}
use beyond_ads_dns.Config.Secrets.{
  redact_config, remove_password_fields, remove_instance_specific_details,
}
use beyond_ads_dns.Config.Store.{
  Yaml, Disk, Faults, Outcome, done, mkdir_failed, write_failed, rename_failed, read_yaml_file,
  read_override_config, read_merged_config, write_config,
}

-- The paths of the application's context; an unset one is the empty text.
pub record Ctx : Type 0 where
  pub default_config_path : Text
  pub config_path : Text

pub data Reply {ℓ} (A : Type ℓ) : Type ℓ where
  ok : A → Reply A
  refused : ℕ → Reply A

-- `overrideConfig[key] = value`: a primitive throws, and an array keeps no such property in YAML.
abbrev pub assign : String → Value → Value → Option Value
assign k v (obj o) = some (obj (put k v o))
assign k v (arr xs) = some (arr xs)
assign k v _ = none

-- `merged?.sync?.enabled && merged?.sync?.role === "replica"`
abbrev pub is_replica : Value → Bool
is_replica merged =
    is_truthy (prop "enabled" (prop "sync" merged))
    && strict_equal (prop "role" (prop "sync" merged)) (str (text "replica"))

-- `v !== false`
abbrev pub is_not_false : Value → Bool
is_not_false v = not (strict_equal v (bool false))

-- `v ?? d`
abbrev pub or_default : Value → Value → Value
or_default undefined d = d
or_default null d = d
or_default v d = v

-- `typeof body === "object"`, not null and no array.
abbrev pub is_config_body : Value → Bool
is_config_body (obj o) = true
is_config_body _ = false

abbrev pub or_empty : Option Value → Value
or_empty none = obj end
or_empty (some v) = v

abbrev pub ok_or_500 {ℓ} : {A : Type ℓ} → Option A → Reply A
ok_or_500 none = refused 500
ok_or_500 (some a) = ok a

-- The reply to what `writeConfig` did, with the disk that it left.
abbrev pub written :
    {Content : Type 0}
    → Value
    → Outcome × List (Disk Content) × Disk Content
    → Reply Value × Disk Content
written v (done, _, disk) = (ok v, disk)
written v (mkdir_failed, _, disk) = (refused 500, disk)
written v (write_failed, _, disk) = (refused 500, disk)
written v (rename_failed, _, disk) = (refused 500, disk)

abbrev pub safe_search_reply : Value → Value
safe_search_reply ss = obj (
    field "enabled" (or_default (prop "enabled" ss) (bool false)) (
      field "google" (or_default (prop "google" ss) (bool true))
        (field "bing" (or_default (prop "bing" ss) (bool true)) end)))

-- `config.safe_search || {}`
abbrev pub safe_search_of : Value → Value
safe_search_of config =
    if is_truthy (prop "safe_search" config) then prop "safe_search" config else obj end

-- The three flags, from the body of the request.
abbrev pub safe_search_value : Value → Value
safe_search_value body = obj (
    field "enabled" (bool (is_truthy (prop "enabled" body))) (
      field "google" (bool (is_not_false (prop "google" body)))
        (field "bing" (bool (is_not_false (prop "bing" body))) end)))

-- `{ ok: true, safe_search: overrideConfig.safe_search }`
abbrev pub safe_search_saved : Value → Value
safe_search_saved v = obj (field "ok" (bool true) (field "safe_search" v end))

abbrev pub imported : Value
imported =
    obj (field "ok" (bool true) (field "message" (str (text "Config imported successfully")) end))

-- The edit of a read that may have thrown.
abbrev pub assign_read : Option Value → String → Value → Option Value
assign_read none k v = none
assign_read (some config) k v = assign k v config

abbrev pub merged_import : Option Value → Value → Option Value
merged_import none body = none
merged_import (some existing) body = some (merge_deep existing body)

module _ {Content : Type 0} (yaml : Yaml Content) (ctx : Ctx) where
  open ctx use {default_config_path, config_path}
  open yaml use {stringify}

  abbrev pub has_no_path : Bool
  has_no_path = is_empty default_config_path && is_empty config_path

  unfoldable pub get_config : Disk Content → Reply Value
  unfolding read_merged_config redact_config
  get_config disk =
      if has_no_path
      then refused 400
      else ok_or_500
          (Option.map redact_config (read_merged_config yaml default_config_path config_path disk))

  -- The exported document, from the two files; `exclude` is
  -- `req.query.exclude_instance_details !== "false"`.
  unfoldable pub exported : Bool → Value → Value → Value
  unfolding config_differences remove_password_fields remove_instance_specific_details
  exported exclude base over =
      let clean = remove_password_fields (config_differences base over) in
      if exclude then remove_instance_specific_details clean else clean

  abbrev export_reads : Bool → Option Value → Option Value → Option Content
  export_reads exclude none over = none
  export_reads exclude (some base) none = none
  export_reads exclude (some base) (some over) = some (stringify (exported exclude base over))

  unfoldable pub export_config : Bool → Disk Content → Reply Content
  unfolding exported read_yaml_file
  export_config exclude disk =
      if has_no_path
      then refused 400
      else ok_or_500 (
          export_reads exclude (read_yaml_file yaml default_config_path disk)
            (read_yaml_file yaml config_path disk))

  -- What a handler writes, or `none` where it threw before the write.
  abbrev pub save :
      Text → Faults Content → Option Value → Value → Disk Content → Reply Value × Disk Content
  save suffix f none v disk = (refused 500, disk)
  save suffix f (some config) v disk =
      written v (write_config yaml suffix f config_path config disk)

  unfoldable pub import_config :
      Text → Faults Content → Value → Disk Content → Reply Value × Disk Content
  unfolding read_override_config write_config
  import_config suffix f body disk =
      if is_empty config_path
      then (refused 400, disk)
      else if not (is_config_body body)
      then (refused 400, disk)
      else save suffix f (merged_import (read_override_config yaml config_path disk) body) imported
          disk

  unfoldable pub get_safe_search : Disk Content → Reply Value
  unfolding read_merged_config
  get_safe_search disk =
      if has_no_path
      then refused 400
      else ok_or_500 (
          Option.map (λ config. safe_search_reply (safe_search_of config))
            (read_merged_config yaml default_config_path config_path disk))

  unfoldable pub put_safe_search :
      Text → Faults Content → Value → Disk Content → Reply Value × Disk Content
  unfolding read_override_config read_merged_config write_config
  put_safe_search suffix f body disk =
      if is_empty config_path
      then (refused 400, disk)
      else if is_replica (or_empty (read_merged_config yaml default_config_path config_path disk))
      then (refused 403, disk)
      else save suffix f
          (assign_read (read_override_config yaml config_path disk) "safe_search"
            (safe_search_value body))
          (safe_search_saved (safe_search_value body)) disk
