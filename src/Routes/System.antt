-- ===== src/Routes/System.antt =====
-- `PUT /api/system/config` of web/server/src/routes/config.js: the sections of the body that are sent, one
-- after the other, the write, and the call that makes the resolver take the new number of keys.
pub mod Reads
pub mod Cache
pub mod Sections
pub mod Laws
use mathlib.Core.Option
use beyond_ads_dns.Prelude.{
  String, Bool, true, false, not, ◌&&◌, Option, none, some, List, [], ◌∷◌, ◌=?◌, nat-Eq, list-Eq,
  if◌then◌else◌,
}
use beyond_ads_dns.Js.Text.{Text, text, is_empty, lower}
use beyond_ads_dns.Js.Value.{
  Number, Value, bool, str, obj, arr, Fields, end, field, remove, is_truthy,
}
use beyond_ads_dns.Js.Path.{prop}
use beyond_ads_dns.Js.Convert.{text_or}
use beyond_ads_dns.Config.Store.{
  Yaml, Disk, Faults, Outcome, done, read_override_config, read_merged_config, write_config,
}
use beyond_ads_dns.Routes.Settings.{Ctx, Reply, ok, refused, assign, written}
use beyond_ads_dns.Routes.Update.{saved_reply, or_falsy}
use beyond_ads_dns.Control.{Link, put, Request, request_to, control_url}
use beyond_ads_dns.Routes.System.Reads.{nat_value, int_of}
use beyond_ads_dns.Routes.System.Cache.{cache_section, is_max_keys_sent, max_keys}
use beyond_ads_dns.Routes.System.Sections.{
  server_section, query_store_section, clients_section, groups_section, control_section,
  logging_section, request_log_section, ui_section,
}

-- A key of the body and of the override, with the new value under it.
abbrev pub Section : Type 0
Section = String × (Value → Value → Option Value)

-- `if (body[key]) overrideConfig[key] = …`
unfoldable pub apply_section : Section → Value → Value → Option Value
apply_section (key, new) body config =
    if is_truthy (prop key body)
    then Option.bind (new (prop key body) (prop key config)) (λ v. assign key v config)
    else some config

unfoldable pub apply_sections : List Section → Value → Value → Option Value
unfolding apply_section
apply_sections [] body config = some config
apply_sections (s ∷ ss) body config =
    Option.bind (apply_section s body config) (apply_sections ss body)

-- `delete body[key]`
abbrev pub without : String → Value → Value
without key (obj o) = obj (remove key o)
without key v = v

abbrev pub system_saved : Value
system_saved =
    saved_reply (field "message" (str (text "Saved. Restart the service to apply changes.")) end)

module _ (number_text : Number → Text) (parse_float : Text → Option Number) where
  abbrev pub sections : List Section
  sections =
      ("server", server_section number_text parse_float)
      ∷ (("cache", cache_section number_text parse_float)
          ∷ (("query_store", query_store_section number_text parse_float)
              ∷ (("client_identification", clients_section number_text parse_float)
                  ∷ (("client_groups", groups_section number_text parse_float)
                      ∷ (("control", control_section number_text parse_float)
                          ∷ (("logging", logging_section number_text parse_float)
                              ∷ (("request_log", request_log_section number_text parse_float)
                                  ∷ (("ui", ui_section number_text parse_float) ∷ []))))))))

  -- `merged?.sync?.enabled && String(merged?.sync?.role || "").toLowerCase() === "replica"`
  unfoldable pub is_system_replica : Value → Bool
  unfolding text_or lower
  is_system_replica merged =
      is_truthy (prop "enabled" (prop "sync" merged))
      && (lower (text_or number_text (prop "role" (prop "sync" merged)) "") =? text "replica")

  -- A replica takes its clients from the primary.
  unfoldable pub accepted_body : Value → Value → Value
  unfolding remove
  accepted_body merged body =
      if is_system_replica merged
      then without "client_groups" (without "client_identification" body)
      else body

  unfoldable pub system_edit : Value → Value → Value → Option Value
  unfolding accepted_body is_system_replica apply_sections
  system_edit merged body config = apply_sections sections (accepted_body merged body) config

  -- The call after the write, whose outcome changes nothing.
  unfoldable pub max_keys_request : Link → Value → List Request
  unfolding control_url int_of
  max_keys_request link body =
      if is_truthy (prop "cache" body)
        && not (is_empty link.url)
        && is_max_keys_sent (prop "redis_max_keys" (prop "cache" body))
      then request_to link put (control_url link.url "/cache/config") (
          some (
            obj (
              field "max_keys"
                (nat_value
                  (max_keys (int_of number_text (prop "redis_max_keys" (prop "cache" body)))))
                end)))
        ∷ []
      else []

module _ {Content : Type 0} (yaml : Yaml Content) (ctx : Ctx) where
  open ctx use {default_config_path, config_path}

  -- The reply, the disk and the calls, after a write.
  abbrev pub after_write :
      List Request
      → Outcome × List (Disk Content) × Disk Content
      → Reply Value × Disk Content × List Request
  after_write calls (done, _, disk) = (ok system_saved, disk, calls)
  after_write calls (_, _, disk) = (refused 500, disk, [])

  abbrev pub save_system :
      Text
      → Faults Content
      → List Request
      → Option Value
      → Disk Content
      → Reply Value × Disk Content × List Request
  save_system suffix f calls none disk = (refused 500, disk, [])
  save_system suffix f calls (some config) disk =
      after_write calls (write_config yaml suffix f config_path config disk)

  abbrev pub edit_reads :
      (Value → Value → Option Value) → Option Value → Option Value → Option Value
  edit_reads edit none config = none
  edit_reads edit (some merged) none = none
  edit_reads edit (some merged) (some config) = edit merged config

  unfoldable pub put_system_config :
      (Number → Text)
      → (Text → Option Number)
      → Link
      → Value
      → Text
      → Faults Content
      → Disk Content
      → Reply Value × Disk Content × List Request
  unfolding read_merged_config read_override_config write_config system_edit max_keys_request
  put_system_config number_text parse_float link body suffix f disk =
      if is_empty config_path
      then (refused 400, disk, [])
      else save_system suffix f (max_keys_request number_text parse_float link body)
          (edit_reads (λ merged config. system_edit number_text parse_float merged body config)
            (read_merged_config yaml default_config_path config_path disk)
            (read_override_config yaml config_path disk))
          disk
