-- ===== src/Routes/Update.antt =====
-- The handlers that change one part of the configuration file: the guards, the edit and the write that
-- `PUT /api/dns/local-records`, `PUT /api/dns/upstreams`, `PUT /api/dns/response` and
-- `PUT /api/blocklists` share, and the read of the handlers beside them.
pub mod Laws
use mathlib.Core.Option
use beyond_ads_dns.Prelude.{String, Bool, true, Option, none, some, List, [], ◌∷◌, if◌then◌else◌}
use beyond_ads_dns.Js.Text.{Text, text, is_empty}
use beyond_ads_dns.Js.Value.{Value, Fields, str, bool, obj, field, is_truthy}
use beyond_ads_dns.Config.Store.{
  Yaml, Disk, Faults, read_override_config, read_merged_config, write_config,
}
use beyond_ads_dns.Routes.Settings.{
  Ctx, Reply, ok, refused, assign, is_replica, or_empty, ok_or_500, written, has_no_path,
}

-- `v || d`
abbrev pub or_falsy : Value → Value → Value
or_falsy v d = if is_truthy v then v else d

-- Writes of several properties, one after the other.
unfoldable pub assign_all : List (String × Value) → Value → Option Value
assign_all [] v = some v
assign_all ((k, x) ∷ rest) v = Option.bind (assign k x v) (assign_all rest)

-- `{ ok: true, …fields }`
abbrev pub saved_reply : Fields → Value
saved_reply fields = obj (field "ok" (bool true) fields)

module _ {Content : Type 0} (yaml : Yaml Content) (ctx : Ctx) where
  open ctx use {default_config_path, config_path}

  -- A handler that reads the merged configuration.
  unfoldable pub show : (Value → Value) → Disk Content → Reply Value
  unfolding read_merged_config
  show view disk =
      if has_no_path yaml ctx
      then refused 400
      else ok_or_500
          (Option.map view (read_merged_config yaml default_config_path config_path disk))

  -- The write of an edited override with the reply, `none` where the edit threw.
  abbrev pub store_edit :
      Text → Faults Content → Option (Value × Value) → Disk Content → Reply Value × Disk Content
  store_edit suffix f none disk = (refused 500, disk)
  store_edit suffix f (some (config, reply)) disk =
      written reply (write_config yaml suffix f config_path config disk)

  -- A handler that edits the override; `valid` are its tests of the body.
  unfoldable pub change :
      Bool
      → (Value → Option (Value × Value))
      → Text
      → Faults Content
      → Disk Content
      → Reply Value × Disk Content
  unfolding read_override_config read_merged_config write_config
  change valid edit suffix f disk =
      if is_empty config_path
      then (refused 400, disk)
      else if is_replica (or_empty (read_merged_config yaml default_config_path config_path disk))
      then (refused 403, disk)
      else if valid
      then store_edit suffix f (Option.bind (read_override_config yaml config_path disk) edit) disk
      else (refused 400, disk)
