-- ===== src/Routes/Edit.antt =====
-- The handlers that edit the override without a look at the merged configuration:
-- those of web/server/src/routes/sync.js, and `PUT /api/errors/log-level` of
-- web/server/src/routes/control.js.
pub mod Laws
use beyond_ads_dns.Prelude.{ℕ, Option, none, some, if◌then◌else◌}
use beyond_ads_dns.Js.Text.{Text, is_empty}
use beyond_ads_dns.Js.Value.{Value}
use beyond_ads_dns.Config.Store.{Yaml, Disk, Faults, read_override_config, write_config}
use beyond_ads_dns.Routes.Settings.{Ctx, Reply, refused, written}

-- What a handler does with the override that it read: it throws, refuses, or saves and replies.
pub data Edit : Type 0 where
  thrown : Edit
  denied : ℕ → Edit
  saves : Value → Value → Edit

-- The save of an edit that may have thrown.
abbrev pub saves_all : Option Value → Value → Edit
saves_all none reply = thrown
saves_all (some config) reply = saves config reply

abbrev pub edit_read : (Value → Edit) → Option Value → Edit
edit_read edit none = thrown
edit_read edit (some config) = edit config

module _ {Content : Type 0} (yaml : Yaml Content) (ctx : Ctx) where
  abbrev pub carry_out : Text → Faults Content → Edit → Disk Content → Reply Value × Disk Content
  carry_out suffix f thrown disk = (refused 500, disk)
  carry_out suffix f (denied status) disk = (refused status, disk)
  carry_out suffix f (saves config reply) disk =
      written reply (write_config yaml suffix f ctx.config_path config disk)

  unfoldable pub modify :
      (Value → Edit) → Text → Faults Content → Disk Content → Reply Value × Disk Content
  unfolding read_override_config write_config
  modify edit suffix f disk =
      if is_empty ctx.config_path
      then (refused 400, disk)
      else carry_out suffix f (edit_read edit (read_override_config yaml ctx.config_path disk)) disk
