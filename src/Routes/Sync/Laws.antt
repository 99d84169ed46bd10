-- ===== src/Routes/Sync/Laws.antt =====
-- What the settings of the synchronisation are after a change, and which changes are refused.
use mathlib.Core.Option
use beyond_ads_dns.Prelude.{◌≡◌, true, false, Option}
use beyond_ads_dns.Js.Text.{Text, text}
use beyond_ads_dns.Js.Value.{Value, obj, str, Fields, strict_equal}
use beyond_ads_dns.Js.Path.{prop}
use beyond_ads_dns.Routes.Sync.Steps.{IsEnabled}

-- An enabled synchronisation that is no replica.
abbrev IsOtherRole : Fields → Type 0
IsOtherRole t =
    IsEnabled true t × (strict_equal (prop "role" (obj t)) (str (text "replica")) ≡ false)
