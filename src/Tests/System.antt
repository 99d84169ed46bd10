-- ===== src/Tests/System.antt =====
-- Saves of single sections of the system's configuration.
use mathlib.Core.Option
use beyond_ads_dns.Prelude.{nat-Eq, list-Eq, ◌≡◌, inl, refl, [], ◌∷◌, true, false, some}
use beyond_ads_dns.Js.Text.{text}
use beyond_ads_dns.Js.Value.{Value, Fields, str, obj, field, end, is_truthy, or_undefined, find}
use beyond_ads_dns.Js.Path.{prop}
use beyond_ads_dns.Normalize.Unique.{includes}
use beyond_ads_dns.Routes.System.{system_saved, system_edit, accepted_body, put_system_config}
use beyond_ads_dns.Routes.System.Sections.{anonymize_modes, query_store_section, server_section}
use beyond_ads_dns.Routes.System.Laws.Saved.{SavesPath, put_system_config-unchanged}
use beyond_ads_dns.Config.Store.{Disk, read_override_config, read_merged_config}
use beyond_ads_dns.Config.Merge.{merge_deep}
use beyond_ads_dns.Config.Secrets.Laws.{IsPublic, keys_differ}
use beyond_ads_dns.Control.{Link}
use beyond_ads_dns.Routes.Settings.{ok}
use beyond_ads_dns.Routes.System.Laws.Bounds.{
  IsWithin, IsAtLeast, system_edit_bounds, query_store_section-undefined,
}
use beyond_ads_dns.Tests.Files.{plain_yaml, no_fault, ctx, print_number, no_number}

abbrev old : Fields
old = field "safe_search" (str (text "on")) end

abbrev many_listeners : Value
many_listeners =
    obj (field "server" (obj (field "reuse_port_listeners" (str (text "500")) end)) end)

abbrev saved_listeners : Value
saved_listeners =
    or_undefined (system_edit print_number no_number (obj end) many_listeners (obj old))

listeners_saved :
    system_edit print_number no_number (obj end) many_listeners (obj old) ≡ some saved_listeners
unfolding system_edit Option.bind find server_section
listeners_saved = refl

abbrev old_file : Disk Value
old_file p = some (obj old)

abbrev no_control : Link
no_control = record { url = []; token = [] }

safe_search_IsPublic : IsPublic ("safe_search" ∷ [])
safe_search_IsPublic = (
  inl (keys_differ "cache" "safe_search" refl),
  inl (keys_differ "query_store" "safe_search" refl),
  inl (keys_differ "control" "safe_search" refl),
)

put_system_config-unchanged_example : SavesPath plain_yaml ctx ("safe_search" ∷ []) old old_file (
    put_system_config plain_yaml ctx print_number no_number no_control many_listeners
      (text "1.a")
      no_fault
      old_file)
unfolding read_override_config read_merged_config merge_deep
put_system_config-unchanged_example =
    put_system_config-unchanged plain_yaml ctx print_number no_number no_control many_listeners
      (text "1.a") no_fault old_file (obj old) old "safe_search" [] refl refl safe_search_IsPublic
      (inl refl)

listeners_saved_test :
    (put_system_config plain_yaml ctx print_number no_number no_control many_listeners
      (text "1.a")
      no_fault
      old_file).0
    ≡ ok system_saved
unfolding put_system_config Option.bind merge_deep server_section
listeners_saved_test = refl

system_edit_bounds_example :
    (is_truthy (prop "server" (accepted_body print_number no_number (obj end) many_listeners))
        ≡ true
      → IsWithin 1 64 "reuse_port_listeners" (prop "server" saved_listeners))
    × (is_truthy
            (prop "query_store" (accepted_body print_number no_number (obj end) many_listeners))
          ≡ true
        → IsAtLeast 1 "retention_hours" (prop "query_store" saved_listeners))
system_edit_bounds_example =
    system_edit_bounds print_number no_number (obj end) many_listeners old saved_listeners
      listeners_saved

abbrev stored : Value
stored = or_undefined (query_store_section print_number no_number (obj end) (obj end))

store_saved : query_store_section print_number no_number (obj end) (obj end) ≡ some stored
unfolding query_store_section
store_saved = refl

query_store_section-undefined_example :
    (prop "anonymize_client_ip" stored ≡ str (text "undefined"))
    × (includes (text "undefined") anonymize_modes ≡ false)
unfolding find
query_store_section-undefined_example =
    query_store_section-undefined print_number no_number (obj end) (obj end) stored refl store_saved
