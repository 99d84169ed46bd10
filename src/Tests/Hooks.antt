-- ===== src/Tests/Hooks.antt =====
-- A hook that is saved with one target.
use beyond_ads_dns.Prelude.{◌≡◌, ◌≢◌, inl, refl, some, [], ◌∷◌}
use beyond_ads_dns.Js.Text.{text}
use beyond_ads_dns.Js.Value.{
  Fields, put, IsDistinct, Value, Items, str, obj, arr, cons, nil, field, end, find,
}
use beyond_ads_dns.Config.Merge.{merge_deep}
use beyond_ads_dns.Routes.Dns.{spread}
use beyond_ads_dns.Routes.Webhooks.{
  hook_fields, hook_limits, saved_targets, normalize_webhook_targets,
}
use beyond_ads_dns.Routes.Webhooks.Laws.{summaries, normalize_webhook_targets-hook_fields}
use beyond_ads_dns.Tests.Files.{print_number, number_of_nothing}

abbrev sent_targets : Items
sent_targets =
    cons
      (obj (
        field "url" (str (text " https://hook.example/a "))
          (field "target" (str (text "Discord")) end)))
      (cons (obj (field "url" (str (text " ")) end)) nil)

abbrev sent_hook : Value
sent_hook = obj (field "targets" (arr sent_targets) end)

abbrev old_hook : Value
old_hook = obj (field "url" (str (text "https://old.example")) end)

saved_test :
    summaries (
      saved_targets print_number number_of_nothing
        (hook_limits print_number number_of_nothing sent_hook (spread old_hook))
        sent_targets)
    ≡ (str (text "https://hook.example/a"), str (text "5s"), str (text "discord")) ∷ []
unfolding summaries saved_targets hook_limits find
saved_test = refl

abbrev default_hook : Fields
default_hook = field "url" (str (text "https://default.example")) end

one_is_saved :
    saved_targets print_number number_of_nothing
      (hook_limits print_number number_of_nothing sent_hook (spread old_hook))
      sent_targets
    ≢ nil
unfolding saved_targets hook_limits find
one_is_saved e = cc

abbrev new_hook : Value
new_hook = obj (hook_fields print_number number_of_nothing sent_hook old_hook)

new_hook-IsDistinct : IsDistinct new_hook
unfolding hook_fields saved_targets hook_limits put find
new_hook-IsDistinct = (refl, tt, (refl, tt, tt))

normalize_webhook_targets-hook_fields_example :
    (shown : Items) × (normalize_webhook_targets print_number number_of_nothing
        (merge_deep (obj default_hook) new_hook)
        (merge_deep (obj default_hook) new_hook)
      ≡ some shown)
    × (summaries shown
        ≡ summaries (
            saved_targets print_number number_of_nothing
              (hook_limits print_number number_of_nothing sent_hook (spread old_hook))
              sent_targets))
unfolding find
normalize_webhook_targets-hook_fields_example =
    normalize_webhook_targets-hook_fields print_number number_of_nothing default_hook sent_hook
      old_hook sent_targets refl new_hook-IsDistinct (inl one_is_saved)
