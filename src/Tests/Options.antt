-- ===== src/Tests/Options.antt =====
-- Exclusion lists, log levels and the health check.
use beyond_ads_dns.Prelude.{◌≡◌, refl, true, some, List, [], ◌∷◌, ◌++◌, All, nat-Eq, list-Eq}
use beyond_ads_dns.Js.Text.{Text, text, trim}
use beyond_ads_dns.Js.Value.{find, bool, str, obj, end, field}
use beyond_ads_dns.Normalize.Unique.{includes}
use beyond_ads_dns.Config.Options.{
  one_text, parse_exclusion_list, enabled_not_boolean, validate_health_check,
  normalize_health_check,
}
use beyond_ads_dns.Config.Options.Laws.{IsTrimmed, IsOneLine}

abbrev two_lines : Text
two_lines = text "10.0.0.1" ++ (13 ∷ (10 ∷ (text " nas " ++ (10 ∷ []))))

abbrev hosts : List Text
hosts = text "10.0.0.1" ∷ (text "nas" ∷ [])

lines_test : parse_exclusion_list (one_text two_lines) ≡ hosts
unfolding parse_exclusion_list trim
lines_test = refl

health_test :
    normalize_health_check (obj (field "enabled" (bool true) end))
    ≡ some (obj (field "enabled" (bool true) (field "fail_on_any" (bool true) end)))
unfolding normalize_health_check find
health_test = refl

flag_test :
    validate_health_check (obj (field "enabled" (str (text "yes")) end)) ≡ some enabled_not_boolean
unfolding validate_health_check find
flag_test = refl

hosts-IsTrimmed : All IsTrimmed hosts
unfolding trim
hosts-IsTrimmed = ((refl, refl), ((refl, refl), tt))

hosts-IsOneLine : All IsOneLine hosts
unfolding includes
hosts-IsOneLine = ((refl, refl), ((refl, refl), tt))
