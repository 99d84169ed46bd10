-- ===== src/Tests/Windows.antt =====
-- Daily windows.
use beyond_ads_dns.Prelude.{◌≡◌, refl, true, none, some, [], ◌∷◌}
use beyond_ads_dns.Prelude.Int.{pos}
use beyond_ads_dns.Js.Text.{trim, text}
use beyond_ads_dns.Js.Value.{Number}
use beyond_ads_dns.Schedule.{
  ScheduledPause, FamilyTime, bad_day, not_before, validate_scheduled_pause,
}

abbrev monday : Number
monday = record { units = pos 1; scale = 0 }

abbrev morning : ScheduledPause
morning = record {
  enabled = true;
  start = text " 8:00 ";
  end = text "12:15";
  days = some monday ∷ (some monday ∷ []);
}

morning_passes : validate_scheduled_pause (some morning) ≡ none
unfolding validate_scheduled_pause trim
morning_passes = refl

overnight_test :
    validate_scheduled_pause
      (some (record { enabled = true; start = text "22:00"; end = text "06:00"; days = [] }))
    ≡ some not_before
unfolding validate_scheduled_pause trim
overnight_test = refl

-- Half past Monday is no day.
fraction_test :
    validate_scheduled_pause (
      some (record {
        enabled = true;
        start = text "08:00";
        end = text "09:00";
        days = some (record { units = pos 3; scale = 1 }) ∷ [];
      }))
    ≡ some bad_day
unfolding validate_scheduled_pause trim
fraction_test = refl

abbrev homework : FamilyTime
homework = record { window = morning; services = text " " ∷ []; domains = [] }
