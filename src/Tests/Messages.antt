-- ===== src/Tests/Messages.antt =====
-- The client's forms.
use beyond_ads_dns.Prelude.{◌≡◌, ◌↔◌, refl, true, false, none, some, [], ◌∷◌}
use beyond_ads_dns.Js.Text.{text, trim, is_empty}
use beyond_ads_dns.Js.Value.{is_some}
use beyond_ads_dns.Schedule.{
  ScheduledPause, FamilyTime, validate_scheduled_pause, validate_family_time,
}
use beyond_ads_dns.Forms.{
  end_after_start, has_errors, summary, validate_scheduled_pause_form, validate_family_time_form,
}
use beyond_ads_dns.Forms.Laws.{validate_scheduled_pause_form_iff, validate_family_time_form_iff}

abbrev overnight : ScheduledPause
overnight = record { enabled = true; start = text "22:00"; end = text "6:00"; days = [] }

summary_test : summary (validate_scheduled_pause_form overnight) ≡ some end_after_start
unfolding validate_scheduled_pause_form trim
summary_test = refl

abbrev dinner : FamilyTime
dinner = record {
  window = record { enabled = true; start = text "17:00"; end = text "20:00"; days = [] };
  services = text "tiktok" ∷ [];
  domains = [];
}

dinner_test : has_errors (validate_family_time_form dinner) ≡ false
unfolding validate_family_time_form trim
dinner_test = refl

validate_scheduled_pause_form_iff_example :
    ((has_errors (validate_scheduled_pause_form overnight) ≡ false)
      ↔ (validate_scheduled_pause (some overnight) ≡ none))
    × (is_some (summary (validate_scheduled_pause_form overnight))
        ≡ has_errors (validate_scheduled_pause_form overnight))
validate_scheduled_pause_form_iff_example = validate_scheduled_pause_form_iff overnight

validate_family_time_form_iff_example :
    (has_errors (validate_family_time_form dinner) ≡ false)
    ↔ ((validate_family_time (some dinner) ≡ none) × (is_empty dinner.services ≡ false))
validate_family_time_form_iff_example = validate_family_time_form_iff dinner refl
