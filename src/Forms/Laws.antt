-- ===== src/Forms/Laws.antt =====
-- The forms of the client against the validation of the server.
use beyond_ads_dns.Prelude.{
  ℕ, ◌≡◌, ◌↔◌, Bool, true, false, Option, none, some, if◌then◌else◌, arith,
}
use beyond_ads_dns.Js.Text.{is_empty, trim}
use beyond_ads_dns.Js.Value.{is_some}
use beyond_ads_dns.Schedule.Clock.{hhmm}
use beyond_ads_dns.Schedule.{
  ScheduledPause, FamilyTime, bad_day, all_days, check_times, first_error, check_window,
  validate_scheduled_pause, validate_family_time,
}
use beyond_ads_dns.Forms.{
  window_errors, has_errors, summary, validate_scheduled_pause_form, validate_family_time_form,
}

window_errors_iff :
    (s e : Option (ℕ × ℕ)) (week : Bool)
    → (has_errors (window_errors s e week none) ≡ false)
      ↔ (first_error (check_times s e) (if week then none else some bad_day) ≡ none)
unfolding check_times
window_errors_iff none e week = ground arith
window_errors_iff (some s) none week = ground arith
window_errors_iff (some s) (some e) week = ground arith

-- The form of a pause shows no error exactly when the server accepts the pause, and its summary is
-- empty exactly then.
pub validate_scheduled_pause_form_iff :
    (i : ScheduledPause)
    → ((has_errors (validate_scheduled_pause_form i) ≡ false)
        ↔ (validate_scheduled_pause (some i) ≡ none))
      × (is_some (summary (validate_scheduled_pause_form i))
          ≡ has_errors (validate_scheduled_pause_form i))
unfolding validate_scheduled_pause_form validate_scheduled_pause check_window
validate_scheduled_pause_form_iff i = (
  ground (arith, window_errors_iff (hhmm (trim i.start)) (hhmm (trim i.end)) (all_days i.days)),
  ground arith,
)

-- Once a service is selected, the form of a family time shows no error exactly when the server accepts
-- the family time; without one, the form of an enabled family time always shows an error.
pub validate_family_time_form_iff :
    (i : FamilyTime)
    → i.window.enabled ≡ true
    → (has_errors (validate_family_time_form i) ≡ false)
      ↔ ((validate_family_time (some i) ≡ none) × (is_empty i.services ≡ false))
unfolding validate_family_time_form validate_family_time check_window
validate_family_time_form_iff i on = ground (
  arith,
  window_errors_iff (hhmm (trim i.window.start)) (hhmm (trim i.window.end))
      (all_days i.window.days),
)
