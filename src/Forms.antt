-- ===== src/Forms.antt =====
-- `validateScheduledPauseForm` and `validateFamilyTimeForm` of web/client/src/utils/validation.js. The
-- client has its own copy of the pattern of times. A message is a constructor, an empty one `none`.
pub mod Laws
pub mod Rows
pub mod Tables
pub mod Settings
use beyond_ads_dns.Prelude.{ℕ, Bool, true, false, ◌||◌, Option, none, some, if◌then◌else◌}
use beyond_ads_dns.Js.Text.{Text, is_empty, trim}
use beyond_ads_dns.Js.Value.{is_some}
use beyond_ads_dns.Schedule.Clock.{hhmm}
use beyond_ads_dns.Schedule.{ScheduledPause, FamilyTime, all_days, is_before}

pub data FieldMessage : Type 0 where
  must_be_hhmm end_after_start days_in_week select_service : FieldMessage

pub record FieldErrors : Type 0 where
  pub start : Option FieldMessage
  pub end : Option FieldMessage
  pub days : Option FieldMessage
  pub services : Option FieldMessage

abbrev pub no_errors : FieldErrors
no_errors = record { start = none; end = none; days = none; services = none }

-- The two writes of `fieldErrors.end`.
abbrev pub end_message : Option (ℕ × ℕ) → Option (ℕ × ℕ) → Option FieldMessage
end_message s none = some must_be_hhmm
end_message none (some e) = none
end_message (some s) (some e) = if is_before s e then none else some end_after_start

abbrev pub window_errors :
    Option (ℕ × ℕ) → Option (ℕ × ℕ) → Bool → Option FieldMessage → FieldErrors
window_errors s e week services = record {
  start = if is_some s then none else some must_be_hhmm;
  end = end_message s e;
  days = if week then none else some days_in_week;
  services = services;
}

abbrev pub has_errors : FieldErrors → Bool
has_errors r = is_some r.start || is_some r.end || is_some r.days || is_some r.services

-- `fieldErrors.start || fieldErrors.end || …`
abbrev or_message : Option FieldMessage → Option FieldMessage → Option FieldMessage
or_message none later = later
or_message (some m) later = some m

abbrev pub summary : FieldErrors → Option FieldMessage
summary r = or_message r.start (or_message r.end (or_message r.days r.services))

unfoldable pub validate_scheduled_pause_form : ScheduledPause → FieldErrors
unfolding hhmm
validate_scheduled_pause_form i =
    if i.enabled
    then window_errors (hhmm (trim i.start)) (hhmm (trim i.end)) (all_days i.days) none
    else no_errors

unfoldable pub validate_family_time_form : FamilyTime → FieldErrors
unfolding hhmm
validate_family_time_form i =
    if i.window.enabled
    then window_errors (hhmm (trim i.window.start)) (hhmm (trim i.window.end))
        (all_days i.window.days) (if is_empty i.services then some select_service else none)
    else no_errors
