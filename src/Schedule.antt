-- ===== src/Schedule.antt =====
-- The daily windows of web/server/src/utils/config.js: `HHMM_PATTERN`, `validateScheduledPause`,
-- `normalizeScheduledPause`, `validateFamilyTime`, `normalizeFamilyTime`. In an input, `enabled` is the
-- test `input.enabled === true`, an absent or falsy time is the empty text, an absent list is empty,
-- and a day is what `Number(d)` gives, `none` for NaN.
pub mod Clock
pub mod Laws
pub mod Family
use beyond_ads_dns.Prelude.{
  ℕ, ◌+◌, ◌*◌, Bool, true, false, not, ◌&&◌, ◌||◌, Option, none, some, List, [], ◌∷◌, map, nat-Eq,
  list-Eq, ◌^◌, ltb, leb, nat_eq, if◌then◌else◌, Eq,
}
use beyond_ads_dns.Prelude.Int.{ℤ, pos, negsuc}
use beyond_ads_dns.Js.Text.{Text, text, is_empty, trim, lower}
use beyond_ads_dns.Js.Value.{Number, number-Eq}
use beyond_ads_dns.Normalize.Unique.{distinct}
use beyond_ads_dns.Normalize.Entries.{or_text}
use beyond_ads_dns.Schedule.Clock.{hhmm}

pub record ScheduledPause : Type 0 where
  pub enabled : Bool
  pub start : Text
  pub end : Text
  pub days : List (Option Number)

pub data WindowError : Type 0 where
  bad_start bad_end not_before bad_day nothing_to_block : WindowError

-- `!Number.isInteger(n) || n < 0 || n > 6` is the test for an error; a number in lowest terms is an
-- integer exactly when its scale is 0.
abbrev pub is_day : Option Number → Bool
is_day none = false
is_day (some n) = elim n.units [ pos u ↦ nat_eq n.scale 0 && leb u 6 | negsuc u ↦ false ]

abbrev pub all_days : List (Option Number) → Bool
all_days [] = true
all_days (d ∷ ds) = is_day d && all_days ds

-- `sh > eh || (sh === eh && sm >= em)` is the test for an error.
abbrev pub is_before : ℕ × ℕ → ℕ × ℕ → Bool
is_before (sh, sm) (eh, em) = not (ltb eh sh || (nat_eq sh eh && leb em sm))

-- The tests on the two times, in the order of the code.
unfoldable pub check_times : Option (ℕ × ℕ) → Option (ℕ × ℕ) → Option WindowError
check_times none e = some bad_start
check_times (some s) none = some bad_end
check_times (some s) (some e) = if is_before s e then none else some not_before

-- An early return with an error, or the tests that follow.
abbrev pub first_error : Option WindowError → Option WindowError → Option WindowError
first_error none later = later
first_error (some e) later = some e

unfoldable pub check_window : Text → Text → List (Option Number) → Option WindowError
unfolding check_times hhmm
check_window start end days =
    first_error (check_times (hhmm (trim start)) (hhmm (trim end)))
      (if all_days days then none else some bad_day)

-- `null` is `none`, on both sides.
unfoldable pub validate_scheduled_pause : Option ScheduledPause → Option WindowError
unfolding check_window
validate_scheduled_pause none = none
validate_scheduled_pause (some i) = if i.enabled then check_window i.start i.end i.days else none

-- `n >= 0 && n <= 6` keeps fractions: units / 2^scale is at most 6.
abbrev pub in_week : Number → Bool
in_week n = elim n.units [ pos u ↦ leb u (6 * 2 ^ n.scale) | negsuc u ↦ false ]

-- The filter drops NaN, which passes neither test.
abbrev pub keep_day : Option Number → List Number → List Number
keep_day none rest = rest
keep_day (some n) rest = if in_week n then n ∷ rest else rest

unfoldable pub keep_days : List (Option Number) → List Number
keep_days [] = []
keep_days (d ∷ ds) = keep_day d (keep_days ds)

-- `[...new Set(days.map(Number).filter(…))]`
unfoldable pub normalize_days : List (Option Number) → List (Option Number)
unfolding distinct keep_days
normalize_days days = map some (distinct [] (keep_days days))

unfoldable pub normalize_scheduled_pause : Option ScheduledPause → Option ScheduledPause
unfolding normalize_days
normalize_scheduled_pause none = none
normalize_scheduled_pause (some i) =
    if i.enabled
    then some (record {
      enabled = true;
      start = trim (or_text i.start (text "09:00"));
      end = trim (or_text i.end (text "17:00"));
      days = normalize_days i.days;
    })
    else some (record { enabled = false; start = text "09:00"; end = text "17:00"; days = [] })

pub record FamilyTime : Type 0 where
  pub window : ScheduledPause
  pub services : List Text
  pub domains : List Text

unfoldable pub validate_family_time : Option FamilyTime → Option WindowError
unfolding check_window
validate_family_time none = none
validate_family_time (some i) =
    if i.window.enabled
    then first_error (check_window i.window.start i.window.end i.window.days)
        (if is_empty i.services && is_empty i.domains then some nothing_to_block else none)
    else none

-- `values.map((s) => String(s).trim().toLowerCase()).filter(Boolean)`
unfoldable pub lower_all : List Text → List Text
lower_all [] = []
lower_all (s ∷ ss) =
    let rest = lower_all ss in
    let clean = lower (trim s) in if is_empty clean then rest else clean ∷ rest

unfoldable pub normalize_family_time : Option FamilyTime → Option FamilyTime
unfolding normalize_days lower_all
normalize_family_time none = none
normalize_family_time (some i) =
    if i.window.enabled
    then some (record {
      window = record {
        enabled = true;
        start = trim (or_text i.window.start (text "17:00"));
        end = trim (or_text i.window.end (text "20:00"));
        days = normalize_days i.window.days;
      };
      services = distinct [] (lower_all i.services);
      domains = distinct [] (lower_all i.domains);
    })
    else some (record {
      window = record { enabled = false; start = text "17:00"; end = text "20:00"; days = [] };
      services = [];
      domains = [];
    })
