-- ===== src/Scheduler.antt =====
-- web/server/src/services/usageStatsScheduler.js: the tick that runs every minute and sends the usage
-- statistics when the configured time has come; and the validation and cleaning of its schedule in
-- web/server/src/utils/config.js.
pub mod Laws
pub mod Never
use beyond_ads_dns.Prelude.{
  ℕ, Bool, true, false, not, ◌&&◌, ◌||◌, Option, none, some, List, [], ◌∷◌, ◌++◌, ◌=?◌, Eq, nat-Eq,
  list-Eq, nat_eq, if◌then◌else◌,
}
use beyond_ads_dns.Js.Text.{Text, text, is_empty, trim, lower}
use beyond_ads_dns.Js.Value.{is_some}
use beyond_ads_dns.Normalize.Entries.{or_text}
use beyond_ads_dns.Schedule.Clock.{hhmm, clock_text}

-- `webhooks.usage_stats_webhook` of the configuration; absent fields are empty texts.
pub record UsageStats : Type 0 where
  pub enabled : Bool
  pub url : Text
  pub schedule_time : Text
  pub schedule_timezone : Text
  pub target : Text

pub data ScheduleError : Type 0 where
  bad_time bad_timezone no_url bad_url : ScheduleError

-- What the code asks of `Intl.DateTimeFormat` and of `new URL`: whether the constructor returns.
module _ (is_timezone is_url : Text → Bool) where
  unfoldable pub is_valid_timezone : Text → Bool
  is_valid_timezone tz = if is_empty (trim tz) then true else is_timezone (trim tz)

  unfoldable pub validate_usage_stats_schedule : Option UsageStats → Option ScheduleError
  unfolding hhmm is_valid_timezone
  validate_usage_stats_schedule none = none
  validate_usage_stats_schedule (some i) =
      if not i.enabled
      then none
      else if not (is_some (hhmm (trim i.schedule_time)))
      then some bad_time
      else if not (is_empty (trim i.schedule_timezone))
          && not (is_valid_timezone (trim i.schedule_timezone))
      then some bad_timezone
      else if is_empty (trim i.url)
      then some no_url
      else if is_url (trim i.url)
      then none
      else some bad_url

unfoldable pub normalize_usage_stats_schedule : Option UsageStats → Option UsageStats
unfolding hhmm
normalize_usage_stats_schedule none = none
normalize_usage_stats_schedule (some i) =
    let time = trim (or_text i.schedule_time (text "08:00")) in
    let target = lower (trim (or_text i.target (text "default"))) in
    if i.enabled
    then some (record {
      enabled = true;
      url = trim i.url;
      schedule_time = if is_some (hhmm time) then time else text "08:00";
      schedule_timezone = trim i.schedule_timezone;
      target = if target =? text "discord" then text "discord" else text "default";
    })
    else some (record {
      enabled = false;
      url = [];
      schedule_time = text "08:00";
      schedule_timezone = [];
      target = text "default";
    })

-- An instant: the local date, and the hour and minute in each time zone. The empty text is the
-- system's zone, which a zone that `Intl` refuses falls back to.
pub record Instant : Type 0 where
  pub year : ℕ
  pub month : ℕ
  pub day : ℕ
  pub hour : Text → ℕ
  pub minute : Text → ℕ

-- `${year}-${month}-${date}-${current}`, kept as its parts.
pub record MinuteKey : Type 0 where
  pub year : ℕ
  pub month : ℕ
  pub day : ℕ
  pub current : Text

abbrev pub same_minute : Option MinuteKey → MinuteKey → Bool
same_minute none k = false
same_minute (some a) b =
    nat_eq a.year b.year && nat_eq a.month b.month && nat_eq a.day b.day && (a.current =? b.current)

unfoldable pub get_current_hhmm : Text → Instant → Text
unfolding clock_text
get_current_hhmm zone now = clock_text (now.hour (trim zone)) (now.minute (trim zone))

unfoldable pub minute_key : UsageStats → Instant → MinuteKey
unfolding get_current_hhmm
minute_key stats now = record {
  year = now.year;
  month = now.month;
  day = now.day;
  current = get_current_hhmm (trim stats.schedule_timezone) now;
}

-- `String(usageStats.schedule_time || "08:00").trim()`
abbrev pub due_time : UsageStats → Text
due_time stats = trim (or_text stats.schedule_time (text "08:00"))

-- One tick: whether the statistics are sent, and the value of `lastSentMinute` after it.
unfoldable pub tick : UsageStats → Instant → Option MinuteKey → Bool × Option MinuteKey
unfolding minute_key
tick stats now last =
    let key = minute_key stats now in
    if not stats.enabled || is_empty (trim stats.url)
    then (false, last)
    else if not (due_time stats =? key.current)
    then (false, last)
    else if same_minute last key
    then (false, last)
    else (true, some key)

-- The ticks of a day, or of any sequence of instants; the answer lists which of them sent.
unfoldable pub run : UsageStats → List Instant → Option MinuteKey → List Bool
run stats [] last = []
run stats (now ∷ later) last =
    let (sent, last') = tick stats now last in sent ∷ run stats later last'
