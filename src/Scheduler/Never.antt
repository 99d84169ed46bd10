-- ===== src/Scheduler/Never.antt =====
-- A time without its leading zero, for which no tick sends.
use beyond_ads_dns.Prelude.{
  ℕ, ◌≡◌, ◌≢◌, inl, inr, refl, ap, ◌∙◌, Bool, true, false, not, ◌||◌, Option, none, some, List, [],
  ◌∷◌, ◌=?◌, nat-Eq, list-Eq, list_eq_iff, if◌then◌else◌, arith, Bool-cases, length, All,
}
use beyond_ads_dns.Js.Text.{Text, text, is_empty, trim, lower}
use beyond_ads_dns.Js.Text.Laws.{trim_idempotent}
use beyond_ads_dns.Js.Value.{is_some}
use beyond_ads_dns.Normalize.Entries.{or_text}
use beyond_ads_dns.Schedule.Clock.{hhmm, clock_text}
use beyond_ads_dns.Scheduler.{
  UsageStats, Instant, MinuteKey, same_minute, due_time, minute_key, get_current_hhmm,
  validate_usage_stats_schedule, normalize_usage_stats_schedule, tick, run,
}
use beyond_ads_dns.Scheduler.Laws.{decide, tick-decide}

length-clock_text : (h m : ℕ) → length (clock_text h m) ≡ 5
unfolding clock_text
length-clock_text h m = refl

other_length : (s t : Text) → length s ≢ length t → (s =? t) ≡ false
other_length s t h = elim (Bool-cases (s =? t)) [
  | inl same ↦ absurd (h (ap length ((list_eq_iff s t).0 same)))
  | inr other ↦ other
]

decide_not_due :
    (off again : Bool) (last : Option MinuteKey) (key : MinuteKey)
    → decide off false again last key ≡ (false, last)
decide_not_due true again last key = refl
decide_not_due false again last key = refl

never_due :
    (stats : UsageStats) (now : Instant)
    → length (due_time stats) ≢ 5
    → (due_time stats =? (minute_key stats now).current) ≡ false
unfolding minute_key get_current_hhmm
never_due stats now h = other_length (due_time stats) (clock_text _ _) h

tick_never_due :
    (stats : UsageStats) (now : Instant) (last : Option MinuteKey)
    → length (due_time stats) ≢ 5
    → tick stats now last ≡ (false, last)
tick_never_due stats now last h =
    let off = not stats.enabled || is_empty (trim stats.url) in
    let again = same_minute last (minute_key stats now) in
    tick-decide stats now last
    ∙ ap (λ b. decide off b again last (minute_key stats now)) (never_due stats now h)
    ∙ decide_not_due off again last (minute_key stats now)

run_never_due :
    (stats : UsageStats) (nows : List Instant) (last : Option MinuteKey)
    → length (due_time stats) ≢ 5
    → All (λ sent. sent ≡ false) (run stats nows last)
unfolding run
run_never_due stats [] last h = tt
run_never_due stats (now ∷ nows) last h =
    rw (tick_never_due stats now last h) (refl, run_never_due stats nows last h)

or_text_kept : (s d : Text) → length (trim s) ≡ 4 → or_text s d ≡ s
or_text_kept [] d h = absurd (unfold trim in omega (arith, h))
or_text_kept (c ∷ s) d h = refl

short_time : (s d : Text) → length (trim s) ≡ 4 → length (trim (or_text (trim s) d)) ≢ 5
short_time s d h e =
    let four : length (trim (trim s)) ≡ 4 = ap length (trim_idempotent s) ∙ h in
    absurd
      (omega (arith, four, ap (λ (t : Text). length (trim t)) (or_text_kept (trim s) d four), e))

valid_time :
    (is_timezone is_url : Text → Bool) (i : UsageStats)
    → i.enabled ≡ true
    → validate_usage_stats_schedule is_timezone is_url (some i) ≡ none
    → is_some (hhmm (trim i.schedule_time)) ≡ true
unfolding validate_usage_stats_schedule
valid_time is_timezone is_url i on h = elim (Bool-cases (is_some (hhmm (trim i.schedule_time)))) [
  | inl ok ↦ ok
  | inr bad ↦ cc (rw (on, bad) at h)
]

-- An enabled schedule with a time of four characters, such as "8:00", that passes validation is
-- saved with its time as it is, and the statistics are then never sent, whatever the clock shows at
-- the ticks.
pub one_digit_hour_never_sent :
    (is_timezone is_url : Text → Bool) (i : UsageStats) (nows : List Instant)
    (last : Option MinuteKey)
    → i.enabled ≡ true
    → length (trim i.schedule_time) ≡ 4
    → validate_usage_stats_schedule is_timezone is_url (some i) ≡ none
    → (s : UsageStats) × (normalize_usage_stats_schedule (some i) ≡ some s)
      × (s.enabled ≡ true)
      × (s.schedule_time ≡ trim i.schedule_time)
      × All (λ sent. sent ≡ false) (run s nows last)
unfolding normalize_usage_stats_schedule
one_digit_hour_never_sent is_timezone is_url i nows last on four valid =
    let s : UsageStats = record {
      enabled = true;
      url = trim i.url;
      schedule_time = trim i.schedule_time;
      schedule_timezone = trim i.schedule_timezone;
      target =
          if lower (trim (or_text i.target (text "default"))) =? text "discord"
          then text "discord"
          else text "default";
    } in
    (
      s,
      rw
          (
            on,
            or_text_kept i.schedule_time (text "08:00") four,
            valid_time is_timezone is_url i on valid,
          )
          refl,
      refl,
      refl,
      run_never_due s nows last (short_time i.schedule_time (text "08:00") four),
    )
