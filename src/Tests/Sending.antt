-- ===== src/Tests/Sending.antt =====
-- The scheduler of the usage statistics.
use beyond_ads_dns.Prelude.{
  list_eq, ◌≡◌, ◌↔◌, ◌≢◌, refl, Bool, true, false, none, some, [], ◌∷◌, All, arith,
}
use beyond_ads_dns.Js.Text.{Text, text, trim}
use beyond_ads_dns.Scheduler.{
  UsageStats, Instant, validate_usage_stats_schedule, normalize_usage_stats_schedule, due_time,
  tick, run,
}
use beyond_ads_dns.Schedule.Clock.{clock_text}
use beyond_ads_dns.Scheduler.Never.{one_digit_hour_never_sent}
use beyond_ads_dns.Scheduler.Laws.{shown_minute, tick_sends_iff}

abbrev any_text : Text → Bool
any_text s = true

abbrev stats_at : Text → UsageStats
stats_at time = record {
  enabled = true;
  url = text "https://hooks.example/1";
  schedule_time = time;
  schedule_timezone = [];
  target = [];
}

abbrev eight : Instant
eight = record { year = 2025; month = 5; day = 1; hour = λ zone. 8; minute = λ zone. 0 }

abbrev next_day : Instant
next_day = record { year = 2025; month = 5; day = 2; hour = λ zone. 8; minute = λ zone. 0 }

run_test :
    run (stats_at (text "08:00")) (eight ∷ (eight ∷ (next_day ∷ []))) none
    ≡ (true ∷ (false ∷ (true ∷ [])))
unfolding run tick trim list_eq
run_test = refl

eight_passes :
    validate_usage_stats_schedule any_text any_text (some (stats_at (text "8:00"))) ≡ none
unfolding validate_usage_stats_schedule trim
eight_passes = refl

one_digit_hour_never_sent_example :
    (s : UsageStats) × (normalize_usage_stats_schedule (some (stats_at (text "8:00"))) ≡ some s)
    × (s.enabled ≡ true)
    × (s.schedule_time ≡ trim (text "8:00"))
    × All (λ sent. sent ≡ false) (run s (eight ∷ (next_day ∷ [])) none)
one_digit_hour_never_sent_example =
    one_digit_hour_never_sent any_text any_text (stats_at (text "8:00")) (eight ∷ (next_day ∷ []))
      none refl (unfold trim in refl) eight_passes

eight_due : due_time (stats_at (text "08:00")) ≡ clock_text 8 0
unfolding clock_text trim
eight_due = refl

tick_sends_iff_example :
    (((tick (stats_at (text "08:00")) eight none).0 ≡ true) ↔ (
      (eight.hour [] ≡ 8)
      × (eight.minute [] ≡ 0)
      × (none ≢ some (shown_minute (stats_at (text "08:00")) eight))))
    × ((tick (stats_at (text "08:00")) eight none).0 ≡ true
        → (tick (stats_at (text "08:00")) eight none).1
          ≡ some (shown_minute (stats_at (text "08:00")) eight))
    × ((tick (stats_at (text "08:00")) eight none).0 ≡ false
        → (tick (stats_at (text "08:00")) eight none).1 ≡ none)
    × ((later : Instant)
        → shown_minute (stats_at (text "08:00")) later
          ≡ shown_minute (stats_at (text "08:00")) eight
        → (tick (stats_at (text "08:00")) later (tick (stats_at (text "08:00")) eight none).1).0
          ≡ false)
unfolding trim
tick_sends_iff_example =
    tick_sends_iff (stats_at (text "08:00")) eight none 8 0 (omega arith) (omega arith)
      (omega arith) (omega arith) refl refl eight_due
