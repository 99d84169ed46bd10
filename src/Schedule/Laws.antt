-- ===== src/Schedule/Laws.antt =====
-- What a window that passes validation is, before and after it is normalised.
use beyond_ads_dns.Prelude.{
  ℕ, zero, suc, ◌^◌, ◌+◌, ◌*◌, ◌<◌, ◌≡◌, ◌↔◌, ◌⊎◌, inl, inr, refl, ap, ◌∙◌, ap₂, Bool, true, false,
  ◌&&◌, Option, none, some, List, [], ◌∷◌, map, nat-Eq, list-Eq, leb, nat_eq, if◌then◌else◌, arith,
  Bool-cases, &&-eq-true,
}
use beyond_ads_dns.Prelude.Int.{ℤ, pos, negsuc}
use beyond_ads_dns.Js.Text.{Text, text, trim}
use beyond_ads_dns.Js.Text.Laws.{trim_idempotent}
use beyond_ads_dns.Js.Value.{Number, number-Eq}
use beyond_ads_dns.Normalize.Unique.{includes, distinct}
use beyond_ads_dns.Normalize.Entries.{or_text}
use beyond_ads_dns.Schedule.Clock.{hhmm, hhmm_bounds}
use beyond_ads_dns.Schedule.{
  ScheduledPause, WindowError, is_day, all_days, is_before, check_times, first_error, check_window,
  validate_scheduled_pause, in_week, keep_days, normalize_days, normalize_scheduled_pause,
}

-- The window opens and closes on one day, its opening first, and its days are days of the week.
pub record IsWindow (start end : Text) (days : List (Option Number)) : Type 0 where
  pub from_hour : ℕ
  pub from_minute : ℕ
  pub to_hour : ℕ
  pub to_minute : ℕ
  pub opens : hhmm (trim start) ≡ some (from_hour, from_minute)
  pub closes : hhmm (trim end) ≡ some (to_hour, to_minute)
  pub in_order : from_hour * 60 + from_minute < to_hour * 60 + to_minute
  pub week_days : all_days days ≡ true

check_times_passes :
    (s e : Option (ℕ × ℕ))
    → check_times s e ≡ none
    → (a : ℕ × ℕ) × (s ≡ some a) × ((b : ℕ × ℕ) × (e ≡ some b) × (is_before a b ≡ true))
unfolding check_times
check_times_passes none e h = cc
check_times_passes (some a) none h = cc
check_times_passes (some (sh, sm)) (some (eh, em)) h =
    ((sh, sm), refl, ((eh, em), refl, ground arith))

before_minutes :
    (sh sm eh em : ℕ)
    → sm < 60
    → em < 60
    → (is_before (sh, sm) (eh, em) ≡ true) ↔ (sh * 60 + sm < eh * 60 + em)
before_minutes sh sm eh em p q = (λ h. ground arith, λ h. ground arith)

times_then_days :
    (o : Option WindowError) (b : Bool) (e : WindowError)
    → first_error o (if b then none else some e) ≡ none
    → (o ≡ none) × (b ≡ true)
times_then_days none b e h = (refl, ground arith)
times_then_days (some x) b e h = cc

pub check_window_passes :
    (start end : Text) (days : List (Option Number))
    → check_window start end days ≡ none
    → IsWindow start end days
unfolding check_window
check_window_passes start end days h =
    let (times, week) =
      times_then_days (check_times (hhmm (trim start)) (hhmm (trim end))) (all_days days)
        WindowError.bad_day h in
    let ((sh, sm), opens, ((eh, em), closes, order)) =
      check_times_passes (hhmm (trim start)) (hhmm (trim end)) times in
    let (_, low) = hhmm_bounds (trim start) sh sm opens in
    let (_, high) = hhmm_bounds (trim end) eh em closes in
    record {
      from_hour = sh;
      from_minute = sm;
      to_hour = eh;
      to_minute = em;
      opens = opens;
      closes = closes;
      in_order = (before_minutes sh sm eh em low high).0 order;
      week_days = week;
    }

check_times-some : (a b : ℕ × ℕ) → is_before a b ≡ true → check_times (some a) (some b) ≡ none
unfolding check_times
check_times-some a b h = rw h

pub IsWindow-check_window :
    (start end : Text) (days : List (Option Number))
    → IsWindow start end days
    → check_window start end days ≡ none
unfolding check_window
IsWindow-check_window start end days w =
    let (_, low) = hhmm_bounds (trim start) w.from_hour w.from_minute w.opens in
    let (_, high) = hhmm_bounds (trim end) w.to_hour w.to_minute w.closes in
    let order =
      (before_minutes w.from_hour w.from_minute w.to_hour w.to_minute low high).1 w.in_order in
    let times =
      ap₂ check_times w.opens w.closes
      ∙ check_times-some (w.from_hour, w.from_minute) (w.to_hour, w.to_minute) order in
    rw (times, w.week_days)

-- A pause is accepted exactly when it is disabled, or its times match HH:MM, the first lies before
-- the second on the same day, and every day is a whole number from 0 to 6.
pub validate_scheduled_pause_iff :
    (i : ScheduledPause)
    → (validate_scheduled_pause (some i) ≡ none)
      ↔ ((i.enabled ≡ false) ⊎ IsWindow i.start i.end i.days)
unfolding validate_scheduled_pause
validate_scheduled_pause_iff i = elim (Bool-cases i.enabled) [
  | inl on ↦ (
    λ h. inr (check_window_passes i.start i.end i.days (ground arith)),
    λ c. elim c [
      | inl off ↦ cc (on, off)
      | inr w ↦ ground (arith, IsWindow-check_window i.start i.end i.days w)
    ],
  )
  | inr off ↦ (λ h. inl off, λ c. ground arith)
]

-- Days.

all_days-distinct :
    (seen ns : List Number)
    → all_days (map some ns) ≡ true
    → all_days (map some (distinct seen ns)) ≡ true
unfolding distinct
all_days-distinct seen [] h = refl
all_days-distinct seen (n ∷ ns) h =
    let (d, ds) = &&-eq-true (is_day (some n)) (all_days (map some ns)) h in
    elim (Bool-cases (includes n seen)) [
      | inl old ↦ rw old (all_days-distinct seen ns ds)
      | inr new ↦ rw new (rw (d, all_days-distinct (n ∷ seen) ns ds))
    ]

is_day-in_week : (n : Number) → is_day (some n) ≡ true → in_week n ≡ true
is_day-in_week n h = is_day_units n.units n.scale h
  where
    is_day_units :
        (u : ℤ) (s : ℕ)
        → (elim u [ pos k ↦ nat_eq s 0 && leb k 6 | negsuc k ↦ false ]) ≡ true
        → (elim u [ pos k ↦ leb k (6 * 2 ^ s) | negsuc k ↦ false ]) ≡ true
    is_day_units (pos k) zero h = ground arith
    is_day_units (pos k) (suc s) h = ground arith
    is_day_units (negsuc k) s h = cc

all_days-keep_days :
    (ds : List (Option Number)) → all_days ds ≡ true → all_days (map some (keep_days ds)) ≡ true
unfolding keep_days
all_days-keep_days [] h = refl
all_days-keep_days (none ∷ ds) h = cc
all_days-keep_days (some n ∷ ds) h =
    let (d, rest) = &&-eq-true (is_day (some n)) (all_days ds) h in
    rw (is_day-in_week n d) (rw (d, all_days-keep_days ds rest))

pub all_days-normalize_days :
    (ds : List (Option Number)) → all_days ds ≡ true → all_days (normalize_days ds) ≡ true
unfolding normalize_days
all_days-normalize_days ds h = all_days-distinct [] (keep_days ds) (all_days-keep_days ds h)

-- A time that matches is not blank, so no default takes its place.
time_kept :
    (s d : Text) (h m : ℕ)
    → hhmm (trim s) ≡ some (h, m)
    → hhmm (trim (trim (or_text s d))) ≡ some (h, m)
time_kept [] d h m e = absurd (unfold hhmm trim in cc)
time_kept (c ∷ s) d h m e = ap hhmm (trim_idempotent (c ∷ s)) ∙ e

pub normalize-IsWindow :
    (start end d e : Text) (days : List (Option Number))
    → IsWindow start end days
    → IsWindow (trim (or_text start d)) (trim (or_text end e)) (normalize_days days)
normalize-IsWindow start end d e days w = record {
  from_hour = w.from_hour;
  from_minute = w.from_minute;
  to_hour = w.to_hour;
  to_minute = w.to_minute;
  opens = time_kept start d w.from_hour w.from_minute w.opens;
  closes = time_kept end e w.to_hour w.to_minute w.closes;
  in_order = w.in_order;
  week_days = all_days-normalize_days days w.week_days;
}

-- A pause that passes validation passes it again in the form in which it is saved.
pub validate-normalize_scheduled_pause :
    (i : Option ScheduledPause)
    → validate_scheduled_pause i ≡ none
    → validate_scheduled_pause (normalize_scheduled_pause i) ≡ none
validate-normalize_scheduled_pause none h =
    unfold normalize_scheduled_pause validate_scheduled_pause in refl
validate-normalize_scheduled_pause (some i) h = elim ((validate_scheduled_pause_iff i).0 h) [
  | inl off ↦ unfold normalize_scheduled_pause validate_scheduled_pause in rw off refl
  | inr w ↦ elim (Bool-cases i.enabled) [
    | inl on ↦
        unfold normalize_scheduled_pause validate_scheduled_pause in
        rw on (
          IsWindow-check_window _ _ _
            (normalize-IsWindow i.start i.end (text "09:00") (text "17:00") i.days w))
    | inr off ↦ unfold normalize_scheduled_pause validate_scheduled_pause in rw off refl
  ]
]
