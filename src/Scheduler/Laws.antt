-- ===== src/Scheduler/Laws.antt =====
-- When a tick sends: once in the configured minute.
use beyond_ads_dns.Prelude.{
  zero, suc, ◌∷◌, [], ◌+◌, ◌/◌, ◌%◌, ◌≢◌, none, inl, inr, Bool-cases, subst, ℕ, ◌<◌, ◌≡◌, ◌↔◌, refl,
  sym, ap, ap₂, ◌∙◌, Bool, true, false, not, ◌||◌, Option, some, ◌=?◌, nat-Eq, list-Eq, list_eq_iff,
  if◌then◌else◌, arith,
}
use beyond_ads_dns.Js.Text.{Text, is_empty, trim}
use beyond_ads_dns.Schedule.Clock.{clock_text}
use beyond_ads_dns.Scheduler.{
  UsageStats, Instant, MinuteKey, same_minute, due_time, minute_key, get_current_hhmm, tick,
}

-- The decision of a tick, over its three tests.
abbrev pub decide : Bool → Bool → Bool → Option MinuteKey → MinuteKey → Bool × Option MinuteKey
decide off due again last key =
    if off
    then (false, last)
    else if not due
    then (false, last)
    else if again
    then (false, last)
    else (true, some key)

pub tick-decide :
    (stats : UsageStats) (now : Instant) (last : Option MinuteKey)
    → tick stats now last
      ≡ decide
          (not stats.enabled || is_empty (trim stats.url))
          (due_time stats =? (minute_key stats now).current)
          (same_minute last (minute_key stats now))
          last
          (minute_key stats now)
unfolding tick
tick-decide stats now last = refl

same_minute_self : (k : MinuteKey) → same_minute (some k) k ≡ true
same_minute_self k = ground (arith, list_eq_iff k.current k.current)

after_decide :
    (off due again : Bool) (last : Option MinuteKey) (key : MinuteKey)
    → again ≡ same_minute last key
    → (decide off due
        (same_minute (decide off due again last key).1 key)
        (decide off due again last key).1
        key).0
      ≡ false
after_decide off due again last key h = ground (arith, same_minute_self key)

-- Of two ticks that read the same date and minute, the second does not send.
pub tick_once :
    (stats : UsageStats) (now later : Instant) (last : Option MinuteKey)
    → minute_key stats later ≡ minute_key stats now
    → (tick stats later (tick stats now last).1).0 ≡ false
tick_once stats now later last e =
    rw (tick-decide stats later (tick stats now last).1, tick-decide stats now last, e)
      (after_decide _ _ _ last (minute_key stats now) refl)

unit_at : ℕ → Text → ℕ
unit_at n [] = 0
unit_at zero (c ∷ s) = c
unit_at (suc n) (c ∷ s) = unit_at n s

-- A two-digit clock shows different times differently, hour 24 included.
clock_text-injective :
    (h m h' m' : ℕ)
    → h < 100
    → m < 100
    → h' < 100
    → m' < 100
    → clock_text h m ≡ clock_text h' m'
    → (h ≡ h') × (m ≡ m')
unfolding clock_text unit_at
clock_text-injective h m h' m' a b c d e =
    let p : (b'0' + h / 10) ≡ (b'0' + h' / 10) = ap (unit_at 0) e in
    let q : (b'0' + h % 10) ≡ (b'0' + h' % 10) = ap (unit_at 1) e in
    let r : (b'0' + m / 10) ≡ (b'0' + m' / 10) = ap (unit_at 3) e in
    let s : (b'0' + m % 10) ≡ (b'0' + m' % 10) = ap (unit_at 4) e in (omega arith, omega arith)

is_due_iff :
    (due : Text) (h m h' m' : ℕ)
    → h < 100
    → m < 100
    → h' < 100
    → m' < 100
    → due ≡ clock_text h m
    → ((due =? clock_text h' m') ≡ true) ↔ ((h' ≡ h) × (m' ≡ m))
is_due_iff due h m h' m' a b c d e = (
  λ t. clock_text-injective h' m' h m c d a b (sym ((list_eq_iff due _).0 t) ∙ e),
  λ (p, q). (list_eq_iff due _).1 (e ∙ sym (ap₂ clock_text p q)),
)

decide_sends_iff :
    {P Q : Type 0} (due again : Bool) (last : Option MinuteKey) (key : MinuteKey)
    → (due ≡ true → P × Q)
    → (P × Q → due ≡ true)
    → ((decide false due again last key).0 ≡ true) ↔ (P × Q × (again ≡ false))
decide_sends_iff false again last key to from = (λ h. cc, λ (p, q, _). cc (from (p, q)))
decide_sends_iff true true last key to from = (λ h. cc, λ (p, q, fresh). cc)
decide_sends_iff true false last key to from =
    (λ h. let (p, q) = to refl in (p, q, refl), λ _. refl)

-- The minute that an instant shows in the zone of the schedule, with its date.
abbrev pub shown_minute : UsageStats → Instant → MinuteKey
shown_minute stats now = record {
  year = now.year;
  month = now.month;
  day = now.day;
  current =
      clock_text (now.hour (trim (trim stats.schedule_timezone)))
        (now.minute (trim (trim stats.schedule_timezone)));
}

minute_key-shown_minute :
    (stats : UsageStats) (now : Instant) → minute_key stats now ≡ shown_minute stats now
unfolding minute_key get_current_hhmm
minute_key-shown_minute stats now = refl

same_minute-fresh :
    (last : Option MinuteKey) (k : MinuteKey) → (same_minute last k ≡ false) ↔ (last ≢ some k)
same_minute-fresh none k = (λ e p. cc, λ h. refl)
same_minute-fresh (some a) k = (
  λ e p. different (subst (λ o. same_minute o k ≡ false) p e),
  λ h. elim (Bool-cases (same_minute (some a) k)) [
    | inl same ↦ absurd (h (ap some (equal_keys a k same)))
    | inr other ↦ other
  ],
)
  where
    different : same_minute (some k) k ≡ false → ⊥
    different e = cc (same_minute_self k)

    equal_keys : (a k : MinuteKey) → same_minute (some a) k ≡ true → a ≡ k
    equal_keys a k e = ground (arith, list_eq_iff a.current k.current)

decide_remembers :
    (due again : Bool) (last : Option MinuteKey) (key : MinuteKey)
    → ((decide false due again last key).0 ≡ true → (decide false due again last key).1 ≡ some key)
      × ((decide false due again last key).0 ≡ false → (decide false due again last key).1 ≡ last)
decide_remembers false again last key = (λ e. cc, λ e. refl)
decide_remembers true true last key = (λ e. cc, λ e. refl)
decide_remembers true false last key = (λ e. refl, λ e. cc)

-- With a schedule time written as the clock writes it, a tick of an enabled schedule with an address
-- sends exactly when the clock shows that hour and minute in the schedule's time zone (so never where it
-- shows the hour 24) and the message remembered last was not sent in this minute of this date. A tick
-- that sends remembers the minute and one that does not send changes nothing; and a later tick that
-- reads the same date and minute does not send.
pub tick_sends_iff :
    (stats : UsageStats) (now : Instant) (last : Option MinuteKey) (h m : ℕ)
    → h < 24
    → m < 60
    → now.hour (trim (trim stats.schedule_timezone)) < 100
    → now.minute (trim (trim stats.schedule_timezone)) < 100
    → stats.enabled ≡ true
    → is_empty (trim stats.url) ≡ false
    → due_time stats ≡ clock_text h m
    → (((tick stats now last).0 ≡ true) ↔ (
        (now.hour (trim (trim stats.schedule_timezone)) ≡ h)
        × (now.minute (trim (trim stats.schedule_timezone)) ≡ m)
        × (last ≢ some (shown_minute stats now))))
      × ((tick stats now last).0 ≡ true → (tick stats now last).1 ≡ some (shown_minute stats now))
      × ((tick stats now last).0 ≡ false → (tick stats now last).1 ≡ last)
      × ((later : Instant)
          → shown_minute stats later ≡ shown_minute stats now
          → (tick stats later (tick stats now last).1).0 ≡ false)
tick_sends_iff stats now last h m a b c d on filled due =
    let key = minute_key stats now in
    let again = same_minute last key in
    let off : (not stats.enabled || is_empty (trim stats.url)) ≡ false = rw (on, filled) refl in
    let (to, from) =
      is_due_iff (due_time stats) h m (now.hour (trim (trim stats.schedule_timezone)))
        (now.minute (trim (trim stats.schedule_timezone))) (omega arith) (omega arith) c d due in
    let (sent, sends) =
      decide_sends_iff (due_time stats =? key.current) again last key
        (λ e. to (unfold minute_key get_current_hhmm in e))
        (λ p. unfold minute_key get_current_hhmm in from p) in
    let (fresh, again_free) = same_minute-fresh last key in
    let known = minute_key-shown_minute stats now in
    let decided : tick stats now last
        ≡ decide false (due_time stats =? key.current) again last key =
      tick-decide stats now last
      ∙ ap (λ o. decide o (due_time stats =? key.current) again last key) off in
    let (kept, left) = decide_remembers (due_time stats =? key.current) again last key in
    (
      (
        λ e.
            let (p, q, r) = sent (sym (ap (λ x. x.0) decided) ∙ e) in
            (p, q, subst (λ k. last ≢ some k) known (fresh r)),
        λ (p, q, r).
            ap (λ x. x.0) decided
            ∙ sends (p, q, again_free (subst (λ k. last ≢ some k) (sym known) r)),
      ),
      λ e. ap (λ x. x.1) decided ∙ kept (sym (ap (λ x. x.0) decided) ∙ e) ∙ ap some known,
      λ e. ap (λ x. x.1) decided ∙ left (sym (ap (λ x. x.0) decided) ∙ e),
      λ later e.
          tick_once stats now later last (minute_key-shown_minute stats later ∙ e ∙ sym known),
    )
