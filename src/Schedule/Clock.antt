-- ===== src/Schedule/Clock.antt =====
-- `HHMM_PATTERN` with the numbers that `split(":").map(Number)` gives, and the clock of
-- web/server/src/services/usageStatsScheduler.js.
use beyond_ads_dns.Prelude.{
  ℕ, ◌+◌, ◌*◌, ◌-◌, ◌/◌, ◌%◌, ◌<◌, ◌≡◌, Bool, ◌&&◌, ◌||◌, Option, none, some, [], ◌∷◌, ◌++◌, leb,
  nat_eq, if◌then◌else◌, arith,
}
use beyond_ads_dns.Js.Text.{Text, is_digit}

abbrev pub digit : ℕ → ℕ
digit c = c - b'0'

abbrev pub is_hour_pair : ℕ → ℕ → Bool
is_hour_pair h i =
    ((nat_eq h b'0' || nat_eq h b'1') && is_digit i) || (nat_eq h b'2' && leb b'0' i && leb i b'3')

abbrev pub is_minute_pair : ℕ → ℕ → Bool
is_minute_pair m n = leb b'0' m && leb m b'5' && is_digit n

-- `/^([01]?\d|2[0-3]):([0-5]\d)$/`: the hour and the minute of a text that matches.
unfoldable pub hhmm : Text → Option (ℕ × ℕ)
hhmm (h ∷ (c ∷ (m ∷ (n ∷ [])))) =
    if is_digit h && nat_eq c b':' && is_minute_pair m n
    then some (digit h, digit m * 10 + digit n)
    else none
hhmm (h ∷ (i ∷ (c ∷ (m ∷ (n ∷ []))))) =
    if is_hour_pair h i && nat_eq c b':' && is_minute_pair m n
    then some (digit h * 10 + digit i, digit m * 10 + digit n)
    else none
hhmm _ = none

-- `String(n).padStart(2, "0")`, for n < 100.
unfoldable pub pad2 : ℕ → Text
pad2 n = (b'0' + n / 10) ∷ ((b'0' + n % 10) ∷ [])

-- `${pad2(hours)}:${pad2(minutes)}`
unfoldable pub clock_text : ℕ → ℕ → Text
unfolding pad2
clock_text h m = pad2 h ++ (b':' ∷ pad2 m)

-- A text that matches the pattern gives an hour below 24 and a minute below 60.
pub hhmm_bounds : (s : Text) (h m : ℕ) → hhmm s ≡ some (h, m) → (h < 24) × (m < 60)
unfolding hhmm
hhmm_bounds (h ∷ (c ∷ (m ∷ (n ∷ [])))) x y e = ground arith
hhmm_bounds (h ∷ (i ∷ (c ∷ (m ∷ (n ∷ []))))) x y e = ground arith
hhmm_bounds _ x y e = cc

-- Every time that the clock shows is read back by the pattern.
pub hhmm-clock_text : (h m : ℕ) → h < 24 → m < 60 → hhmm (clock_text h m) ≡ some (h, m)
unfolding hhmm clock_text
hhmm-clock_text h m p q = ground arith
