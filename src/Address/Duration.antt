-- ===== src/Address/Duration.antt =====
-- `isValidDuration` of web/client/src/utils/validation.js with `DURATION_PATTERN` of
-- web/client/src/utils/constants.js, which web/server/src/routes/dns.js repeats. The pattern is matched
-- by an automaton: after a unit only a digit or the end may follow, so no unit has to be tried twice.
pub mod Grammar
pub mod Automaton
use beyond_ads_dns.Prelude.{
  ℕ, Bool, true, false, not, ◌&&◌, ◌||◌, Option, none, some, List, [], ◌∷◌, nat_eq, leb,
  if◌then◌else◌,
}
use beyond_ads_dns.Js.Text.{Text, is_empty, is_digit, trim}

-- What was read last: nothing or a dot, digits, digits after the dot, the first letter of "ns", "us"
-- and so on, an "m", or a whole unit.
pub data State : Type 0 where
  start whole point fraction prefix minute unit stuck : State

-- Each letter in both cases; the two signs for micro have one upper case, which the pattern takes too.
abbrev pub is_s : ℕ → Bool
is_s c = nat_eq c b's' || nat_eq c b'S'

abbrev pub is_m : ℕ → Bool
is_m c = nat_eq c b'm' || nat_eq c b'M'

abbrev pub is_h : ℕ → Bool
is_h c = nat_eq c b'h' || nat_eq c b'H'

abbrev pub is_small_prefix : ℕ → Bool
is_small_prefix c =
    nat_eq c b'n'
    || nat_eq c b'N'
    || nat_eq c b'u'
    || nat_eq c b'U'
    || nat_eq c 0xb5
    || nat_eq c 0x3bc
    || nat_eq c 0x39c

abbrev pub after_number : ℕ → State
after_number c =
    if is_small_prefix c
    then prefix
    else if is_m c
    then minute
    else if is_s c || is_h c
    then unit
    else stuck

unfoldable pub step : State → ℕ → State
step start c = if is_digit c then whole else stuck
step whole c = if is_digit c then whole else if nat_eq c b'.' then point else after_number c
step point c = if is_digit c then fraction else stuck
step fraction c = if is_digit c then fraction else after_number c
step prefix c = if is_s c then unit else stuck
step minute c = if is_s c then unit else if is_digit c then whole else stuck
step unit c = if is_digit c then whole else stuck
step stuck c = stuck

abbrev pub is_final : State → Bool
is_final minute = true
is_final unit = true
is_final _ = false

unfoldable pub run : State → Text → Bool
unfolding step
run q [] = is_final q
run q (c ∷ s) = run (step q c) s

-- `DURATION_PATTERN.test(raw)`
unfoldable pub matches_duration : Text → Bool
unfolding run
matches_duration raw = run start raw

-- `/[1-9]/.test(raw)`
unfoldable pub has_nonzero_digit : Text → Bool
has_nonzero_digit [] = false
has_nonzero_digit (c ∷ s) = (leb b'1' c && leb c b'9') || has_nonzero_digit s

-- Both tests, of a text that is trimmed already.
abbrev pub is_positive_duration : Text → Bool
is_positive_duration raw = matches_duration raw && has_nonzero_digit raw

unfoldable pub is_valid_duration : Text → Bool
unfolding matches_duration has_nonzero_digit
is_valid_duration value = let raw = trim value in not (is_empty raw) && is_positive_duration raw
