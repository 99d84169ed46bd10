-- ===== src/Routes/System/Reads.antt =====
-- How `PUT /api/system/config` of web/server/src/routes/config.js reads a field of a section: as a whole
-- number, a fraction, a text, a flag or a list of texts. `parseFloat` is a parameter.
use beyond_ads_dns.Prelude.{
  ℕ, ◌*◌, ◌^◌, String, Bool, true, false, not, Option, none, some, List, [], ◌∷◌, map, leb, nat_eq,
  if◌then◌else◌,
}
use beyond_ads_dns.Prelude.Int.{ℤ, pos, negsuc}
use beyond_ads_dns.Js.Text.{Text, text, is_empty, trim, lower}
use beyond_ads_dns.Js.Value.{
  Number, Value, undefined, null, bool, num, str, arr, Fields, put, strict_equal,
}
use beyond_ads_dns.Js.Convert.{text_of, text_or_default, items}
use beyond_ads_dns.Js.Parse.{parse_int}
use beyond_ads_dns.Address.{split_on}
use beyond_ads_dns.Config.Options.{trim_all}
use beyond_ads_dns.Routes.Dns.{spread}
use beyond_ads_dns.Routes.Update.{or_falsy}

-- The value of a whole number, exact.
abbrev pub whole : ℤ → Value
whole n = num (record { units = n; scale = 0 })

abbrev pub nat_value : ℕ → Value
nat_value n = whole (pos n)

abbrev pub text_value : String → Value
text_value s = str (text s)

-- Properties written one after the other, as in an object literal after a spread.
unfoldable pub put_all : List (String × Value) → Fields → Fields
unfolding put
put_all [] o = o
put_all ((k, v) ∷ rest) o = put_all rest (put k v o)

-- `{ ...(old || {}), … }`
unfoldable pub with_fields : List (String × Value) → Value → Fields
unfolding put_all
with_fields new old = put_all new (spread old)

-- `v !== undefined && v !== null && v !== ""`
abbrev pub is_given : Value → Bool
is_given undefined = false
is_given null = false
is_given (str s) = not (is_empty s)
is_given v = true

-- `v !== undefined && v !== null`
abbrev pub is_present : Value → Bool
is_present undefined = false
is_present null = false
is_present v = true

abbrev pub is_true : Value → Value
is_true v = bool (strict_equal v (bool true))

abbrev pub is_not_false : Value → Value
is_not_false v = bool (not (strict_equal v (bool false)))

-- `n >= least`, for a natural number.
abbrev pub is_at_least : ℕ → ℤ → Bool
is_at_least least (pos n) = leb least n
is_at_least least (negsuc n) = false

-- `parseInt(v, 10) || d`, where 0 and NaN are falsy.
abbrev pub int_or : ℕ → Option ℤ → ℤ
int_or d none = pos d
int_or d (some (pos n)) = if nat_eq n 0 then pos d else pos n
int_or d (some (negsuc n)) = negsuc n

-- `Math.max(0, n)`
abbrev pub at_least_zero : ℤ → ℕ
at_least_zero (pos n) = n
at_least_zero (negsuc n) = 0

-- `Math.max(1, Math.min(64, n))`
abbrev pub clamp_listeners : ℤ → ℕ
clamp_listeners (pos n) = if leb 64 n then 64 else if leb 1 n then n else 1
clamp_listeners (negsuc n) = 1

-- Tests on a finite double u / 2^s; the double nearest to 0.01 is 5764607523034235 / 2^59.
abbrev pub is_at_most_one : Number → Bool
is_at_most_one n = elim (n.units) [ pos u ↦ leb u (2 ^ n.scale) | negsuc u ↦ true ]

abbrev pub is_not_negative : Number → Bool
is_not_negative n = elim (n.units) [ pos u ↦ true | negsuc u ↦ false ]

abbrev pub is_hundredth : Number → Bool
is_hundredth n = elim (n.units) [
  | pos u ↦ leb (5764607523034235 * 2 ^ n.scale) (u * 2 ^ 59)
  | negsuc u ↦ false
]

abbrev pub is_zero : Number → Bool
is_zero n = elim (n.units) [ pos u ↦ nat_eq u 0 | negsuc u ↦ false ]

-- `parseFloat(v) || 1.0`
abbrev pub float_or_one : Option Number → Value
float_or_one none = nat_value 1
float_or_one (some n) = if is_zero n then nat_value 1 else num n

-- `s.split(",").map((s) => s.trim()).filter(Boolean)`
unfoldable pub split_commas : Text → Value
unfolding split_on trim_all
split_commas s = arr (items (map str (trim_all (split_on b',' s))))

-- The same of a text, and the value itself or `[]` of anything else.
abbrev pub texts_or_value : Value → Value
texts_or_value (str s) = split_commas s
texts_or_value v = or_falsy v (arr (items []))

-- `(v || d).toLowerCase()`, which throws where that is no text.
abbrev pub lower_or : Value → String → Option Text
lower_or v d = elim (or_falsy v (text_value d)) [ str s ↦ some (lower s) | _ ↦ none ]

module _ (number_text : Number → Text) where
  -- `parseInt(v, 10)`
  unfoldable pub int_of : Value → Option ℤ
  unfolding text_of parse_int
  int_of v = parse_int (text_of number_text v)

  -- `String(v ?? d).trim()`
  abbrev pub trimmed_or : Value → String → Text
  trimmed_or v d = trim (text_or_default number_text v d)

  -- `String(v ?? d).trim() || d`
  abbrev pub filled_or : Value → String → Value
  filled_or v d = if is_empty (trimmed_or v d) then text_value d else str (trimmed_or v d)
