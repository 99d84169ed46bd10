-- ===== src/Js/Parse.antt =====
-- `parseInt(s, 10)`, `none` for NaN. A value is exact also past 2^53, where a double is rounded.
use beyond_ads_dns.Prelude.{ℕ, ◌-◌, Option, none, some, [], ◌∷◌, nat_eq, if◌then◌else◌}
use beyond_ads_dns.Prelude.Int.{ℤ, pos, negsuc}
use beyond_ads_dns.Js.Text.{Text, is_space, is_digit, trim_start}
use beyond_ads_dns.Address.{digits_value}

unfoldable pub leading_digits : Text → Text
leading_digits [] = []
leading_digits (c ∷ s) = let r = leading_digits s in if is_digit c then c ∷ r else []

unfoldable pub natural : Text → Option ℕ
unfolding digits_value
natural [] = none
natural (c ∷ s) = some (digits_value 0 (c ∷ s))

abbrev pub negated : Option ℕ → Option ℤ
negated none = none
negated (some n) = some (if nat_eq n 0 then pos 0 else negsuc (n - 1))

abbrev pub as_integer : Option ℕ → Option ℤ
as_integer none = none
as_integer (some n) = some (pos n)

unfoldable pub signed : Text → Option ℤ
unfolding leading_digits natural
signed [] = none
signed (c ∷ s) =
    if nat_eq c b'-'
    then negated (natural (leading_digits s))
    else if nat_eq c b'+'
    then as_integer (natural (leading_digits s))
    else as_integer (natural (leading_digits (c ∷ s)))

unfoldable pub parse_int : Text → Option ℤ
unfolding signed trim_start is_space
parse_int s = signed (trim_start s)
