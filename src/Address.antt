-- ===== src/Address.antt =====
-- The checks of names, addresses and durations in web/client/src/utils/validation.js, with the patterns
-- of web/client/src/utils/constants.js. An absent value is the empty text, as `String(value || "")`
-- makes it; what `new URL` accepts is a parameter.
pub mod Duration
pub mod Laws
pub mod Upstream
use beyond_ads_dns.Prelude.{
  ℕ, ◌*◌, ◌+◌, ◌-◌, Bool, true, false, not, ◌&&◌, ◌||◌, Option, none, some, List, [], ◌∷◌, ◌++◌,
  ◌=?◌, nat-Eq, list-Eq, nat_eq, leb, length, if◌then◌else◌,
}
use beyond_ads_dns.Js.Text.{Text, text, is_empty, is_digit, trim, lower}
use beyond_ads_dns.Denylist.{strip_dot}
use beyond_ads_dns.Normalize.Unique.{includes}

-- A unit goes to the first part.
abbrev pub push_part : ℕ → List Text → List Text
push_part c [] = (c ∷ []) ∷ []
push_part c (p ∷ ps) = (c ∷ p) ∷ ps

-- `s.split(c)`, for a separator of one unit.
unfoldable pub split_on : ℕ → Text → List Text
split_on c [] = [] ∷ []
split_on c (d ∷ s) = let ps = split_on c s in if nat_eq d c then [] ∷ ps else push_part d ps

abbrev pub every : (ℕ → Bool) → Text → Bool
every p [] = true
every p (c ∷ s) = p c && every p s

abbrev pub every_part : (Text → Bool) → List Text → Bool
every_part p [] = true
every_part p (t ∷ ts) = p t && every_part p ts

abbrev pub is_letter : ℕ → Bool
is_letter c = (leb b'a' c && leb c b'z') || (leb b'A' c && leb c b'Z')

abbrev pub is_alphanumeric : ℕ → Bool
is_alphanumeric c = is_letter c || is_digit c

abbrev pub is_label_unit : ℕ → Bool
is_label_unit c = is_alphanumeric c || nat_eq c b'-'

unfoldable pub ends_alphanumeric : Text → Bool
ends_alphanumeric [] = false
ends_alphanumeric (c ∷ s) =
    let r = ends_alphanumeric s in if is_empty s then is_alphanumeric c else r

abbrev pub starts_alphanumeric : Text → Bool
starts_alphanumeric [] = false
starts_alphanumeric (c ∷ s) = is_alphanumeric c

-- `/^[a-z0-9](?:[a-z0-9-]{0,61}[a-z0-9])?$/i`
unfoldable pub is_label : Text → Bool
unfolding ends_alphanumeric
is_label s =
    starts_alphanumeric s && ends_alphanumeric s && every is_label_unit s && leb (length s) 63

unfoldable pub is_valid_dns_name : Text → Bool
unfolding strip_dot split_on is_label
is_valid_dns_name value =
    let normalized = strip_dot (trim value) in
    not (is_empty normalized)
    && leb (length normalized) 253
    && every_part is_label (split_on b'.' normalized)

-- The labels after a wildcard, of which there is at least one, or all labels.
abbrev pub wildcard_labels : List Text → Bool
wildcard_labels [] = true
wildcard_labels (l ∷ []) = is_label l
wildcard_labels (l ∷ (m ∷ ms)) =
    if l =? text "*" then every_part is_label (m ∷ ms) else every_part is_label (l ∷ (m ∷ ms))

unfoldable pub is_valid_dns_name_or_wildcard : Text → Bool
unfolding strip_dot split_on is_label
is_valid_dns_name_or_wildcard value =
    let normalized = strip_dot (lower (trim value)) in
    not (is_empty normalized)
    && leb (length normalized) 253
    && wildcard_labels (split_on b'.' normalized)

-- `Number(part)` of a text of digits.
unfoldable pub digits_value : ℕ → Text → ℕ
digits_value n [] = n
digits_value n (c ∷ s) = digits_value (n * 10 + (c - b'0')) s

abbrev pub is_digits : Text → Bool
is_digits s = not (is_empty s) && every is_digit s

-- `/^\d+$/.test(part)`, and `num >= 0 && num <= 255`.
unfoldable pub is_octet : Text → Bool
unfolding digits_value
is_octet part = is_digits part && leb (digits_value 0 part) 255

unfoldable pub is_valid_ipv4 : Text → Bool
unfolding split_on is_octet
is_valid_ipv4 value =
    let parts = split_on b'.' (trim value) in nat_eq (length parts) 4 && every_part is_octet parts

module _ (is_url : Text → Bool) where
  -- `new URL(`http://[${raw}]`)` returns.
  unfoldable pub is_valid_ipv6 : Text → Bool
  unfolding includes
  is_valid_ipv6 value =
      let raw = trim value in
      not (is_empty raw) && includes b':' raw && is_url (text "http://[" ++ (raw ++ text "]"))

abbrev put_before : ℕ → Option (Text × Text) → Option (Text × Text)
put_before d none = none
put_before d (some (before, after)) = some (d ∷ before, after)

-- The text before the first unit c, and what follows it.
unfoldable pub cut_at : ℕ → Text → Option (Text × Text)
cut_at c [] = none
cut_at c (d ∷ s) = let rest = cut_at c s in if nat_eq d c then some ([], s) else put_before d rest

-- `s.startsWith(prefix)`, with `s.slice(prefix.length)` where it does.
unfoldable pub after_prefix : Text → Text → Option Text
after_prefix [] s = some s
after_prefix (c ∷ p) [] = none
after_prefix (c ∷ p) (d ∷ s) = let r = after_prefix p s in if nat_eq c d then r else none
