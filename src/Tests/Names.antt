-- ===== src/Tests/Names.antt =====
-- The deny list of the web interface on a few names.
use beyond_ads_dns.Prelude.{
  list_eq, ◌≡◌, ◌↔◌, refl, Bool, true, false, Option, none, some, List, [], ◌∷◌, arith, list_eq_iff,
  ◌=?◌, nat-Eq, list-Eq,
}
use beyond_ads_dns.Js.Text.{trim, lower, Text, text}
use beyond_ads_dns.Normalize.Unique.{includes}
use beyond_ads_dns.Denylist.{
  RegExp, is_regex_entry, normalize_domain_for_blocklist, is_domain_blocked_by_denylist,
}
use beyond_ads_dns.Denylist.Laws.{Blocks, is_domain_blocked_by_denylist_iff}

-- An engine that compiles "^ad" alone.
abbrev starts_with_ad : Text → Bool
starts_with_ad (a ∷ (d ∷ s)) = (a ∷ (d ∷ [])) =? text "ad"
starts_with_ad _ = false

abbrev compile : Bool → Option (Text → Bool)
compile true = some starts_with_ad
compile false = none

abbrev one_pattern : RegExp
one_pattern p = compile (p =? text "^ad")

abbrev list : List Text
list = text "example.com" ∷ (text "/^ad/" ∷ (text "/(/" ∷ []))

blocked_test : is_domain_blocked_by_denylist one_pattern (text " Www.Example.com. ") list ≡ true
unfolding is_domain_blocked_by_denylist lower trim list_eq
blocked_test = refl

pattern_test : is_domain_blocked_by_denylist one_pattern (text "ads.test") list ≡ true
unfolding is_domain_blocked_by_denylist lower trim list_eq
pattern_test = refl

no_label_test : is_domain_blocked_by_denylist one_pattern (text "notexample.com") list ≡ false
unfolding is_domain_blocked_by_denylist lower trim list_eq
no_label_test = refl

is_domain_blocked_by_denylist_iff_example :
    (is_domain_blocked_by_denylist one_pattern (text "ads.test") list ≡ true) ↔ (
      (entry : Text) × (includes entry list ≡ true)
      × Blocks one_pattern entry (normalize_domain_for_blocklist (text "ads.test")))
is_domain_blocked_by_denylist_iff_example =
    is_domain_blocked_by_denylist_iff one_pattern (text "ads.test") list

abbrev plain_list : List Text
plain_list = text "example.com" ∷ []

plain_list_holds : (entry : Text) → includes entry plain_list ≡ true → is_regex_entry entry ≡ false
unfolding includes is_regex_entry
plain_list_holds entry h =
    ground (arith, list_eq_iff (text "example.com") entry, list_eq_iff entry (text "example.com"))
