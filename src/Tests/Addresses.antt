-- ===== src/Tests/Addresses.antt =====
-- Durations, names and addresses of upstreams.
use beyond_ads_dns.Prelude.{◌≡◌, ◌≤◌, ◌↔◌, refl, true, none, List, ◌∷◌, length, list_eq, All}
use beyond_ads_dns.Js.Text.{Text, text, trim}
use beyond_ads_dns.Address.{every_part, is_label, is_valid_dns_name}
use beyond_ads_dns.Denylist.{strip_dot}
use beyond_ads_dns.Address.Laws.{join, is_valid_dns_name_iff}
use beyond_ads_dns.Address.Duration.{matches_duration}
use beyond_ads_dns.Address.Duration.Grammar.{Segment, IsSegment, print_segments}
use beyond_ads_dns.Address.Duration.Automaton.{matches_duration_iff}
use beyond_ads_dns.Address.Upstream.{validate_upstream_address, server_accepts_address}
use beyond_ads_dns.Address.Upstream.Laws.{server_accepts_address_lem}
use beyond_ads_dns.Tests.Files.{plain_url}

duration_test : matches_duration (text "1h30.5M") ≡ true
unfolding matches_duration
duration_test = refl

abbrev doh : Text
doh = text " https://dns.example/dns-query "

doh_is_valid : validate_upstream_address plain_url doh ≡ none
unfolding validate_upstream_address trim list_eq
doh_is_valid = refl

matches_duration_iff_example : (matches_duration (text "1h30.5M") ≡ true) ↔ (
    (g : Segment) × (gs : List Segment) × All IsSegment (g ∷ gs)
    × (text "1h30.5M" ≡ print_segments (g ∷ gs)))
matches_duration_iff_example = matches_duration_iff (text "1h30.5M")

is_valid_dns_name_iff_example : (is_valid_dns_name (text " a-1.example. ") ≡ true) ↔ (
    (t : Text) × (ts : List Text) × (every_part is_label (t ∷ ts) ≡ true)
    × (strip_dot (trim (text " a-1.example. ")) ≡ join b'.' t ts)
    × (length (strip_dot (trim (text " a-1.example. "))) ≤ 253))
is_valid_dns_name_iff_example = is_valid_dns_name_iff (text " a-1.example. ")

server_accepts_address_lem_example : server_accepts_address plain_url (trim doh) ≡ true
server_accepts_address_lem_example = server_accepts_address_lem plain_url doh doh_is_valid
