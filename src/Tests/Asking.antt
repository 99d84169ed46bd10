-- ===== src/Tests/Asking.antt =====
-- Two requests for queries whose search texts differ.
use beyond_ads_dns.Prelude.{nat-Eq, list-Eq, ◌≡◌, refl, List, String, [], ◌∷◌}
use beyond_ads_dns.Js.Text.{Text, text}
use beyond_ads_dns.Js.Value.{Value, str, obj, field, end, find}
use beyond_ads_dns.Queries.{
  Filters, clauses, params, asked, asked_either, add, clamp_number, add_outcomes,
  build_query_filters,
}
use beyond_ads_dns.Queries.Texts.{query_texts}
use beyond_ads_dns.Tests.Files.{print_number, number_of_nothing}

abbrev name_of : Text → String
name_of t = "outcome_n"

abbrev search : Text → Value
search s = obj (field "q" (str s) end)

abbrev plain_search : Value
plain_search = search (text "ads")

abbrev quoted_search : Value
quoted_search = search (text "x') OR 1=1 --")

abbrev filters_of : Value → Filters
filters_of = build_query_filters print_number number_of_nothing print_number name_of

clauses_test :
    clauses (filters_of quoted_search)
    ≡ text
        "(positionCaseInsensitive(qname, {search: String}) > 0 OR positionCaseInsensitive(client_ip, {search: String}) > 0 OR positionCaseInsensitive(client_name, {search: String}) > 0)"
      ∷ []
unfolding build_query_filters add clamp_number asked_either find asked add_outcomes
clauses_test = refl

params_test : params (filters_of quoted_search) ≡ field "search" (str (text "x') OR 1=1 --")) end
unfolding build_query_filters add clamp_number asked_either find asked add_outcomes
params_test = refl

abbrev texts_of : Value → List Text
texts_of =
    query_texts (text "dns") (text "queries") print_number number_of_nothing print_number name_of
