-- ===== src/Tests/Tables.antt =====
-- The forms for blocklists and upstreams, with a row without input and a repeated row.
use beyond_ads_dns.Prelude.{◌≡◌, true, List, [], ◌∷◌, map}
use beyond_ads_dns.Js.Text.{text}
use beyond_ads_dns.Js.Convert.{items}
use beyond_ads_dns.Normalize.Entries.{Source}
use beyond_ads_dns.Forms.Tables.{Upstream, validate_upstreams_form}
use beyond_ads_dns.Routes.Upstreams.{upstream_value, read_upstreams, accepts_upstreams}
use beyond_ads_dns.Routes.Upstreams.Laws.{validate_upstreams_form-accepts_upstreams}
use beyond_ads_dns.Tests.Files.{plain_url, print_number}

abbrev list_source : Source
list_source = record { name = text "ads"; url = text " https://lists.example/ads " }

abbrev no_source : Source
no_source = record { name = []; url = text " " }

abbrev two_sources : List Source
two_sources = list_source ∷ (no_source ∷ [])

abbrev quad : Upstream
quad = record { name = []; address = text "9.9.9.9:53"; protocol = text "udp" }

abbrev two_upstreams : List Upstream
two_upstreams = quad ∷ (quad ∷ [])

validate_upstreams_form-accepts_upstreams_example :
    (read_upstreams print_number
        (items (map upstream_value (validate_upstreams_form plain_url two_upstreams).1))
      ≡ (validate_upstreams_form plain_url two_upstreams).1)
    × (accepts_upstreams plain_url (validate_upstreams_form plain_url two_upstreams).1 ≡ true)
validate_upstreams_form-accepts_upstreams_example =
    validate_upstreams_form-accepts_upstreams print_number plain_url two_upstreams
