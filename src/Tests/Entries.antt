-- ===== src/Tests/Entries.antt =====
-- The lists of a request, normalised.
use beyond_ads_dns.Prelude.{list_eq, ◌≡◌, refl, List, [], ◌∷◌, All, nat-Eq, list-Eq}
use beyond_ads_dns.Js.Text.{lower, Text, text, trim, upper}
use beyond_ads_dns.Normalize.Entries.{
  normalize_domains, Source, normalize_sources, LocalRecord, normalize_local_records,
}
use beyond_ads_dns.Normalize.Entries.Records.{HasType, normalize_local_records_idempotent}

abbrev typed : List Text
typed = text " Ads.example " ∷ (text "ads.EXAMPLE" ∷ (text "  " ∷ []))

domains_test : normalize_domains typed ≡ (text "ads.example" ∷ [])
unfolding normalize_domains lower trim list_eq
domains_test = refl

abbrev sources : List Source
sources =
    record { name = text "Main"; url = text " https://a.example/list " }
    ∷ (record { name = []; url = text "https://a.example/list" } ∷ [])

sources_test :
    normalize_sources sources
    ≡ (record { name = text "Main"; url = text "https://a.example/list" } ∷ [])
unfolding normalize_sources trim list_eq
sources_test = refl

abbrev router : LocalRecord
router = record { name = text "Router.lan"; type = text "a"; value = text "10.0.0.1" }

abbrev again : LocalRecord
again = record { name = text "router.lan"; type = []; value = text "10.0.0.2" }

records_test :
    normalize_local_records (router ∷ (again ∷ []))
    ≡ (record { name = text "router.lan"; type = text "A"; value = text "10.0.0.1" } ∷ [])
unfolding normalize_local_records lower trim upper list_eq
records_test = refl

-- A type of blanks is stored as the empty text, and read as "A" the next time.
blank_type_test :
    normalize_local_records
      (record { name = text "nas"; type = text " "; value = text "10.0.0.3" } ∷ [])
    ≡ (record { name = text "nas"; type = []; value = text "10.0.0.3" } ∷ [])
unfolding normalize_local_records lower trim upper
blank_type_test = refl

both_HasType : All HasType (router ∷ (again ∷ []))
unfolding trim upper
both_HasType = (λ e. cc, (λ e. cc, tt))

normalize_local_records_idempotent_example :
    normalize_local_records (normalize_local_records (router ∷ (again ∷ [])))
    ≡ normalize_local_records (router ∷ (again ∷ []))
normalize_local_records_idempotent_example =
    normalize_local_records_idempotent (router ∷ (again ∷ [])) both_HasType
