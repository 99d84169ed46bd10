-- ===== src/Normalize/Entries/Laws.antt =====
-- A cleaned list has one complete, trimmed entry for each key, and cleaning it again changes nothing.
use beyond_ads_dns.Prelude.{
  ◌≡◌, ◌≢◌, refl, sym, ap, ◌∙◌, some, List, [], ◌∷◌, map, All, All-of, subst, nat-Eq, list-Eq,
  arith,
}
use beyond_ads_dns.Js.Text.{Text, trim, lower}
use beyond_ads_dns.Js.Value.{is_some}
use beyond_ads_dns.Js.Text.Laws.{trim_idempotent, lower-trim_idempotent}
use beyond_ads_dns.Normalize.Unique.{includes, HasNoRepeat}
use beyond_ads_dns.Normalize.Unique.Laws.{
  prepared, first_with, first_with-unique_by, unique_by-HasNoRepeat, unique_by-All,
  unique_by_idempotent,
}
use beyond_ads_dns.Normalize.Entries.{
  prepare_domain, normalize_domains, Source, source_key, prepare_source, normalize_sources,
}

prepare_domain_settled : (v d : Text) → prepare_domain v ≡ some d → prepare_domain d ≡ some d
unfolding prepare_domain
prepare_domain_settled v d h = ground (arith, lower-trim_idempotent v)

map_self : (xs : List Text) → map (λ (x : Text). x) xs ≡ xs
map_self [] = refl
map_self (x ∷ xs) = ap (λ ys. x ∷ ys) (map_self xs)

-- A domain as the list keeps it: lower-case, trimmed and not empty.
abbrev pub IsDomainEntry : Text → Type 0
IsDomainEntry d = (d ≡ lower (trim d)) × (d ≢ [])

prepare_domain-IsDomainEntry : (v d : Text) → prepare_domain v ≡ some d → IsDomainEntry d
unfolding prepare_domain
prepare_domain-IsDomainEntry v d h = (ground (arith, lower-trim_idempotent v), ground arith)

-- Normalised domains have no repeat, each is lower-case, trimmed and not empty, and normalising them
-- again changes nothing.
pub normalize_domains_idempotent :
    (vs : List Text)
    → HasNoRepeat (normalize_domains vs)
      × All IsDomainEntry (normalize_domains vs)
      × (normalize_domains (normalize_domains vs) ≡ normalize_domains vs)
unfolding normalize_domains
normalize_domains_idempotent vs = (
  subst (λ xs. HasNoRepeat xs) (map_self (normalize_domains vs))
      (unique_by-HasNoRepeat (λ d. d) prepare_domain [] vs),
  unique_by-All (λ d. d) prepare_domain IsDomainEntry [] vs
      (All-of _ vs prepare_domain-IsDomainEntry),
  unique_by_idempotent (λ d. d) prepare_domain vs prepare_domain
      (All-of _ vs prepare_domain_settled),
)

includes-first_with :
    (k : Text) (ds : List Text) → includes k ds ≡ is_some (first_with (λ d. d) k ds)
unfolding includes first_with
includes-first_with k [] = refl
includes-first_with k (d ∷ ds) = ground (arith, includes-first_with k ds)

-- The normalised domains are those that preparing gives: a domain is among them exactly when it is
-- the lower-case, trimmed form of some item of the input that is not blank.
pub includes-normalize_domains :
    (k : Text) (vs : List Text)
    → includes k (normalize_domains vs) ≡ includes k (prepared prepare_domain vs)
unfolding normalize_domains
includes-normalize_domains k vs =
    includes-first_with k (normalize_domains vs)
    ∙ ap is_some (first_with-unique_by (λ d. d) prepare_domain k [] vs ∙ unfold includes in refl)
    ∙ sym (includes-first_with k (prepared prepare_domain vs))

prepare_source_settled : (s t : Source) → prepare_source s ≡ some t → prepare_source t ≡ some t
unfolding prepare_source
prepare_source_settled s t h = ground (arith, trim_idempotent s.url, trim_idempotent s.name)

-- Normalised blocklist sources have distinct addresses, the first source of each address is kept
-- (trimmed, with the address for a blank name), and normalising them again changes nothing.
pub normalize_sources-first_with :
    (ss : List Source)
    → HasNoRepeat (map source_key (normalize_sources ss))
      × ((url : Text)
          → first_with source_key url (normalize_sources ss)
            ≡ first_with source_key url (prepared prepare_source ss))
      × (normalize_sources (normalize_sources ss) ≡ normalize_sources ss)
unfolding normalize_sources
normalize_sources-first_with ss = (
  unique_by-HasNoRepeat source_key prepare_source [] ss,
  λ url. first_with-unique_by source_key prepare_source url [] ss ∙ unfold includes in refl,
  unique_by_idempotent source_key prepare_source ss prepare_source
      (All-of _ ss prepare_source_settled),
)
