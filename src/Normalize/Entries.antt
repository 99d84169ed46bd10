-- ===== src/Normalize/Entries.antt =====
-- `normalizeDomains`, `normalizeSources` and `normalizeLocalRecords` of
-- web/server/src/utils/config.js. A field that a request leaves out, or gives as `null` or "", is
-- the empty text here, as `String(x || "")` makes it.
pub mod Laws
pub mod Records
use beyond_ads_dns.Prelude.{Option, none, some, List, [], ◌∷◌, ◌++◌, ◌||◌, if◌then◌else◌}
use beyond_ads_dns.Js.Text.{Text, text, is_empty, trim, lower, upper}
use beyond_ads_dns.Normalize.Unique.{unique_by}

-- `s || d` on texts.
abbrev pub or_text : Text → Text → Text
or_text s d = if is_empty s then d else s

unfoldable pub prepare_domain : Text → Option Text
prepare_domain value =
    let domain = lower (trim value) in if is_empty domain then none else some domain

unfoldable pub normalize_domains : List Text → List Text
unfolding unique_by prepare_domain
normalize_domains values = unique_by (λ domain. domain) prepare_domain [] values

pub record Source : Type 0 where
  pub name : Text
  pub url : Text

abbrev pub source_key : Source → Text
source_key s = s.url

unfoldable pub prepare_source : Source → Option Source
prepare_source s =
    let url = trim s.url in
    if is_empty url then none else some (record { name = or_text (trim s.name) url; url = url })

unfoldable pub normalize_sources : List Source → List Source
unfolding unique_by prepare_source
normalize_sources sources = unique_by source_key prepare_source [] sources

pub record LocalRecord : Type 0 where
  pub name : Text
  pub type : Text
  pub value : Text

-- `${name}:${type}`
abbrev pub record_key : LocalRecord → Text
record_key r = r.name ++ (b':' ∷ r.type)

unfoldable pub prepare_record : LocalRecord → Option LocalRecord
prepare_record r =
    let name = lower (trim r.name) in
    let type = upper (trim (or_text r.type (text "A"))) in
    let value = trim r.value in
    if is_empty name || is_empty value
    then none
    else some (record { name = name; type = type; value = value })

unfoldable pub normalize_local_records : List LocalRecord → List LocalRecord
unfolding unique_by prepare_record
normalize_local_records records = unique_by record_key prepare_record [] records
