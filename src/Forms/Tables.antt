-- ===== src/Forms/Tables.antt =====
-- `validateBlocklistForm`, `validateUpstreamsForm` and `validateLocalRecordsForm` of
-- web/client/src/utils/validation.js. A message is a constructor; a field that a row leaves out, or
-- holds as `null` or "", is the empty text.
pub mod Laws
pub mod Upstreams
use beyond_ads_dns.Prelude.{
  Bool, true, false, not, ◌&&◌, ◌||◌, Option, none, some, List, [], ◌∷◌, ◌++◌, ◌=?◌, nat-Eq,
  list-Eq, if◌then◌else◌,
}
use beyond_ads_dns.Js.Text.{Text, text, is_empty, trim, lower, upper}
use beyond_ads_dns.Js.Value.{is_some}
use beyond_ads_dns.Normalize.Unique.{includes}
use beyond_ads_dns.Normalize.Entries.{or_text, Source, LocalRecord, record_key}
use beyond_ads_dns.Address.{
  is_valid_ipv4, is_valid_dns_name, is_valid_dns_name_or_wildcard, after_prefix,
}
use beyond_ads_dns.Address.Duration.{is_valid_duration}
use beyond_ads_dns.Address.Upstream.{
  Url, AddressError, is_ipv6, is_valid_http_url, validate_upstream_address,
}
use beyond_ads_dns.Forms.Rows.{Row, untouched, invalid, complete, has_row_errors, check_rows}

pub data SourceError : Type 0 where
  url_required bad_source_url duplicate_url : SourceError

pub data NameError : Type 0 where
  name_required bad_name duplicate_record : NameError

pub data RecordValueError : Type 0 where
  value_required not_ipv4 not_ipv6 not_hostname : RecordValueError

-- `bad_type`: whether the error object has a message under `type`.
pub record RecordError : Type 0 where
  pub name : Option NameError
  pub bad_type : Bool
  pub value : Option RecordValueError

pub record Upstream : Type 0 where
  pub name : Text
  pub address : Text
  pub protocol : Text

pub data UpstreamAddressError : Type 0 where
  address : AddressError → UpstreamAddressError
  missing duplicate_upstream : UpstreamAddressError

-- The protocol that an address of this scheme goes with.
pub data Scheme : Type 0 where
  dot doq doh plain : Scheme

-- `wrong_protocol` names the message under `protocol`, by the scheme of the address.
pub record UpstreamError : Type 0 where
  pub address : Option UpstreamAddressError
  pub wrong_protocol : Option Scheme

pub record BlocklistForm : Type 0 where
  pub bad_interval : Bool
  pub row_errors : List (Option SourceError)
  pub no_source : Bool
  pub normalized_interval : Text
  pub normalized_sources : List Source

-- `hasErrors`
abbrev pub blocklist_has_errors : BlocklistForm → Bool
blocklist_has_errors f = f.bad_interval || has_row_errors f.row_errors || f.no_source

abbrev pub lower_url : Source → Text
lower_url s = lower s.url

abbrev pub supported_types : List Text
supported_types = text "A" ∷ (text "AAAA" ∷ (text "CNAME" ∷ (text "TXT" ∷ (text "PTR" ∷ []))))

abbrev pub name_error : Text → Option NameError
name_error name =
    if is_empty name
    then some name_required
    else if is_valid_dns_name_or_wildcard name
    then none
    else some bad_name

-- `addrLower.startsWith(…)`, in the order of the tests.
abbrev pub scheme_of : Text → Scheme
scheme_of low =
    if is_some (after_prefix (text "tls://") low)
    then dot
    else if is_some (after_prefix (text "quic://") low)
    then doq
    else if is_some (after_prefix (text "https://") low)
    then doh
    else plain

abbrev pub protocol_fits : Scheme → Text → Bool
protocol_fits dot p = p =? text "tls"
protocol_fits doq p = p =? text "quic"
protocol_fits doh p = p =? text "https"
protocol_fits plain p = (p =? text "udp") || (p =? text "tcp")

-- `effectiveProtocol`
abbrev pub effective_protocol : Scheme → Text → Text
effective_protocol dot p = text "tls"
effective_protocol doq p = text "quic"
effective_protocol doh p = text "https"
effective_protocol plain p = p

-- `${address.toLowerCase()}|${effectiveProtocol}`
abbrev pub upstream_key : Upstream → Text
upstream_key u = lower u.address ++ (b'|' ∷ u.protocol)

abbrev pub in_address : Option AddressError → Option UpstreamAddressError
in_address none = none
in_address (some e) = some (address e)

-- `list.length === 0`
abbrev pub is_no_item {ℓ} : {A : Type ℓ} → List A → Bool
is_no_item [] = true
is_no_item (x ∷ xs) = false

abbrev pub duplicate_url_of : Source → SourceError
duplicate_url_of s = duplicate_url

abbrev pub duplicate_record_of : LocalRecord → RecordError
duplicate_record_of r = record { name = some duplicate_record; bad_type = false; value = none }

abbrev pub duplicate_upstream_of : Upstream → UpstreamError
duplicate_upstream_of u = record { address = some duplicate_upstream; wrong_protocol = none }

-- The row without an error object is complete.
abbrev pub record_row : RecordError → LocalRecord → Row RecordError LocalRecord
record_row e r = if is_some e.name || e.bad_type || is_some e.value then invalid e else complete r

abbrev pub upstream_row : UpstreamError → Upstream → Row UpstreamError Upstream
upstream_row e u = if is_some e.address || is_some e.wrong_protocol then invalid e else complete u

module _ (url : Text → Option Url) where
  -- The body of the loop over the sources, up to the test for a duplicate.
  unfoldable pub source_row : Source → Row SourceError Source
  unfolding is_valid_http_url
  source_row s =
      let name = trim s.name in
      let u = trim s.url in
      if is_empty name && is_empty u
      then untouched
      else if is_empty u
      then invalid url_required
      else if not (is_valid_http_url url u)
      then invalid bad_source_url
      else complete (record { name = or_text name u; url = u })

  unfoldable pub validate_blocklist_form : Text → List Source → BlocklistForm
  unfolding is_valid_duration source_row check_rows
  validate_blocklist_form refresh_interval sources =
      let (row_errors, accepted) = check_rows lower_url duplicate_url_of source_row [] sources in
      record {
        bad_interval = not (is_valid_duration (trim refresh_interval));
        row_errors = row_errors;
        no_source = is_no_item accepted;
        normalized_interval = trim refresh_interval;
        normalized_sources = accepted;
      }

  abbrev pub value_error : Text → Text → Option RecordValueError
  value_error type value =
      if is_empty value
      then some value_required
      else if (type =? text "A") && not (is_valid_ipv4 value)
      then some not_ipv4
      else if (type =? text "AAAA") && not (is_ipv6 url value)
      then some not_ipv6
      else if ((type =? text "CNAME") || (type =? text "PTR")) && not (is_valid_dns_name value)
      then some not_hostname
      else none

  -- The body of the loop over the records, up to the test for a duplicate.
  unfoldable pub local_record_row : LocalRecord → Row RecordError LocalRecord
  unfolding is_valid_dns_name_or_wildcard is_valid_ipv4 is_ipv6 is_valid_dns_name includes
  local_record_row r =
      let name = lower (trim r.name) in
      let type = or_text (upper (trim (or_text r.type (text "A")))) (text "A") in
      let value = trim r.value in
      if is_empty name && is_empty value
      then untouched
      else record_row
          (record {
            name = name_error name;
            bad_type = not (includes type supported_types);
            value = value_error type value;
          })
          (record { name = name; type = type; value = value })

  unfoldable pub validate_local_records_form :
      List LocalRecord → List (Option RecordError) × List LocalRecord
  unfolding local_record_row check_rows
  validate_local_records_form records =
      check_rows record_key duplicate_record_of local_record_row [] records

  -- The body of the loop over the upstreams, up to the test for a duplicate.
  unfoldable pub upstream_form_row : Upstream → Row UpstreamError Upstream
  unfolding validate_upstream_address after_prefix
  upstream_form_row u =
      let name = trim u.name in
      let addr = trim u.address in
      let protocol = lower (trim (or_text u.protocol (text "udp"))) in
      let scheme = scheme_of (lower addr) in
      if is_empty name && is_empty addr
      then untouched
      else upstream_row
          (record {
            address =
                if is_empty addr
                then some missing
                else in_address (validate_upstream_address url addr);
            wrong_protocol = if protocol_fits scheme protocol then none else some scheme;
          })
          (record {
            name = or_text name (text "upstream");
            address = addr;
            protocol = effective_protocol scheme protocol;
          })

  -- Beside the rows, a form without a normalised upstream has a general error.
  unfoldable pub validate_upstreams_form :
      List Upstream → List (Option UpstreamError) × List Upstream
  unfolding upstream_form_row check_rows
  validate_upstreams_form upstreams =
      check_rows upstream_key duplicate_upstream_of upstream_form_row [] upstreams
