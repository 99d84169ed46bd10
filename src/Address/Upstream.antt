-- ===== src/Address/Upstream.antt =====
-- `isValidHttpUrl` and `validateUpstreamAddress` of web/client/src/utils/validation.js, and the checks of
-- an address that `PUT /api/dns/upstreams` makes in web/server/src/routes/dns.js.
pub mod Laws
use beyond_ads_dns.Prelude.{
  ℕ, ◌≡◌, Bool, true, false, not, ◌&&◌, ◌||◌, Option, none, some, List, [], ◌∷◌, ◌=?◌, nat-Eq,
  list-Eq, leb, nat_eq, length, if◌then◌else◌,
}
use beyond_ads_dns.Js.Text.{Text, text, is_empty, is_digit, trim, lower}
use beyond_ads_dns.Js.Value.{is_some}
use beyond_ads_dns.Address.{
  every, is_digits, digits_value, is_valid_ipv4, is_valid_ipv6, is_valid_dns_name, cut_at,
  after_prefix,
}

-- What the program reads of a `URL`.
pub record Url : Type 0 where
  pub protocol : Text
  pub hostname : Text
  pub pathname : Text

pub data AddressError : Type 0 where
  address_required bad_ipv6 bad_form bad_host bad_port : AddressError
  not_https no_hostname no_path bad_url : AddressError

-- `\d{1,5}`
abbrev pub is_port_text : Text → Bool
is_port_text s = is_digits s && leb (length s) 5

-- `!Number.isInteger(port) || port < 1 || port > 65535` is the test for an error.
unfoldable pub is_port : Text → Bool
unfolding digits_value
is_port s = leb 1 (digits_value 0 s) && leb (digits_value 0 s) 65535

-- The groups of `/^\[([^\]]+)\]:(\d{1,5})$/`, after the opening bracket.
abbrev pub bracket_groups : Option (Text × Text) → Option (Text × Text)
bracket_groups none = none
bracket_groups (some (host, [])) = none
bracket_groups (some (host, c ∷ port)) =
    if not (is_empty host) && nat_eq c b':' && is_port_text port then some (host, port) else none

unfoldable pub match_bracketed : Text → Option (Text × Text)
unfolding cut_at
match_bracketed [] = none
match_bracketed (c ∷ s) = if nat_eq c b'[' then bracket_groups (cut_at b']' s) else none

-- The groups of `/^([^:]+):(\d{1,5})$/`.
abbrev pub host_groups : Option (Text × Text) → Option (Text × Text)
host_groups none = none
host_groups (some (host, port)) =
    if not (is_empty host) && is_port_text port then some (host, port) else none

unfoldable pub match_host_port : Text → Option (Text × Text)
unfolding cut_at
match_host_port s = host_groups (cut_at b':' s)

-- `new URL(raw)`: `none` where it throws.
module _ (url : Text → Option Url) where
  unfoldable pub is_ipv6 : Text → Bool
  unfolding is_valid_ipv6
  is_ipv6 = is_valid_ipv6 (λ s. is_some (url s))

  abbrev pub is_http : Option Url → Bool
  is_http none = false
  is_http (some u) = (u.protocol =? text "http:") || (u.protocol =? text "https:")

  unfoldable pub is_valid_http_url : Text → Bool
  is_valid_http_url value = not (is_empty (trim value)) && is_http (url (trim value))

  unfoldable pub is_valid_host : Text → Bool
  unfolding is_valid_ipv4 is_valid_dns_name
  is_valid_host host =
      is_valid_ipv4 host || is_valid_dns_name host || (lower host =? text "localhost")

  abbrev pub check_bracketed : Text × Text → Option AddressError
  check_bracketed (host, port) =
      if not (is_ipv6 host) then some bad_ipv6 else if is_port port then none else some bad_port

  abbrev pub check_host : Option (Text × Text) → Option AddressError
  check_host none = some bad_form
  check_host (some (host, port)) =
      if not (is_valid_host host)
      then some bad_host
      else if is_port port
      then none
      else some bad_port

  abbrev pub check_groups : Option (Text × Text) → Option (Text × Text) → Option AddressError
  check_groups none plain = check_host plain
  check_groups (some bracketed) plain = check_bracketed bracketed

  -- The tests of a host with a port, which three branches repeat.
  unfoldable pub check_host_port : Text → Option AddressError
  unfolding match_bracketed match_host_port is_ipv6 is_valid_host is_port
  check_host_port s = check_groups (match_bracketed s) (match_host_port s)

  abbrev pub check_https : Option Url → Option AddressError
  check_https none = some bad_url
  check_https (some u) =
      if not (u.protocol =? text "https:")
      then some not_https
      else if is_empty u.hostname
      then some no_hostname
      else if is_empty u.pathname || (u.pathname =? text "/")
      then some no_path
      else none

  abbrev pub check_schemes : Text → Option Text → Option Text → Option Text → Option AddressError
  check_schemes raw (some host_port) quic https = check_host_port host_port
  check_schemes raw none (some host_port) https = check_host_port host_port
  check_schemes raw none none (some rest) = check_https (url raw)
  check_schemes raw none none none = check_host_port raw

  unfoldable pub validate_upstream_address : Text → Option AddressError
  unfolding after_prefix check_host_port
  validate_upstream_address address =
      let raw = trim address in
      if is_empty raw
      then some address_required
      else check_schemes raw (after_prefix (text "tls://") raw) (after_prefix (text "quic://") raw)
          (after_prefix (text "https://") raw)

-- What follows the last colon, `none` where there is no colon.
unfoldable pub after_last_colon : Text → Option Text
after_last_colon [] = none
after_last_colon (c ∷ s) =
    let r = after_last_colon s in if is_some r then r else if nat_eq c b':' then some s else none

-- `/:\d{1,5}$/.test(hostPort)`
abbrev pub has_port : Option Text → Bool
has_port none = false
has_port (some port) = is_port_text port

-- `parts.length < 2 || !parts[parts.length - 1]?.match(/^\d+$/)` is the test for an error.
abbrev pub has_digits_last : Option Text → Bool
has_digits_last none = false
has_digits_last (some port) = is_digits port

module _ (url : Text → Option Url) where
  abbrev pub is_doh_url : Option Url → Bool
  is_doh_url none = false
  is_doh_url (some u) = not (is_empty u.hostname || is_empty u.pathname || (u.pathname =? text "/"))

  abbrev pub accepts_schemes : Text → Option Text → Option Text → Option Text → Bool
  accepts_schemes addr (some host_port) quic https = has_port (after_last_colon host_port)
  accepts_schemes addr none (some host_port) https = has_port (after_last_colon host_port)
  accepts_schemes addr none none (some rest) = is_doh_url (url addr)
  accepts_schemes addr none none none = has_digits_last (after_last_colon addr)

  -- The loop over the upstreams of the server goes on past the address.
  unfoldable pub server_accepts_address : Text → Bool
  unfolding after_prefix after_last_colon
  server_accepts_address addr =
      accepts_schemes addr (after_prefix (text "tls://") addr) (after_prefix (text "quic://") addr)
        (after_prefix (text "https://") addr)
