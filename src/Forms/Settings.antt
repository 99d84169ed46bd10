-- ===== src/Forms/Settings.antt =====
-- `validateReplicaSyncSettings`, `validateResponseForm` and `isValidListenAddress` of
-- web/client/src/utils/validation.js. A message is a constructor, an empty one `none`; a field that is
-- absent is the empty text, and for the response its default.
pub mod Laws
use beyond_ads_dns.Prelude.{
  Bool, true, false, not, ◌&&◌, ◌||◌, Option, none, some, ◌=?◌, nat-Eq, list-Eq, if◌then◌else◌,
}
use beyond_ads_dns.Js.Text.{Text, text, is_empty, trim, lower}
use beyond_ads_dns.Js.Value.{is_some}
use beyond_ads_dns.Address.{is_valid_ipv4, is_valid_dns_name}
use beyond_ads_dns.Address.Duration.{is_valid_duration}
use beyond_ads_dns.Address.Upstream.{Url, is_ipv6, is_valid_http_url, is_port, match_host_port}

pub data ReplicaMessage : Type 0 where
  primary_url_required primary_url_not_http interval_required bad_interval token_required :
      ReplicaMessage

pub record ReplicaErrors : Type 0 where
  pub primary_url : Option ReplicaMessage
  pub sync_token : Option ReplicaMessage
  pub sync_interval : Option ReplicaMessage

pub record ReplicaSettings : Type 0 where
  pub primary_url : Text
  pub sync_token : Text
  pub sync_interval : Text

abbrev pub trimmed_settings : ReplicaSettings → ReplicaSettings
trimmed_settings s = record {
  primary_url = trim s.primary_url;
  sync_token = trim s.sync_token;
  sync_interval = trim s.sync_interval;
}

abbrev pub first_of {ℓ} : {A : Type ℓ} → Option A → Option A → Option A
first_of none m = m
first_of (some a) m = some a

-- `fieldErrors.primaryUrl || fieldErrors.syncToken || …`, in the order of the code.
abbrev pub replica_summary : ReplicaErrors → Option ReplicaMessage
replica_summary e = first_of e.primary_url (first_of e.sync_token e.sync_interval)

pub data ResponseMessage : Type 0 where
  bad_address bad_ttl : ResponseMessage

pub record ResponseErrors : Type 0 where
  pub blocked : Option ResponseMessage
  pub blocked_ttl : Option ResponseMessage

abbrev pub response_has_errors : ResponseErrors → Bool
response_has_errors e = is_some e.blocked || is_some e.blocked_ttl

module _ (url : Text → Option Url) where
  abbrev pub interval_error : Text → Option ReplicaMessage
  interval_error s =
      if is_empty s
      then some interval_required
      else if is_valid_duration s
      then none
      else some bad_interval

  abbrev pub primary_url_error : Text → Option ReplicaMessage
  primary_url_error s =
      if is_empty s
      then some primary_url_required
      else if is_valid_http_url url s
      then none
      else some primary_url_not_http

  -- The errors, and the settings without the blanks around them.
  unfoldable pub validate_replica_sync_settings :
      Bool → ReplicaSettings → ReplicaErrors × ReplicaSettings
  unfolding trim is_valid_duration is_valid_http_url
  validate_replica_sync_settings require_token s =
      let normalized = trimmed_settings s in
      (
        record {
          primary_url = primary_url_error normalized.primary_url;
          sync_token =
              if require_token && is_empty normalized.sync_token then some token_required else none;
          sync_interval = interval_error normalized.sync_interval;
        },
        normalized,
      )

  abbrev pub blocked_error : Text → Option ResponseMessage
  blocked_error blocked =
      if (blocked =? text "nxdomain") || is_valid_ipv4 blocked || is_ipv6 url blocked
      then none
      else some bad_address

  -- The errors, with the address and the time to live that are sent.
  unfoldable pub validate_response_form : Text → Text → ResponseErrors × Text × Text
  unfolding trim lower is_valid_duration is_valid_ipv4 is_ipv6
  validate_response_form blocked ttl = (
    record {
      blocked = blocked_error (lower (trim blocked));
      blocked_ttl = if is_valid_duration (trim ttl) then none else some bad_ttl;
    },
    lower (trim blocked),
    trim ttl,
  )

  abbrev pub is_listen_host : Text → Bool
  is_listen_host host =
      (lower host =? text "localhost")
      || (lower host =? text "0.0.0.0")
      || (lower host =? text "::")
      || is_valid_ipv4 host
      || is_ipv6 url host
      || is_valid_dns_name host

  abbrev pub listen_groups : Option (Text × Text) → Bool
  listen_groups none = false
  listen_groups (some (host, port)) = is_port port && is_listen_host host

  unfoldable pub is_valid_listen_address : Text → Bool
  unfolding trim lower match_host_port is_port is_valid_ipv4 is_ipv6 is_valid_dns_name
  is_valid_listen_address value =
      not (is_empty (trim value)) && listen_groups (match_host_port (trim value))
