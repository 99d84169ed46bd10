-- ===== src/Control.antt =====
-- Requests to the control server of the resolver, as the handlers of
-- web/server/src/routes/blocklists.js, web/server/src/routes/dns.js, web/server/src/routes/redis.js and
-- web/server/src/routes/control.js make them. The texts of error messages are left out: a refusal is
-- its status.
pub mod Retry
pub mod Errors
use beyond_ads_dns.Prelude.{
  ℕ, String, Bool, true, false, ◌&&◌, Option, none, some, List, [], ◌∷◌, ◌++◌, leb, nat_eq,
  if◌then◌else◌,
}
use beyond_ads_dns.Js.Text.{Text, text, is_empty}
use beyond_ads_dns.Js.Value.{Value, undefined, null, bool, obj, arr, nil, end, field}
use beyond_ads_dns.Js.Path.{prop, is_undefined}
use beyond_ads_dns.Routes.Settings.{Reply, ok, refused, ok_or_500}

-- `dnsControlUrl` and `dnsControlToken` of the application's context; an unset one is the empty text.
pub record Link : Type 0 where
  pub url : Text
  pub token : Text

pub data Method : Type 0 where
  get post put : Method

-- A call of `fetch`: `bearer` is the header `Authorization`, `body` the value that is sent as JSON.
pub record Request : Type 0 where
  pub method : Method
  pub url : Text
  pub bearer : Option Text
  pub body : Option Value

-- What `response.text()` and `response.json()` give, `none` where they reject.
pub record Response : Type 0 where
  pub status : ℕ
  pub text_body : Option Text
  pub json_body : Option Value

-- `fetch` rejects, or gives a response.
pub data Fetched : Type 0 where
  failed : Fetched
  answered : Response → Fetched

-- `response.ok`
abbrev pub is_ok : ℕ → Bool
is_ok status = leb 200 status && leb status 299

abbrev pub bearer_of : Text → Option Text
bearer_of token = if is_empty token then none else some token

abbrev pub request_to : Link → Method → Text → Option Value → Request
request_to link method url body = record {
  method = method;
  url = url;
  bearer = bearer_of link.token;
  body = body;
}

-- `${dnsControlUrl}/path`
unfoldable pub request : Link → Method → String → Option Value → Request
request link method path body = request_to link method (link.url ++ text path) body

-- `s.replace(/\/+$/, "")`
unfoldable pub strip_slashes : Text → Text
strip_slashes [] = []
strip_slashes (c ∷ s) = let r = strip_slashes s in if is_empty r && nat_eq c b'/' then [] else c ∷ r

-- `controlUrl(base, path)`, for a path that begins with a slash.
unfoldable pub control_url : Text → String → Text
unfolding strip_slashes
control_url base path =
    if is_empty (strip_slashes base) then [] else strip_slashes base ++ text path

-- `await response.text()` before the refusal.
abbrev pub refuse_502 : Option Text → Reply Value
refuse_502 none = refused 500
refuse_502 (some body) = refused 502

unfoldable pub answer : (Response → Reply Value) → Fetched → Reply Value
answer reply failed = refused 500
answer reply (answered r) = if is_ok r.status then reply r else refuse_502 r.text_body

abbrev pub reply_json : Response → Reply Value
reply_json r = ok_or_500 r.json_body

abbrev pub ok_true : Value
ok_true = obj (field "ok" (bool true) end)

abbrev pub reply_ok : Response → Reply Value
reply_ok r = ok ok_true

-- The shape that the handlers share: the requests that are made, and the reply.
unfoldable pub exchange :
    Link → Request → (Response → Reply Value) → (Request → Fetched) → List Request × Reply Value
unfolding answer
exchange link r reply fetch =
    if is_empty link.url then ([], refused 400) else (r ∷ [], answer reply (fetch r))

module _ (link : Link) (fetch : Request → Fetched) where
  unfoldable pub get_blocklists_stats : List Request × Reply Value
  unfolding exchange request
  get_blocklists_stats = exchange link (request link get "/blocklists/stats" none) reply_json fetch

  unfoldable pub pause_blocklists : Value → List Request × Reply Value
  unfolding exchange request
  pause_blocklists body =
      exchange link (request link post "/blocklists/pause" (some body)) reply_json fetch

  unfoldable pub resume_blocklists : List Request × Reply Value
  unfolding exchange request
  resume_blocklists = exchange link (request link post "/blocklists/resume" none) reply_json fetch

  unfoldable pub get_pause_status : List Request × Reply Value
  unfolding exchange request
  get_pause_status =
      exchange link (request link get "/blocklists/pause/status" none) reply_json fetch

  unfoldable pub get_blocklists_health : List Request × Reply Value
  unfolding exchange request
  get_blocklists_health =
      exchange link (request link get "/blocklists/health" none) reply_json fetch

  unfoldable pub apply_local_records : List Request × Reply Value
  unfolding exchange request
  apply_local_records =
      exchange link (request link post "/local-records/reload" none) reply_ok fetch

  unfoldable pub apply_upstreams : List Request × Reply Value
  unfolding exchange request
  apply_upstreams = exchange link (request link post "/upstreams/reload" none) reply_ok fetch

  unfoldable pub apply_response : List Request × Reply Value
  unfolding exchange request
  apply_response = exchange link (request link post "/response/reload" none) reply_ok fetch

  unfoldable pub apply_safe_search : List Request × Reply Value
  unfolding exchange request
  apply_safe_search = exchange link (request link post "/safe-search/reload" none) reply_ok fetch

  unfoldable pub apply_client_identification : List Request × Reply Value
  unfolding exchange request
  apply_client_identification =
      exchange link (request link post "/client-identification/reload" none) reply_ok fetch

  unfoldable pub get_cache_stats : List Request × Reply Value
  unfolding exchange control_url
  get_cache_stats =
      exchange link (request_to link get (control_url link.url "/cache/stats") none) reply_json
        fetch

  unfoldable pub get_refresh_stats : List Request × Reply Value
  unfolding exchange control_url
  get_refresh_stats =
      exchange link (request_to link get (control_url link.url "/cache/refresh/stats") none)
        reply_json fetch

  unfoldable pub clear_redis : List Request × Reply Value
  unfolding exchange control_url
  clear_redis =
      exchange link (request_to link post (control_url link.url "/cache/clear") none) reply_ok fetch

  unfoldable pub get_trace_events : List Request × Reply Value
  unfolding exchange request
  get_trace_events = exchange link (request link get "/trace-events" none) reply_json fetch

  -- The events of the body, or none.
  abbrev pub trace_body : Value → Value
  trace_body body =
      if is_undefined (prop "events" body)
      then obj (field "events" (arr nil) end)
      else obj (field "events" (prop "events" body) end)

  -- `data.error`, of what `response.json().catch(() => ({}))` gives: on `null` it throws.
  abbrev pub refuse_with_status : ℕ → Option Value → Reply Value
  refuse_with_status status (some null) = refused 500
  refuse_with_status status d = refused status

  -- A refusal of the control server keeps its status.
  unfoldable pub answer_with_status : Fetched → Reply Value
  answer_with_status failed = refused 500
  answer_with_status (answered r) =
      if is_ok r.status then reply_json r else refuse_with_status r.status r.json_body

  unfoldable pub put_trace_events : Value → List Request × Reply Value
  unfolding request answer_with_status
  put_trace_events body = if is_empty link.url then ([], refused 400) else (
    request link put "/trace-events" (some (trace_body body)) ∷ [],
    answer_with_status (fetch (request link put "/trace-events" (some (trace_body body)))),
  )
