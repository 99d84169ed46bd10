-- ===== src/Routes/Upstreams.antt =====
-- `GET` and `PUT /api/dns/upstreams` of web/server/src/routes/dns.js.
pub mod Laws
use mathlib.Core.Option
use beyond_ads_dns.Prelude.{
  Bool, true, false, not, ◌&&◌, ◌||◌, Option, none, some, List, [], ◌∷◌, ◌=?◌, map, nat-Eq, list-Eq,
  if◌then◌else◌,
}
use beyond_ads_dns.Js.Text.{Text, text, is_empty, trim, lower}
use beyond_ads_dns.Js.Value.{
  Number, Value, str, obj, arr, Items, Fields, end, nil, cons, field, is_truthy,
}
use beyond_ads_dns.Js.Path.{prop}
use beyond_ads_dns.Js.Convert.{text_or, items_of, items}
use beyond_ads_dns.Normalize.Unique.{includes}
use beyond_ads_dns.Normalize.Entries.{or_text}
use beyond_ads_dns.Address.Duration.{is_positive_duration}
use beyond_ads_dns.Address.Upstream.{Url, server_accepts_address}
use beyond_ads_dns.Forms.Tables.{Upstream}
use beyond_ads_dns.Config.Store.{Yaml, Disk, Faults}
use beyond_ads_dns.Routes.Settings.{Ctx, Reply, or_default}
use beyond_ads_dns.Routes.Update.{or_falsy, assign_all, saved_reply, show, change}

abbrev pub upstream_value : Upstream → Value
upstream_value u = obj (
    field "name" (str u.name)
      (field "address" (str u.address) (field "protocol" (str u.protocol) end)))

abbrev pub upstreams_value : List Upstream → Value
upstreams_value us = arr (items (map upstream_value us))

abbrev pub strategies : List Text
strategies = text "failover" ∷ (text "load_balance" ∷ (text "weighted" ∷ []))

abbrev pub protocols : List Text
protocols = text "udp" ∷ (text "tcp" ∷ (text "tls" ∷ (text "https" ∷ (text "quic" ∷ []))))

-- `upstreamTimeout && (!durationPattern.test(…) || …)` is the test for an error.
abbrev pub is_timeout : Text → Bool
is_timeout s = is_empty s || is_positive_duration s

abbrev pub is_backoff : Text → Bool
is_backoff s = is_empty s || (s =? text "0") || is_positive_duration s

-- What the handler reads of a body.
pub record UpstreamsBody : Type 0 where
  pub upstreams : List Upstream
  pub strategy : Text
  pub timeout : Text
  pub backoff : Text

abbrev pub timeout_value : UpstreamsBody → Value
timeout_value b = str (or_text b.timeout (text "10s"))

-- `upstreamBackoff === "0" ? "0" : (upstreamBackoff || "30s")`
abbrev pub backoff_value : UpstreamsBody → Value
backoff_value b = str (or_text b.backoff (text "30s"))

-- The assignments to `overrideConfig`; those to its `network` are made on that value.
unfoldable pub write_upstreams : UpstreamsBody → Value → Option Value
unfolding assign_all
write_upstreams b config =
    Option.bind
      (assign_all
        (("upstreams", upstreams_value b.upstreams) ∷ (("resolver_strategy", str b.strategy) ∷ []))
        config)
      (λ c.
        Option.bind
          (assign_all
            (("upstream_timeout", timeout_value b) ∷ (("upstream_backoff", backoff_value b) ∷ []))
            (or_falsy (prop "network" c) (obj end)))
          (λ network.
            assign_all
              (("network", network)
                ∷ (("upstream_timeout", timeout_value b)
                    ∷ (("upstream_backoff", backoff_value b) ∷ [])))
              c))

abbrev pub upstreams_reply : UpstreamsBody → Value
upstreams_reply b = saved_reply (
    field "upstreams" (upstreams_value b.upstreams) (
      field "resolver_strategy" (str b.strategy) (
        field "upstream_timeout" (timeout_value b)
          (field "upstream_backoff" (backoff_value b) end))))

abbrev pub upstreams_view : Value → Value
upstreams_view config = obj (
    field "upstreams" (or_falsy (prop "upstreams" config) (arr nil)) (
      field "resolver_strategy" (or_falsy (prop "resolver_strategy" config) (str (text "failover")))
        (field "upstream_timeout"
          (or_default (prop "upstream_timeout" (prop "network" config))
            (or_default (prop "upstream_timeout" config) (str (text "10s"))))
          (field "upstream_backoff"
            (or_default (prop "upstream_backoff" (prop "network" config))
              (or_default (prop "upstream_backoff" config) (str (text "30s"))))
            end))))

module _ (number_text : Number → Text) where
  -- `.filter(…).map(…).filter(…)` on one upstream of the body.
  abbrev pub named_upstream : Text → Text → Text → Option Upstream
  named_upstream name address protocol =
      if is_empty address
      then none
      else some (record {
        name = or_text name (text "upstream");
        address = address;
        protocol = or_text protocol (text "udp");
      })

  unfoldable pub read_upstream : Value → Option Upstream
  unfolding text_or
  read_upstream u =
      if is_truthy u && (is_truthy (prop "name" u) || is_truthy (prop "address" u))
      then named_upstream (trim (text_or number_text (prop "name" u) ""))
          (trim (text_or number_text (prop "address" u) ""))
          (lower (trim (text_or number_text (prop "protocol" u) "udp")))
      else none

  abbrev pub kept : Option Upstream → List Upstream → List Upstream
  kept none rest = rest
  kept (some u) rest = u ∷ rest

  unfoldable pub read_upstreams : Items → List Upstream
  unfolding read_upstream
  read_upstreams nil = []
  read_upstreams (cons v rest) = kept (read_upstream v) (read_upstreams rest)

  unfoldable pub read_upstreams_body : Value → UpstreamsBody
  unfolding text_or read_upstreams
  read_upstreams_body body = record {
    upstreams = read_upstreams (items_of (prop "upstreams" body));
    strategy = lower (trim (text_or number_text (prop "resolver_strategy" body) "failover"));
    timeout = trim (text_or number_text (prop "upstream_timeout" body) "10s");
    backoff = trim (text_or number_text (prop "upstream_backoff" body) "30s");
  }

module _ (url : Text → Option Url) where
  -- The loop over the upstreams: every address and every protocol is accepted.
  unfoldable pub accepts_upstreams : List Upstream → Bool
  unfolding server_accepts_address includes
  accepts_upstreams [] = true
  accepts_upstreams (u ∷ us) =
      server_accepts_address url u.address
      && (is_empty u.protocol || includes u.protocol protocols)
      && accepts_upstreams us

  abbrev pub has_upstream : List Upstream → Bool
  has_upstream [] = false
  has_upstream (u ∷ us) = true

  unfoldable pub is_upstreams_body : UpstreamsBody → Bool
  unfolding includes accepts_upstreams
  is_upstreams_body b =
      includes b.strategy strategies
      && is_timeout b.timeout
      && is_backoff b.backoff
      && has_upstream b.upstreams
      && accepts_upstreams b.upstreams

module _ {Content : Type 0} (yaml : Yaml Content) (ctx : Ctx) where
  unfoldable pub get_upstreams : Disk Content → Reply Value
  unfolding show
  get_upstreams disk = show yaml ctx upstreams_view disk

  unfoldable pub put_upstreams :
      (Number → Text)
      → (Text → Option Url)
      → Value
      → Text
      → Faults Content
      → Disk Content
      → Reply Value × Disk Content
  unfolding change is_upstreams_body read_upstreams_body write_upstreams
  put_upstreams number_text url body suffix f disk =
      let b = read_upstreams_body number_text body in
      change yaml ctx (is_upstreams_body url b)
        (λ config. Option.map (λ c. (c, upstreams_reply b)) (write_upstreams b config)) suffix f
        disk
