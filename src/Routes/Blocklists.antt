-- ===== src/Routes/Blocklists.antt =====
-- `GET` and `PUT /api/blocklists` of web/server/src/routes/blocklists.js, with the fields of the body
-- that web/server/src/utils/config.js reads. `Number(v)` is a parameter, `none` for NaN. A field that
-- prints as "" is read as absent.
pub mod Laws
use mathlib.Core.Option
use beyond_ads_dns.Prelude.{
  String, Bool, true, false, not, ◌&&◌, Option, none, some, List, [], ◌∷◌, map, if◌then◌else◌,
}
use beyond_ads_dns.Js.Text.{Text, text, trim}
use beyond_ads_dns.Js.Value.{
  Number, Value, undefined, null, bool, num, str, obj, arr, Fields, end, nil, field, put, is_some,
  strict_equal,
}
use beyond_ads_dns.Js.Path.{prop, is_undefined}
use beyond_ads_dns.Js.Convert.{text_of, text_or, nullish_or, items_of, list_of, items}
use beyond_ads_dns.Normalize.Entries.{Source, normalize_sources, normalize_domains}
use beyond_ads_dns.Schedule.{
  ScheduledPause, FamilyTime, validate_scheduled_pause, normalize_scheduled_pause,
  validate_family_time, normalize_family_time,
}
use beyond_ads_dns.Config.Options.{validate_health_check, normalize_health_check}
use beyond_ads_dns.Config.Store.{Yaml, Disk, Faults}
use beyond_ads_dns.Routes.Settings.{Ctx, Reply, assign}
use beyond_ads_dns.Routes.Update.{or_falsy, saved_reply, show, change}
use beyond_ads_dns.Routes.Dns.{spread}

abbrev pub source_value : Source → Value
source_value s = obj (field "name" (str s.name) (field "url" (str s.url) end))

abbrev pub texts_value : List Text → Value
texts_value ss = arr (items (map str ss))

abbrev pub day_value : Option Number → Value
day_value none = null
day_value (some n) = num n

abbrev pub window_fields : ScheduledPause → Fields → Fields
window_fields w rest = field "enabled" (bool w.enabled) (
    field "start" (str w.start)
      (field "end" (str w.end) (field "days" (arr (items (map day_value w.days))) rest)))

abbrev pub pause_value : Option ScheduledPause → Value
pause_value none = null
pause_value (some w) = obj (window_fields w end)

abbrev pub family_value : Option FamilyTime → Value
family_value none = null
family_value (some t) = obj (
    window_fields t.window
      (field "services" (texts_value t.services) (field "domains" (texts_value t.domains) end)))

abbrev pub health_value : Option Value → Value
health_value none = null
health_value (some v) = v

abbrev pub blocklists_view : Value → Value
blocklists_view config =
    let b = or_falsy (prop "blocklists" config) (obj end) in
    obj (
      field "refreshInterval" (or_falsy (prop "refresh_interval" b) (str (text "6h"))) (
        field "sources" (or_falsy (prop "sources" b) (arr nil)) (
          field "allowlist" (or_falsy (prop "allowlist" b) (arr nil)) (
            field "denylist" (or_falsy (prop "denylist" b) (arr nil)) (
              field "scheduled_pause" (or_falsy (prop "scheduled_pause" b) null) (
                field "family_time" (or_falsy (prop "family_time" b) null)
                  (field "health_check" (or_falsy (prop "health_check" b) null) end)))))))

-- What the handler reads of a body; `health_check` is validated as the value it is. A field is
-- `sent` where it is not `undefined`, and then its value may be `null`.
pub record BlocklistsBody : Type 0 where
  pub refresh_interval : Text
  pub sources : List Source
  pub allowlist : List Text
  pub denylist : List Text
  pub pause_sent : Bool
  pub scheduled_pause : Option ScheduledPause
  pub family_sent : Bool
  pub family_time : Option FamilyTime
  pub health_check : Value

module _ (number_text : Number → Text) (number_of : Value → Option Number) where
  abbrev pub read_source : Value → Source
  read_source v = record {
    name = text_or number_text (prop "name" v) "";
    url = text_or number_text (prop "url" v) "";
  }

  abbrev pub read_window : Value → ScheduledPause
  read_window v = record {
    enabled = strict_equal (prop "enabled" v) (bool true);
    start = text_or number_text (prop "start" v) "";
    end = text_or number_text (prop "end" v) "";
    days = map number_of (list_of (items_of (prop "days" v)));
  }

  -- `String(s)` of each item.
  abbrev pub read_texts : Value → List Text
  read_texts v = map (text_of number_text) (list_of (items_of v))

  abbrev pub read_pause : Value → Option ScheduledPause
  read_pause v = nullish_or v none (some (read_window v))

  abbrev pub read_family : Value → Option FamilyTime
  read_family v = nullish_or v none (
      some (record {
        window = read_window v;
        services = read_texts (prop "services" v);
        domains = read_texts (prop "domains" v);
      }))

  -- The lists come out normalised.
  unfoldable pub read_blocklists_body : Value → BlocklistsBody
  unfolding text_or text_of list_of strict_equal normalize_sources normalize_domains
  read_blocklists_body body = record {
    refresh_interval = trim (text_or number_text (prop "refreshInterval" body) "6h");
    sources = normalize_sources (map read_source (list_of (items_of (prop "sources" body))));
    allowlist =
        normalize_domains
          (map (λ v. text_or number_text v "") (list_of (items_of (prop "allowlist" body))));
    denylist =
        normalize_domains
          (map (λ v. text_or number_text v "") (list_of (items_of (prop "denylist" body))));
    pause_sent = not (is_undefined (prop "scheduled_pause" body));
    scheduled_pause = read_pause (prop "scheduled_pause" body);
    family_sent = not (is_undefined (prop "family_time" body));
    family_time = read_family (prop "family_time" body);
    health_check = prop "health_check" body;
  }

abbrev pub has_source : List Source → Bool
has_source [] = false
has_source (s ∷ ss) = true

-- The tests before the write.
unfoldable pub is_blocklists_body : BlocklistsBody → Bool
unfolding validate_scheduled_pause validate_family_time validate_health_check
is_blocklists_body b =
    has_source b.sources
    && not (is_some (validate_scheduled_pause b.scheduled_pause))
    && not (is_some (validate_family_time b.family_time))
    && not (is_some (validate_health_check b.health_check))

-- A property that is written only where the body has it.
abbrev pub put_sent : Bool → String → Value → Fields → Fields
put_sent sent k v o = if sent then put k v o else o

-- The new value of `overrideConfig.blocklists`.
unfoldable pub blocklists_fields : BlocklistsBody → Value → Fields
unfolding put normalize_scheduled_pause normalize_family_time normalize_health_check
blocklists_fields b old =
    let lists = put "denylist" (texts_value b.denylist) (
      put "allowlist" (texts_value b.allowlist) (
        put "sources" (arr (items (map source_value b.sources)))
          (put "refresh_interval" (str b.refresh_interval) (spread old)))) in
    put_sent (not (is_undefined b.health_check)) "health_check"
      (health_value (normalize_health_check b.health_check))
      (put_sent b.family_sent "family_time" (family_value (normalize_family_time b.family_time)) (
        put_sent b.pause_sent "scheduled_pause"
          (pause_value (normalize_scheduled_pause b.scheduled_pause)) lists))

unfoldable pub write_blocklists : BlocklistsBody → Value → Option (Value × Value)
unfolding blocklists_fields
write_blocklists b config =
    let new = obj (blocklists_fields b (prop "blocklists" config)) in
    Option.map (λ c. (c, saved_reply (field "blocklists" new end))) (assign "blocklists" new config)

module _ {Content : Type 0} (yaml : Yaml Content) (ctx : Ctx) where
  unfoldable pub get_blocklists : Disk Content → Reply Value
  unfolding show
  get_blocklists disk = show yaml ctx blocklists_view disk

  -- A body without a source or with a bad part is refused after the test for a replica.
  unfoldable pub put_blocklists :
      (Number → Text)
      → (Value → Option Number)
      → Value
      → Text
      → Faults Content
      → Disk Content
      → Reply Value × Disk Content
  unfolding change read_blocklists_body is_blocklists_body write_blocklists
  put_blocklists number_text number_of body suffix f disk =
      let b = read_blocklists_body number_text number_of body in
      change yaml ctx (is_blocklists_body b) (write_blocklists b) suffix f disk
