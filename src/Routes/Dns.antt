-- ===== src/Routes/Dns.antt =====
-- `GET` and `PUT /api/dns/local-records` and `GET` and `PUT /api/dns/response` of
-- web/server/src/routes/dns.js. A field of a record whose value prints as "", as `[]` does, is read as
-- absent.
pub mod Laws
use mathlib.Core.Option
use beyond_ads_dns.Prelude.{
  Bool, true, false, not, ◌&&◌, ◌||◌, Option, none, some, List, ◌=?◌, map, nat-Eq, list-Eq,
  if◌then◌else◌,
}
use beyond_ads_dns.Js.Text.{Text, text, trim, lower}
use beyond_ads_dns.Js.Value.{Number, Value, str, obj, arr, Fields, end, nil, field, put}
use beyond_ads_dns.Js.Path.{prop}
use beyond_ads_dns.Js.Convert.{text_or, text_or_default, items_of, list_of, items}
use beyond_ads_dns.Normalize.Entries.{LocalRecord, normalize_local_records}
use beyond_ads_dns.Address.Duration.{is_positive_duration}
use beyond_ads_dns.Config.Store.{Yaml, Disk, Faults}
use beyond_ads_dns.Routes.Settings.{Ctx, Reply, assign}
use beyond_ads_dns.Routes.Update.{or_falsy, saved_reply, show, change}

abbrev pub record_value : LocalRecord → Value
record_value r =
    obj (field "name" (str r.name) (field "type" (str r.type) (field "value" (str r.value) end)))

abbrev pub records_value : List LocalRecord → Value
records_value rs = arr (items (map record_value rs))

abbrev pub records_view : Value → Value
records_view config = obj (field "records" (or_falsy (prop "local_records" config) (arr nil)) end)

-- `{ ...(old || {}), k: v, … }`: a spread of a value that is no object is taken as empty here.
abbrev pub spread : Value → Fields
spread (obj o) = o
spread v = end

abbrev pub response_view : Value → Value
response_view config =
    let response = or_falsy (prop "response" config) (obj end) in
    obj (
      field "blocked" (or_falsy (prop "blocked" response) (str (text "nxdomain")))
        (field "blocked_ttl" (or_falsy (prop "blocked_ttl" response) (str (text "1h"))) end))

-- The write of the two fields, with the reply.
unfoldable pub write_response : Text → Text → Value → Option (Value × Value)
write_response blocked ttl config =
    Option.map
      (λ c. (c, saved_reply (field "blocked" (str blocked) (field "blocked_ttl" (str ttl) end))))
      (assign "response"
        (obj (
          put "blocked_ttl" (str ttl)
            (put "blocked" (str blocked) (spread (prop "response" config)))))
        config)

module _ (number_text : Number → Text) where
  unfoldable pub read_record : Value → LocalRecord
  unfolding text_or
  read_record v = record {
    name = text_or number_text (prop "name" v) "";
    type = text_or number_text (prop "type" v) "";
    value = text_or number_text (prop "value" v) "";
  }

  -- The records of a body, normalised.
  unfoldable pub read_records : Value → List LocalRecord
  unfolding read_record normalize_local_records list_of
  read_records body =
      normalize_local_records (map read_record (list_of (items_of (prop "records" body))))

  abbrev pub read_blocked : Value → Text
  read_blocked body = lower (trim (text_or_default number_text (prop "blocked" body) "nxdomain"))

  abbrev pub read_blocked_ttl : Value → Text
  read_blocked_ttl body = trim (text_or_default number_text (prop "blocked_ttl" body) "1h")

-- `net.isIP` is a parameter, as the test that it gives an address family.
abbrev pub is_response : (Text → Bool) → Text → Text → Bool
is_response is_ip blocked ttl =
    ((blocked =? text "nxdomain") || is_ip blocked) && is_positive_duration ttl

module _ {Content : Type 0} (yaml : Yaml Content) (ctx : Ctx) where
  unfoldable pub get_local_records : Disk Content → Reply Value
  unfolding show
  get_local_records disk = show yaml ctx records_view disk

  unfoldable pub put_local_records :
      (Number → Text) → Value → Text → Faults Content → Disk Content → Reply Value × Disk Content
  unfolding change read_records
  put_local_records number_text body suffix f disk =
      let records = records_value (read_records number_text body) in
      change yaml ctx true
        (λ config.
          Option.map (λ c. (c, saved_reply (field "records" records end)))
            (assign "local_records" records config))
        suffix f disk

  unfoldable pub get_response : Disk Content → Reply Value
  unfolding show
  get_response disk = show yaml ctx response_view disk

  unfoldable pub put_response :
      (Number → Text)
      → (Text → Bool)
      → Value
      → Text
      → Faults Content
      → Disk Content
      → Reply Value × Disk Content
  unfolding change write_response text_or_default
  put_response number_text is_ip body suffix f disk =
      let blocked = read_blocked number_text body in
      let ttl = read_blocked_ttl number_text body in
      change yaml ctx (is_response is_ip blocked ttl) (write_response blocked ttl) suffix f disk
