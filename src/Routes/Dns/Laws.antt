-- ===== src/Routes/Dns/Laws.antt =====
-- Local records that were saved are shown again.
use mathlib.Core.Option
use beyond_ads_dns.Prelude.{◌≡◌, inl, refl, ap, ◌∙◌, true, Option, some, [], ◌∷◌, String, map}
use beyond_ads_dns.Js.Text.{Text}
use beyond_ads_dns.Js.Value.{
  Number, Value, Fields, Items, obj, arr, field, end, put, is_truthy, IsDistinct,
}
use beyond_ads_dns.Js.Value.Laws.{find-put}
use beyond_ads_dns.Js.Path.{prop}
use beyond_ads_dns.Js.Convert.{items}
use beyond_ads_dns.Config.Merge.{merge_deep}
use beyond_ads_dns.Config.Secrets.{remove_password_fields}
use beyond_ads_dns.Config.Secrets.Laws.{remove_password_fields-get_path, keys_differ}
use beyond_ads_dns.Config.Store.{Yaml, Disk, Faults, IsPlain, read_yaml_file, read_override_config}
use beyond_ads_dns.Routes.Settings.{Ctx, ok, assign}
use beyond_ads_dns.Routes.Update.{saved_reply, change}
use beyond_ads_dns.Routes.Update.Laws.{
  prop-merge_deep, saved_edit, change-ChangesOrRefuses, change-named, show-written,
}
use beyond_ads_dns.Routes.Dns.{
  record_value, records_value, records_view, read_records, get_local_records, put_local_records,
}

array_is_truthy : (k : String) (v : Value) (xs : Items) → prop k v ≡ arr xs → is_truthy v ≡ true
array_is_truthy k (obj o) xs h = refl
array_is_truthy k _ xs h = cc

view_of_array :
    (v : Value) (xs : Items)
    → prop "local_records" v ≡ arr xs
    → records_view v ≡ obj (field "records" (arr xs) end)
view_of_array v xs h = rw h refl

module _ {Content : Type 0} (yaml : Yaml Content) (ctx : Ctx) where
  open ctx use {default_config_path, config_path}

  abbrev records_edit : Value → Value → Option (Value × Value)
  records_edit records config =
      Option.map (λ c. (c, saved_reply (field "records" records end)))
        (assign "local_records" records config)

  prop-saved :
      (o : Fields) (xs : Items)
      → prop "local_records" (remove_password_fields (obj (put "local_records" (arr xs) o)))
        ≡ arr xs
  prop-saved o xs =
      (remove_password_fields-get_path (obj (put "local_records" (arr xs) o))).3
        ("local_records" ∷ [])
        (
          inl (keys_differ "cache" "local_records" refl),
          inl (keys_differ "query_store" "local_records" refl),
          inl (keys_differ "control" "local_records" refl),
        )
      ∙ simp (find-put)

  -- After `PUT /api/dns/local-records` succeeded over an override that is an object, its reply has the
  -- normalised records of the body, and `GET /api/dns/local-records` shows exactly these, whatever the
  -- default configuration, an object, holds; the written override is free of `undefined` and of
  -- repeated keys once its secrets are gone.
  pub get_local_records-put_local_records :
      (number_text : Number → Text) (body : Value) (suffix : Text) (f : Faults Content)
      (disk : Disk Content) (reply : Value) (o base : Fields)
      → (put_local_records yaml ctx number_text body suffix f disk).0 ≡ ok reply
      → read_override_config yaml config_path disk ≡ some (obj o)
      → IsPlain (
          remove_password_fields
            (obj (put "local_records" (records_value (read_records number_text body)) o)))
      → IsDistinct (
          remove_password_fields
            (obj (put "local_records" (records_value (read_records number_text body)) o)))
      → read_yaml_file yaml default_config_path
          (put_local_records yaml ctx number_text body suffix f disk).1
        ≡ some (obj base)
      → (reply ≡ saved_reply (field "records" (records_value (read_records number_text body)) end))
        × (get_local_records yaml ctx (put_local_records yaml ctx number_text body suffix f disk).1
            ≡ ok (obj (field "records" (records_value (read_records number_text body)) end)))
  unfolding put_local_records get_local_records
  get_local_records-put_local_records number_text body suffix f disk reply o base done read plain
        distinct default =
      let xs = items (map record_value (read_records number_text body)) in
      let edit = records_edit (arr xs) in
      let r = change yaml ctx true edit suffix f disk in
      let w = remove_password_fields (obj (put "local_records" (arr xs) o)) in
      let (_, _, told, holds) =
        saved_edit yaml ctx true edit disk (obj o) (obj (put "local_records" (arr xs) o))
          (saved_reply (field "records" (arr xs) end)) r reply
          (change-ChangesOrRefuses yaml ctx true edit suffix f disk) done read refl in
      (
        told,
        show-written yaml ctx records_view r.1 (obj base) w
              (change-named yaml ctx true edit suffix f disk reply done) holds plain
              (array_is_truthy "local_records" w xs (prop-saved o xs)) default
            ∙ ap ok (
                view_of_array (merge_deep (obj base) w) xs
                  (prop-merge_deep base "local_records" w xs distinct (prop-saved o xs))),
      )
