-- ===== src/Tests/Lists.antt =====
-- The local records and the blocklists on one file.
use mathlib.Core.Option
use beyond_ads_dns.Prelude.{◌≡◌, refl, some, []}
use beyond_ads_dns.Js.Text.{text, lower, trim}
use beyond_ads_dns.Js.Value.{
  Value, Fields, obj, arr, str, cons, nil, field, end, put, find, IsDistinct,
}
use beyond_ads_dns.Js.Convert.{items}
use beyond_ads_dns.Config.Merge.{merge_deep}
use beyond_ads_dns.Config.Secrets.{remove_password_fields}
use beyond_ads_dns.Config.Store.{Disk, IsPlain, read_override_config, read_yaml_file}
use beyond_ads_dns.Routes.Settings.{ok}
use beyond_ads_dns.Routes.Update.{saved_reply}
use beyond_ads_dns.Routes.Dns.{records_value, read_records, put_local_records, get_local_records}
use beyond_ads_dns.Routes.Dns.Laws.{get_local_records-put_local_records}
use beyond_ads_dns.Routes.Blocklists.{put_blocklists}
use beyond_ads_dns.Routes.Blocklists.Laws.{SavesBlocklists, put_blocklists_saved}
use beyond_ads_dns.Routes.Edit.{modify}
use beyond_ads_dns.Routes.Edit.Laws.{EditsOrRefuses, modify-EditsOrRefuses}
use beyond_ads_dns.Control.Errors.{log_level_edit}
use beyond_ads_dns.Tests.Files.{plain_yaml, no_fault, ctx, print_number, number_of_nothing}

abbrev old : Fields
old = field "safe_search" (str (text "on")) end

abbrev old_file : Disk Value
old_file p = some (obj old)

abbrev record_fields : Fields
record_fields =
    field "name" (str (text "NAS.home"))
      (field "type" (str (text "a")) (field "value" (str (text "10.0.0.2")) end))

abbrev records_body : Value
records_body = obj (field "records" (arr (cons (obj record_fields) nil)) end)

abbrev source_fields : Fields
source_fields = field "name" (str []) (field "url" (str (text "https://lists.example/ads")) end)

abbrev blocklists_body : Value
blocklists_body = obj (field "sources" (arr (cons (obj source_fields) nil)) end)

records_saved :
    (put_local_records plain_yaml ctx print_number records_body (text "1.a") no_fault old_file).0
    ≡ ok
        (saved_reply (field "records" (records_value (read_records print_number records_body)) end))
unfolding put_local_records merge_deep Option.bind
records_saved = refl

abbrev cleaned : Value
cleaned =
    remove_password_fields
      (obj (put "local_records" (records_value (read_records print_number records_body)) old))

cleaned-IsPlain : IsPlain cleaned
unfolding remove_password_fields put read_records items lower trim
cleaned-IsPlain = (tt, (((tt, (tt, (tt, tt))), tt), tt))

cleaned-IsDistinct : IsDistinct cleaned
unfolding remove_password_fields put read_records find
cleaned-IsDistinct = (refl, tt, (refl, tt, tt))

get_local_records-put_local_records_example :
    (saved_reply (field "records" (records_value (read_records print_number records_body)) end)
      ≡ saved_reply (field "records" (records_value (read_records print_number records_body)) end))
    × (get_local_records plain_yaml ctx
          (put_local_records plain_yaml ctx print_number records_body
            (text "1.a")
            no_fault
            old_file).1
        ≡ ok (obj (field "records" (records_value (read_records print_number records_body)) end)))
unfolding read_yaml_file read_override_config
get_local_records-put_local_records_example =
    get_local_records-put_local_records plain_yaml ctx print_number records_body (text "1.a")
      no_fault old_file
      (saved_reply (field "records" (records_value (read_records print_number records_body)) end))
      old end records_saved refl cleaned-IsPlain cleaned-IsDistinct refl

put_blocklists_saved_example :
    SavesBlocklists plain_yaml ctx print_number number_of_nothing blocklists_body old old_file (
      put_blocklists plain_yaml ctx print_number number_of_nothing blocklists_body
        (text "1.a")
        no_fault
        old_file)
unfolding read_override_config
put_blocklists_saved_example =
    put_blocklists_saved plain_yaml ctx print_number number_of_nothing blocklists_body (text "1.a")
      no_fault old_file old refl

modify-EditsOrRefuses_example :
    EditsOrRefuses plain_yaml ctx
      (log_level_edit plain_yaml ctx print_number (text "debug"))
      old_file
      (modify plain_yaml ctx
        (log_level_edit plain_yaml ctx print_number (text "debug"))
        (text "1.a")
        no_fault
        old_file)
modify-EditsOrRefuses_example =
    modify-EditsOrRefuses plain_yaml ctx (log_level_edit plain_yaml ctx print_number (text "debug"))
      (text "1.a") no_fault old_file
