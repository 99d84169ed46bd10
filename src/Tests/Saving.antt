-- ===== src/Tests/Saving.antt =====
-- The settings handlers on one file.
use beyond_ads_dns.Config.Merge.{merge_deep}
use beyond_ads_dns.Prelude.{list_eq, ◌≡◌, ◌⊎◌, refl, true, false, some, List, String, []}
use beyond_ads_dns.Js.Text.{text, is_empty}
use beyond_ads_dns.Js.Value.{strict_equal, Value, bool, str, obj, Fields, end, field}
use beyond_ads_dns.Js.Path.{get_path}
use beyond_ads_dns.Config.Secrets.{
  remove_password_fields, redis_password, query_store_password, control_token,
}
use beyond_ads_dns.Config.Secrets.Laws.{masked, IsPublic}
use beyond_ads_dns.Tests.Files.{plain_yaml, no_fault, ctx}
use beyond_ads_dns.Config.Store.{Disk, read_override_config, read_merged_config}
use beyond_ads_dns.Routes.Settings.{
  ok, refused, is_replica, or_empty, get_config, safe_search_saved, safe_search_value, assign_read,
  put_safe_search, get_safe_search, export_config,
}
use beyond_ads_dns.Routes.Settings.Laws.{
  get_config-get_path, SavesOrRefuses, put_safe_search-SavesOrRefuses,
}

abbrev token : Fields
token = field "token" (str (text "secret")) end

abbrev one_file : Disk Value
one_file p = some (obj (field "control" (obj token) end))

abbrev replica_file : Disk Value
replica_file p = some (
    obj (
      field "sync" (obj (field "enabled" (bool true) (field "role" (str (text "replica")) end)))
        end))

abbrev body : Value
body = obj (field "enabled" (bool true) (field "bing" (bool false) end))

masked_test :
    get_config plain_yaml ctx one_file
    ≡ ok (obj (field "control" (obj (field "token" (str (text "***")) end)) end))
unfolding get_config merge_deep
masked_test = refl

get_config-get_path_example :
    (merged : Value) × (read_merged_config plain_yaml [] (text "config.yaml") one_file
      ≡ some merged)
    × (get_path redis_password
          (obj (field "control" (obj (field "token" (str (text "***")) end)) end))
        ≡ masked (get_path redis_password merged))
    × (get_path query_store_password
          (obj (field "control" (obj (field "token" (str (text "***")) end)) end))
        ≡ masked (get_path query_store_password merged))
    × (get_path control_token
          (obj (field "control" (obj (field "token" (str (text "***")) end)) end))
        ≡ masked (get_path control_token merged))
    × ((q : List String)
        → IsPublic q
        → get_path q (obj (field "control" (obj (field "token" (str (text "***")) end)) end))
          ≡ get_path q merged)
get_config-get_path_example =
    get_config-get_path plain_yaml ctx one_file
      (obj (field "control" (obj (field "token" (str (text "***")) end)) end)) masked_test

put_test :
    get_safe_search plain_yaml ctx
      (put_safe_search plain_yaml ctx (text "1.a") no_fault body one_file).1
    ≡ ok (safe_search_value body)
unfolding get_safe_search put_safe_search merge_deep list_eq remove_password_fields
put_test = refl

replica_test :
    put_safe_search plain_yaml ctx (text "1.a") no_fault body replica_file
    ≡ (refused 403, replica_file)
unfolding put_safe_search merge_deep strict_equal
replica_test = refl

export_test : export_config plain_yaml ctx true one_file ≡ ok (obj end)
unfolding export_config
export_test = refl

put_safe_search-SavesOrRefuses_example :
    SavesOrRefuses plain_yaml ctx
      (assign_read
        (read_override_config plain_yaml (text "config.yaml") one_file)
        "safe_search"
        (safe_search_value body))
      (safe_search_saved (safe_search_value body))
      one_file
      (put_safe_search plain_yaml ctx (text "1.a") no_fault body one_file)
    × ((is_empty (text "config.yaml") ≡ true)
        ⊎ (is_replica (or_empty (read_merged_config plain_yaml [] (text "config.yaml") one_file))
            ≡ false)
        ⊎ (put_safe_search plain_yaml ctx (text "1.a") no_fault body one_file
            ≡ (refused 403, one_file)))
put_safe_search-SavesOrRefuses_example =
    put_safe_search-SavesOrRefuses plain_yaml ctx (text "1.a") no_fault body one_file
