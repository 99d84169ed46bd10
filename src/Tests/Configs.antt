-- ===== src/Tests/Configs.antt =====
-- The configuration code on two small files.
use beyond_ads_dns.Prelude.{◌≡◌, refl, true, false, some, List, String, All}
use beyond_ads_dns.Prelude.Int.{pos}
use beyond_ads_dns.Js.Text.{Text, text}
use beyond_ads_dns.Js.Value.{
  Value, undefined, bool, num, str, arr, obj, nil, cons, Fields, end, field, find, is_truthy,
  AreDistinct,
}
use beyond_ads_dns.Js.Path.{get_path}
use beyond_ads_dns.Config.Merge.{merge_deep, config_differences}
use beyond_ads_dns.Config.Merge.Export.{merge_deep-config_differences}
use beyond_ads_dns.Config.Secrets.{
  redis_password, query_store_password, control_token, remove_password_fields,
  remove_instance_specific_details,
}
use beyond_ads_dns.Config.Secrets.Laws.{IsPublic}
use beyond_ads_dns.Config.Store.{
  Yaml, Disk, Faults, done, read_override_config, write_config, IsPlain,
}
use beyond_ads_dns.Config.Store.Laws.{IsConsistent, write_config_atomic, read-write_config}

abbrev base_cache : Fields
base_cache = field "size" (num (record { units = pos 100; scale = 0 })) end

abbrev base : Fields
base =
    field "cache" (obj base_cache) (field "upstreams" (arr (cons (str (text "1.1.1.1")) nil)) end)

abbrev redis : Fields
redis = field "address" (str (text "redis:6379")) (field "password" (str (text "hunter2")) end)

abbrev override : Fields
override =
    field "cache" (obj (field "redis" (obj redis) end))
      (field "upstreams" (arr (cons (str (text "9.9.9.9")) nil)) end)

differences_test : config_differences (obj base) (obj base) ≡ obj end
unfolding config_differences
differences_test = refl

secrets_test :
    remove_password_fields (obj override)
    ≡ obj (
        field "cache"
          (obj (field "redis" (obj (field "address" (str (text "redis:6379")) end)) end))
          (field "upstreams" (arr (cons (str (text "9.9.9.9")) nil)) end))
unfolding remove_password_fields
secrets_test = refl

abbrev override_IsDistinct : AreDistinct override
override_IsDistinct = unfold find in (refl, (refl, (refl, tt, (refl, tt, tt)), tt), (refl, tt, tt))

merge_deep-config_differences_example :
    merge_deep (obj base) (config_differences (obj base) (obj override))
    ≡ merge_deep (obj base) (obj override)
merge_deep-config_differences_example =
    merge_deep-config_differences (obj base) (obj override) override_IsDistinct

abbrev instance_config : Value
instance_config = obj (
    field "ui" (obj (field "hostname" (str (text "dns-1")) end))
      (field "sync" (obj (field "enabled" (bool true) end)) (field "cache" (obj base_cache) end)))

instance_test :
    remove_instance_specific_details instance_config ≡ obj (field "cache" (obj base_cache) end)
unfolding remove_instance_specific_details
instance_test = refl

-- Files whose contents are the values themselves.
abbrev plain_yaml : Yaml Value
plain_yaml = record {
  parse = λ content. some content;
  stringify = λ v. v;
  parse-stringify = λ v p. refl;
}

abbrev no_fault : Faults Value
no_fault = record {
  mkdir_fails = false;
  write_fails = false;
  rename_fails = false;
  unlink_fails = false;
  partial = undefined;
}

abbrev rename_fault : Faults Value
rename_fault = record {
  mkdir_fails = false;
  write_fails = false;
  rename_fails = true;
  unlink_fails = true;
  partial = undefined;
}

abbrev path : Text
path = text "override.yaml"

abbrev one_file : Disk Value
one_file p = some (obj base)

write_config_atomic_example :
    All
      (IsConsistent plain_yaml (text "1.a") rename_fault path (obj override) one_file)
      (write_config plain_yaml (text "1.a") rename_fault path (obj override) one_file).1
write_config_atomic_example =
    write_config_atomic plain_yaml (text "1.a") rename_fault path (obj override) one_file

written_ends : (write_config plain_yaml (text "1.a") no_fault path (obj override) one_file).0 ≡ done
unfolding write_config
written_ends = refl

cleaned_IsPlain : IsPlain (remove_password_fields (obj override))
unfolding remove_password_fields
cleaned_IsPlain = (((tt, tt), tt), ((tt, tt), tt))

cleaned_is_truthy : is_truthy (remove_password_fields (obj override)) ≡ true
unfolding remove_password_fields
cleaned_is_truthy = refl

read-write_config_example :
    (v : Value) × (read_override_config plain_yaml path
        (write_config plain_yaml (text "1.a") no_fault path (obj override) one_file).2
      ≡ some v)
    × (get_path redis_password v ≡ undefined)
    × (get_path query_store_password v ≡ undefined)
    × (get_path control_token v ≡ undefined)
    × ((q : List String) → IsPublic q → get_path q v ≡ get_path q (obj override))
read-write_config_example =
    read-write_config plain_yaml (text "1.a") no_fault path (obj override) one_file written_ends
      refl cleaned_IsPlain cleaned_is_truthy
