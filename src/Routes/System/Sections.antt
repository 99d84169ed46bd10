-- ===== src/Routes/System/Sections.antt =====
-- The sections of `PUT /api/system/config` in web/server/src/routes/config.js but for `cache`. Each gives
-- the new value under its key, from the section of the body and the old value; `none` where it throws.
use beyond_ads_dns.Prelude.{
  ℕ, ◌*◌, String, ◌&&◌, Option, none, some, List, [], ◌∷◌, ◌=?◌, map, nat-Eq, list-Eq, nat_eq,
  if◌then◌else◌,
}
use beyond_ads_dns.Prelude.Int.{ℤ, pos, negsuc}
use beyond_ads_dns.Js.Text.{Text, text, trim, lower}
use beyond_ads_dns.Js.Value.{
  Number, Value, str, obj, arr, Items, Fields, end, nil, cons, field, put, remove, is_truthy,
  strict_equal,
}
use beyond_ads_dns.Js.Path.{prop}
use beyond_ads_dns.Js.Convert.{text_of, text_or, text_or_default, items, list_of}
use beyond_ads_dns.Address.{split_on}
use beyond_ads_dns.Normalize.Unique.{includes}
use beyond_ads_dns.Config.Options.{
  trim_all, ExclusionInput, array, one_text, neither, parse_exclusion_list,
}
use beyond_ads_dns.Routes.Update.{or_falsy}
use beyond_ads_dns.Routes.System.Reads.{
  nat_value, whole, text_value, put_all, with_fields, is_present, is_true, is_not_false, int_or,
  float_or_one, clamp_listeners, split_commas, lower_or, int_of, trimmed_or, filled_or,
}

abbrev pub listen_value : Value → Value
listen_value (str s) = split_commas s
listen_value (arr xs) = arr xs
listen_value v = arr (items (text_value "0.0.0.0:53" ∷ []))

abbrev pub protocols_value : Value → Value
protocols_value (str s) = arr (items (map (λ t. str (lower t)) (trim_all (split_on b',' s))))
protocols_value v = or_falsy v (arr (items (text_value "udp" ∷ (text_value "tcp" ∷ []))))

-- `v === "json" ? "json" : "text"`
abbrev pub json_or_text : Text → Value
json_or_text s = if s =? text "json" then text_value "json" else text_value "text"

abbrev pub anonymize_modes : List Text
anonymize_modes = text "none" ∷ (text "hash" ∷ (text "truncate" ∷ []))

abbrev pub log_levels : List Text
log_levels = text "debug" ∷ (text "info" ∷ (text "warn" ∷ (text "warning" ∷ (text "error" ∷ []))))

-- `!Number.isNaN(n) && n > 0`, with the number.
abbrev pub positive : Option ℤ → Option ℕ
positive none = none
positive (some (pos n)) = if nat_eq n 0 then none else some n
positive (some (negsuc n)) = none

-- The hours to keep queries, from the hours or else the days of the body.
abbrev pub retention_of : Option ℕ → Option ℕ → ℕ
retention_of (some hours) days = hours
retention_of none (some days) = days * 24
retention_of none none = 168

-- A size that is positive is written, another deletes the key.
abbrev pub put_size : Option ℕ → Fields → Fields
put_size (some n) o = put "max_size_mb" (nat_value n) o
put_size none o = o

abbrev pub drop_size : Option ℕ → Fields → Fields
drop_size (some n) o = o
drop_size none o = remove "max_size_mb" o

module _ (number_text : Number → Text) (parse_float : Text → Option Number) where
  unfoldable pub server_section : Value → Value → Option Value
  unfolding with_fields int_of lower trim_all split_on split_commas strict_equal
  server_section body old = some (
      obj (
        with_fields
          (("listen", listen_value (prop "listen" body))
            ∷ (("protocols", protocols_value (prop "protocols" body))
                ∷ (("read_timeout", or_falsy (prop "read_timeout" body) (text_value "5s"))
                    ∷ (("write_timeout", or_falsy (prop "write_timeout" body) (text_value "5s"))
                        ∷ (("reuse_port", is_true (prop "reuse_port" body))
                            ∷ ((
                              "reuse_port_listeners",
                              nat_value (
                                  clamp_listeners (
                                    int_or 4
                                      (int_of number_text (prop "reuse_port_listeners" body)))),
                            )
                                ∷ []))))))
          old))

  abbrev pub anonymize_value : Value → Value
  anonymize_value v =
      if includes (lower (text_or number_text v "none")) anonymize_modes
      then str (lower (text_of number_text v))
      else text_value "none"

  abbrev pub exclusion_input : Value → ExclusionInput
  exclusion_input (arr xs) = array (map (λ v. text_or number_text v "") (list_of xs))
  exclusion_input (str s) = one_text s
  exclusion_input v = neither

  abbrev pub exclusions : Value → Value
  exclusions v = arr (items (map str (parse_exclusion_list (exclusion_input v))))

  abbrev pub retention_hours : Value → ℕ
  retention_hours body =
      retention_of (positive (int_of number_text (prop "retention_hours" body)))
        (positive (int_of number_text (prop "retention_days" body)))

  abbrev pub max_size : Value → Option ℕ
  max_size body = positive (int_of number_text (prop "max_size_mb" body))

  -- The fields before the size.
  unfoldable pub early_fields : Value → List (String × Value)
  unfolding int_of text_or_default
  early_fields body =
      ("enabled", is_not_false (prop "enabled" body))
      ∷ (("address", or_falsy (prop "address" body) (text_value "http://clickhouse:8123"))
          ∷ (("database", or_falsy (prop "database" body) (text_value "beyond_ads"))
              ∷ (("table", or_falsy (prop "table" body) (text_value "dns_queries"))
                  ∷ (("username", filled_or number_text (prop "username" body) "beyondads")
                      ∷ (("password", str (text_or_default number_text (prop "password" body) ""))
                          ∷ ((
                            "flush_to_store_interval",
                            or_falsy (prop "flush_to_store_interval" body) (text_value "5s"),
                          )
                              ∷ ((
                                "flush_to_disk_interval",
                                or_falsy (prop "flush_to_disk_interval" body) (text_value "5s"),
                              )
                                  ∷ ((
                                    "batch_size",
                                    whole
                                        (int_or 2000 (int_of number_text (prop "batch_size" body))),
                                  )
                                      ∷ (("retention_hours", nat_value (retention_hours body))
                                          ∷ [])))))))))

  -- Those after it.
  unfoldable pub late_fields : Value → List (String × Value)
  unfolding text_of text_or includes lower parse_exclusion_list
  late_fields body =
      ("sample_rate", float_or_one (parse_float (text_of number_text (prop "sample_rate" body))))
      ∷ (("anonymize_client_ip", anonymize_value (prop "anonymize_client_ip" body))
          ∷ (("exclude_domains", exclusions (prop "exclude_domains" body))
              ∷ (("exclude_clients", exclusions (prop "exclude_clients" body)) ∷ [])))

  unfoldable pub store_fields : Value → Value → Fields
  unfolding with_fields put_all int_of early_fields late_fields
  store_fields body old =
      put_all (late_fields body) (put_size (max_size body) (with_fields (early_fields body) old))

  unfoldable pub query_store_section : Value → Value → Option Value
  unfolding store_fields remove
  query_store_section body old = some (
      obj (
        remove "max_size_mb_from_env" (
          remove "retention_days"
            (remove "flush_interval" (drop_size (max_size body) (store_fields body old))))))

  abbrev pub client_value : Value → Value
  client_value entry = obj (
      field "ip" (str (trim (text_or number_text (prop "ip" entry) ""))) (
        field "name" (str (trim (text_or number_text (prop "name" entry) "")))
          (field "group_id" (str (trim (text_or number_text (prop "group_id" entry) ""))) end)))

  -- Only clients with an address and a name are kept.
  unfoldable pub clients_of : Items → Items
  unfolding text_or
  clients_of nil = nil
  clients_of (cons entry rest) =
      let kept = clients_of rest in
      if is_truthy (prop "ip" (client_value entry)) && is_truthy (prop "name" (client_value entry))
      then cons (client_value entry) kept
      else kept

  -- `.map` on a value that is no array throws.
  abbrev pub identified : Value → Value → Option Value
  identified enabled (arr xs) =
      some (obj (field "enabled" enabled (field "clients" (arr (clients_of xs)) end)))
  identified enabled v = none

  unfoldable pub clients_section : Value → Value → Option Value
  unfolding clients_of strict_equal
  clients_section body old =
      identified (is_true (prop "enabled" body)) (or_falsy (prop "clients" body) (arr nil))

  unfoldable pub groups_section : Value → Value → Option Value
  groups_section body old = some body

  unfoldable pub control_section : Value → Value → Option Value
  unfolding with_fields int_of text_or_default strict_equal
  control_section body old = some (
      obj (
        with_fields
          (("enabled", is_not_false (prop "enabled" body))
            ∷ (("listen", or_falsy (prop "listen" body) (text_value "0.0.0.0:8081"))
                ∷ (("token", str (trimmed_or number_text (prop "token" body) ""))
                    ∷ ((
                      "errors",
                      obj (
                          field "enabled" (is_not_false (prop "errors_enabled" body)) (
                            field "retention_days"
                              (whole
                                (int_or 7 (int_of number_text (prop "errors_retention_days" body))))
                              (field "directory"
                                (filled_or number_text (prop "errors_directory" body) "logs")
                                (field "filename_prefix"
                                  (filled_or number_text (prop "errors_filename_prefix" body)
                                    "errors")
                                  end)))),
                    )
                        ∷ []))))
          old))

  -- `(v || "text").toLowerCase() === "json" ? …`, where a value is given; else the old one.
  abbrev pub format_of : Option Text → Option Value
  format_of none = none
  format_of (some s) = some (json_or_text s)

  abbrev pub format_value : Value → Value → Option Value
  format_value v old =
      if is_present v
      then format_of (lower_or v "text")
      else some (or_falsy (prop "format" old) (text_value "text"))

  abbrev pub level_value : Value → Value → Value
  level_value v old =
      if is_present v && includes (lower (text_of number_text v)) log_levels
      then str (lower (text_of number_text v))
      else or_falsy (prop "level" old) (text_value "warning")

  abbrev pub logging_of : Option Value → Value → Option Value
  logging_of none level = none
  logging_of (some format) level = some (obj (field "format" format (field "level" level end)))

  unfoldable pub logging_section : Value → Value → Option Value
  unfolding text_of includes lower
  logging_section body old =
      logging_of (format_value (prop "format" body) old) (level_value (prop "level" body) old)

  abbrev pub request_log_of : Value → Option Text → Option Value
  request_log_of body none = none
  request_log_of body (some format) = some (
      obj (
        field "enabled" (is_true (prop "enabled" body)) (
          field "directory" (filled_or number_text (prop "directory" body) "logs") (
            field "filename_prefix"
              (filled_or number_text (prop "filename_prefix" body) "dns-requests")
              (field "format" (json_or_text format) end)))))

  unfoldable pub request_log_section : Value → Value → Option Value
  unfolding text_or_default strict_equal lower
  request_log_section body old = request_log_of body (lower_or (prop "format" body) "text")

  unfoldable pub ui_section : Value → Value → Option Value
  unfolding with_fields text_or_default
  ui_section body old = some (
      obj (
        with_fields (("hostname", str (trimmed_or number_text (prop "hostname" body) "")) ∷ [])
          old))
