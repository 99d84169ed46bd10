-- ===== src/Tests/Files.antt =====
-- What the tests take for the packages and the browser: contents that are values, a disk without faults,
-- an address that `new URL` reads, numbers that print as "0".
use beyond_ads_dns.Prelude.{refl, Option, none, some, [], false}
use beyond_ads_dns.Js.Text.{Text, text}
use beyond_ads_dns.Js.Value.{Number, Value, undefined}
use beyond_ads_dns.Config.Store.{Yaml, Faults}
use beyond_ads_dns.Routes.Settings.{Ctx}
use beyond_ads_dns.Address.Upstream.{Url}

abbrev pub plain_yaml : Yaml Value
plain_yaml = record {
  parse = λ content. some content;
  stringify = λ v. v;
  parse-stringify = λ v p. refl;
}

abbrev pub no_fault : Faults Value
no_fault = record {
  mkdir_fails = false;
  write_fails = false;
  rename_fails = false;
  unlink_fails = false;
  partial = undefined;
}

abbrev pub ctx : Ctx
ctx = record { default_config_path = []; config_path = text "config.yaml" }

abbrev pub plain_url : Text → Option Url
plain_url s = some (record {
  protocol = text "https:";
  hostname = text "dns.example";
  pathname = text "/dns-query";
})

abbrev pub print_number : Number → Text
print_number n = text "0"

abbrev pub no_number : Text → Option Number
no_number s = none

abbrev pub number_of_nothing : Value → Option Number
number_of_nothing v = none
