-- ===== src/Tests/Syncing.antt =====
-- The tokens and the settings of the synchronisation of a primary with one token.
use mathlib.Core.Option
use beyond_ads_dns.Prelude.{◌≡◌, refl, true, none, some, []}
use beyond_ads_dns.Prelude.Int.{pos}
use beyond_ads_dns.Js.Text.{text}
use beyond_ads_dns.Js.Value.{
  Value, Fields, Items, bool, str, obj, arr, cons, nil, field, end, find, strict_equal,
}
use beyond_ads_dns.Js.Parse.{parse_int}
use beyond_ads_dns.Routes.Update.{saved_reply}
use beyond_ads_dns.Routes.Edit.{saves}
use beyond_ads_dns.Routes.Sync.{
  sync_of, tokens_of, token_value, push, count, create_token_edit, revoke_token_edit,
}
use beyond_ads_dns.Routes.Sync.Tokens.{new_token, revoke_token-create_token, revoke_token-no_number}
use beyond_ads_dns.Tests.Files.{print_number}

abbrev first_token : Value
first_token = token_value (text "ab12") (text "Replica") (text "2026-01-01")

abbrev one_token : Items
one_token = cons first_token nil

abbrev primary : Fields
primary =
    field "sync" (obj (field "role" (str (text "primary")) (field "tokens" (arr one_token) end)))
      end

abbrev named : Value
named = obj (field "name" (str (text "Attic")) end)

index_of_second : parse_int (text "1") ≡ some (pos (count one_token))
unfolding parse_int count
index_of_second = refl

no_index : parse_int (text "latest") ≡ none
unfolding parse_int
no_index = refl

revoke_token-create_token_example :
    (c : Value) × (reply : Value) × (d : Value) × (create_token_edit print_number named
        (text "cd34")
        (text "2026-02-02")
        (obj primary)
      ≡ saves c reply)
    × (tokens_of (sync_of c)
        ≡ arr (push (new_token print_number named (text "cd34") (text "2026-02-02")) one_token))
    × (revoke_token_edit (text "1") c ≡ saves d (saved_reply end))
    × (tokens_of (sync_of d) ≡ arr one_token)
unfolding strict_equal find
revoke_token-create_token_example =
    revoke_token-create_token print_number named (text "cd34") (text "2026-02-02") primary one_token
      (text "1") refl refl index_of_second

revoke_token-no_number_example :
    (c : Value) × (revoke_token_edit (text "latest") (obj primary) ≡ saves c (saved_reply end))
    × (tokens_of (sync_of c) ≡ arr nil)
unfolding strict_equal find
revoke_token-no_number_example =
    revoke_token-no_number primary first_token nil (text "latest") refl refl no_index

-- The change to a replica that names its primary only.
abbrev to_replica : Value
to_replica = obj (
    field "enabled" (bool true) (
      field "role" (str (text "replica")) (field "primary_url" (str (text "http://one:8080")) end)))

abbrev replica : Fields
replica = field "role" (str (text "replica")) (
    field "tokens" (arr one_token) (
      field "enabled" (bool true) (
        field "primary_url" (str (text "http://one:8080"))
          (field "sync_token" (str []) (field "sync_interval" (str (text "60s")) end)))))
