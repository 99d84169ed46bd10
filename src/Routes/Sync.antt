-- ===== src/Routes/Sync.antt =====
-- web/server/src/routes/sync.js: the tokens and the settings of the synchronisation between a primary
-- and its replicas. The random identifier and the time of a token are arguments, as is the printing of a
-- number; a `sync` that is a text is taken as an object without entries where it is spread.
pub mod Laws
pub mod Steps
pub mod Tokens
use mathlib.Core.Option
use beyond_ads_dns.Prelude.{
  ℕ, zero, suc, String, Bool, true, false, not, ◌&&◌, ◌||◌, Option, none, some, List, [], ◌∷◌, ◌++◌,
  ◌=?◌, nat-Eq, list-Eq, leb, length, if◌then◌else◌,
}
use beyond_ads_dns.Prelude.Int.{ℤ, pos, negsuc}
use beyond_ads_dns.Js.Text.{Text, text, is_empty, trim, lower}
use beyond_ads_dns.Js.Value.{
  Number, Value, undefined, null, bool, num, str, obj, arr, Items, Fields, end, nil, cons, field,
  put, is_truthy, strict_equal,
}
use beyond_ads_dns.Js.Path.{prop, is_undefined}
use beyond_ads_dns.Js.Convert.{text_of, text_or}
use beyond_ads_dns.Js.Parse.{parse_int}
use beyond_ads_dns.Config.Store.{Yaml, Disk, Faults, read_merged_config}
use beyond_ads_dns.Routes.Settings.{Ctx, Reply, refused, ok_or_500, assign, has_no_path}
use beyond_ads_dns.Routes.Update.{or_falsy, saved_reply}
use beyond_ads_dns.Routes.Dns.{spread}
use beyond_ads_dns.Routes.Edit.{Edit, thrown, denied, saves, saves_all, modify}

abbrev pub sync_of : Value → Value
sync_of config = or_falsy (prop "sync" config) (obj end)

abbrev pub has_role : String → Value → Bool
has_role role sync = strict_equal (prop "role" sync) (str (text role))

abbrev pub tokens_of : Value → Value
tokens_of sync = or_falsy (prop "tokens" sync) (arr nil)

unfoldable pub push : Value → Items → Items
push v nil = cons v nil
push v (cons x xs) = cons x (push v xs)

unfoldable pub count : Items → ℕ
count nil = 0
count (cons x xs) = suc (count xs)

-- `tokens.splice(n, 1)`
unfoldable pub remove_at : ℕ → Items → Items
remove_at n nil = nil
remove_at zero (cons x xs) = xs
remove_at (suc n) (cons x xs) = cons x (remove_at n xs)

unfoldable pub token_value : Text → Text → Text → Value
token_value id name now = obj (
    field "id" (str id)
      (field "name" (str name) (field "created_at" (str now) (field "last_used" (str []) end))))

abbrev pub said : String → Value
said message = saved_reply (field "message" (str (text message)) end)

-- The new token among the others, where these are an array: else `push` throws.
abbrev pub add_token : Value → Value → Value → Value → Edit
add_token config sync (arr tokens) token =
    saves_all
      (assign "sync"
        (obj (
          put "tokens" (arr (push token tokens))
            (put "role" (str (text "primary")) (put "enabled" (bool true) (spread sync)))))
        config)
      (saved_reply (
        field "token" (prop "id" token) (
          field "name" (prop "name" token)
            (field "message" (str (text "Copy the token now; it will not be shown again.")) end))))
add_token config sync _ token = thrown

-- `index < 0 || index >= tokens.length`, where NaN is neither.
abbrev pub is_out_of_range : Option ℤ → ℕ → Bool
is_out_of_range none n = false
is_out_of_range (some (pos i)) n = leb n i
is_out_of_range (some (negsuc i)) n = true

-- `splice` takes NaN as 0.
abbrev pub splice_index : Option ℤ → ℕ
splice_index (some (pos i)) = i
splice_index _ = 0

abbrev pub is_negative : Option ℤ → Bool
is_negative (some (negsuc i)) = true
is_negative _ = false

-- Only arrays and texts have a length here: an object with a field `length` is taken as one without.
abbrev pub drop_token : Value → Value → Value → Option ℤ → Edit
drop_token config sync (arr tokens) index =
    if is_out_of_range index (count tokens)
    then denied 404
    else saves_all
        (assign "sync"
          (obj (put "tokens" (arr (remove_at (splice_index index) tokens)) (spread sync))) config)
        (saved_reply end)
drop_token config sync (str s) index =
    if is_out_of_range index (length s) then denied 404 else thrown
drop_token config sync _ index = if is_negative index then denied 404 else thrown

unfoldable pub revoke_token_edit : Text → Value → Edit
unfolding parse_int count remove_at strict_equal
revoke_token_edit index config =
    if has_role "replica" (sync_of config)
    then denied 400
    else drop_token config (sync_of config) (tokens_of (sync_of config)) (parse_int index)

-- `sync[k] = v`, where the steps before did not throw.
abbrev pub assign_if : Bool → String → Value → Option Value → Option Value
assign_if true k v sync = Option.bind sync (assign k v)
assign_if false k v sync = sync

abbrev pub sync_prop : String → Option Value → Value
sync_prop k none = undefined
sync_prop k (some sync) = prop k sync

abbrev pub is_enabled_as : String → Option Value → Bool
is_enabled_as role sync =
    is_truthy (sync_prop "enabled" sync) && strict_equal (sync_prop "role" sync) (str (text role))

abbrev pub is_array : Value → Bool
is_array (arr xs) = true
is_array _ = false

-- `if (sync.enabled && sync.role === "primary" && !Array.isArray(sync.tokens)) sync.tokens = [];`
unfoldable pub with_tokens : Option Value → Option Value
unfolding put strict_equal
with_tokens sync =
    assign_if (is_enabled_as "primary" sync && not (is_array (sync_prop "tokens" sync))) "tokens"
      (arr nil) sync

-- `if (!sync.enabled) sync.role = sync.role || "primary";`
unfoldable pub with_role : Option Value → Option Value
unfolding put
with_role sync =
    assign_if (not (is_truthy (sync_prop "enabled" sync))) "role"
      (or_falsy (sync_prop "role" sync) (str (text "primary"))) sync

abbrev pub is_role : Text → Bool
is_role r = (r =? text "primary") || (r =? text "replica")

module _ (number_text : Number → Text) where
  abbrev pub trimmed : Value → Value
  trimmed v = str (trim (text_of number_text v))

  unfoldable pub create_token_edit : Value → Text → Text → Value → Edit
  unfolding text_or token_value push strict_equal
  create_token_edit body id now config =
      if has_role "replica" (sync_of config)
      then denied 400
      else add_token config (sync_of config) (tokens_of (sync_of config))
          (token_value id (trim (text_or number_text (prop "name" body) "Replica")) now)

  -- `if (body[k] !== undefined) sync[k] = String(body[k]).trim();`
  abbrev pub set_sent : String → Value → Option Value → Option Value
  set_sent k body sync = assign_if (not (is_undefined (prop k body))) k (trimmed (prop k body)) sync

  -- The same, with `sync[k] = sync[k] || d` where the body leaves the key out.
  abbrev pub set_or_keep : String → Value → Text → Option Value → Option Value
  set_or_keep k body d sync =
      assign_if true k
        (if is_undefined (prop k body)
          then or_falsy (sync_prop k sync) (str d)
          else trimmed (prop k body))
        sync

  unfoldable pub sync_settings_edit : Value → Value → Edit
  unfolding text_of strict_equal
  sync_settings_edit body config =
      if not (has_role "replica" (sync_of config))
      then denied 400
      else saves_all
          (Option.bind
            (set_sent "stats_source_url" body (
              set_sent "sync_interval" body
                (set_sent "sync_token" body (set_sent "primary_url" body (some (sync_of config))))))
            (λ sync. assign "sync" sync config))
          (said "Restart the application to apply sync settings.")

  -- The settings of a replica that is enabled.
  unfoldable pub with_replica : Value → Option Value → Option Value
  unfolding text_of put strict_equal
  with_replica body sync =
      if is_enabled_as "replica" sync
      then set_sent "stats_source_url" body (
          set_or_keep "sync_interval" body (text "60s")
            (set_or_keep "sync_token" body [] (set_or_keep "primary_url" body [] sync)))
      else sync

  -- The steps after the role.
  unfoldable pub finish_sync : Value → Option Value → Option Value
  unfolding with_tokens with_replica with_role
  finish_sync body sync = with_role (with_replica body (with_tokens sync))

  abbrev pub sent_role : Value → Text
  sent_role body = trim (lower (text_of number_text (prop "role" body)))

  abbrev pub with_enabled : Value → Value → Option Value
  with_enabled body sync =
      assign_if (not (is_undefined (prop "enabled" body))) "enabled"
        (bool (is_truthy (prop "enabled" body))) (some sync)

  abbrev pub save_sync : Value → Value → Option Value → Edit
  save_sync body config sync =
      saves_all (Option.bind (finish_sync body sync) (λ s. assign "sync" s config))
        (said "Sync configuration saved. Restart the application to apply.")

  -- The assignment to `enabled` throws before the role is tested.
  abbrev pub check_role : Value → Value → Option Value → Edit
  check_role body config none = thrown
  check_role body config (some sync) =
      if is_undefined (prop "role" body)
      then save_sync body config (some sync)
      else if is_role (sent_role body)
      then save_sync body config (assign "role" (str (sent_role body)) sync)
      else denied 400

  unfoldable pub sync_config_edit : Value → Value → Edit
  unfolding text_of put finish_sync
  sync_config_edit body config = check_role body config (with_enabled body (sync_of config))

module _ {Content : Type 0} (yaml : Yaml Content) (ctx : Ctx) (number_text : Number → Text) where
  unfoldable pub create_token :
      Value → Text → Text → Text → Faults Content → Disk Content → Reply Value × Disk Content
  unfolding modify create_token_edit
  create_token body id now = modify yaml ctx (create_token_edit number_text body id now)

  unfoldable pub revoke_token :
      Text → Text → Faults Content → Disk Content → Reply Value × Disk Content
  unfolding modify revoke_token_edit
  revoke_token index = modify yaml ctx (revoke_token_edit index)

  unfoldable pub put_sync_settings :
      Value → Text → Faults Content → Disk Content → Reply Value × Disk Content
  unfolding modify sync_settings_edit
  put_sync_settings body = modify yaml ctx (sync_settings_edit number_text body)

  unfoldable pub put_sync_config :
      Value → Text → Faults Content → Disk Content → Reply Value × Disk Content
  unfolding modify sync_config_edit
  put_sync_config body = modify yaml ctx (sync_config_edit number_text body)
