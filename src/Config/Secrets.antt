-- ===== src/Config/Secrets.antt =====
-- `redactConfig`, `removePasswordFields` and `removeInstanceSpecificDetails` of
-- web/server/src/utils/config.js.
pub mod Laws
use beyond_ads_dns.Prelude.{String, Bool, true, false, List, [], ◌∷◌, if◌then◌else◌}
use beyond_ads_dns.Js.Text.{text}
use beyond_ads_dns.Js.Value.{Value, str, obj, Fields, remove, find}
use beyond_ads_dns.Js.Path.{get_path, is_undefined, set_path, drop_path}

abbrev pub redis_password : List String
redis_password = "cache" ∷ "redis" ∷ "password" ∷ []

abbrev pub query_store_password : List String
query_store_password = "query_store" ∷ "password" ∷ []

abbrev pub control_token : List String
control_token = "control" ∷ "token" ∷ []

abbrev pub ui_hostname : List String
ui_hostname = "ui" ∷ "hostname" ∷ []

-- One `if (copy?.a?.b !== undefined) copy.a.b = "***"`.
unfoldable pub hide : List String → Value → Value
unfolding set_path
hide p v = if is_undefined (get_path p v) then v else set_path p (str (text "***")) v

unfoldable pub redact_config : Value → Value
unfolding hide
redact_config v = hide control_token (hide query_store_password (hide redis_password v))

-- One `if (config.a?.b !== undefined)` with the deletions under it.
unfoldable pub forget : List String → Value → Value
unfolding drop_path
forget p v = if is_undefined (get_path p v) then v else drop_path p v

unfoldable pub remove_password_fields : Value → Value
unfolding forget
remove_password_fields (obj o) =
    forget control_token (forget query_store_password (forget redis_password (obj o)))
remove_password_fields v = v

-- `sync` is deleted whole, and the hostname as the secrets are.
unfoldable pub remove_instance_specific_details : Value → Value
unfolding forget
remove_instance_specific_details (obj o) = forget ("sync" ∷ []) (forget ui_hostname (obj o))
remove_instance_specific_details v = v
