-- ===== src/Config/Secrets/Laws.antt =====
-- No secret is shown or written, and everything else stays.
use beyond_ads_dns.Prelude.{
  String, ◌≡◌, ◌≢◌, refl, ap, ◌∙◌, true, false, List, [], ◌∷◌, if◌then◌else◌, Bool-cases, inl, inr,
  ◌==◌, eq_iff,
}
use beyond_ads_dns.Js.Text.{text}
use beyond_ads_dns.Js.Value.{Value, undefined, str, obj}
use beyond_ads_dns.Js.Path.{get_path, is_undefined}
use beyond_ads_dns.Js.Path.Laws.{
  IsApart, get_path-set_path_self, get_path-set_path_apart, get_path-drop_path_self,
  get_path-drop_path_apart,
}
use beyond_ads_dns.Config.Secrets.{
  redis_password, query_store_password, control_token, ui_hostname, hide, redact_config, forget,
  remove_password_fields, remove_instance_specific_details,
}

abbrev pub masked : Value → Value
masked v = if is_undefined v then undefined else str (text "***")

undefined_of_test : (v : Value) → is_undefined v ≡ true → v ≡ undefined
undefined_of_test undefined h = refl
undefined_of_test v h = cc

get_path-hide_self : (p : List String) (v : Value) → get_path p (hide p v) ≡ masked (get_path p v)
unfolding hide
get_path-hide_self p v = elim (Bool-cases (is_undefined (get_path p v))) [
  | inl gone ↦ rw gone (undefined_of_test _ gone)
  | inr here ↦ rw here (get_path-set_path_self p (str (text "***")) v here)
]

get_path-hide_apart :
    (p q : List String) (v : Value) → IsApart p q → get_path q (hide p v) ≡ get_path q v
unfolding hide
get_path-hide_apart p q v h = elim (Bool-cases (is_undefined (get_path p v))) [
  | inl gone ↦ rw gone refl
  | inr here ↦ rw here (get_path-set_path_apart p q (str (text "***")) v h)
]

get_path-forget_self :
    (k : String) (p : List String) (v : Value) → get_path (k ∷ p) (forget (k ∷ p) v) ≡ undefined
unfolding forget
get_path-forget_self k p v = elim (Bool-cases (is_undefined (get_path (k ∷ p) v))) [
  | inl gone ↦ rw gone (undefined_of_test _ gone)
  | inr here ↦ rw here (get_path-drop_path_self k p v)
]

get_path-forget_apart :
    (p q : List String) (v : Value) → IsApart p q → get_path q (forget p v) ≡ get_path q v
unfolding forget
get_path-forget_apart p q v h = elim (Bool-cases (is_undefined (get_path p v))) [
  | inl gone ↦ rw gone refl
  | inr here ↦ rw here (get_path-drop_path_apart p q v h)
]

pub keys_differ : (s t : String) → (s == t) ≡ false → s ≢ t
keys_differ s t h e = cc (h, (eq_iff s t).1 e)

redis_query : IsApart redis_password query_store_password
redis_query = inl (keys_differ "cache" "query_store" refl)

redis_control : IsApart redis_password control_token
redis_control = inl (keys_differ "cache" "control" refl)

query_redis : IsApart query_store_password redis_password
query_redis = inl (keys_differ "query_store" "cache" refl)

query_control : IsApart query_store_password control_token
query_control = inl (keys_differ "query_store" "control" refl)

control_redis : IsApart control_token redis_password
control_redis = inl (keys_differ "control" "cache" refl)

control_query : IsApart control_token query_store_password
control_query = inl (keys_differ "control" "query_store" refl)

sync_hostname : IsApart ("sync" ∷ []) ui_hostname
sync_hostname = inl (keys_differ "sync" "ui" refl)

-- A path that parts from the paths of all secrets.
abbrev pub IsPublic : List String → Type 0
IsPublic q = IsApart redis_password q × IsApart query_store_password q × IsApart control_token q

-- A redacted configuration has "***" under the path of each secret that the configuration has,
-- nothing where it has none, and the configuration's own value under every path that parts from
-- those three.
pub redact_config-get_path :
    (v : Value)
    → (get_path redis_password (redact_config v) ≡ masked (get_path redis_password v))
      × (get_path query_store_password (redact_config v) ≡ masked (get_path query_store_password v))
      × (get_path control_token (redact_config v) ≡ masked (get_path control_token v))
      × ((q : List String) → IsPublic q → get_path q (redact_config v) ≡ get_path q v)
unfolding redact_config
redact_config-get_path v =
    let a = hide redis_password v in
    let b = hide query_store_password a in
    (
      get_path-hide_apart control_token redis_password b control_redis
          ∙ get_path-hide_apart query_store_password redis_password a query_redis
          ∙ get_path-hide_self redis_password v,
      get_path-hide_apart control_token query_store_password b control_query
          ∙ get_path-hide_self query_store_password a
          ∙ ap masked (get_path-hide_apart redis_password query_store_password v redis_query),
      get_path-hide_self control_token b
          ∙ ap masked (
              get_path-hide_apart query_store_password control_token a query_control
              ∙ get_path-hide_apart redis_password control_token v redis_control),
      λ q h.
          get_path-hide_apart control_token q b h.2
          ∙ get_path-hide_apart query_store_password q a h.1
          ∙ get_path-hide_apart redis_password q v h.0,
    )

-- Where the value is no object, it has no property at all.
remove_password_fields-forget :
    (v : Value) (q : List String)
    → get_path q (remove_password_fields v)
      ≡ get_path q (forget control_token (forget query_store_password (forget redis_password v)))
unfolding remove_password_fields forget
remove_password_fields-forget (obj o) q = refl
remove_password_fields-forget _ q = refl

-- The cleaned configuration holds nothing under the path of any secret, and what the configuration
-- held under every path that parts from those three.
pub remove_password_fields-get_path :
    (v : Value)
    → (get_path redis_password (remove_password_fields v) ≡ undefined)
      × (get_path query_store_password (remove_password_fields v) ≡ undefined)
      × (get_path control_token (remove_password_fields v) ≡ undefined)
      × ((q : List String) → IsPublic q → get_path q (remove_password_fields v) ≡ get_path q v)
remove_password_fields-get_path v =
    let a = forget redis_password v in
    let b = forget query_store_password a in
    (
      remove_password_fields-forget v redis_password
          ∙ get_path-forget_apart control_token redis_password b control_redis
          ∙ get_path-forget_apart query_store_password redis_password a query_redis
          ∙ get_path-forget_self "cache" ("redis" ∷ "password" ∷ []) v,
      remove_password_fields-forget v query_store_password
          ∙ get_path-forget_apart control_token query_store_password b control_query
          ∙ get_path-forget_self "query_store" ("password" ∷ []) a,
      remove_password_fields-forget v control_token
          ∙ get_path-forget_self "control" ("token" ∷ []) b,
      λ q h.
          remove_password_fields-forget v q
          ∙ get_path-forget_apart control_token q b h.2
          ∙ get_path-forget_apart query_store_password q a h.1
          ∙ get_path-forget_apart redis_password q v h.0,
    )

remove_instance-forget :
    (v : Value) (q : List String)
    → get_path q (remove_instance_specific_details v)
      ≡ get_path q (forget ("sync" ∷ []) (forget ui_hostname v))
unfolding remove_instance_specific_details forget
remove_instance-forget (obj o) q = refl
remove_instance-forget _ q = refl

-- A configuration that is exported without instance details has no `sync` and no `ui.hostname`, and
-- keeps what it held under every path that parts from those two.
pub remove_instance_specific_details-get_path :
    (v : Value)
    → (get_path ("sync" ∷ []) (remove_instance_specific_details v) ≡ undefined)
      × (get_path ui_hostname (remove_instance_specific_details v) ≡ undefined)
      × ((q : List String)
          → IsApart ("sync" ∷ []) q
          → IsApart ui_hostname q
          → get_path q (remove_instance_specific_details v) ≡ get_path q v)
remove_instance_specific_details-get_path v =
    let a = forget ui_hostname v in
    (
      remove_instance-forget v ("sync" ∷ []) ∙ get_path-forget_self "sync" [] a,
      remove_instance-forget v ui_hostname
          ∙ get_path-forget_apart ("sync" ∷ []) ui_hostname a sync_hostname
          ∙ get_path-forget_self "ui" ("hostname" ∷ []) v,
      λ q h k.
          remove_instance-forget v q
          ∙ get_path-forget_apart ("sync" ∷ []) q a h
          ∙ get_path-forget_apart ui_hostname q v k,
    )
