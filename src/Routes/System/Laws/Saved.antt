-- ===== src/Routes/System/Laws/Saved.antt =====
-- What a save of the system's configuration leaves in the configuration file, the removal of the secrets
-- by the write included.
use beyond_ads_dns.Prelude.{
  String, ◌≡◌, ◌≢◌, ◌⊎◌, inl, inr, refl, sym, ap, ◌∙◌, ℕ, true, false, Option, none, some, List, [],
  ◌∷◌, if_both,
}
use beyond_ads_dns.Js.Text.{Text, is_empty}
use beyond_ads_dns.Js.Value.{Number, Value, undefined, obj, Fields, is_truthy}
use beyond_ads_dns.Js.Path.{prop, get_path}
use beyond_ads_dns.Config.Secrets.{
  redis_password, query_store_password, control_token, remove_password_fields,
}
use beyond_ads_dns.Config.Secrets.Laws.{IsPublic, remove_password_fields-get_path}
use beyond_ads_dns.Config.Store.{
  Yaml, Disk, Faults, Outcome, done, mkdir_failed, write_failed, rename_failed,
  read_override_config, read_merged_config, write_config,
}
use beyond_ads_dns.Config.Store.Laws.{write_config_outcome}
use beyond_ads_dns.Routes.Settings.{Ctx, Reply, ok, refused}
use beyond_ads_dns.Control.{Link, Request}
use beyond_ads_dns.Routes.System.{
  system_saved, is_system_replica, system_edit, edit_reads, max_keys_request, after_write,
  save_system, put_system_config,
}
use beyond_ads_dns.Routes.System.Laws.{system_edit-unchanged}

module _ {Content : Type 0} (yaml : Yaml Content) (ctx : Ctx) where
  open ctx use {default_config_path, config_path}

  -- Success, and a file that holds no secret and the old value under the path; or a status, the file as it
  -- was, and no call.
  abbrev pub SavesPath :
      List String → Fields → Disk Content → Reply Value × Disk Content × List Request → Type 0
  SavesPath p o disk (answer, after, calls) =
      ((w : Value) × (answer ≡ ok system_saved)
        × (after config_path ≡ some (yaml.stringify w))
        × (get_path redis_password w ≡ undefined)
        × (get_path query_store_password w ≡ undefined)
        × (get_path control_token w ≡ undefined)
        × (get_path p w ≡ get_path p (obj o)))
      ⊎ ((status : ℕ) × (answer ≡ refused status)
          × (after config_path ≡ disk config_path)
          × (calls ≡ []))

  module _ (p : List String) (public : IsPublic p) (o : Fields) (disk : Disk Content)
      (calls : List Request) where
    after_write-SavesPath :
        (c : Value) (r : Outcome × List (Disk Content) × Disk Content)
        → get_path p c ≡ get_path p (obj o)
        → (r.0 ≡ done → r.2 config_path ≡ some (yaml.stringify (remove_password_fields c)))
          × (r.0 ≢ done → r.2 config_path ≡ disk config_path)
        → SavesPath p o disk (after_write yaml ctx calls r)
    after_write-SavesPath c (done, _, d) e (h, k) =
        let (a, b, t, kept) = remove_password_fields-get_path c in
        inl (remove_password_fields c, refl, h refl, a, b, t, kept p public ∙ e)
    after_write-SavesPath c (mkdir_failed, _, d) e (h, k) = inr (500, refl, k (λ e. cc), refl)
    after_write-SavesPath c (write_failed, _, d) e (h, k) = inr (500, refl, k (λ e. cc), refl)
    after_write-SavesPath c (rename_failed, _, d) e (h, k) = inr (500, refl, k (λ e. cc), refl)

    save_system-SavesPath :
        (suffix : Text) (f : Faults Content) (edited : Option Value)
        → ((c : Value) → edited ≡ some c → get_path p c ≡ get_path p (obj o))
        → SavesPath p o disk (save_system yaml ctx suffix f calls edited disk)
    save_system-SavesPath suffix f none kept = inr (500, refl, refl, refl)
    save_system-SavesPath suffix f (some c) kept =
        after_write-SavesPath c (write_config yaml suffix f config_path c disk) (kept c refl)
          (write_config_outcome yaml suffix f config_path c disk)

  -- Where the configuration can be read and the override is an object, `PUT /api/system/config` either answers
  -- with success, and the file then has no secret, and the old value under every path that parts from
  -- those of the secrets and starts at a section that the body leaves out or, on a replica, at the clients
  -- or their groups; or it answers with a status, leaves the file as it was and calls nothing.
  pub put_system_config-unchanged :
      (number_text : Number → Text) (parse_float : Text → Option Number) (link : Link)
      (body : Value) (suffix : Text) (f : Faults Content) (disk : Disk Content) (merged : Value)
      (o : Fields) (k : String) (q : List String)
      → read_merged_config yaml default_config_path config_path disk ≡ some merged
      → read_override_config yaml config_path disk ≡ some (obj o)
      → IsPublic (k ∷ q)
      → (is_truthy (prop k body) ≡ false)
        ⊎ ((is_system_replica number_text parse_float merged ≡ true)
            × ((k ≡ "client_identification") ⊎ (k ≡ "client_groups")))
      → SavesPath
          (k ∷ q)
          o
          disk
          (put_system_config yaml ctx number_text parse_float link body suffix f disk)
  unfolding put_system_config
  put_system_config-unchanged number_text parse_float link body suffix f disk merged o k q
        reads_merged reads public left =
      if_both (SavesPath (k ∷ q) o disk) (is_empty config_path) (inr (400, refl, refl, refl)) (
        save_system-SavesPath (k ∷ q) public o disk
          (max_keys_request number_text parse_float link body) suffix f
          (edit_reads yaml ctx (λ m c. system_edit number_text parse_float m body c)
            (read_merged_config yaml default_config_path config_path disk)
            (read_override_config yaml config_path disk))
          (λ c e. ap (get_path q) (
            system_edit-unchanged number_text parse_float merged body o c k
              (sym (λ i.
                  edit_reads yaml ctx (λ m d. system_edit number_text parse_float m body d)
                    (reads_merged i) (reads i))
                ∙ e)
              left)))
