-- ===== src/Routes/Edit/Laws.antt =====
-- What an edit of the configuration file comes to.
use beyond_ads_dns.Prelude.{◌≡◌, ◌⊎◌, inl, inr, refl, ◌≢◌, Option, none, some, List, if_both, ℕ}
use beyond_ads_dns.Js.Text.{Text, is_empty}
use beyond_ads_dns.Js.Value.{Value}
use beyond_ads_dns.Config.Secrets.{remove_password_fields}
use beyond_ads_dns.Config.Store.{
  Yaml, Disk, Faults, Outcome, done, mkdir_failed, write_failed, rename_failed,
  read_override_config, write_config,
}
use beyond_ads_dns.Config.Store.Laws.{write_config_outcome}
use beyond_ads_dns.Routes.Settings.{Ctx, Reply, ok, refused, written}
use beyond_ads_dns.Routes.Edit.{Edit, thrown, denied, saves, edit_read, carry_out, modify}

module _ {Content : Type 0} (yaml : Yaml Content) (ctx : Ctx) where
  open ctx use {config_path}

  -- A handler either saved what its edit made of the override, without the secrets, and gave the reply
  -- of the edit; or it answered with a status, and the file is as it was.
  abbrev pub EditsOrRefuses : (Value → Edit) → Disk Content → Reply Value × Disk Content → Type 0
  EditsOrRefuses edit disk (answer, after) =
      ((config : Value) × (w : Value) × (reply : Value) × (read_override_config yaml config_path
            disk
          ≡ some config)
        × (edit config ≡ saves w reply)
        × (answer ≡ ok reply)
        × (after config_path ≡ some (yaml.stringify (remove_password_fields w))))
      ⊎ ((status : ℕ) × (answer ≡ refused status) × (after config_path ≡ disk config_path))

  module _ (edit : Value → Edit) (disk : Disk Content) where
    written-EditsOrRefuses :
        (config w reply : Value) (r : Outcome × List (Disk Content) × Disk Content)
        → read_override_config yaml config_path disk ≡ some config
        → edit config ≡ saves w reply
        → (r.0 ≡ done → r.2 config_path ≡ some (yaml.stringify (remove_password_fields w)))
          × (r.0 ≢ done → r.2 config_path ≡ disk config_path)
        → EditsOrRefuses edit disk (written reply r)
    written-EditsOrRefuses config w reply (done, _, d) read e (h, k) =
        inl (config, w, reply, read, e, refl, h refl)
    written-EditsOrRefuses config w reply (mkdir_failed, _, d) read e (h, k) =
        inr (500, refl, k (λ e. cc))
    written-EditsOrRefuses config w reply (write_failed, _, d) read e (h, k) =
        inr (500, refl, k (λ e. cc))
    written-EditsOrRefuses config w reply (rename_failed, _, d) read e (h, k) =
        inr (500, refl, k (λ e. cc))

    carry_out-EditsOrRefuses :
        (suffix : Text) (f : Faults Content) (config : Value) (e : Edit)
        → read_override_config yaml config_path disk ≡ some config
        → edit config ≡ e
        → EditsOrRefuses edit disk (carry_out yaml ctx suffix f e disk)
    carry_out-EditsOrRefuses suffix f config thrown read e = inr (500, refl, refl)
    carry_out-EditsOrRefuses suffix f config (denied status) read e = inr (status, refl, refl)
    carry_out-EditsOrRefuses suffix f config (saves w reply) read e =
        written-EditsOrRefuses config w reply (write_config yaml suffix f config_path w disk) read e
          (write_config_outcome yaml suffix f config_path w disk)

    read-EditsOrRefuses :
        (suffix : Text) (f : Faults Content) (o : Option Value)
        → read_override_config yaml config_path disk ≡ o
        → EditsOrRefuses edit disk (carry_out yaml ctx suffix f (edit_read edit o) disk)
    read-EditsOrRefuses suffix f none read = inr (500, refl, refl)
    read-EditsOrRefuses suffix f (some config) read =
        carry_out-EditsOrRefuses suffix f config (edit config) read refl

  -- Whatever the edit, a handler either saved what it made of the override, without the secrets, and gave
  -- its reply; or it answered with a status, and the configuration file is as it was.
  pub modify-EditsOrRefuses :
      (edit : Value → Edit) (suffix : Text) (f : Faults Content) (disk : Disk Content)
      → EditsOrRefuses edit disk (modify yaml ctx edit suffix f disk)
  unfolding modify
  modify-EditsOrRefuses edit suffix f disk =
      if_both (EditsOrRefuses edit disk) (is_empty config_path) (inr (400, refl, refl))
        (read-EditsOrRefuses edit disk suffix f (read_override_config yaml config_path disk) refl)
