-- ===== src/Routes/Settings/Laws.antt =====
-- What the settings handlers reply, and what they leave in the configuration file.
use beyond_ads_dns.Prelude.{
  ℕ, String, Bool, true, false, ◌≡◌, ◌≢◌, ◌⊎◌, inl, inr, refl, ap, ◌∙◌, Option, none, some, List,
  if◌then◌else◌, if_both,
}
use mathlib.Core.Option
use beyond_ads_dns.Js.Text.{Text, is_empty}
use beyond_ads_dns.Js.Value.{Value}
use beyond_ads_dns.Js.Path.{get_path}
use beyond_ads_dns.Config.Secrets.{
  redis_password, query_store_password, control_token, redact_config, remove_password_fields,
}
use beyond_ads_dns.Config.Secrets.Laws.{masked, IsPublic, redact_config-get_path}
use beyond_ads_dns.Config.Store.{
  Yaml, Disk, Faults, Outcome, done, mkdir_failed, write_failed, rename_failed,
  read_override_config, read_merged_config, write_config,
}
use beyond_ads_dns.Config.Store.Laws.{write_config_outcome}
use beyond_ads_dns.Routes.Settings.{
  Ctx, Reply, ok, refused, is_replica, or_empty, ok_or_500, written, has_no_path, get_config, save,
  safe_search_saved, safe_search_value, assign_read, put_safe_search,
}

ok_of_option {ℓ} :
    {A : Type ℓ} (B : Type ℓ) (f : A → B) (o : Option A) (b : Bool) (v : B)
    → (if b then refused 400 else ok_or_500 (Option.map f o)) ≡ ok v
    → (a : A) × (o ≡ some a) × (v ≡ f a)
ok_of_option B f o true v h = cc
ok_of_option B f none false v h = cc
ok_of_option B f (some a) false v h = (a, refl, cc)

second_guard {ℓ} :
    {A : Type ℓ} (b c : Bool) (x y z : A)
    → (b ≡ true) ⊎ (c ≡ false) ⊎ ((if b then x else if c then y else z) ≡ y)
second_guard true c x y z = inl refl
second_guard false true x y z = inr (inr refl)
second_guard false false x y z = inr (inl refl)

module _ {Content : Type 0} (yaml : Yaml Content) (ctx : Ctx) where
  open ctx use {default_config_path, config_path}

  -- When `GET /api/config` answers with a configuration, it is the merged one with "***" under the
  -- path of each secret that this has, nothing where it has none, and the merged configuration's own
  -- value under every path that parts from those three.
  pub get_config-get_path :
      (disk : Disk Content) (v : Value)
      → get_config yaml ctx disk ≡ ok v
      → (merged : Value) × (read_merged_config yaml default_config_path config_path disk
          ≡ some merged)
        × (get_path redis_password v ≡ masked (get_path redis_password merged))
        × (get_path query_store_password v ≡ masked (get_path query_store_password merged))
        × (get_path control_token v ≡ masked (get_path control_token merged))
        × ((q : List String) → IsPublic q → get_path q v ≡ get_path q merged)
  unfolding get_config
  get_config-get_path disk v h =
      let (merged, reads, e) =
        ok_of_option Value redact_config
          (read_merged_config yaml default_config_path config_path disk) (has_no_path yaml ctx) v
          h in
      let (a, b, c, d) = redact_config-get_path merged in
      (
        merged,
        reads,
        ap (get_path redis_password) e ∙ a,
        ap (get_path query_store_password) e ∙ b,
        ap (get_path control_token) e ∙ c,
        λ q p. ap (get_path q) e ∙ d q p,
      )

  -- A handler either answered `reply` and the configuration file holds what it wrote, a value without
  -- its secrets, or it answered with a status and the file is as it was.
  abbrev pub SavesOrRefuses :
      Option Value → Value → Disk Content → Reply Value × Disk Content → Type 0
  SavesOrRefuses config reply disk (answer, after) =
      ((w : Value) × (config ≡ some w)
        × (answer ≡ ok reply)
        × (after config_path ≡ some (yaml.stringify (remove_password_fields w))))
      ⊎ ((status : ℕ) × (answer ≡ refused status) × (after config_path ≡ disk config_path))

  written-SavesOrRefuses :
      (w reply : Value) (disk : Disk Content) (r : Outcome × List (Disk Content) × Disk Content)
      → (r.0 ≡ done → r.2 config_path ≡ some (yaml.stringify (remove_password_fields w)))
        × (r.0 ≢ done → r.2 config_path ≡ disk config_path)
      → SavesOrRefuses (some w) reply disk (written reply r)
  written-SavesOrRefuses w reply disk (done, _, d) (h, k) = inl (w, refl, refl, h refl)
  written-SavesOrRefuses w reply disk (mkdir_failed, _, d) (h, k) = inr (500, refl, k (λ e. cc))
  written-SavesOrRefuses w reply disk (write_failed, _, d) (h, k) = inr (500, refl, k (λ e. cc))
  written-SavesOrRefuses w reply disk (rename_failed, _, d) (h, k) = inr (500, refl, k (λ e. cc))

  save-SavesOrRefuses :
      (suffix : Text) (f : Faults Content) (config : Option Value) (reply : Value)
      (disk : Disk Content)
      → SavesOrRefuses config reply disk (save yaml ctx suffix f config reply disk)
  save-SavesOrRefuses suffix f none reply disk = inr (500, refl, refl)
  save-SavesOrRefuses suffix f (some w) reply disk =
      written-SavesOrRefuses w reply disk (write_config yaml suffix f config_path w disk)
        (write_config_outcome yaml suffix f config_path w disk)

  -- `PUT /api/dns/safe-search` either answers with the three new flags and leaves in the configuration
  -- file the override with those flags under `safe_search`, without its secrets; or it answers with a
  -- status and leaves that file as it was. On a replica it answers 403 and changes no file.
  pub put_safe_search-SavesOrRefuses :
      (suffix : Text) (f : Faults Content) (body : Value) (disk : Disk Content)
      → SavesOrRefuses
          (assign_read
            (read_override_config yaml config_path disk)
            "safe_search"
            (safe_search_value body))
          (safe_search_saved (safe_search_value body))
          disk
          (put_safe_search yaml ctx suffix f body disk)
        × ((is_empty config_path ≡ true)
            ⊎ (is_replica (or_empty (read_merged_config yaml default_config_path config_path disk))
                ≡ false)
            ⊎ (put_safe_search yaml ctx suffix f body disk ≡ (refused 403, disk)))
  unfolding put_safe_search
  put_safe_search-SavesOrRefuses suffix f body disk = (
    (let config =
          assign_read (read_override_config yaml config_path disk) "safe_search"
            (safe_search_value body) in
        let Good = SavesOrRefuses config (safe_search_saved (safe_search_value body)) disk in
        if_both Good (is_empty config_path) (inr (400, refl, refl)) (
          if_both Good
            (is_replica (or_empty (read_merged_config yaml default_config_path config_path disk)))
            (inr (403, refl, refl))
            (save-SavesOrRefuses suffix f config (safe_search_saved (safe_search_value body))
              disk))),
    second_guard (is_empty config_path)
        (is_replica (or_empty (read_merged_config yaml default_config_path config_path disk))) _ _
        _,
  )
