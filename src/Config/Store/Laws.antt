-- ===== src/Config/Store/Laws.antt =====
-- Whoever reads the configuration file meets the old content or the whole new one.
use beyond_ads_dns.Prelude.{
  ◌≡◌, ◌≢◌, ◌⊎◌, inl, inr, refl, ap, ◌∙◌, true, false, Option, none, some, List, String, ◌++◌, ◌=?◌,
  nat-Eq, list-Eq, list_eq_iff, All, arith, Bool-cases, if_both, length, length-append,
}
use beyond_ads_dns.Js.Text.{Text, text, is_empty}
use beyond_ads_dns.Js.Value.{Value, undefined, is_truthy}
use beyond_ads_dns.Js.Path.{get_path}
use beyond_ads_dns.Config.Secrets.{redis_password, query_store_password, control_token}
use beyond_ads_dns.Config.Secrets.Laws.{IsPublic, remove_password_fields-get_path}
use beyond_ads_dns.Config.Secrets.{remove_password_fields}
use beyond_ads_dns.Config.Store.{
  IsPlain, Yaml, Disk, write, Faults, Outcome, done, mkdir_failed, write_failed, rename_failed,
  tmp_path, parsed_or_object, read_content, read_override_config, write_config,
}

tmp_path-ne : (path suffix : Text) → (tmp_path path suffix =? path) ≡ false
tmp_path-ne path suffix = elim (Bool-cases (tmp_path path suffix =? path)) [
  | inl same ↦
      let e : length (tmp_path path suffix) ≡ length path =
        ap length ((list_eq_iff (tmp_path path suffix) path).0 same) in
      absurd (
        omega (
          arith,
          e,
          length-append {0} path (text ".tmp." ++ suffix),
          length-append {0} (text ".tmp.") suffix,
        ))
  | inr other ↦ other
]

path-ne-tmp : (path suffix : Text) → (path =? tmp_path path suffix) ≡ false
path-ne-tmp path suffix = ground (
  arith,
  tmp_path-ne path suffix,
  list_eq_iff path (tmp_path path suffix),
  list_eq_iff (tmp_path path suffix) path,
)

module _ {Content : Type 0} (yaml : Yaml Content) (suffix : Text) (f : Faults Content) (path : Text)
    (config : Value) (disk : Disk Content) where
  open yaml use {stringify}

  -- The configuration file is old or whole and new, and no file but it and the temporary one differs.
  abbrev pub IsConsistent : Disk Content → Type 0
  IsConsistent d =
      ((d path ≡ disk path) ⊎ (d path ≡ some (stringify (remove_password_fields config))))
      × ((p : Text) → (path =? p) ≡ false → (tmp_path path suffix =? p) ≡ false → d p ≡ disk p)

  write-tmp_path-IsConsistent :
      (content : Option Content) (d : Disk Content)
      → IsConsistent d
      → IsConsistent (write (tmp_path path suffix) content d)
  write-tmp_path-IsConsistent content d (old_or_new, others) =
      (rw (tmp_path-ne path suffix) old_or_new, λ p h k. rw k (others p h k))

  write-path-IsConsistent :
      (d : Disk Content)
      → IsConsistent d
      → IsConsistent (write path (some (stringify (remove_password_fields config))) d)
  write-path-IsConsistent d (old_or_new, others) =
      (inr (rw ((list_eq_iff path path).1 refl) refl), λ p h k. rw h (others p h k))

  -- While the configuration is written, every disk that a reader can meet has in the configuration
  -- file what it had before, or the whole text of the configuration without its secrets, and every
  -- file but it and the temporary one is as it was.
  pub write_config_atomic : All IsConsistent (write_config yaml suffix f path config disk).1
  unfolding write_config
  write_config_atomic =
      let Good = λ (r : Outcome × List (Disk Content) × Disk Content). All IsConsistent r.1 in
      let content = stringify (remove_password_fields config) in
      let start : IsConsistent disk = (inl refl, λ p h k. refl) in
      let begun = write-tmp_path-IsConsistent (some f.partial) disk start in
      let written = write-tmp_path-IsConsistent (some content) disk start in
      let gone = write-tmp_path-IsConsistent none _ written in
      let renamed = write-tmp_path-IsConsistent none _ (write-path-IsConsistent _ written) in
      if_both Good f.mkdir_fails (start, tt)
        (if_both Good f.write_fails (start, (begun, tt))
          (if_both Good f.rename_fails
            (start, (begun, (written, (if_both IsConsistent f.unlink_fails written gone, tt))))
            (start, (begun, (written, (renamed, tt))))))

  abbrev Ended : Outcome × List (Disk Content) × Disk Content → Type 0
  Ended (done, _, d) = d path ≡ some (stringify (remove_password_fields config))
  Ended (mkdir_failed, _, d) = d path ≡ disk path
  Ended (write_failed, _, d) = d path ≡ disk path
  Ended (rename_failed, _, d) = d path ≡ disk path

  keeps_path :
      (content : Option Content) (d : Disk Content)
      → write (tmp_path path suffix) content d path ≡ d path
  keeps_path content d = rw (tmp_path-ne path suffix) refl

  new_path : (content : Option Content) (d : Disk Content) → write path content d path ≡ content
  new_path content d = rw ((list_eq_iff path path).1 refl) refl

  write_config-Ended : Ended (write_config yaml suffix f path config disk)
  unfolding write_config
  write_config-Ended =
      let content = stringify (remove_password_fields config) in
      let tmp = tmp_path path suffix in
      let written = write tmp (some content) disk in
      if_both Ended f.mkdir_fails refl (
        if_both Ended f.write_fails (keeps_path (some f.partial) disk) (
          if_both Ended f.rename_fails
            (if_both (λ (d : Disk Content). d path ≡ disk path) f.unlink_fails
              (keeps_path (some content) disk)
              (keeps_path none written ∙ keeps_path (some content) disk))
            (keeps_path none (write path (some content) written)
              ∙ new_path (some content) written)))

  Ended-done :
      (r : Outcome × List (Disk Content) × Disk Content)
      → Ended r
      → ((r.0 ≡ done) → r.2 path ≡ some (stringify (remove_password_fields config)))
        × ((r.0 ≢ done) → r.2 path ≡ disk path)
  Ended-done (done, _, d) h = (λ e. h, λ e. absurd (e refl))
  Ended-done (mkdir_failed, _, d) h = (λ e. cc, λ e. h)
  Ended-done (write_failed, _, d) h = (λ e. cc, λ e. h)
  Ended-done (rename_failed, _, d) h = (λ e. cc, λ e. h)

  -- After a write that ended well the configuration file holds the text of the configuration without
  -- its secrets; after one that failed it holds what it held before.
  pub write_config_outcome :
      ((write_config yaml suffix f path config disk).0 ≡ done
        → (write_config yaml suffix f path config disk).2 path
          ≡ some (stringify (remove_password_fields config)))
      × ((write_config yaml suffix f path config disk).0 ≢ done
          → (write_config yaml suffix f path config disk).2 path ≡ disk path)
  write_config_outcome = Ended-done (write_config yaml suffix f path config disk) write_config-Ended

  read_content_written :
      (v : Value) → IsPlain v → is_truthy v ≡ true → read_content yaml (some (stringify v)) ≡ some v
  read_content_written v plain here =
      ap parsed_or_object (yaml.parse-stringify v plain) ∙ rw here refl

  -- What was written is read back, without its secrets: nothing under the path of a secret, and the
  -- written value under every path that parts from those; the configuration is an object, and free of
  -- `undefined` once its secrets are gone.
  pub read-write_config :
      (write_config yaml suffix f path config disk).0 ≡ done
      → is_empty path ≡ false
      → IsPlain (remove_password_fields config)
      → is_truthy (remove_password_fields config) ≡ true
      → (v : Value) × (read_override_config yaml path
            (write_config yaml suffix f path config disk).2
          ≡ some v)
        × (get_path redis_password v ≡ undefined)
        × (get_path query_store_password v ≡ undefined)
        × (get_path control_token v ≡ undefined)
        × ((q : List String) → IsPublic q → get_path q v ≡ get_path q config)
  unfolding read_override_config
  read-write_config ended named plain here =
      let (a, b, c, d) = remove_password_fields-get_path config in
      (
        remove_password_fields config,
        rw (named, write_config_outcome.0 ended)
            (read_content_written (remove_password_fields config) plain here),
        a,
        b,
        c,
        d,
      )
