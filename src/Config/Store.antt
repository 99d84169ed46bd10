-- ===== src/Config/Store.antt =====
-- `readYamlFile`, `readOverrideConfig`, `readMergedConfig` and `writeConfig` of
-- web/server/src/utils/config.js, over a disk that maps paths to contents.
pub mod Laws
use beyond_ads_dns.Prelude.{
  ℕ, Bool, true, false, Option, none, some, List, [], ◌∷◌, ◌++◌, ◌=?◌, nat-Eq, list-Eq,
  if◌then◌else◌, ◌≡◌,
}
use beyond_ads_dns.Js.Text.{Text, text, is_empty}
use beyond_ads_dns.Js.Value.{
  Value, undefined, obj, arr, Items, nil, cons, Fields, end, field, is_truthy,
}
use beyond_ads_dns.Config.Merge.{merge_deep}
use beyond_ads_dns.Config.Secrets.{remove_password_fields}

-- No part is `undefined`, which YAML cannot hold.
abbrev mutual
  pub IsPlain : Value → Type 0
  IsPlain undefined = ⊥
  IsPlain (arr xs) = ArePlainItems xs
  IsPlain (obj o) = ArePlainFields o
  IsPlain _ = Unit

  pub ArePlainItems : Items → Type 0
  ArePlainItems nil = Unit
  ArePlainItems (cons x xs) = IsPlain x × ArePlainItems xs

  pub ArePlainFields : Fields → Type 0
  ArePlainFields end = Unit
  ArePlainFields (field k v o) = IsPlain v × ArePlainFields o

-- The package `yaml`, over a type of file contents: `parse` is `none` where it throws, and reads back
-- what `stringify` wrote.
pub record Yaml (Content : Type 0) : Type 0 where
  pub parse : Content → Option Value
  pub stringify : Value → Content
  pub parse-stringify : (v : Value) → IsPlain v → parse (stringify v) ≡ some v

-- The contents of the files, by path.
abbrev pub Disk : Type 0 → Type 0
Disk Content = Text → Option Content

abbrev pub write : {Content : Type 0} → Text → Option Content → Disk Content → Disk Content
write path content disk p = if path =? p then content else disk p

-- What the file system answers during one call. A write that is under way, or that failed, has left
-- `partial` in the file.
pub record Faults (Content : Type 0) : Type 0 where
  pub mkdir_fails : Bool
  pub write_fails : Bool
  pub rename_fails : Bool
  pub unlink_fails : Bool
  pub partial : Content

pub data Outcome : Type 0 where
  done mkdir_failed write_failed rename_failed : Outcome

-- `${configPath}.tmp.${Date.now()}.${random}`; the suffix is all that follows ".tmp.".
abbrev pub tmp_path : Text → Text → Text
tmp_path path suffix = path ++ (text ".tmp." ++ suffix)

-- `parsed || {}`
abbrev pub or_object : Value → Value
or_object v = if is_truthy v then v else obj end

abbrev pub parsed_or_object : Option Value → Option Value
parsed_or_object none = none
parsed_or_object (some v) = some (or_object v)

-- `mergeDeep(base, override)` of two reads, either of which may throw.
abbrev pub merge_reads : Option Value → Option Value → Option Value
merge_reads none over = none
merge_reads (some base) none = none
merge_reads (some base) (some over) = some (merge_deep base over)

module _ {Content : Type 0} (yaml : Yaml Content) where
  open yaml use {parse, stringify}

  abbrev pub read_content : Option Content → Option Value
  read_content none = some (obj end)
  read_content (some content) = parsed_or_object (parse content)

  -- `none` where the function throws. A missing file (ENOENT) reads as `{}`.
  unfoldable pub read_yaml_file : Text → Disk Content → Option Value
  read_yaml_file path disk = if is_empty path then some (obj end) else read_content (disk path)

  unfoldable pub read_override_config : Text → Disk Content → Option Value
  unfolding read_yaml_file
  read_override_config path disk = read_yaml_file path disk

  unfoldable pub read_merged_config : Text → Text → Disk Content → Option Value
  unfolding read_yaml_file
  read_merged_config default_path path disk =
      merge_reads (read_yaml_file default_path disk) (read_yaml_file path disk)

  -- The outcome, and the disks that a reader could meet, from the first to the one that remains.
  unfoldable pub write_config :
      Text
      → Faults Content
      → Text
      → Value
      → Disk Content
      → Outcome × List (Disk Content) × Disk Content
  write_config suffix f path config disk =
      let content = stringify (remove_password_fields config) in
      let tmp = tmp_path path suffix in
      let begun = write tmp (some f.partial) disk in
      let written = write tmp (some content) disk in
      let cleaned = if f.unlink_fails then written else write tmp none written in
      let renamed = write tmp none (write path (some content) written) in
      if f.mkdir_fails
      then (mkdir_failed, disk ∷ [], disk)
      else if f.write_fails
      then (write_failed, disk ∷ (begun ∷ []), begun)
      else if f.rename_fails
      then (rename_failed, disk ∷ (begun ∷ (written ∷ (cleaned ∷ []))), cleaned)
      else (done, disk ∷ (begun ∷ (written ∷ (renamed ∷ []))), renamed)
