-- ===== src/Routes/Update/Laws.antt =====
-- What a change of the configuration file comes to, and what a read of it then shows.
use mathlib.Core.Option
use beyond_ads_dns.Prelude.{
  String, ◌≡◌, ◌⊎◌, inl, inr, refl, sym, ap, ap₂, ◌∙◌, ◌≢◌, Bool, true, false, ◌&&◌, Option, none,
  some, List, Bool-cases, if◌then◌else◌, arith, ℕ,
}
use beyond_ads_dns.Js.Text.{Text, is_empty}
use beyond_ads_dns.Js.Value.{
  Value, Fields, obj, arr, Items, is_truthy, IsDistinct, find, or_undefined,
}
use beyond_ads_dns.Js.Path.{prop}
use beyond_ads_dns.Config.Merge.{merge_deep}
use beyond_ads_dns.Config.Merge.Laws.{merged_entry, merge_deep-find}
use beyond_ads_dns.Config.Secrets.{remove_password_fields}
use beyond_ads_dns.Config.Store.{
  Yaml, Disk, Faults, IsPlain, Outcome, done, mkdir_failed, write_failed, rename_failed,
  parsed_or_object, merge_reads, read_yaml_file, read_override_config, read_merged_config,
  write_config,
}
use beyond_ads_dns.Config.Store.Laws.{write_config_outcome}
use beyond_ads_dns.Routes.Settings.{
  Ctx, Reply, ok, refused, is_replica, or_empty, ok_or_500, written, has_no_path,
}
use beyond_ads_dns.Routes.Update.{show, store_edit, change}

merged_entry-array :
    (b o : Option Value) (xs : Items)
    → or_undefined o ≡ arr xs
    → or_undefined (merged_entry b o) ≡ arr xs
unfolding merge_deep
merged_entry-array b none xs e = cc
merged_entry-array b (some (arr ys)) xs e = e
merged_entry-array b (some _) xs e = cc

-- An array of the override takes the place of what the default configuration has under its key.
pub prop-merge_deep :
    (b : Fields) (k : String) (w : Value) (xs : Items)
    → IsDistinct w
    → prop k w ≡ arr xs
    → prop k (merge_deep (obj b) w) ≡ arr xs
prop-merge_deep b k (obj o) xs d h =
    let (r, e, at) = merge_deep-find b o d in
    rw e (rw (at k) (merged_entry-array (find k b) (find k o) xs h))
prop-merge_deep b k _ xs d h = cc

abbrev first_or {ℓ} : {A : Type ℓ} → A → Option (A × A) → A
first_or d none = d
first_or d (some (a, b)) = a

abbrev second_or {ℓ} : {A : Type ℓ} → A → Option (A × A) → A
second_or d none = d
second_or d (some (a, b)) = b

some_pair {ℓ} :
    {A : Type ℓ} (a c b d : A)
    → ◌≡◌ {A = Option (A × A)} (some (a, b)) (some (c, d))
    → (a ≡ c) × (b ≡ d)
some_pair a c b d e = (ap (first_or a) e, ap (second_or b) e)

and-false : (a b : Bool) → b ≡ false → (a && b) ≡ false
and-false a b h = ground arith

guarded {ℓ κ} :
    {R : Type ℓ} (P : R → Type κ) (a b c : Bool) {x y z : R}
    → P x
    → P y
    → (b ≡ false → c ≡ true → P z)
    → P (if a then x else if b then y else if c then z else x)
guarded P true b c h k m = h
guarded P false true c h k m = k
guarded P false false true h k m = m refl refl
guarded P false false false h k m = h

module _ {Content : Type 0} (yaml : Yaml Content) (ctx : Ctx) where
  open ctx use {default_config_path, config_path}

  -- A change either answered with the reply of its edit, on no replica and with a body that passed the
  -- tests, and the configuration file holds the edited override without its secrets; or it answered
  -- with a status, and the file is as it was.
  abbrev pub ChangesOrRefuses :
      Bool → (Value → Option (Value × Value)) → Disk Content → Reply Value × Disk Content → Type 0
  ChangesOrRefuses valid edit disk (answer, after) =
      ((w : Value) × (reply : Value) × (Option.bind (read_override_config yaml config_path disk)
            edit
          ≡ some (w, reply))
        × (valid ≡ true)
        × (is_replica (or_empty (read_merged_config yaml default_config_path config_path disk))
            ≡ false)
        × (answer ≡ ok reply)
        × (after config_path ≡ some (yaml.stringify (remove_password_fields w))))
      ⊎ ((status : ℕ) × (answer ≡ refused status) × (after config_path ≡ disk config_path))

  module _ (valid : Bool) (edit : Value → Option (Value × Value)) (disk : Disk Content)
      (valid_here : valid ≡ true)
      (primary : is_replica
          (or_empty (read_merged_config yaml default_config_path config_path disk))
        ≡ false) where
    written-ChangesOrRefuses :
        (w reply : Value) (r : Outcome × List (Disk Content) × Disk Content)
        → Option.bind (read_override_config yaml config_path disk) edit ≡ some (w, reply)
        → (r.0 ≡ done → r.2 config_path ≡ some (yaml.stringify (remove_password_fields w)))
          × (r.0 ≢ done → r.2 config_path ≡ disk config_path)
        → ChangesOrRefuses valid edit disk (written reply r)
    written-ChangesOrRefuses w reply (done, _, d) e (h, k) =
        inl (w, reply, e, valid_here, primary, refl, h refl)
    written-ChangesOrRefuses w reply (mkdir_failed, _, d) e (h, k) = inr (500, refl, k (λ e. cc))
    written-ChangesOrRefuses w reply (write_failed, _, d) e (h, k) = inr (500, refl, k (λ e. cc))
    written-ChangesOrRefuses w reply (rename_failed, _, d) e (h, k) = inr (500, refl, k (λ e. cc))

    store_edit-ChangesOrRefuses :
        (suffix : Text) (f : Faults Content) (o : Option (Value × Value))
        → Option.bind (read_override_config yaml config_path disk) edit ≡ o
        → ChangesOrRefuses valid edit disk (store_edit yaml ctx suffix f o disk)
    store_edit-ChangesOrRefuses suffix f none e = inr (500, refl, refl)
    store_edit-ChangesOrRefuses suffix f (some (w, reply)) e =
        written-ChangesOrRefuses w reply (write_config yaml suffix f config_path w disk) e
          (write_config_outcome yaml suffix f config_path w disk)

  pub change-ChangesOrRefuses :
      (valid : Bool) (edit : Value → Option (Value × Value)) (suffix : Text) (f : Faults Content)
      (disk : Disk Content)
      → ChangesOrRefuses valid edit disk (change yaml ctx valid edit suffix f disk)
  unfolding change
  change-ChangesOrRefuses valid edit suffix f disk =
      guarded (ChangesOrRefuses valid edit disk) (is_empty config_path)
        (is_replica (or_empty (read_merged_config yaml default_config_path config_path disk))) valid
        (inr (400, refl, refl)) (inr (403, refl, refl))
        (λ p v.
          store_edit-ChangesOrRefuses valid edit disk v p suffix f
            (Option.bind (read_override_config yaml config_path disk) edit) refl)

  written-reads :
      (disk : Disk Content) (w : Value)
      → is_empty config_path ≡ false
      → disk config_path ≡ some (yaml.stringify w)
      → IsPlain w
      → is_truthy w ≡ true
      → read_yaml_file yaml config_path disk ≡ some w
  unfolding read_yaml_file
  written-reads disk w named holds plain here =
      rw (named, holds) (ap parsed_or_object (yaml.parse-stringify w plain) ∙ rw here refl)

  merged_reads :
      (disk : Disk Content) (base w : Value)
      → is_empty config_path ≡ false
      → disk config_path ≡ some (yaml.stringify w)
      → IsPlain w
      → is_truthy w ≡ true
      → read_yaml_file yaml default_config_path disk ≡ some base
      → read_merged_config yaml default_config_path config_path disk ≡ some (merge_deep base w)
  unfolding read_merged_config
  merged_reads disk base w named holds plain here default =
      ap₂ merge_reads default (written-reads disk w named holds plain here)

  -- After a file is written with a plain object, a view reads the merge of the default with it.
  pub show-written :
      (view : Value → Value) (disk : Disk Content) (base w : Value)
      → is_empty config_path ≡ false
      → disk config_path ≡ some (yaml.stringify w)
      → IsPlain w
      → is_truthy w ≡ true
      → read_yaml_file yaml default_config_path disk ≡ some base
      → show yaml ctx view disk ≡ ok (view (merge_deep base w))
  unfolding show
  show-written view disk base w named holds plain here default =
      ap (λ o. if has_no_path yaml ctx then refused 400 else ok_or_500 (Option.map view o))
        (merged_reads disk base w named holds plain here default)
      ∙ ap (λ c. if c then refused 400 else ok (view (merge_deep base w)))
          (and-false (is_empty default_config_path) (is_empty config_path) named)

  -- An answer that is no refusal comes from a change with a file to write.
  pub change-named :
      (valid : Bool) (edit : Value → Option (Value × Value)) (suffix : Text) (f : Faults Content)
      (disk : Disk Content) (reply : Value)
      → (change yaml ctx valid edit suffix f disk).0 ≡ ok reply
      → is_empty config_path ≡ false
  unfolding change
  change-named valid edit suffix f disk reply h = elim (Bool-cases (is_empty config_path)) [
    | inl e ↦ cc (rw e at h)
    | inr e ↦ e
  ]

  saved_pair :
      (edit : Value → Option (Value × Value)) (c w told v reply : Value)
      → edit c ≡ some (w, told)
      → Option.bind (some c) edit ≡ some (v, reply)
      → (w ≡ v) × (told ≡ reply)
  unfolding Option.bind
  saved_pair edit c w told v reply h e = some_pair w v told reply (sym h ∙ e)

  -- The answer of a change whose edit is known, where it is no refusal.
  pub saved_edit :
      (valid : Bool) (edit : Value → Option (Value × Value)) (disk : Disk Content)
      (c w told : Value) (r : Reply Value × Disk Content) (reply : Value)
      → ChangesOrRefuses valid edit disk r
      → r.0 ≡ ok reply
      → read_override_config yaml config_path disk ≡ some c
      → edit c ≡ some (w, told)
      → (valid ≡ true)
        × (is_replica (or_empty (read_merged_config yaml default_config_path config_path disk))
            ≡ false)
        × (reply ≡ told)
        × (r.1 config_path ≡ some (yaml.stringify (remove_password_fields w)))
  saved_edit valid edit disk c w told (answer, after) reply
        (inl (v, given, e, here, primary, said, holds)) h read edited =
      let (same, also) = saved_pair edit c w told v given edited (rw read at e) in
      (here, primary, cc (said, h, also), rw same holds)
  saved_edit valid edit disk c w told (answer, after) reply (inr (status, said, _)) h read edited =
      cc
