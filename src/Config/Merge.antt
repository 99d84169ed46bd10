-- ===== src/Config/Merge.antt =====
-- `mergeDeep` and `getConfigDifferences` of web/server/src/utils/config.js.
pub mod Laws
pub mod Twice
pub mod Export
use beyond_ads_dns.Prelude.{String, Bool, true, false, not, List, Option, none, some, if◌then◌else◌}
use beyond_ads_dns.Js.Value.{
  Value, undefined, null, bool, num, str, arr, obj, Items, Fields, end, field, find, put,
  or_undefined, is_some, same_items, strict_equal,
}

-- The loop of `mergeDeep` reads `base[key]` and writes `merged[key]`; `merged` starts as a copy of
-- `base`. A key that `base` lacks reads as `undefined`.
unfoldable mutual
  unfolding find put

  pub merge_deep : Value → Value → Value
  merge_deep base (arr xs) = arr xs
  merge_deep (obj b) (obj o) = obj (merge_fields b b o)
  merge_deep base (obj o) = obj o
  merge_deep base null = base
  merge_deep base undefined = base
  merge_deep base (bool b) = bool b
  merge_deep base (num n) = num n
  merge_deep base (str s) = str s

  pub merge_fields : Fields → Fields → Fields → Fields
  merge_fields base merged end = merged
  merge_fields base merged (field k undefined o) = merge_fields base merged o
  merge_fields base merged (field k v o) =
      merge_fields base (put k (merge_deep (or_undefined (find k base)) v) merged) o

-- `arraysEqual` compares the JSON texts of two arrays, which are equal exactly when the arrays are:
-- `YAML.parse` gives no `undefined`, and NaN and the infinities are no `Value`.
unfoldable pub arrays_equal : Value → Value → Bool
unfolding same_items
arrays_equal (arr xs) (arr ys) = same_items xs ys
arrays_equal _ _ = false

abbrev pub is_end : Fields → Bool
is_end end = true
is_end (field k v o) = false

-- What the loop of `getConfigDifferences` writes for one entry of the override, or `none`. The
-- entries have distinct keys, so each write adds an entry at the end of `differences`.
unfoldable mutual
  unfolding arrays_equal strict_equal find

  pub config_differences : Value → Value → Value
  config_differences (obj d) (obj o) = obj (differences_fields d o)
  config_differences d o = o

  pub differences_fields : Fields → Fields → Fields
  differences_fields d end = end
  differences_fields d (field k v o) =
      let rest = differences_fields d o in
      let entry = entry_difference (find k d) v in
      elim entry [ none ↦ rest | some w ↦ field k w rest ]

  pub entry_difference : Option Value → Value → Option Value
  entry_difference none v = some v
  entry_difference (some d) (arr xs) = if arrays_equal d (arr xs) then none else some (arr xs)
  entry_difference (some (obj d)) (obj o) =
      let nested = differences_fields d o in if is_end nested then none else some (obj nested)
  entry_difference (some d) v = if strict_equal v d then none else some v
