-- ===== src/Config/Merge/Export.antt =====
-- An exported configuration keeps what merging over the defaults needs.
use beyond_ads_dns.Prelude.{
  String, ◌≡◌, refl, sym, ap, ◌∙◌, Bool, true, false, Option, none, some, arith, eq_iff, eq_refl,
  if◌then◌else◌, inl, inr,
}
use beyond_ads_dns.Js.Value.{
  Value, undefined, arr, obj, Items, Fields, end, field, find, put, or_undefined, IsDistinct,
  AreDistinct, strict_equal,
}
use beyond_ads_dns.Js.Value.Laws.{find-put, put_same, strict_equal-eq, same_items-eq}
use beyond_ads_dns.Config.Merge.{
  merge_deep, merge_fields, config_differences, differences_fields, entry_difference, is_end,
  arrays_equal,
}
use beyond_ads_dns.Config.Merge.Laws.{
  find-field, IsDefined, IsDefined-cases, merge_fields-field, merge_fields-undefined,
}

-- What an entry of the override may leave in the differences: nothing, where merging it over the
-- default changes nothing, or an entry that merges to the same.
abbrev IsFaithful : Option Value → Value → Option Value → Type 0
IsFaithful d v none = (w : Value) × (d ≡ some w) × (merge_deep w v ≡ w)
IsFaithful d v (some u) =
    (merge_deep (or_undefined d) u ≡ merge_deep (or_undefined d) v)
    × (IsDefined v → IsDefined u)
    × ((v ≡ undefined) → (u ≡ undefined))

-- `merged` still holds the default under the keys that are to come.
abbrev IsUntouched : Fields → Fields → Fields → Type 0
IsUntouched d m end = Unit
IsUntouched d m (field k v o) = (find k m ≡ find k d) × IsUntouched d m o

IsUntouched-self : (d o : Fields) → IsUntouched d d o
IsUntouched-self d end = tt
IsUntouched-self d (field k v o) = (refl, IsUntouched-self d o)

IsUntouched-put :
    (d m o : Fields) (k : String) (v : Value)
    → find k o ≡ none
    → IsUntouched d m o
    → IsUntouched d (put k v m) o
IsUntouched-put d m end k v fresh h = tt
IsUntouched-put d m (field j w o) k v fresh (e, h) = (
  ground (arith, find-put k j v m, find-field k j w o, eq_iff k j, eq_refl k),
  IsUntouched-put d m o k v (ground (arith, find-field k j w o)) h,
)

strict_equal-merge : (d v : Value) → strict_equal v d ≡ true → merge_deep d v ≡ d
unfolding merge_deep strict_equal
strict_equal-merge d (arr xs) h = cc
strict_equal-merge d (obj o) h = cc
strict_equal-merge d v h = rw (sym (strict_equal-eq v d h)) refl

arrays_equal-merge :
    (d : Value) (xs : Items) → arrays_equal d (arr xs) ≡ true → merge_deep d (arr xs) ≡ d
unfolding merge_deep arrays_equal
arrays_equal-merge (arr ys) xs h = sym (ap arr (same_items-eq ys xs h))
arrays_equal-merge _ xs h = cc

if_IsFaithful :
    (d v : Value) (b : Bool)
    → (b ≡ true → merge_deep d v ≡ d)
    → IsFaithful (some d) v (if b then none else some v)
if_IsFaithful d v true h = (d, refl, h refl)
if_IsFaithful d v false h = (refl, λ k. k, λ e. e)

nested-IsFaithful :
    (d o n : Fields)
    → merge_fields d d n ≡ merge_fields d d o
    → IsFaithful (some (obj d)) (obj o) (if is_end n then none else some (obj n))
unfolding merge_deep
nested-IsFaithful d o end h = (obj d, refl, ap obj (sym h))
nested-IsFaithful d o (field k v n) h = (ap obj h, λ _. tt, λ e. cc)

-- One entry: the differences of the rest are faithful from every state of `merged`.
module _ (d m : Fields) (k : String) (v : Value) (o n : Fields) where
  entry_step :
      (e : Option Value)
      → IsFaithful (find k d) v e
      → find k m ≡ find k d
      → ((m' : Fields) → IsUntouched d m' o → merge_fields d m' n ≡ merge_fields d m' o)
      → IsUntouched d m o
      → find k o ≡ none
      → merge_fields d m (elim e [ none ↦ n | some w ↦ field k w n ])
        ≡ merge_fields d m (field k v o)
  entry_step none (w, at, stays) there rest h fresh = elim (IsDefined-cases v) [
    | inl skipped ↦ rest m h ∙ rw skipped (sym (merge_fields-undefined d m k o))
    | inr def ↦
        rest m h
        ∙ sym (
            merge_fields-field d m k v o def
            ∙ ap (λ u. merge_fields d u o)
                (ap (λ u. put k (merge_deep (or_undefined u) v) m) at
                  ∙ ap (λ u. put k u m) stays
                  ∙ put_same k w m (there ∙ at)))
  ]
  entry_step (some u) (same, defined, undef) there rest h fresh = elim (IsDefined-cases v) [
    | inl skipped ↦
        ap (λ x. merge_fields d m (field k x n)) (undef skipped)
        ∙ merge_fields-undefined d m k n
        ∙ rest m h
        ∙ rw skipped (sym (merge_fields-undefined d m k o))
    | inr def ↦
        merge_fields-field d m k u n (defined def)
        ∙ ap (λ x. merge_fields d (put k x m) n) same
        ∙ rest (put k (merge_deep (or_undefined (find k d)) v) m)
            (IsUntouched-put d m o k (merge_deep (or_undefined (find k d)) v) fresh h)
        ∙ sym (merge_fields-field d m k v o def)
  ]

mutual
  unfolding config_differences

  entry-IsFaithful :
      (d : Option Value) (v : Value) → IsDistinct v → IsFaithful d v (entry_difference d v)
  entry-IsFaithful none v h = (refl, λ k. k, λ e. e)
  entry-IsFaithful (some d) (arr xs) h =
      if_IsFaithful d (arr xs) (arrays_equal d (arr xs)) (arrays_equal-merge d xs)
  entry-IsFaithful (some (obj d)) (obj o) h =
      nested-IsFaithful d o (differences_fields d o)
        (fields_faithful d d o h (IsUntouched-self d o))
  entry-IsFaithful (some d) v h = if_IsFaithful d v (strict_equal v d) (strict_equal-merge d v)

  fields_faithful :
      (d m o : Fields)
      → AreDistinct o
      → IsUntouched d m o
      → merge_fields d m (differences_fields d o) ≡ merge_fields d m o
  fields_faithful d m end h u = refl
  fields_faithful d m (field k v o) (fresh, dv, h) (there, u) =
      entry_step d m k v o (differences_fields d o) (entry_difference (find k d) v)
        (entry-IsFaithful (find k d) v dv) there (λ m' u'. fields_faithful d m' o h u') u fresh

-- Merging the differences from the defaults over the defaults gives what merging the whole override
-- gives, entries and order included; the objects of the override, outside arrays, have distinct keys.
pub merge_deep-config_differences :
    (d o : Value) → IsDistinct o → merge_deep d (config_differences d o) ≡ merge_deep d o
unfolding merge_deep config_differences
merge_deep-config_differences (obj d) (obj o) h =
    ap obj (fields_faithful d d o h (IsUntouched-self d o))
merge_deep-config_differences d o h = refl
