-- ===== src/Config/Merge/Laws.antt =====
-- What `mergeDeep` puts under each key, and that objects stay objects.
use beyond_ads_dns.Prelude.{
  String, ◌≡◌, refl, ◌∙◌, Option, none, some, arith, ◌==◌, eq_iff, if◌then◌else◌, inl, inr, ◌⊎◌,
}
use beyond_ads_dns.Js.Value.{
  Value, undefined, obj, Fields, end, field, find, put, or_undefined, AreDistinct,
}
use beyond_ads_dns.Js.Value.Laws.{find-put}
use beyond_ads_dns.Config.Merge.{merge_deep, merge_fields}

-- The entry of the merged object, from those of the base and of the override.
abbrev pub merged_entry : Option Value → Option Value → Option Value
merged_entry b none = b
merged_entry b (some undefined) = b
merged_entry b (some v) = some (merge_deep (or_undefined b) v)

-- The same, where `merged` may already differ from `base`.
abbrev pub written_entry : Option Value → Option Value → Option Value → Option Value
written_entry b m none = m
written_entry b m (some undefined) = m
written_entry b m (some v) = some (merge_deep (or_undefined b) v)

abbrev pub IsDefined : Value → Type 0
IsDefined undefined = ⊥
IsDefined _ = Unit

-- One round of the loop, at an entry that is not skipped.
pub merge_fields-field :
    (b m : Fields) (k : String) (v : Value) (o : Fields)
    → IsDefined v
    → merge_fields b m (field k v o)
      ≡ merge_fields b (put k (merge_deep (or_undefined (find k b)) v) m) o
unfolding merge_fields
merge_fields-field b m k undefined o h = absurd h
merge_fields-field b m k v o h = refl

pub merge_fields-undefined :
    (b m : Fields) (k : String) (o : Fields)
    → merge_fields b m (field k undefined o) ≡ merge_fields b m o
unfolding merge_fields
merge_fields-undefined b m k o = refl

written_entry_of_IsDefined :
    (b m : Option Value) (v : Value)
    → IsDefined v
    → written_entry b m (some v) ≡ some (merge_deep (or_undefined b) v)
written_entry_of_IsDefined b m undefined h = absurd h
written_entry_of_IsDefined b m v h = refl

pub IsDefined-cases : (v : Value) → (v ≡ undefined) ⊎ IsDefined v
IsDefined-cases undefined = inl refl
IsDefined-cases v = inr tt

pub find-field :
    (k j : String) (v : Value) (o : Fields)
    → find k (field j v o) ≡ (if j == k then some v else find k o)
unfolding find
find-field k j v o = refl

pub find-merge_fields :
    (k : String) (b m o : Fields)
    → AreDistinct o
    → find k (merge_fields b m o) ≡ written_entry (find k b) (find k m) (find k o)
find-merge_fields k b m end d = unfold merge_fields find in refl
find-merge_fields k b m (field j v o) (fresh, _, d) = elim (IsDefined-cases v) [
  | inl skipped ↦ rw skipped (
      ground (
        arith,
        eq_iff j k,
        find-field k j undefined o,
        merge_fields-undefined b m j o,
        find-merge_fields k b m o d,
      ))
  | inr def ↦
      let w = merge_deep (or_undefined (find j b)) v in
      ground (
        arith,
        eq_iff j k,
        find-field k j v o,
        find-put j k w m,
        merge_fields-field b m j v o def,
        written_entry_of_IsDefined (find k b) (find k m) v def,
        find-merge_fields k b (put j w m) o d,
      )
]

pub written_entry_self : (b o : Option Value) → written_entry b b o ≡ merged_entry b o
written_entry_self b none = refl
written_entry_self b (some undefined) = refl
written_entry_self b (some v) = refl

-- Merging two objects gives an object that holds, under every key, the entry of the base where the
-- override has none or `undefined` there, and else the merge of the two entries; the keys of the
-- override, an object, are distinct.
pub merge_deep-find :
    (b o : Fields)
    → AreDistinct o
    → (r : Fields) × (merge_deep (obj b) (obj o) ≡ obj r)
      × ((k : String) → find k r ≡ merged_entry (find k b) (find k o))
unfolding merge_deep
merge_deep-find b o d = (
  merge_fields b b o,
  refl,
  λ k. find-merge_fields k b b o d ∙ written_entry_self (find k b) (find k o),
)
