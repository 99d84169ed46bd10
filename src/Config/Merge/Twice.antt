-- ===== src/Config/Merge/Twice.antt =====
-- Merging an override a second time changes nothing.
use beyond_ads_dns.Prelude.{
  String, ◌≡◌, refl, ap, ◌∙◌, Option, none, some, arith, eq_iff, eq_refl, inl, inr, ◌⊎◌,
}
use beyond_ads_dns.Js.Value.{
  Value, undefined, null, bool, num, str, arr, obj, Fields, end, field, find, put, or_undefined,
  IsDistinct, AreDistinct,
}
use beyond_ads_dns.Js.Value.Laws.{put_same}
use beyond_ads_dns.Config.Merge.{merge_deep, merge_fields}
use beyond_ads_dns.Config.Merge.Laws.{
  merged_entry, written_entry_self, find-merge_fields, find-field, IsDefined, IsDefined-cases,
  merge_fields-field, merge_fields-undefined,
}

-- Every entry of `o` is skipped, or merges into what `r` holds and leaves it as it is.
abbrev IsSettledAt : Fields → String → Value → Type 0
IsSettledAt r k v = (v ≡ undefined) ⊎ ((w : Value) × (find k r ≡ some w) × (merge_deep w v ≡ w))

abbrev IsSettled : Fields → Fields → Type 0
IsSettled r end = Unit
IsSettled r (field k v o) = IsSettledAt r k v × IsSettled r o

merge_fields_of_IsSettled : (r o : Fields) → IsSettled r o → merge_fields r r o ≡ r
merge_fields_of_IsSettled r end h = unfold merge_fields in refl
merge_fields_of_IsSettled r (field k v o) (at, h) = elim (IsDefined-cases v) [
  | inl skipped ↦ rw skipped (merge_fields-undefined r r k o ∙ merge_fields_of_IsSettled r o h)
  | inr def ↦ elim at [
    | inl skipped ↦ rw skipped (merge_fields-undefined r r k o ∙ merge_fields_of_IsSettled r o h)
    | inr (w, there, stays) ↦
        merge_fields-field r r k v o def
        ∙ ap (λ m. merge_fields r m o)
            (ap (λ e. put k (merge_deep (or_undefined e) v) r) there
              ∙ ap (λ u. put k u r) stays
              ∙ put_same k w r there)
        ∙ merge_fields_of_IsSettled r o h
  ]
]

-- A tail of an object still has only entries of the object.
tail_found :
    (k j : String) (v w : Value) (o : Fields)
    → find j o ≡ none
    → find k o ≡ some w
    → find k (field j v o) ≡ some w
tail_found k j v w o fresh found = ground (arith, find-field k j v o, eq_iff j k)

head_found : (k : String) (v : Value) (o : Fields) → find k (field k v o) ≡ some v
head_found k v o = rw find-field (simp eq_refl)

mutual
  unfolding merge_deep

  merge_self : (v : Value) → IsDistinct v → merge_deep v v ≡ v
  merge_self (obj o) d = ap obj (merge_fields_of_IsSettled o o (self-IsSettled o o d (λ k v e. e)))
  merge_self (arr xs) d = refl
  merge_self _ d = refl

  self-IsSettled :
      (r o : Fields)
      → AreDistinct o
      → ((k : String) (v : Value) → find k o ≡ some v → find k r ≡ some v)
      → IsSettled r o
  self-IsSettled r end d h = tt
  self-IsSettled r (field k v o) (fresh, dv, d) h = (
    inr (v, h k v (head_found k v o), merge_self v dv),
    self-IsSettled r o d (λ j w e. h j w (tail_found j k v w o fresh e)),
  )

merged_entry_of_IsDefined :
    (b : Option Value) (v : Value)
    → IsDefined v
    → merged_entry b (some v) ≡ some (merge_deep (or_undefined b) v)
merged_entry_of_IsDefined b undefined h = absurd h
merged_entry_of_IsDefined b v h = refl

mutual
  unfolding merge_deep

  merge_again : (b v : Value) → IsDistinct v → merge_deep (merge_deep b v) v ≡ merge_deep b v
  merge_again (obj b) (obj o) d = ap obj (
      merge_fields_of_IsSettled (merge_fields b b o) o (
        again-IsSettled b (merge_fields b b o) o d (λ k v e.
          find-merge_fields k b b o d
          ∙ written_entry_self (find k b) (find k o)
          ∙ ap (merged_entry (find k b)) e)))
  merge_again b (arr xs) d = refl
  merge_again undefined (obj o) d = merge_self (obj o) d
  merge_again null (obj o) d = merge_self (obj o) d
  merge_again (bool _) (obj o) d = merge_self (obj o) d
  merge_again (num _) (obj o) d = merge_self (obj o) d
  merge_again (str _) (obj o) d = merge_self (obj o) d
  merge_again (arr _) (obj o) d = merge_self (obj o) d
  merge_again b _ d = refl

  again-IsSettled :
      (b r o : Fields)
      → AreDistinct o
      → ((k : String) (v : Value) → find k o ≡ some v → find k r ≡ merged_entry (find k b) (some v))
      → IsSettled r o
  again-IsSettled b r end d h = tt
  again-IsSettled b r (field k v o) (fresh, dv, d) h = (
    elim (IsDefined-cases v) [
      | inl skipped ↦ inl skipped
      | inr def ↦ inr (
        merge_deep (or_undefined (find k b)) v,
        h k v (head_found k v o) ∙ merged_entry_of_IsDefined (find k b) v def,
        merge_again (or_undefined (find k b)) v dv,
      )
    ],
    again-IsSettled b r o d (λ j w e. h j w (tail_found j k v w o fresh e)),
  )

-- Merging an override into what it was merged into already changes nothing, whatever the base; the
-- objects of the override, outside arrays, have distinct keys.
pub merge_deep_idempotent :
    (b v : Value) → IsDistinct v → merge_deep (merge_deep b v) v ≡ merge_deep b v
merge_deep_idempotent b v d = merge_again b v d
