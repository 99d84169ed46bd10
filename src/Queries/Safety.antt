-- ===== src/Queries/Safety.antt =====
-- What of a request becomes part of the text of a query.
use beyond_ads_dns.Prelude.{
  ◌≡◌, ◌⊎◌, inl, inr, refl, true, ◌=?◌, Bool-cases, if◌then◌else◌, nat-Eq, list-Eq, list_eq,
}
use beyond_ads_dns.Js.Text.{Text, text, lower}
use beyond_ads_dns.Js.Value.{Number, Value}
use beyond_ads_dns.Js.Convert.{text_or}
use beyond_ads_dns.Normalize.Unique.{includes}
use beyond_ads_dns.Queries.{sort_columns, normalize_sort_by, normalize_sort_dir}

chosen_column :
    (t : Text) → includes (if includes t sort_columns then t else text "ts") sort_columns ≡ true
chosen_column t = elim (Bool-cases (includes t sort_columns)) [
  | inl known ↦ rw known known
  | inr unknown ↦ rw unknown (unfold includes list_eq in refl)
]

module _ (number_text : Number → Text) where
  pub normalize_sort_by-column :
      (v : Value) → includes (normalize_sort_by number_text v) sort_columns ≡ true
  unfolding normalize_sort_by
  normalize_sort_by-column v = chosen_column (lower (text_or number_text v "ts"))

  pub normalize_sort_dir-cases :
      (v : Value)
      → (normalize_sort_dir number_text v ≡ text "asc")
        ⊎ (normalize_sort_dir number_text v ≡ text "desc")
  unfolding normalize_sort_dir
  normalize_sort_dir-cases v =
      elim (Bool-cases (lower (text_or number_text v "desc") =? text "asc")) [
        | inl e ↦ inl (rw e refl)
        | inr e ↦ inr (rw e refl)
      ]
