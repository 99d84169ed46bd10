-- ===== src/Forms/Tables/Laws.antt =====
-- What the forms pass on, the server's `normalizeSources` and `normalizeLocalRecords` keep as it is.
use beyond_ads_dns.Prelude.{
  ◌≡◌, refl, sym, ap, subst, All-of, false, not, ◌&&◌, Option, some, List, [], nat-Eq, list-Eq,
  arith, Bool-cases, inl, inr,
}
use beyond_ads_dns.Js.Text.{Text, text, is_empty, trim, lower, upper}
use beyond_ads_dns.Js.Text.Laws.{trim_idempotent, lower-trim_idempotent, upper-trim_idempotent}
use beyond_ads_dns.Js.Value.{is_some}
use beyond_ads_dns.Normalize.Unique.{includes}
use beyond_ads_dns.Normalize.Unique.Laws.{prepared, unique_by_idempotent}
use beyond_ads_dns.Normalize.Entries.{
  or_text, LocalRecord, record_key, prepare_record, normalize_local_records,
}
use beyond_ads_dns.Address.Upstream.{Url}
use beyond_ads_dns.Forms.Rows.{has_row_errors}
use beyond_ads_dns.Forms.Rows.Laws.{
  complete_of, complete-touched, taken-check_rows, all_taken-check_rows,
}
use beyond_ads_dns.Forms.Tables.{
  supported_types, RecordError, name_error, value_error, record_row, duplicate_record_of,
  local_record_row, validate_local_records_form,
}

-- A row of a local record that is complete has no message under any of the three fields.
complete-record_row :
    (e : RecordError) (r b : LocalRecord)
    → complete_of (record_row e r) ≡ some b
    → (b ≡ r) × (is_some e.name ≡ false) × (e.bad_type ≡ false) × (is_some e.value ≡ false)
complete-record_row e r b h = ground arith

type_settled :
    (s : Text)
    → upper (trim (or_text (or_text (upper (trim s)) (text "A")) (text "A")))
      ≡ or_text (upper (trim s)) (text "A")
type_settled s = elim (Bool-cases (is_empty (upper (trim s)))) [
  | inl e ↦ rw e (unfold upper trim in refl)
  | inr f ↦ rw f (rw f (upper-trim_idempotent s))
]

prepare_record-normalized :
    (n t v : Text)
    → lower (trim n) ≡ n
    → upper (trim (or_text t (text "A"))) ≡ t
    → trim v ≡ v
    → is_empty n ≡ false
    → is_empty v ≡ false
    → prepare_record (record { name = n; type = t; value = v })
      ≡ some (record { name = n; type = t; value = v })
unfolding prepare_record
prepare_record-normalized n t v h k m p q =
    ground (arith, ap (λ s. is_empty s) h, ap (λ s. is_empty s) m)

module _ (url : Text → Option Url) where
  name_error-nonempty : (s : Text) → is_some (name_error s) ≡ false → is_empty s ≡ false
  name_error-nonempty s h = ground arith

  value_error-nonempty : (t s : Text) → is_some (value_error url t s) ≡ false → is_empty s ≡ false
  value_error-nonempty t s h = ground arith

  local_record_row_settled :
      (r b : LocalRecord)
      → complete_of (local_record_row url r) ≡ some b
      → prepare_record b ≡ some b
  unfolding local_record_row
  local_record_row_settled r b h =
      let n = lower (trim r.name) in
      let t = or_text (upper (trim (or_text r.type (text "A")))) (text "A") in
      let v = trim r.value in
      let whole : LocalRecord = record { name = n; type = t; value = v } in
      let e : RecordError = record {
        name = name_error n;
        bad_type = not (includes t supported_types);
        value = value_error url t v;
      } in
      let (same, name_ok, type_ok, value_ok) =
        complete-record_row e whole b
          (complete-touched (is_empty n && is_empty v) (record_row e whole) b h) in
      subst (λ x. prepare_record x ≡ some x) (sym same)
        (prepare_record-normalized n t v (lower-trim_idempotent r.name)
          (type_settled (or_text r.type (text "A"))) (trim_idempotent r.value)
          (name_error-nonempty n name_ok) (value_error-nonempty t v value_ok))

  -- The records that the form passes on, the server keeps as they are. Where no row has an error, they
  -- are all the rows that hold a name or a value.
  pub validate_local_records_form-normalize_local_records :
      (records : List LocalRecord)
      → (normalize_local_records (validate_local_records_form url records).1
          ≡ (validate_local_records_form url records).1)
        × (has_row_errors (validate_local_records_form url records).0 ≡ false
            → (validate_local_records_form url records).1
              ≡ prepared (λ r. complete_of (local_record_row url r)) records)
  unfolding validate_local_records_form normalize_local_records
  validate_local_records_form-normalize_local_records records = (
    rw (taken-check_rows record_key duplicate_record_of (local_record_row url) [] records) (
        unique_by_idempotent record_key prepare_record records
          (λ r. complete_of (local_record_row url r)) (All-of _ records local_record_row_settled)),
    λ h. all_taken-check_rows record_key duplicate_record_of (local_record_row url) [] records h,
  )
