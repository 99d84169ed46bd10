-- ===== src/Forms/Rows.antt =====
-- The loop that `validateBlocklistForm`, `validateUpstreamsForm` and `validateLocalRecordsForm` of
-- web/client/src/utils/validation.js share: a row without input is passed over, a row with an error is
-- reported, and of the rows with one key the first is taken and the others are reported.
pub mod Laws
use beyond_ads_dns.Prelude.{
  Bool, true, false, ◌||◌, Option, none, some, List, [], ◌∷◌, if◌then◌else◌, nat-Eq, list-Eq,
}
use beyond_ads_dns.Js.Text.{Text}
use beyond_ads_dns.Js.Value.{is_some}
use beyond_ads_dns.Normalize.Unique.{includes}

-- What the tests of one row come to, before the test for a duplicate.
pub data Row {ℓ κ} (E : Type ℓ) (A : Type κ) : Type (ℓ ⊔ κ) where
  untouched : Row E A
  invalid : E → Row E A
  complete : A → Row E A

-- `rowErrors` and the list of normalised rows; an empty error object is `none`.
abbrev pub Checked {ℓ κ} : Type ℓ → Type κ → Type (ℓ ⊔ κ)
Checked E A = List (Option E) × List A

abbrev pub report {ℓ κ} : {E : Type ℓ} {A : Type κ} → Option E → Checked E A → Checked E A
report e (errors, accepted) = (e ∷ errors, accepted)

abbrev pub accept {ℓ κ} : {E : Type ℓ} {A : Type κ} → A → Checked E A → Checked E A
accept a (errors, accepted) = (none ∷ errors, a ∷ accepted)

-- `rowErrors.some((r) => Object.keys(r).length > 0)`
unfoldable pub has_row_errors {ℓ} : {E : Type ℓ} → List (Option E) → Bool
has_row_errors [] = false
has_row_errors (e ∷ es) = is_some e || has_row_errors es

module _ {ℓ κ} {E : Type ℓ} {A : Type κ} (key : A → Text) (duplicate : A → E) where
  -- One round, from the row to what the loop collects.
  unfoldable pub check_row : Row E A → List Text → (List Text → Checked E A) → Checked E A
  unfolding includes
  check_row untouched seen go = report none (go seen)
  check_row (invalid e) seen go = report (some e) (go seen)
  check_row (complete a) seen go =
      if includes (key a) seen
      then report (some (duplicate a)) (go seen)
      else accept a (go (key a ∷ seen))

  unfoldable pub check_rows {ι} : {R : Type ι} → (R → Row E A) → List Text → List R → Checked E A
  unfolding check_row
  check_rows row seen [] = ([], [])
  check_rows row seen (r ∷ rest) = check_row (row r) seen (λ s. check_rows row s rest)
