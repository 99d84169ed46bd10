-- ===== src/Forms/Rows/Laws.antt =====
-- The rows that are taken are the complete ones, the first of each key; none is lost without a report.
use beyond_ads_dns.Prelude.{
  ◌≡◌, refl, ap, Bool, true, false, Option, none, some, List, [], ◌∷◌, if◌then◌else◌, nat-Eq,
  list-Eq, Bool-cases, inl, inr,
}
use beyond_ads_dns.Js.Text.{Text}
use beyond_ads_dns.Normalize.Unique.{includes, keep_first, unique_by}
use beyond_ads_dns.Normalize.Unique.Laws.{prepend, prepared}
use beyond_ads_dns.Forms.Rows.{
  Row, untouched, invalid, complete, has_row_errors, check_row, check_rows,
}

abbrev pub complete_of {ℓ κ} : {E : Type ℓ} {A : Type κ} → Row E A → Option A
complete_of untouched = none
complete_of (invalid e) = none
complete_of (complete a) = some a

pub complete-touched {ℓ κ} :
    {E : Type ℓ} {A : Type κ} (c : Bool) (row : Row E A) (a : A)
    → complete_of (if c then untouched else row) ≡ some a
    → complete_of row ≡ some a
complete-touched true row a h = cc
complete-touched false row a h = h

module _ {ℓ κ ι} {E : Type ℓ} {A : Type κ} {R : Type ι} (key : A → Text) (duplicate : A → E)
    (row : R → Row E A) where
  taken-check_row :
      (o : Row E A) (seen : List Text) (rest : List R)
      → ((s : List Text)
          → (check_rows key duplicate row s rest).1
            ≡ unique_by key (λ r. complete_of (row r)) s rest)
      → (check_row key duplicate o seen (λ s. check_rows key duplicate row s rest)).1
        ≡ keep_first key (complete_of o) seen (λ s. unique_by key (λ r. complete_of (row r)) s rest)
  unfolding check_row keep_first
  taken-check_row untouched seen rest ih = ih seen
  taken-check_row (invalid e) seen rest ih = ih seen
  taken-check_row (complete a) seen rest ih = elim (Bool-cases (includes (key a) seen)) [
    | inl old ↦ rw old (ih seen)
    | inr new ↦ rw new (ap (λ r. a ∷ r) (ih (key a ∷ seen)))
  ]

  -- The rows taken are those that the loop of the server would keep of the complete ones.
  pub taken-check_rows :
      (seen : List Text) (rest : List R)
      → (check_rows key duplicate row seen rest).1
        ≡ unique_by key (λ r. complete_of (row r)) seen rest
  unfolding check_rows unique_by
  taken-check_rows seen [] = refl
  taken-check_rows seen (r ∷ rest) =
      taken-check_row (row r) seen rest (λ s. taken-check_rows s rest)

  all_taken-check_row :
      (o : Row E A) (seen : List Text) (rest : List R)
      → ((s : List Text)
          → has_row_errors (check_rows key duplicate row s rest).0 ≡ false
          → (check_rows key duplicate row s rest).1 ≡ prepared (λ r. complete_of (row r)) rest)
      → has_row_errors (check_row key duplicate o seen (λ s. check_rows key duplicate row s rest)).0
        ≡ false
      → (check_row key duplicate o seen (λ s. check_rows key duplicate row s rest)).1
        ≡ prepend
            (λ r. complete_of (row r))
            (complete_of o)
            (prepared (λ r. complete_of (row r)) rest)
  unfolding check_row has_row_errors
  all_taken-check_row untouched seen rest ih h = ih seen h
  all_taken-check_row (invalid e) seen rest ih h = cc
  all_taken-check_row (complete a) seen rest ih h = elim (Bool-cases (includes (key a) seen)) [
    | inl old ↦ cc (rw old at h)
    | inr new ↦ rw new (ap (λ r. a ∷ r) (ih (key a ∷ seen) (rw new at h)))
  ]

  -- Without a row error, every complete row is taken.
  pub all_taken-check_rows :
      (seen : List Text) (rest : List R)
      → has_row_errors (check_rows key duplicate row seen rest).0 ≡ false
      → (check_rows key duplicate row seen rest).1 ≡ prepared (λ r. complete_of (row r)) rest
  unfolding check_rows prepared
  all_taken-check_rows seen [] h = refl
  all_taken-check_rows seen (r ∷ rest) h =
      all_taken-check_row (row r) seen rest (λ s. all_taken-check_rows s rest) h
