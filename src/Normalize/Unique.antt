-- ===== src/Normalize/Unique.antt =====
-- The loop that `normalizeSources`, `normalizeDomains` and `normalizeLocalRecords` share: prepare an
-- item, skip it if it is incomplete or its key was seen, else record the key and keep the item.
pub mod Laws
use beyond_ads_dns.Prelude.{
  Bool, true, false, ◌||◌, ◌≡◌, Option, none, some, List, [], ◌∷◌, Eq, ◌=?◌, if◌then◌else◌, nat-Eq,
  list-Eq,
}
use beyond_ads_dns.Js.Text.{Text}

module _ {ℓ} {A : Type ℓ} ⦃e : Eq A⦄ where
  -- `seen.has(x)`, `list.includes(x)`
  unfoldable pub includes : A → List A → Bool
  includes x [] = false
  includes x (y ∷ ys) = y =? x || includes x ys

  -- No item stands twice.
  abbrev pub HasNoRepeat : List A → Type 0
  HasNoRepeat [] = Unit
  HasNoRepeat (x ∷ xs) = (includes x xs ≡ false) × HasNoRepeat xs

module _ {κ} {B : Type κ} (key : B → Text) where
  -- One round, from the prepared item (`none` where the loop continues) to what the loop collects.
  unfoldable pub keep_first : Option B → List Text → (List Text → List B) → List B
  unfolding includes
  keep_first none seen go = go seen
  keep_first (some b) seen go = if includes (key b) seen then go seen else b ∷ go (key b ∷ seen)

  unfoldable pub unique_by {ℓ} : {A : Type ℓ} → (A → Option B) → List Text → List A → List B
  unfolding keep_first
  unique_by prepare seen [] = []
  unique_by prepare seen (a ∷ rest) = keep_first (prepare a) seen (λ s. unique_by prepare s rest)

-- `[...new Set(xs)]`
unfoldable pub distinct {ℓ} : {A : Type ℓ} ⦃e : Eq A⦄ → List A → List A → List A
unfolding includes
distinct seen [] = []
distinct seen (x ∷ xs) =
    let again = distinct seen xs in
    let new = x ∷ distinct (x ∷ seen) xs in if includes x seen then again else new
