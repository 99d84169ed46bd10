-- ===== src/Normalize/Unique/Laws.antt =====
-- The first item of each key is kept, and no other.
use beyond_ads_dns.Prelude.{
  All, ◌≡◌, refl, ap, ◌∙◌, true, false, Option, none, some, List, [], ◌∷◌, map, ◌=?◌, if◌then◌else◌,
  arith, Bool-cases, inl, inr, nat-Eq, list-Eq, list_eq_iff,
}
use beyond_ads_dns.Js.Text.{Text}
use beyond_ads_dns.Normalize.Unique.{includes, HasNoRepeat, keep_first, unique_by}

module _ {ℓ κ} {A : Type ℓ} {B : Type κ} (prepare : A → Option B) where
  abbrev pub prepend : Option B → List B → List B
  prepend none bs = bs
  prepend (some b) bs = b ∷ bs

  -- The complete items of the input, in order.
  unfoldable pub prepared : List A → List B
  prepared [] = []
  prepared (a ∷ rest) = prepend (prepare a) (prepared rest)

module _ {κ} {B : Type κ} (key : B → Text) where
  -- The first item with a key.
  unfoldable pub first_with : Text → List B → Option B
  first_with k [] = none
  first_with k (b ∷ bs) = if key b =? k then some b else first_with k bs

module _ {ℓ κ} {A : Type ℓ} {B : Type κ} (key : B → Text) (prepare : A → Option B) where
  first_with-keep_first :
      (k : Text) (o : Option B) (seen : List Text) (rest : List A)
      → ((s : List Text)
          → first_with key k (unique_by key prepare s rest)
            ≡ (if includes k s then none else first_with key k (prepared prepare rest)))
      → first_with key k (keep_first key o seen (λ s. unique_by key prepare s rest)) ≡ (
          if includes k seen
          then none
          else first_with key k (prepend prepare o (prepared prepare rest)))
  unfolding keep_first first_with includes
  first_with-keep_first k none seen rest ih = ih seen
  first_with-keep_first k (some b) seen rest ih =
      ground (arith, list_eq_iff (key b) k, ih seen, ih (key b ∷ seen))

  pub first_with-unique_by :
      (k : Text) (seen : List Text) (rest : List A)
      → first_with key k (unique_by key prepare seen rest)
        ≡ (if includes k seen then none else first_with key k (prepared prepare rest))
  unfolding unique_by prepared
  first_with-unique_by k seen [] = unfold first_with in ground arith
  first_with-unique_by k seen (a ∷ rest) =
      first_with-keep_first k (prepare a) seen rest (λ s. first_with-unique_by k s rest)

  includes-keep_first :
      (k : Text) (o : Option B) (seen : List Text) (go : List Text → List B)
      → includes k seen ≡ true
      → ((s : List Text) → includes k s ≡ true → includes k (map key (go s)) ≡ false)
      → includes k (map key (keep_first key o seen go)) ≡ false
  unfolding keep_first includes
  includes-keep_first k none seen go h ih = ih seen h
  includes-keep_first k (some b) seen go h ih =
      ground (arith, list_eq_iff (key b) k, ih seen, ih (key b ∷ seen))

  includes-unique_by :
      (k : Text) (seen : List Text) (rest : List A)
      → includes k seen ≡ true
      → includes k (map key (unique_by key prepare seen rest)) ≡ false
  unfolding unique_by
  includes-unique_by k seen [] h = unfold includes in refl
  includes-unique_by k seen (a ∷ rest) h =
      includes-keep_first k (prepare a) seen (λ s. unique_by key prepare s rest) h
        (λ s. includes-unique_by k s rest)

  keep_first-HasNoRepeat :
      (o : Option B) (seen : List Text) (go : List Text → List B)
      → ((s : List Text) → HasNoRepeat (map key (go s)))
      → ((k : Text) (s : List Text) → includes k s ≡ true → includes k (map key (go s)) ≡ false)
      → HasNoRepeat (map key (keep_first key o seen go))
  unfolding keep_first
  keep_first-HasNoRepeat none seen go ih out = ih seen
  keep_first-HasNoRepeat (some b) seen go ih out = elim (Bool-cases (includes (key b) seen)) [
    | inl old ↦ rw old (ih seen)
    | inr new ↦ rw new (
      out (key b) (key b ∷ seen) (unfold includes in rw ((list_eq_iff (key b) (key b)).1 refl)),
      ih (key b ∷ seen),
    )
  ]

  pub unique_by-HasNoRepeat :
      (seen : List Text) (rest : List A) → HasNoRepeat (map key (unique_by key prepare seen rest))
  unfolding unique_by
  unique_by-HasNoRepeat seen [] = tt
  unique_by-HasNoRepeat seen (a ∷ rest) =
      keep_first-HasNoRepeat (prepare a) seen (λ s. unique_by key prepare s rest)
        (λ s. unique_by-HasNoRepeat s rest) (λ k s. includes-unique_by k s rest)

module _ {ℓ κ ι} {A : Type ℓ} {B : Type κ} (key : B → Text) (prepare : A → Option B)
    (P : B → Type ι) where
  keep_first-All :
      (o : Option B) (seen : List Text) (go : List Text → List B)
      → ((b : B) → o ≡ some b → P b)
      → ((s : List Text) → All P (go s))
      → All P (keep_first key o seen go)
  unfolding keep_first
  keep_first-All none seen go h ih = ih seen
  keep_first-All (some b) seen go h ih = elim (Bool-cases (includes (key b) seen)) [
    | inl old ↦ rw old (ih seen)
    | inr new ↦ rw new (h b refl, ih (key b ∷ seen))
  ]

  -- What preparing ensures holds of every item that is kept.
  pub unique_by-All :
      (seen : List Text) (rest : List A)
      → All (λ a. (b : B) → prepare a ≡ some b → P b) rest
      → All P (unique_by key prepare seen rest)
  unfolding unique_by
  unique_by-All seen [] h = tt
  unique_by-All seen (a ∷ rest) (h, hs) =
      keep_first-All (prepare a) seen (λ s. unique_by key prepare s rest) h
        (λ s. unique_by-All s rest hs)

module _ {κ} {B : Type κ} (key : B → Text) (prepare : B → Option B) where
  keep_first-new :
      (b : B) (seen : List Text) (go : List Text → List B)
      → includes (key b) seen ≡ false
      → keep_first key (some b) seen go ≡ b ∷ go (key b ∷ seen)
  unfolding keep_first
  keep_first-new b seen go h = rw h

  still_fresh :
      (b : B) (seen : List Text) (bs : List B)
      → includes (key b) (map key bs) ≡ false
      → All (λ c. includes (key c) seen ≡ false) bs
      → All (λ c. includes (key c) (key b ∷ seen) ≡ false) bs
  unfolding includes
  still_fresh b seen [] m f = tt
  still_fresh b seen (c ∷ bs) m (g, f) = (
    ground (arith, list_eq_iff (key b) (key c), list_eq_iff (key c) (key b)),
    still_fresh b seen bs (ground arith) f,
  )

  pub none_seen : (bs : List B) → All (λ c. includes (key c) [] ≡ false) bs
  none_seen [] = tt
  none_seen (c ∷ bs) = (unfold includes in refl, none_seen bs)

  -- A list of prepared items with distinct, new keys comes back as it is.
  pub unique_by_settled :
      (seen : List Text) (bs : List B)
      → All (λ b. prepare b ≡ some b) bs
      → HasNoRepeat (map key bs)
      → All (λ b. includes (key b) seen ≡ false) bs
      → unique_by key prepare seen bs ≡ bs
  unfolding unique_by
  unique_by_settled seen [] h n f = refl
  unique_by_settled seen (b ∷ bs) (e, h) (m, n) (fresh, f) =
      ap (λ o. keep_first key o seen (λ s. unique_by key prepare s bs)) e
      ∙ keep_first-new b seen (λ s. unique_by key prepare s bs) fresh
      ∙ ap (λ r. b ∷ r) (unique_by_settled (key b ∷ seen) bs h n (still_fresh b seen bs m f))

  -- So cleaning a cleaned list changes nothing.
  pub unique_by_idempotent {ℓ} :
      {A : Type ℓ} (rest : List A) (clean : A → Option B)
      → All (λ a. (b : B) → clean a ≡ some b → prepare b ≡ some b) rest
      → unique_by key prepare [] (unique_by key clean [] rest) ≡ unique_by key clean [] rest
  unique_by_idempotent rest clean h =
      let bs = unique_by key clean [] rest in
      unique_by_settled [] bs (unique_by-All key clean (λ b. prepare b ≡ some b) [] rest h)
        (unique_by-HasNoRepeat key clean [] rest) (none_seen bs)
