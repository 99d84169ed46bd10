-- ===== src/Normalize/Entries/Records.antt =====
-- Local records: one for each name and type, the first.
use beyond_ads_dns.Prelude.{
  ◌≡◌, ◌≢◌, ◌↔◌, refl, ◌∙◌, false, some, List, [], ◌∷◌, ◌++◌, map, All, arith, ℕ, nat-Eq, list-Eq,
}
use beyond_ads_dns.Js.Text.{Text, text, trim, upper}
use beyond_ads_dns.Js.Text.Laws.{trim_idempotent, lower-trim_idempotent, upper-trim_idempotent}
use beyond_ads_dns.Normalize.Unique.{includes, HasNoRepeat}
use beyond_ads_dns.Normalize.Unique.Laws.{
  prepared, first_with, first_with-unique_by, unique_by-HasNoRepeat, unique_by_idempotent,
}
use beyond_ads_dns.Normalize.Entries.{
  or_text, LocalRecord, record_key, prepare_record, normalize_local_records,
}

-- The type field is absent, empty, or holds more than blanks.
abbrev pub HasType : LocalRecord → Type 0
HasType r = upper (trim (or_text r.type (text "A"))) ≢ []

prepare_record_settled :
    (r s : LocalRecord) → HasType r → prepare_record r ≡ some s → prepare_record s ≡ some s
unfolding prepare_record
prepare_record_settled r s k h = ground (
  arith,
  lower-trim_idempotent r.name,
  trim_idempotent r.value,
  upper-trim_idempotent (or_text r.type (text "A")),
)

All-map {ℓ κ ι} :
    {A : Type ℓ} (P : A → Type κ) (Q : A → Type ι) (xs : List A)
    → ((x : A) → P x → Q x)
    → All P xs
    → All Q xs
All-map P Q [] f h = tt
All-map P Q (x ∷ xs) f (p, h) = (f x p, All-map P Q xs f h)

-- Normalising local records again changes nothing, where no record has a type of blanks only.
pub normalize_local_records_idempotent :
    (rs : List LocalRecord)
    → All HasType rs
    → normalize_local_records (normalize_local_records rs) ≡ normalize_local_records rs
unfolding normalize_local_records
normalize_local_records_idempotent rs h =
    unique_by_idempotent record_key prepare_record rs prepare_record
      (All-map HasType _ rs (λ r k s e. prepare_record_settled r s k e) h)

abbrev pub HasNoColon : Text → Type 0
HasNoColon s = includes b':' s ≡ false

cons_injective : {x y : ℕ} {a b : Text} → (x ∷ a) ≡ (y ∷ b) → (x ≡ y) × (a ≡ b)
cons_injective e = (cc, cc)

join_injective :
    (a b c d : Text)
    → HasNoColon a
    → HasNoColon c
    → a ++ (b':' ∷ b) ≡ c ++ (b':' ∷ d)
    → (a ≡ c) × (b ≡ d)
unfolding includes
join_injective [] b [] d h k e = (refl, cc)
join_injective [] b (y ∷ c) d h k e = ground (arith, cons_injective e)
join_injective (x ∷ a) b [] d h k e = ground (arith, cons_injective e)
join_injective (x ∷ a) b (y ∷ c) d h k e =
    let (p, q) = cons_injective e in
    let (r, s) = join_injective a b c d (ground arith) (ground arith) q in (cc (p, r), s)

-- Two records whose names hold no colon have one key exactly when they have one name and one type.
pub record_key_iff :
    (r s : LocalRecord)
    → HasNoColon r.name
    → HasNoColon s.name
    → (record_key r ≡ record_key s) ↔ ((r.name ≡ s.name) × (r.type ≡ s.type))
record_key_iff r s h k =
    (λ e. join_injective r.name r.type s.name s.type h k e, λ (p, q). cc (p, q))

-- Normalised local records have distinct keys, and of the complete records with one key the first is
-- kept: its name lower-case, its type upper-case, its value trimmed.
pub normalize_local_records-first_with :
    (rs : List LocalRecord)
    → HasNoRepeat (map record_key (normalize_local_records rs))
      × ((k : Text)
          → first_with record_key k (normalize_local_records rs)
            ≡ first_with record_key k (prepared prepare_record rs))
unfolding normalize_local_records
normalize_local_records-first_with rs = (
  unique_by-HasNoRepeat record_key prepare_record [] rs,
  λ k. first_with-unique_by record_key prepare_record k [] rs ∙ unfold includes in refl,
)
