-- ===== src/Js/Text/Laws.antt =====
-- Laws of trimming and of the case maps.
use beyond_ads_dns.Prelude.{ℕ, false, [], ◌∷◌, ◌≡◌, refl, ap, ◌∙◌, inl, inr, arith, Bool-cases}
use beyond_ads_dns.Js.Text.{
  Text, is_space, is_empty, trim_start, trim_end, trim, lower_unit, upper_unit, lower, upper,
}

-- The case maps neither make nor remove a blank.
is_space-lower_unit : (c : ℕ) → is_space (lower_unit c) ≡ is_space c
unfolding is_space lower_unit
is_space-lower_unit c = ground arith

is_space-upper_unit : (c : ℕ) → is_space (upper_unit c) ≡ is_space c
unfolding is_space upper_unit
is_space-upper_unit c = ground arith

trim_start-lower : (s : Text) → trim_start (lower s) ≡ lower (trim_start s)
unfolding trim_start lower
trim_start-lower [] = refl
trim_start-lower (c ∷ s) = ground (arith, is_space-lower_unit c, trim_start-lower s)

is_empty-lower : (s : Text) → is_empty (lower s) ≡ is_empty s
unfolding lower
is_empty-lower [] = refl
is_empty-lower (c ∷ s) = refl

trim_end-lower : (s : Text) → trim_end (lower s) ≡ lower (trim_end s)
unfolding trim_end lower
trim_end-lower [] = refl
trim_end-lower (c ∷ s) =
    ground (arith, is_space-lower_unit c, trim_end-lower s, is_empty-lower (trim_end s))

-- Trimming and lowering may be done in either order.
pub trim-lower : (s : Text) → trim (lower s) ≡ lower (trim s)
unfolding trim
trim-lower s = ap trim_end (trim_start-lower s) ∙ trim_end-lower (trim_start s)

trim_end_idempotent : (s : Text) → trim_end (trim_end s) ≡ trim_end s
unfolding trim_end
trim_end_idempotent [] = refl
trim_end_idempotent (c ∷ s) = ground (arith, trim_end_idempotent s)

-- A text that starts with no blank.
abbrev Starts : Text → Type 0
Starts [] = Unit
Starts (c ∷ s) = is_space c ≡ false

trim_start-Starts : (s : Text) → Starts (trim_start s)
unfolding trim_start
trim_start-Starts [] = tt
trim_start-Starts (c ∷ s) = elim (Bool-cases (is_space c)) [
  | inl blank ↦ ground (arith, trim_start-Starts s)
  | inr plain ↦ ground arith
]

trim_start_of_Starts : (s : Text) → Starts s → trim_start s ≡ s
unfolding trim_start
trim_start_of_Starts [] h = refl
trim_start_of_Starts (c ∷ s) h = ground arith

trim_end-Starts : (s : Text) → Starts s → Starts (trim_end s)
unfolding trim_end
trim_end-Starts [] h = tt
trim_end-Starts (c ∷ s) h = ground arith

pub trim_idempotent : (s : Text) → trim (trim s) ≡ trim s
unfolding trim
trim_idempotent s =
    ap trim_end (
      trim_start_of_Starts (trim_end (trim_start s))
        (trim_end-Starts (trim_start s) (trim_start-Starts s)))
    ∙ trim_end_idempotent (trim_start s)

lower_unit_idempotent : (c : ℕ) → lower_unit (lower_unit c) ≡ lower_unit c
unfolding lower_unit
lower_unit_idempotent c = ground arith

pub lower_idempotent : (s : Text) → lower (lower s) ≡ lower s
unfolding lower
lower_idempotent [] = refl
lower_idempotent (c ∷ s) = ground (arith, lower_unit_idempotent c, lower_idempotent s)

upper_unit_idempotent : (c : ℕ) → upper_unit (upper_unit c) ≡ upper_unit c
unfolding upper_unit
upper_unit_idempotent c = ground arith

pub upper_idempotent : (s : Text) → upper (upper s) ≡ upper s
unfolding upper
upper_idempotent [] = refl
upper_idempotent (c ∷ s) = ground (arith, upper_unit_idempotent c, upper_idempotent s)

trim_start-upper : (s : Text) → trim_start (upper s) ≡ upper (trim_start s)
unfolding trim_start upper
trim_start-upper [] = refl
trim_start-upper (c ∷ s) = ground (arith, is_space-upper_unit c, trim_start-upper s)

is_empty-upper : (s : Text) → is_empty (upper s) ≡ is_empty s
unfolding upper
is_empty-upper [] = refl
is_empty-upper (c ∷ s) = refl

trim_end-upper : (s : Text) → trim_end (upper s) ≡ upper (trim_end s)
unfolding trim_end upper
trim_end-upper [] = refl
trim_end-upper (c ∷ s) =
    ground (arith, is_space-upper_unit c, trim_end-upper s, is_empty-upper (trim_end s))

pub trim-upper : (s : Text) → trim (upper s) ≡ upper (trim s)
unfolding trim
trim-upper s = ap trim_end (trim_start-upper s) ∙ trim_end-upper (trim_start s)

-- What `trim().toLowerCase()` gives, it gives again.
pub lower-trim_idempotent : (s : Text) → lower (trim (lower (trim s))) ≡ lower (trim s)
lower-trim_idempotent s =
    ap lower (trim-lower (trim s) ∙ ap lower (trim_idempotent s)) ∙ lower_idempotent (trim s)

pub upper-trim_idempotent : (s : Text) → upper (trim (upper (trim s))) ≡ upper (trim s)
upper-trim_idempotent s =
    ap upper (trim-upper (trim s) ∙ ap upper (trim_idempotent s)) ∙ upper_idempotent (trim s)
