-- ===== src/Address/Duration/Automaton.antt =====
-- The automaton accepts the durations, and nothing else.
use beyond_ads_dns.Prelude.{
  ℕ, ◌≡◌, ◌↔◌, ◌⊎◌, inl, inr, refl, sym, ap, ◌∙◌, Bool, true, false, ◌||◌, List, [], ◌∷◌, ◌++◌, All,
  arith, Bool-cases, &&-eq-true, nat_eq,
}
use beyond_ads_dns.Js.Text.{Text, is_digit}
use beyond_ads_dns.Address.{every}
use beyond_ads_dns.Address.Duration.{
  State, start, whole, point, fraction, prefix, minute, unit, stuck, is_s, is_m, is_h,
  is_small_prefix, after_number, step, run, matches_duration,
}
use beyond_ads_dns.Address.Duration.Grammar.{
  Segment, is_unit, IsFilled, IsSegment, print_decimals, print_segments, AfterUnit, AfterNumber,
  InFraction, InPoint, InWhole, InPrefix, InStart, Meaning, InStart-AfterUnit,
}

unit_ends : (c : ℕ) (s : Text) → is_unit (c ∷ []) ≡ true → AfterUnit s → AfterNumber (c ∷ s)
unit_ends c s h a = (c ∷ [], h, (s, refl, a))

prefix_ends :
    (c : ℕ) (s : Text) → (is_small_prefix c || is_m c) ≡ true → InPrefix s → AfterNumber (c ∷ s)
prefix_ends c s h (d, r, e, hd, a) = (c ∷ (d ∷ []), ground arith, (r, ap (λ t. c ∷ t) e, a))

after_number_sound : (c : ℕ) (s : Text) → Meaning (after_number c) s → AfterNumber (c ∷ s)
after_number_sound c s m = elim (Bool-cases (is_small_prefix c)) [
  | inl small ↦ let m' : InPrefix s = rw small at m in prefix_ends c s (ground arith) m'
  | inr other ↦ elim (Bool-cases (is_m c)) [
    | inl em ↦
        let m' : AfterUnit s ⊎ InPrefix s = rw (other, em) at m in
        elim m' [
          | inl a ↦ unit_ends c s (ground arith) a
          | inr p ↦ prefix_ends c s (ground arith) p
        ]
    | inr plain ↦ elim (Bool-cases (is_s c || is_h c)) [
      | inl last ↦
          let m' : AfterUnit s = rw (other, plain, last) at m in unit_ends c s (ground arith) m'
      | inr bad ↦ let m' : ⊥ = rw (other, plain, bad) at m in absurd m'
    ]
  ]
]

every-cons :
    (p : ℕ → Bool) (c : ℕ) (s : Text) → p c ≡ true → every p s ≡ true → every p (c ∷ s) ≡ true
every-cons p c s a b = rw a b

InWhole-digit : (c : ℕ) (s : Text) → is_digit c ≡ true → InWhole s → InWhole (c ∷ s)
InWhole-digit c s d (ds, dd, (t, e, k)) =
    (c ∷ ds, every-cons is_digit c ds d dd, (t, ap (λ r. c ∷ r) e, k))

InFraction-digit : (c : ℕ) (s : Text) → is_digit c ≡ true → InFraction s → InFraction (c ∷ s)
InFraction-digit c s d (ds, dd, (t, e, k)) =
    (c ∷ ds, every-cons is_digit c ds d dd, (t, ap (λ r. c ∷ r) e, k))

-- One step back: from what may follow the unit c, to what may follow before it.
step_sound : (q : State) (c : ℕ) (s : Text) → Meaning (step q c) s → Meaning q (c ∷ s)
unfolding step
step_sound start c s m = elim (Bool-cases (is_digit c)) [
  | inl d ↦ (c, s, refl, d, rw d at m)
  | inr bad ↦ let m' : ⊥ = rw bad at m in absurd m'
]
step_sound whole c s m = elim (Bool-cases (is_digit c)) [
  | inl d ↦ let m' : InWhole s = rw d at m in InWhole-digit c s d m'
  | inr other ↦ elim (Bool-cases (nat_eq c b'.')) [
    | inl dot ↦
        let m' : InPoint s = rw (other, dot) at m in
        ([], refl, (c ∷ s, refl, inr (s, ground arith, m')))
    | inr plain ↦
        let m' : Meaning (after_number c) s = rw (other, plain) at m in
        ([], refl, (c ∷ s, refl, inl (after_number_sound c s m')))
  ]
]
step_sound point c s m = elim (Bool-cases (is_digit c)) [
  | inl d ↦ (c, s, refl, d, rw d at m)
  | inr bad ↦ let m' : ⊥ = rw bad at m in absurd m'
]
step_sound fraction c s m = elim (Bool-cases (is_digit c)) [
  | inl d ↦ let m' : InFraction s = rw d at m in InFraction-digit c s d m'
  | inr other ↦
      let m' : Meaning (after_number c) s = rw other at m in
      ([], refl, (c ∷ s, refl, after_number_sound c s m'))
]
step_sound prefix c s m = elim (Bool-cases (is_s c)) [
  | inl d ↦ (c, s, refl, d, rw d at m)
  | inr bad ↦ let m' : ⊥ = rw bad at m in absurd m'
]
step_sound minute c s m = elim (Bool-cases (is_s c)) [
  | inl d ↦ inr (c, s, refl, d, rw d at m)
  | inr other ↦ elim (Bool-cases (is_digit c)) [
    | inl d ↦
        let m' : InWhole s = rw (other, d) at m in
        inl (InStart-AfterUnit (c ∷ s) (c, s, refl, d, m'))
    | inr bad ↦ let m' : ⊥ = rw (other, bad) at m in absurd m'
  ]
]
step_sound unit c s m = elim (Bool-cases (is_digit c)) [
  | inl d ↦ let m' : InWhole s = rw d at m in InStart-AfterUnit (c ∷ s) (c, s, refl, d, m')
  | inr bad ↦ let m' : ⊥ = rw bad at m in absurd m'
]
step_sound stuck c s m = m

run_sound : (q : State) (s : Text) → run q s ≡ true → Meaning q s
unfolding run
run_sound minute [] h = inl ([], tt, refl)
run_sound unit [] h = ([], tt, refl)
run_sound start [] h = cc
run_sound whole [] h = cc
run_sound point [] h = cc
run_sound fraction [] h = cc
run_sound prefix [] h = cc
run_sound stuck [] h = cc
run_sound q (c ∷ s) h = step_sound q c s (run_sound (step q c) s h)

-- The other way: the automaton reads what is printed.
run-cons : (q : State) (c : ℕ) (s : Text) → run q (c ∷ s) ≡ run (step q c) s
unfolding run
run-cons q c s = refl

step-whole_digit : (c : ℕ) → is_digit c ≡ true → step whole c ≡ whole
unfolding step
step-whole_digit c d = rw d refl

step_fraction_digit : (c : ℕ) → is_digit c ≡ true → step fraction c ≡ fraction
unfolding step
step_fraction_digit c d = rw d refl

step_unit_digit : (c : ℕ) → is_digit c ≡ true → step unit c ≡ whole
unfolding step
step_unit_digit c d = rw d refl

step_minute_digit : (c : ℕ) → is_digit c ≡ true → step minute c ≡ whole
unfolding step
step_minute_digit c d = ground arith

whole-digits : (ds t : Text) → every is_digit ds ≡ true → run whole (ds ++ t) ≡ run whole t
whole-digits [] t h = refl
whole-digits (d ∷ ds) t h =
    let (a, b) = &&-eq-true (is_digit d) (every is_digit ds) h in
    run-cons whole d (ds ++ t)
    ∙ ap (λ q. run q (ds ++ t)) (step-whole_digit d a)
    ∙ whole-digits ds t b

fraction-digits : (ds t : Text) → every is_digit ds ≡ true → run fraction (ds ++ t) ≡ run fraction t
fraction-digits [] t h = refl
fraction-digits (d ∷ ds) t h =
    let (a, b) = &&-eq-true (is_digit d) (every is_digit ds) h in
    run-cons fraction d (ds ++ t)
    ∙ ap (λ q. run q (ds ++ t)) (step_fraction_digit d a)
    ∙ fraction-digits ds t b

-- Nothing, or a digit first.
abbrev BeginsDigit : Text → Type 0
BeginsDigit [] = Unit
BeginsDigit (c ∷ s) = is_digit c ≡ true

minute-unit : (t : Text) → BeginsDigit t → run minute t ≡ run unit t
minute-unit [] h = unfold run in refl
minute-unit (c ∷ t) h =
    run-cons minute c t
    ∙ ap (λ q. run q t) (step_minute_digit c h ∙ sym (step_unit_digit c h))
    ∙ sym (run-cons unit c t)

-- The states after a number.
data HasNumber : State → Type 0 where
  at_whole : HasNumber whole
  at_fraction : HasNumber fraction

step-after_number :
    {q : State} (n : HasNumber q) (c : ℕ)
    → is_digit c ≡ false
    → nat_eq c b'.' ≡ false
    → step q c ≡ after_number c
unfolding step
step-after_number at_whole c h k = rw (h, k) refl
step-after_number at_fraction c h k = rw h refl

letter_not_digit :
    (c : ℕ)
    → (is_small_prefix c || (is_m c || (is_s c || is_h c))) ≡ true
    → (is_digit c ≡ false) × (nat_eq c b'.' ≡ false)
letter_not_digit c h = ground arith

after_number-single :
    (c : ℕ) → is_unit (c ∷ []) ≡ true → (after_number c ≡ minute) ⊎ (after_number c ≡ unit)
after_number-single c h = elim (Bool-cases (is_m c)) [
  | inl em ↦ inl (ground arith)
  | inr other ↦ inr (ground arith)
]

after_number-pair : (c d : ℕ) → is_unit (c ∷ (d ∷ [])) ≡ true → step (after_number c) d ≡ unit
unfolding step
after_number-pair c d h = ground arith

run-unit :
    {q : State} (n : HasNumber q) (u t : Text)
    → is_unit u ≡ true
    → BeginsDigit t
    → run q (u ++ t) ≡ run unit t
run-unit n [] t h b = cc
run-unit {q} n (c ∷ []) t h b =
    let (x, y) = letter_not_digit c (ground arith) in
    run-cons q c t
    ∙ ap (λ r. run r t) (step-after_number n c x y)
    ∙ elim (after_number-single c h) [
      | inl e ↦ ap (λ r. run r t) e ∙ minute-unit t b
      | inr e ↦ ap (λ r. run r t) e
    ]
run-unit {q} n (c ∷ (d ∷ [])) t h b =
    let (x, y) = letter_not_digit c (ground arith) in
    run-cons q c (d ∷ t)
    ∙ ap (λ r. run r (d ∷ t)) (step-after_number n c x y)
    ∙ run-cons (after_number c) d t
    ∙ ap (λ r. run r t) (after_number-pair c d h)
run-unit n (c ∷ (d ∷ (e ∷ u))) t h b = cc

step-whole_dot : step whole b'.' ≡ point
unfolding step
step-whole_dot = refl

step_point_digit : (c : ℕ) → is_digit c ≡ true → step point c ≡ fraction
unfolding step
step_point_digit c d = rw d refl

step_start_digit : (c : ℕ) → is_digit c ≡ true → step start c ≡ whole
unfolding step
step_start_digit c d = rw d refl

filled_segments :
    (s : Text)
    → InStart s
    → (g : Segment) × (gs : List Segment) × All IsSegment (g ∷ gs) × (s ≡ print_segments (g ∷ gs))
filled_segments s i = split i (InStart-AfterUnit s i)
  where
    split :
        InStart s
        → AfterUnit s
        → (g : Segment) × (gs : List Segment) × All IsSegment (g ∷ gs)
          × (s ≡ print_segments (g ∷ gs))
    split (c, r, e, _, _) ([], all, e') = let f : c ∷ r ≡ [] = sym e ∙ e' in cc f
    split i (g ∷ gs, all, e) = (g, gs, all, e)

-- From the unit on, whatever the decimals.
run-decimals :
    (ds u t : Text)
    → every is_digit ds ≡ true
    → is_unit u ≡ true
    → BeginsDigit t
    → run whole (print_decimals ds ++ (u ++ t)) ≡ run unit t
run-decimals [] u t h k b = run-unit at_whole u t k b
run-decimals (d ∷ ds) u t h k b =
    let (x, y) = &&-eq-true (is_digit d) (every is_digit ds) h in
    run-cons whole b'.' (d ∷ (ds ++ (u ++ t)))
    ∙ ap (λ q. run q (d ∷ (ds ++ (u ++ t)))) step-whole_dot
    ∙ run-cons point d (ds ++ (u ++ t))
    ∙ ap (λ q. run q (ds ++ (u ++ t))) (step_point_digit d x)
    ∙ fraction-digits ds (u ++ t) y
    ∙ run-unit at_fraction u t k b

BeginsDigit-print_segments :
    (gs : List Segment) → All IsSegment gs → BeginsDigit (print_segments gs)
BeginsDigit-print_segments [] h = tt
BeginsDigit-print_segments (g ∷ gs) ((filled, digits, _, _), h) = begins g.number filled digits
  where
    begins :
        (s : Text)
        → IsFilled s
        → every is_digit s ≡ true
        → BeginsDigit (s ++ (print_decimals g.decimals ++ (g.symbol ++ print_segments gs)))
    begins [] f d = absurd f
    begins (c ∷ s) f d = (&&-eq-true (is_digit c) (every is_digit s) d).0

-- A digit leads to the same place from the start as from a unit.
number_read :
    (q : State) (n r : Text)
    → ((c : ℕ) → is_digit c ≡ true → step q c ≡ whole)
    → IsFilled n
    → every is_digit n ≡ true
    → run q (n ++ r) ≡ run whole r
number_read q [] r go f h = absurd f
number_read q (c ∷ n) r go f h =
    let (x, y) = &&-eq-true (is_digit c) (every is_digit n) h in
    run-cons q c (n ++ r) ∙ ap (λ p. run p (n ++ r)) (go c x) ∙ whole-digits n r y

run-print_segments : (gs : List Segment) → All IsSegment gs → run unit (print_segments gs) ≡ true
run-print_segments [] h = unfold run in refl
run-print_segments (g ∷ gs) ((filled, digits, decimals, symbol), h) =
    number_read unit g.number _ step_unit_digit filled digits
    ∙ run-decimals g.decimals g.symbol (print_segments gs) decimals symbol
        (BeginsDigit-print_segments gs h)
    ∙ run-print_segments gs h

-- The pattern matches a text exactly when it is one or more numbers, each with decimals or without and
-- followed by a unit, one after the other.
pub matches_duration_iff :
    (s : Text)
    → (matches_duration s ≡ true) ↔ (
        (g : Segment) × (gs : List Segment) × All IsSegment (g ∷ gs)
        × (s ≡ print_segments (g ∷ gs)))
unfolding matches_duration
matches_duration_iff s = (
  λ h. filled_segments s (run_sound start s h),
  λ (g, gs, ((filled, digits, decimals, symbol), all), e).
      ap (run start) e
      ∙ number_read start g.number _ step_start_digit filled digits
      ∙ run-decimals g.decimals g.symbol (print_segments gs) decimals symbol
          (BeginsDigit-print_segments gs all)
      ∙ run-print_segments gs all,
)
