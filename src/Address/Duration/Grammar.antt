-- ===== src/Address/Duration/Grammar.antt =====
-- What a duration is, apart from the automaton: numbers, each with a unit, one after the other.
use beyond_ads_dns.Prelude.{
  ℕ, ◌≡◌, ◌⊎◌, inl, inr, refl, sym, ap, subst, ◌∙◌, Bool, true, false, ◌&&◌, ◌||◌, List, [], ◌∷◌,
  ◌++◌, All, arith,
}
use beyond_ads_dns.Js.Text.{Text, is_digit}
use beyond_ads_dns.Address.{every}
use beyond_ads_dns.Address.Duration.{
  State, start, whole, point, fraction, prefix, minute, unit, stuck, is_s, is_m, is_h,
  is_small_prefix,
}

-- The digits before the dot, the digits after it (none where there is no dot), and the unit.
pub record Segment : Type 0 where
  pub number : Text
  pub decimals : Text
  pub symbol : Text

-- "ns", "us", "ms" and so on, or "s", "m", "h", in either case.
abbrev pub is_unit : Text → Bool
is_unit (c ∷ []) = is_m c || (is_s c || is_h c)
is_unit (c ∷ (d ∷ [])) = (is_small_prefix c || is_m c) && is_s d
is_unit _ = false

abbrev pub IsFilled : Text → Type 0
IsFilled [] = ⊥
IsFilled (c ∷ s) = Unit

abbrev pub IsSegment : Segment → Type 0
IsSegment g =
    IsFilled g.number
    × (every is_digit g.number ≡ true)
    × (every is_digit g.decimals ≡ true)
    × (is_unit g.symbol ≡ true)

abbrev pub print_decimals : Text → Text
print_decimals [] = []
print_decimals (d ∷ ds) = b'.' ∷ (d ∷ ds)

abbrev pub print_segment : Segment → Text → Text
print_segment g rest = g.number ++ (print_decimals g.decimals ++ (g.symbol ++ rest))

abbrev pub print_segments : List Segment → Text
print_segments [] = []
print_segments (g ∷ gs) = print_segment g (print_segments gs)

-- Any number of segments.
abbrev pub AfterUnit : Text → Type 0
AfterUnit s = (gs : List Segment) × All IsSegment gs × (s ≡ print_segments gs)

abbrev pub AfterNumber : Text → Type 0
AfterNumber s = (u : Text) × (is_unit u ≡ true) × ((t : Text) × (s ≡ u ++ t) × AfterUnit t)

abbrev pub InFraction : Text → Type 0
InFraction s =
    (ds : Text) × (every is_digit ds ≡ true) × ((t : Text) × (s ≡ ds ++ t) × AfterNumber t)

abbrev pub InPoint : Text → Type 0
InPoint s = (c : ℕ) × (r : Text) × (s ≡ c ∷ r) × (is_digit c ≡ true) × InFraction r

abbrev pub InWhole : Text → Type 0
InWhole s =
    (ds : Text) × (every is_digit ds ≡ true)
    × ((t : Text) × (s ≡ ds ++ t) × (AfterNumber t ⊎ ((r : Text) × (t ≡ b'.' ∷ r) × InPoint r)))

abbrev pub InPrefix : Text → Type 0
InPrefix s = (d : ℕ) × (r : Text) × (s ≡ d ∷ r) × (is_s d ≡ true) × AfterUnit r

-- A digit and what may follow it.
abbrev pub InStart : Text → Type 0
InStart s = (c : ℕ) × (r : Text) × (s ≡ c ∷ r) × (is_digit c ≡ true) × InWhole r

-- What the automaton still accepts, from each of its states.
abbrev pub Meaning : State → Text → Type 0
Meaning start s = InStart s
Meaning whole s = InWhole s
Meaning point s = InPoint s
Meaning fraction s = InFraction s
Meaning prefix s = InPrefix s
Meaning minute s = AfterUnit s ⊎ InPrefix s
Meaning unit s = AfterUnit s
Meaning stuck s = ⊥

AfterNumber-segment :
    (c : ℕ) (ds es : Text) (s : Text)
    → is_digit c ≡ true
    → every is_digit ds ≡ true
    → every is_digit es ≡ true
    → AfterNumber s
    → AfterUnit (c ∷ (ds ++ (print_decimals es ++ s)))
AfterNumber-segment c ds es s dc dd de (u, iu, (t, e, (gs, all, p))) = (
  record { number = c ∷ ds; decimals = es; symbol = u } ∷ gs,
  ((tt, ground arith, de, iu), all),
  ap (λ r. c ∷ (ds ++ (print_decimals es ++ r))) (e ∙ ap (λ r. u ++ r) p),
)

-- A digit, and the rest of its number, begin a segment.
pub InStart-AfterUnit : (s : Text) → InStart s → AfterUnit s
InStart-AfterUnit s (c, r, e, dc, (ds, dd, (t, e', inl n))) =
    subst AfterUnit (sym (e ∙ ap (λ q. c ∷ q) e')) (AfterNumber-segment c ds [] t dc dd refl n)
InStart-AfterUnit s
      (c, r, e, dc, (ds, dd, (t, e', inr (q, dot, (d, x, y, dd', (es, de, (v, z, n))))))) =
    subst AfterUnit
      (sym (
        e
        ∙ ap (λ p. c ∷ p)
            (e' ∙ ap (λ p. ds ++ p) (dot ∙ ap (λ p. b'.' ∷ p) (y ∙ ap (λ p. d ∷ p) z)))))
      (AfterNumber-segment c ds (d ∷ es) v dc dd (ground arith) n)
