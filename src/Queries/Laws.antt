-- ===== src/Queries/Laws.antt =====
-- The conditions of a query, and the bounds of the numbers of a request.
use beyond_ads_dns.Prelude.{
  ℕ, suc, ◌*◌, ◌^◌, ◌≤◌, ◌≡◌, refl, ap, ◌∙◌, sym, String, Bool, true, false, not, Option, none,
  some, List, [], ◌∷◌, ◌++◌, length, arith, Bool-cases, inl, inr, if◌then◌else◌, ltb, nat-Eq,
  list-Eq,
}
use beyond_ads_dns.Prelude.Int.{ℤ, pos, negsuc}
use beyond_ads_dns.Js.Text.{Text, text, is_empty}
use beyond_ads_dns.Js.Value.{Number, Value, end}
use beyond_ads_dns.Queries.{
  whole, clamp_units, clamp_number, is_positive, Filters, filters, clauses, add, add_outcomes,
  asked, asked_either, outcomes, duration, since_minutes, build_query_filters, more_outcomes,
  outcome_clause,
}

-- The double u / 2^s lies between two natural numbers.
abbrev pub IsBetween : ℕ → ℕ → Number → Type 0
IsBetween low high n = elim (n.units) [
  | pos u ↦ (low * 2 ^ n.scale ≤ u) × (u ≤ high * 2 ^ n.scale)
  | negsuc u ↦ ⊥
]

whole-IsBetween : (low high n : ℕ) → low ≤ n → n ≤ high → IsBetween low high (whole n)
whole-IsBetween low high n p q = omega arith

clamp_units-IsBetween :
    (low high : ℕ) (units : ℤ) (scale : ℕ)
    → low ≤ high
    → IsBetween low high (clamp_units low high (record { units = units; scale = scale }) units)
clamp_units-IsBetween low high (negsuc u) scale h = whole-IsBetween low high low (omega arith) h
clamp_units-IsBetween low high (pos u) scale h = elim (Bool-cases (ltb u (low * 2 ^ scale))) [
  | inl under ↦ rw under (whole-IsBetween low high low (omega arith) h)
  | inr fits ↦ elim (Bool-cases (ltb (high * 2 ^ scale) u)) [
    | inl over ↦ rw (fits, over) (whole-IsBetween low high high h (omega arith))
    | inr within ↦ rw (fits, within) (ground arith)
  ]
]

-- A number of a request is within its bounds, whatever is sent for it.
pub clamp_number_bounds :
    (v : Option Number) (fallback low high : ℕ)
    → low ≤ fallback
    → fallback ≤ high
    → IsBetween low high (clamp_number v fallback low high)
unfolding clamp_number
clamp_number_bounds none fallback low high p q = whole-IsBetween low high fallback p q
clamp_number_bounds (some n) fallback low high p q =
    clamp_units-IsBetween low high n.units n.scale (omega arith)

extend : Bool → String → List Text → List Text
extend present clause cs = if present then cs ++ text clause ∷ [] else cs

no_clauses : (xs : List Text) → xs ≡ xs ++ []
no_clauses [] = refl
no_clauses (x ∷ xs) = ap (λ ys. x ∷ ys) (no_clauses xs)

HasClauses : Filters → List Text → Type 0
HasClauses f cs = clauses f ≡ cs

add-clauses :
    (present : Bool) (clause k : String) (v : Value) (f : Filters) (cs : List Text)
    → HasClauses f cs
    → HasClauses (add present clause k v f) (extend present clause cs)
unfolding add extend HasClauses
add-clauses true clause k v f cs e = ap (λ xs. xs ++ text clause ∷ []) e
add-clauses false clause k v f cs e = e

nothing : HasClauses (filters [] end) []
unfolding HasClauses
nothing = refl

more_outcomes-length :
    (number_text : Number → Text) (i : ℕ) (xs ys : List Text)
    → length xs ≡ length ys
    → more_outcomes number_text i xs ≡ more_outcomes number_text i ys
unfolding more_outcomes
more_outcomes-length number_text i [] [] e = refl
more_outcomes-length number_text i [] (y ∷ ys) e = absurd (omega arith)
more_outcomes-length number_text i (x ∷ xs) [] e = absurd (omega arith)
more_outcomes-length number_text i (x ∷ xs) (y ∷ ys) e =
    ap (λ (t : Text). text " OR " ++ (outcome_clause number_text i ++ t))
      (more_outcomes-length number_text (suc i) xs ys (omega arith))

module _ (number_text : Number → Text) (number_of : Value → Option Number)
    (window_start : Number → Text) (name_of : Text → String) where
  -- The outcomes that a request asks for.
  abbrev pub asked_outcomes : Value → List Text
  asked_outcomes q =
      if is_empty (asked number_text number_of window_start name_of q "outcome")
      then []
      else outcomes number_text number_of window_start name_of q

  outcome_clauses : List Text → List Text
  outcome_clauses [] = []
  outcome_clauses (x ∷ []) = text "outcome = {outcome: String}" ∷ []
  outcome_clauses (x ∷ (x' ∷ xs)) =
      (text "("
        ++ (outcome_clause number_text 0 ++ (more_outcomes number_text 1 (x' ∷ xs) ++ text ")")))
      ∷ []

  add_outcomes-clauses :
      (q : Value) (xs : List Text) (f : Filters) (cs : List Text)
      → HasClauses f cs
      → HasClauses
          (add_outcomes number_text number_of window_start name_of q xs f)
          (cs ++ outcome_clauses xs)
  unfolding add add_outcomes outcome_clauses HasClauses
  add_outcomes-clauses q [] f cs e = e ∙ no_clauses cs
  add_outcomes-clauses q (x ∷ []) f cs e = ap (λ xs. xs ++ outcome_clauses (x ∷ [])) e
  add_outcomes-clauses q (x ∷ (x' ∷ xs)) f cs e = ap (λ ys. ys ++ outcome_clauses (x ∷ (x' ∷ xs))) e

  outcome_clauses-length :
      (xs ys : List Text) → length xs ≡ length ys → outcome_clauses xs ≡ outcome_clauses ys
  unfolding outcome_clauses
  outcome_clauses-length [] [] e = refl
  outcome_clauses-length (x ∷ []) (y ∷ []) e = refl
  outcome_clauses-length (x ∷ (x' ∷ xs)) (y ∷ (y' ∷ ys)) e =
      ap (λ (t : Text). (text "(" ++ (outcome_clause number_text 0 ++ (t ++ text ")"))) ∷ [])
        (more_outcomes-length number_text 1 (x' ∷ xs) (y' ∷ ys) (omega arith))
  outcome_clauses-length [] (y ∷ ys) e = absurd (omega arith)
  outcome_clauses-length (x ∷ xs) [] e = absurd (omega arith)
  outcome_clauses-length (x ∷ []) (y ∷ (y' ∷ ys)) e = absurd (omega arith)
  outcome_clauses-length (x ∷ (x' ∷ xs)) (y ∷ []) e = absurd (omega arith)

  -- The conditions, of the tests on what the request sets.
  clauses_of :
      (String → Bool) → (String → String → Bool) → Bool → (String → Bool) → List Text → List Text
  unfolding extend outcome_clauses
  clauses_of asks either since lasts os =
      extend (lasts "max_duration_ms") "duration_ms <= {max_duration: UInt32}" (
        extend (lasts "min_duration_ms") "duration_ms >= {min_duration: UInt32}" (
          extend since "ts >= {since_start: DateTime}" (
            extend (not (either "client_ip" "client"))
              "(positionCaseInsensitive(client_ip, {client: String}) > 0 OR positionCaseInsensitive(client_name, {client: String}) > 0)"
              (extend (not (asks "protocol")) "protocol = {protocol: String}" (
                extend (not (asks "qclass")) "qclass = {qclass: String}" (
                  extend (not (asks "qtype")) "qtype = {qtype: String}" (
                    extend (not (asks "rcode")) "rcode = {rcode: String}" (
                      extend (not (asks "qname"))
                        "positionCaseInsensitive(qname, {qname: String}) > 0"
                        (extend (not (either "q" "search"))
                          "(positionCaseInsensitive(qname, {search: String}) > 0 OR positionCaseInsensitive(client_ip, {search: String}) > 0 OR positionCaseInsensitive(client_name, {search: String}) > 0)"
                          [])
                      ++ os))))))))

  build_query_filters-clauses :
      (q : Value)
      → HasClauses (build_query_filters number_text number_of window_start name_of q) (
          clauses_of
            (λ k. is_empty (asked number_text number_of window_start name_of q k))
            (λ k j. is_empty (asked_either number_text number_of window_start name_of q k j))
            (is_positive (since_minutes number_text number_of window_start name_of q))
            (λ k. is_positive (duration number_text number_of window_start name_of q k))
            (outcome_clauses (asked_outcomes q)))
  unfolding build_query_filters clauses_of
  build_query_filters-clauses q = add-clauses _ _ _ _ _ _ (
      add-clauses _ _ _ _ _ _ (
        add-clauses _ _ _ _ _ _ (
          add-clauses _ _ _ _ _ _ (
            add-clauses _ _ _ _ _ _ (
              add-clauses _ _ _ _ _ _ (
                add-clauses _ _ _ _ _ _ (
                  add-clauses _ _ _ _ _ _ (
                    add_outcomes-clauses q (asked_outcomes q) _ _
                      (add-clauses _ _ _ _ _ _ (add-clauses _ _ _ _ _ _ nothing))))))))))

  -- Two requests set the same filters, and as many outcomes.
  pub record IsAlike (q r : Value) : Type 0 where
    pub text_alike :
        (k : String)
        → is_empty (asked number_text number_of window_start name_of q k)
          ≡ is_empty (asked number_text number_of window_start name_of r k)
    pub either_alike :
        (k j : String)
        → is_empty (asked_either number_text number_of window_start name_of q k j)
          ≡ is_empty (asked_either number_text number_of window_start name_of r k j)
    pub outcomes_alike : length (asked_outcomes q) ≡ length (asked_outcomes r)
    pub since_alike :
        is_positive (since_minutes number_text number_of window_start name_of q)
        ≡ is_positive (since_minutes number_text number_of window_start name_of r)
    pub duration_alike :
        (k : String)
        → is_positive (duration number_text number_of window_start name_of q k)
          ≡ is_positive (duration number_text number_of window_start name_of r k)

  -- The conditions of two such requests are the same texts.
  pub build_query_filters-IsAlike :
      (q r : Value)
      → IsAlike q r
      → clauses (build_query_filters number_text number_of window_start name_of q)
        ≡ clauses (build_query_filters number_text number_of window_start name_of r)
  unfolding HasClauses
  build_query_filters-IsAlike q r a =
      build_query_filters-clauses q
      ∙ ((λ i.
            clauses_of (λ k. a.text_alike k i) (λ k j. a.either_alike k j i) (a.since_alike i)
              (λ k. a.duration_alike k i)
              (outcome_clauses-length (asked_outcomes q) (asked_outcomes r) a.outcomes_alike i))
          ∙ sym (build_query_filters-clauses r))
