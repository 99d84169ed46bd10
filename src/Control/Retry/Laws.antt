-- ===== src/Control/Retry/Laws.antt =====
-- What one attempt comes to, and how long the attempts may wait.
use beyond_ads_dns.Prelude.{
  ℕ, suc, ◌+◌, ◌≤◌, ◌≡◌, inl, inr, refl, ◌⊎◌, Bool, true, false, not, ◌&&◌, ◌||◌, Option, none,
  some, List, [], ◌∷◌, nat_eq, if◌then◌else◌, arith, length, Bool-cases,
}
use beyond_ads_dns.Js.Text.{Text}
use beyond_ads_dns.Js.Value.{Value, is_some}
use beyond_ads_dns.Control.{Fetched, failed, answered, is_ok, ok_true}
use beyond_ads_dns.Routes.Settings.{Reply, ok, refused}
use beyond_ads_dns.Control.Retry.{
  Round, finished, again, round, refusal_round, wait_first, attempts,
}

-- The control server did what was asked.
abbrev pub succeeds : Fetched → Bool
succeeds failed = false
succeeds (answered r) = is_ok r.status

-- It is busy, or its answer did not come through.
abbrev pub can_retry : Fetched → Bool
can_retry failed = true
can_retry (answered r) = not (is_ok r.status) && (not (is_some r.text_body) || nat_eq r.status 429)

abbrev pub sum : List ℕ → ℕ
sum [] = 0
sum (x ∷ xs) = x + sum xs

-- The waits are the first of the delays, as many as were made.
abbrev pub IsPrefix : List ℕ → List ℕ → Type 0
IsPrefix [] ys = Unit
IsPrefix (x ∷ xs) [] = ⊥
IsPrefix (x ∷ xs) (y ∷ ys) = (x ≡ y) × IsPrefix xs ys

round-success : (f : Fetched) → succeeds f ≡ true → round f ≡ finished (ok ok_true)
unfolding round
round-success failed h = cc
round-success (answered r) h = rw h refl

round-retry : (f : Fetched) → can_retry f ≡ true → (s : ℕ) × (round f ≡ again (refused s))
unfolding round
round-retry failed h = (500, refl)
round-retry (answered r) h = retried r.status r.text_body h
  where
    retried :
        (s : ℕ) (o : Option Text)
        → (not (is_ok s) && (not (is_some o) || nat_eq s 429)) ≡ true
        → (t : ℕ) × ((if is_ok s then finished (ok ok_true) else refusal_round s o)
            ≡ again (refused t))
    retried s none k = (500, ground arith)
    retried s (some body) k = (502, ground arith)

round-refusal :
    (f : Fetched) → succeeds f ≡ false → can_retry f ≡ false → round f ≡ finished (refused 502)
unfolding round
round-refusal failed h k = cc
round-refusal (answered r) h k = final r.status r.text_body h k
  where
    final :
        (s : ℕ) (o : Option Text)
        → is_ok s ≡ false
        → (not (is_ok s) && (not (is_some o) || nat_eq s 429)) ≡ false
        → (if is_ok s then finished (ok ok_true) else refusal_round s o) ≡ finished (refused 502)
    final s none a b = ground arith
    final s (some body) a b = ground arith

pub IsPrefix-sum : (xs ys : List ℕ) → IsPrefix xs ys → sum xs ≤ sum ys
IsPrefix-sum [] ys h = omega arith
IsPrefix-sum (x ∷ xs) [] h = elim h [ ]
IsPrefix-sum (x ∷ xs) (y ∷ ys) (e, h) = omega (arith, e, IsPrefix-sum xs ys h)

wait_first-IsPrefix :
    (d : ℕ) (ds : List ℕ) (r : Round) (later : List ℕ × Reply Value)
    → IsPrefix later.0 ds
    → IsPrefix (wait_first d r later).0 (d ∷ ds)
wait_first-IsPrefix d ds (finished r) later h = tt
wait_first-IsPrefix d ds (again r) later h = (refl, h)

pub attempts-IsPrefix :
    (ds : List ℕ) (fetch : ℕ → Fetched) (n : ℕ) → IsPrefix (attempts ds fetch n).0 ds
unfolding attempts
attempts-IsPrefix [] fetch n = tt
attempts-IsPrefix (d ∷ ds) fetch n =
    wait_first-IsPrefix d ds (round (fetch n)) (attempts ds fetch (suc n))
      (attempts-IsPrefix ds fetch (suc n))

pub IsPrefix-length : (xs ys : List ℕ) → IsPrefix xs ys → length xs ≤ length ys
IsPrefix-length [] ys h = omega arith
IsPrefix-length (x ∷ xs) [] h = elim h [ ]
IsPrefix-length (x ∷ xs) (y ∷ ys) (e, h) = omega (arith, IsPrefix-length xs ys h)

-- What an attempt comes to.
pub round-cases :
    (f : Fetched)
    → ((succeeds f ≡ true) × (round f ≡ finished (ok ok_true)))
      ⊎ ((succeeds f ≡ false) × (can_retry f ≡ true) × ((s : ℕ) × (round f ≡ again (refused s))))
      ⊎ ((succeeds f ≡ false) × (can_retry f ≡ false) × (round f ≡ finished (refused 502)))
round-cases f = elim (Bool-cases (succeeds f)) [
  | inl good ↦ inl (good, round-success f good)
  | inr bad ↦ elim (Bool-cases (can_retry f)) [
    | inl busy ↦ inr (inl (bad, busy, round-retry f busy))
    | inr final ↦ inr (inr (bad, final, round-refusal f bad final))
  ]
]
