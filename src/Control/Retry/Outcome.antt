-- ===== src/Control/Retry/Outcome.antt =====
-- When the reload succeeds.
use beyond_ads_dns.Prelude.{
  ℕ, zero, suc, ◌+◌, ◌≤◌, ◌<◌, ◌≡◌, ◌↔◌, inl, inr, refl, ap, ◌∙◌, ◌⊎◌, true, false, Option, List,
  [], ◌∷◌, arith, length, Bool-cases, if_both,
}
use beyond_ads_dns.Js.Text.{is_empty}
use beyond_ads_dns.Js.Value.{Value}
use beyond_ads_dns.Control.{Link, Request, Fetched, failed, answered, ok_true}
use beyond_ads_dns.Routes.Settings.{Reply, ok, refused}
use beyond_ads_dns.Control.Retry.{backoff_delays, attempts, apply_blocklists}
use beyond_ads_dns.Control.Retry.Laws.{
  succeeds, can_retry, sum, IsPrefix, round-cases, IsPrefix-sum, IsPrefix-length, attempts-IsPrefix,
}

-- Some attempt from n on, at most as many later as there are delays, succeeds, and each before it can
-- be tried again.
abbrev pub Reaches : ℕ → (ℕ → Fetched) → ℕ → Type 0
Reaches left fetch n =
    (k : ℕ) × (k ≤ left)
    × (succeeds (fetch (n + k)) ≡ true)
    × ((m : ℕ) → m < k → can_retry (fetch (n + m)) ≡ true)

not_both : (f : Fetched) → succeeds f ≡ true → can_retry f ≡ true → ⊥
not_both failed h k = cc
not_both (answered r) h k = ground arith

Reaches-zero : (fetch : ℕ → Fetched) (n left : ℕ) → succeeds (fetch n) ≡ true → Reaches left fetch n
Reaches-zero fetch n left h =
    (0, omega arith, ap (λ j. succeeds (fetch j)) (omega arith) ∙ h, λ m lt. absurd (omega arith))

Reaches-suc :
    (fetch : ℕ → Fetched) (n left : ℕ)
    → can_retry (fetch n) ≡ true
    → Reaches left fetch (suc n)
    → Reaches (suc left) fetch n
Reaches-suc fetch n left h (k, le, good, before) =
    (suc k, omega arith, ap (λ j. succeeds (fetch j)) (omega arith) ∙ good, from_here)
  where
    from_here : (m : ℕ) → m < suc k → can_retry (fetch (n + m)) ≡ true
    from_here zero lt = ap (λ j. can_retry (fetch j)) (omega arith) ∙ h
    from_here (suc m) lt = ap (λ j. can_retry (fetch j)) (omega arith) ∙ before m (omega arith)

-- The other way: the first attempt succeeds, or is tried again and a later one succeeds.
Reaches-cases :
    (fetch : ℕ → Fetched) (n left : ℕ)
    → Reaches (suc left) fetch n
    → (succeeds (fetch n) ≡ true) ⊎ ((can_retry (fetch n) ≡ true) × Reaches left fetch (suc n))
Reaches-cases fetch n left (zero, le, good, before) =
    inl (ap (λ j. succeeds (fetch j)) (omega arith) ∙ good)
Reaches-cases fetch n left (suc k, le, good, before) = inr (
  ap (λ j. can_retry (fetch j)) (omega arith) ∙ before 0 (omega arith),
  (
    k,
    omega arith,
    ap (λ j. succeeds (fetch j)) (omega arith) ∙ good,
    λ m lt. ap (λ j. can_retry (fetch j)) (omega arith) ∙ before (suc m) (omega arith),
  ),
)

not_ok : {s : ℕ} → refused s ≡ ok ok_true → ⊥
not_ok e = cc

only_now : (fetch : ℕ → Fetched) (n : ℕ) → succeeds (fetch n) ≡ false → Reaches 0 fetch n → ⊥
only_now fetch n bad (k, le, good, before) =
    let here : succeeds (fetch n) ≡ true = ap (λ j. succeeds (fetch j)) (omega arith) ∙ good in
    cc (here, bad)

attempts_iff :
    (ds : List ℕ) (fetch : ℕ → Fetched) (n : ℕ)
    → ((attempts ds fetch n).1 ≡ ok ok_true) ↔ Reaches (length ds) fetch n
unfolding attempts
attempts_iff [] fetch n = elim (round-cases (fetch n)) [
  | inl (good, e) ↦ rw e (λ h. Reaches-zero fetch n 0 good, λ h. refl)
  | inr (inl (bad, busy, (s, e))) ↦
      rw e (λ h. absurd (not_ok h), λ r. absurd (only_now fetch n bad r))
  | inr (inr (bad, final, e)) ↦ rw e (λ h. absurd (not_ok h), λ r. absurd (only_now fetch n bad r))
]
attempts_iff (d ∷ ds) fetch n =
    let (to, from) = attempts_iff ds fetch (suc n) in
    elim (round-cases (fetch n)) [
      | inl (good, e) ↦ rw e (λ h. Reaches-zero fetch n (suc (length ds)) good, λ h. refl)
      | inr (inl (bad, busy, (s, e))) ↦ rw e (
        λ h. Reaches-suc fetch n (length ds) busy (to h),
        λ r. elim (Reaches-cases fetch n (length ds) r) [
          | inl good ↦ cc (good, bad)
          | inr (_, later) ↦ from later
        ],
      )
      | inr (inr (bad, final, e)) ↦ rw e (
        λ h. absurd (not_ok h),
        λ r. elim (Reaches-cases fetch n (length ds) r) [
          | inl good ↦ cc (good, bad)
          | inr (busy, later) ↦ cc (busy, final)
        ],
      )
    ]

-- A reload of the blocklists answers success exactly when the address of the control server is set and
-- one of at most five attempts succeeds, where at each attempt before it the control server was busy
-- (429), failed to answer, or gave an error whose text could not be read.
pub apply_blocklists_iff :
    (link : Link) (fetch : ℕ → Fetched)
    → ((apply_blocklists link fetch).2 ≡ ok ok_true)
      ↔ ((is_empty link.url ≡ false) × Reaches 4 fetch 0)
unfolding apply_blocklists
apply_blocklists_iff link fetch = elim (Bool-cases (is_empty link.url)) [
  | inl unset ↦ rw unset (λ h. absurd (not_ok h), λ (e, r). cc)
  | inr set ↦
      let (to, from) = attempts_iff backoff_delays fetch 0 in
      rw set (λ h. (refl, to h), λ (e, r). from r)
]

waits_IsPrefix :
    (link : Link) (fetch : ℕ → Fetched) → IsPrefix (apply_blocklists link fetch).1 backoff_delays
unfolding apply_blocklists
waits_IsPrefix link fetch =
    if_both (λ (r : Option Request × List ℕ × Reply Value). IsPrefix r.1 backoff_delays)
      (is_empty link.url) tt (attempts-IsPrefix backoff_delays fetch 0)

-- The waits between the attempts are the first ones of 4, 8, 16 and 32 seconds, so that there are at
-- most five attempts and all waits together take at most a minute, whatever the control server does.
pub apply_blocklists_bounds :
    (link : Link) (fetch : ℕ → Fetched)
    → IsPrefix (apply_blocklists link fetch).1 backoff_delays
      × (length (apply_blocklists link fetch).1 ≤ 4)
      × (sum (apply_blocklists link fetch).1 ≤ 60000)
apply_blocklists_bounds link fetch =
    let waits = waits_IsPrefix link fetch in
    (
      waits,
      IsPrefix-length (apply_blocklists link fetch).1 backoff_delays waits,
      IsPrefix-sum (apply_blocklists link fetch).1 backoff_delays waits,
    )
