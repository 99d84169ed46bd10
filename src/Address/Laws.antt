-- ===== src/Address/Laws.antt =====
-- Which names and addresses the checks accept.
use beyond_ads_dns.Prelude.{
  ℕ, ◌≤◌, ◌≡◌, ◌↔◌, inl, inr, refl, sym, ap, ◌∙◌, Bool, true, false, not, ◌&&◌, List, [], ◌∷◌, ◌++◌,
  nat_eq, leb, length, if◌then◌else◌, arith, Bool-cases, &&-eq-true,
}
use beyond_ads_dns.Js.Text.{Text, is_empty, is_digit, trim}
use beyond_ads_dns.Denylist.{strip_dot}
use beyond_ads_dns.Address.{
  push_part, split_on, every, every_part, is_label_unit, is_label, is_valid_dns_name, is_octet,
  is_digits, is_valid_ipv4,
}

-- The texts with the separator between them.
abbrev pub join : ℕ → Text → List Text → Text
join c t [] = t
join c t (u ∷ us) = t ++ (c ∷ join c u us)

-- The separator is not in the text.
abbrev pub lacks : ℕ → Text → Bool
lacks c = every (λ d. not (nat_eq d c))

split_on-last : (c : ℕ) (t : Text) → lacks c t ≡ true → split_on c t ≡ t ∷ []
unfolding split_on
split_on-last c [] h = refl
split_on-last c (d ∷ t) h = ground (arith, split_on-last c t)

split_on-part :
    (c : ℕ) (t s : Text) → lacks c t ≡ true → split_on c (t ++ (c ∷ s)) ≡ t ∷ split_on c s
unfolding split_on
split_on-part c [] s h = ground arith
split_on-part c (d ∷ t) s h = ground (arith, split_on-part c t s)

-- Splitting takes apart what was joined.
pub split_on-join :
    (c : ℕ) (t : Text) (ts : List Text)
    → lacks c t ≡ true
    → every_part (lacks c) ts ≡ true
    → split_on c (join c t ts) ≡ t ∷ ts
split_on-join c t [] h k = split_on-last c t h
split_on-join c t (u ∷ us) h k =
    let (a, b) = &&-eq-true (lacks c u) (every_part (lacks c) us) k in
    split_on-part c t (join c u us) h ∙ ap (λ r. t ∷ r) (split_on-join c u us a b)

abbrev join_parts : ℕ → List Text → Text
join_parts c [] = []
join_parts c (t ∷ ts) = join c t ts

join-push_part : (c d : ℕ) (ps : List Text) → join_parts c (push_part d ps) ≡ d ∷ join_parts c ps
join-push_part c d [] = refl
join-push_part c d (p ∷ []) = refl
join-push_part c d (p ∷ (q ∷ ps)) = refl

split_on-step :
    (c d : ℕ) (s : Text)
    → split_on c (d ∷ s) ≡ (if nat_eq d c then [] ∷ split_on c s else push_part d (split_on c s))
unfolding split_on
split_on-step c d s = refl

split_on-cons_step :
    (c d : ℕ) (p : Text) (ps qs rs : List Text)
    → qs ≡ p ∷ ps
    → rs ≡ (if nat_eq d c then [] ∷ qs else push_part d qs)
    → (q : Text) × (qs' : List Text) × (rs ≡ q ∷ qs')
split_on-cons_step c d p ps qs rs e h = elim (Bool-cases (nat_eq d c)) [
  | inl same ↦ ([], qs, rw same at h)
  | inr other ↦ (d ∷ p, ps, rw (other, e) at h)
]

split_on-cons : (c : ℕ) (s : Text) → (p : Text) × (ps : List Text) × (split_on c s ≡ p ∷ ps)
split_on-cons c [] = ([], [], unfold split_on in refl)
split_on-cons c (d ∷ s) =
    let (p, ps, e) = split_on-cons c s in
    split_on-cons_step c d p ps (split_on c s) (split_on c (d ∷ s)) e (split_on-step c d s)

join_parts-cons :
    (c : ℕ) (p : Text) (ps : List Text) → join_parts c ([] ∷ (p ∷ ps)) ≡ c ∷ join_parts c (p ∷ ps)
join_parts-cons c p ps = refl

join_step :
    (c d : ℕ) (s p : Text) (ps qs : List Text)
    → qs ≡ p ∷ ps
    → join_parts c qs ≡ s
    → join_parts c (if nat_eq d c then [] ∷ qs else push_part d qs) ≡ d ∷ s
join_step c d s p ps qs e h = elim (Bool-cases (nat_eq d c)) [
  | inl same ↦
      let at : d ≡ c = ground arith in
      rw (same, e) (ap (λ r. c ∷ r) (ap (join_parts c) (sym e) ∙ h) ∙ ap (λ x. x ∷ s) (sym at))
  | inr other ↦ rw other (join-push_part c d qs ∙ ap (λ r. d ∷ r) h)
]

-- Joining puts together what was split.
pub join-split_on : (c : ℕ) (s : Text) → join_parts c (split_on c s) ≡ s
join-split_on c [] = unfold split_on in refl
join-split_on c (d ∷ s) =
    let (p, ps, e) = split_on-cons c s in
    ap (join_parts c) (split_on-step c d s)
    ∙ join_step c d s p ps (split_on c s) e (join-split_on c s)

every_part-lacks :
    (c : ℕ) (p : Text → Bool)
    → ((t : Text) → p t ≡ true → lacks c t ≡ true)
    → (ts : List Text) → every_part p ts ≡ true
    → every_part (lacks c) ts ≡ true
every_part-lacks c p safe [] h = refl
every_part-lacks c p safe (t ∷ ts) h =
    let (a, b) = &&-eq-true (p t) (every_part p ts) h in
    rw (safe t a) (every_part-lacks c p safe ts b)

-- The parts that pass a test, of which the text is made.
split_on-parts :
    (c : ℕ) (p : Text → Bool) (s : Text)
    → every_part p (split_on c s) ≡ true
    → (t : Text) × (ts : List Text) × (every_part p (t ∷ ts) ≡ true)
      × (s ≡ join c t ts)
      × (split_on c s ≡ t ∷ ts)
split_on-parts c p s h =
    let (t, ts, e) = split_on-cons c s in
    (t, ts, ap (every_part p) (sym e) ∙ h, sym (join-split_on c s) ∙ ap (join_parts c) e, e)

-- What is made of parts that pass a test is split into these, where no text with the separator passes.
split_on-joined :
    (c : ℕ) (p : Text → Bool) (s t : Text) (ts : List Text)
    → ((u : Text) → p u ≡ true → lacks c u ≡ true)
    → every_part p (t ∷ ts) ≡ true
    → s ≡ join c t ts
    → split_on c s ≡ t ∷ ts
split_on-joined c p s t ts safe h e =
    let (a, b) = &&-eq-true (p t) (every_part p ts) h in
    ap (split_on c) e ∙ split_on-join c t ts (safe t a) (every_part-lacks c p safe ts b)

lacks_of_every :
    (c : ℕ) (p : ℕ → Bool)
    → ((d : ℕ) → p d ≡ true → nat_eq d c ≡ false)
    → (t : Text) → every p t ≡ true
    → lacks c t ≡ true
lacks_of_every c p safe [] h = refl
lacks_of_every c p safe (d ∷ t) h =
    let (a, b) = &&-eq-true (p d) (every p t) h in rw (safe d a) (lacks_of_every c p safe t b)

is_octet-lacks : (t : Text) → is_octet t ≡ true → lacks b'.' t ≡ true
unfolding is_octet
is_octet-lacks t h =
    lacks_of_every b'.' is_digit (λ d k. ground arith) t
      (&&-eq-true (not (is_empty t)) (every is_digit t) (&&-eq-true (is_digits t) _ h).0).1

is_label-lacks : (t : Text) → is_label t ≡ true → lacks b'.' t ≡ true
unfolding is_label
is_label-lacks t h = lacks_of_every b'.' is_label_unit (λ d k. ground arith) t (ground arith)

four_parts :
    (s t : Text) (ts : List Text)
    → nat_eq (length (t ∷ ts)) 4 ≡ true
    → every_part is_octet (t ∷ ts) ≡ true
    → s ≡ join b'.' t ts
    → (a : Text) × (b : Text) × (c : Text) × (d : Text) × (every_part is_octet
          (a ∷ (b ∷ (c ∷ (d ∷ []))))
        ≡ true)
      × (s ≡ join b'.' a (b ∷ (c ∷ (d ∷ []))))
four_parts s t [] n h e = cc
four_parts s t (u ∷ []) n h e = cc
four_parts s t (u ∷ (v ∷ [])) n h e = cc
four_parts s t (u ∷ (v ∷ (w ∷ []))) n h e = (t, u, v, w, h, e)
four_parts s t (u ∷ (v ∷ (w ∷ (x ∷ ts)))) n h e = ground arith

-- A text is an IPv4 address exactly when, without the blanks around it, it is four runs of digits with
-- dots between them, each of value 255 at most.
pub is_valid_ipv4_iff :
    (value : Text)
    → (is_valid_ipv4 value ≡ true) ↔ (
        (a : Text) × (b : Text) × (c : Text) × (d : Text) × (every_part is_octet
            (a ∷ (b ∷ (c ∷ (d ∷ []))))
          ≡ true)
        × (trim value ≡ join b'.' a (b ∷ (c ∷ (d ∷ [])))))
unfolding is_valid_ipv4
is_valid_ipv4_iff value = (
  λ h.
      let (four, octets) =
        &&-eq-true (nat_eq (length (split_on b'.' (trim value))) 4)
          (every_part is_octet (split_on b'.' (trim value))) h in
      let (t, ts, every_octet, e, parts) = split_on-parts b'.' is_octet (trim value) octets in
      four_parts (trim value) t ts (ap (λ ps. nat_eq (length ps) 4) (sym parts) ∙ four) every_octet
        e,
  λ (a, b, c, d, octets, e).
      let parts =
        split_on-joined b'.' is_octet (trim value) a (b ∷ (c ∷ (d ∷ []))) is_octet-lacks octets e in
      rw parts octets,
)

join-filled :
    (c : ℕ) (t : Text) (ts : List Text) → is_label t ≡ true → is_empty (join c t ts) ≡ false
unfolding is_label
join-filled c [] ts h = cc
join-filled c (d ∷ t) [] h = refl
join-filled c (d ∷ t) (u ∷ us) h = refl

-- A text is a DNS name exactly when, without the blanks around it and one dot at its end, it has at most
-- 253 units and is one or more labels with dots between them.
pub is_valid_dns_name_iff :
    (value : Text)
    → (is_valid_dns_name value ≡ true) ↔ (
        (t : Text) × (ts : List Text) × (every_part is_label (t ∷ ts) ≡ true)
        × (strip_dot (trim value) ≡ join b'.' t ts)
        × (length (strip_dot (trim value)) ≤ 253))
unfolding is_valid_dns_name
is_valid_dns_name_iff value = name (strip_dot (trim value))
  where
    name :
        (n : Text)
        → ((not (is_empty n) && leb (length n) 253 && every_part is_label (split_on b'.' n)) ≡ true)
          ↔ ((t : Text) × (ts : List Text) × (every_part is_label (t ∷ ts) ≡ true)
              × (n ≡ join b'.' t ts)
              × (length n ≤ 253))
    name n = (
      λ h.
          let (ok, labels) =
            &&-eq-true (not (is_empty n) && leb (length n) 253)
              (every_part is_label (split_on b'.' n)) h in
          let (t, ts, every_label, e, parts) = split_on-parts b'.' is_label n labels in
          (t, ts, every_label, e, ground arith),
      λ (t, ts, labels, e, short).
          let parts = split_on-joined b'.' is_label n t ts is_label-lacks labels e in
          let filled : is_empty n ≡ false =
            ap is_empty e
            ∙ join-filled b'.' t ts (&&-eq-true (is_label t) (every_part is_label ts) labels).0 in
          rw parts (rw (filled, labels) (ground arith)),
    )
