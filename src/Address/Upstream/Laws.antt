-- ===== src/Address/Upstream/Laws.antt =====
-- An address that the client accepts is accepted by the server.
use beyond_ads_dns.Prelude.{
  ℕ, ◌≡◌, inl, inr, refl, sym, ap, ◌∙◌, true, not, ◌&&◌, Option, none, some, [], ◌∷◌, ◌++◌, nat-Eq,
  list-Eq, leb, nat_eq, length, arith, Bool-cases, &&-eq-true, Option-cases,
}
use mathlib.Core.List.{append_assoc}
use beyond_ads_dns.Js.Text.{Text, text, is_empty, is_digit, trim}
use beyond_ads_dns.Address.{every, is_digits, cut_at, after_prefix}
use beyond_ads_dns.Address.Upstream.{
  Url, is_port_text, bracket_groups, match_bracketed, host_groups, match_host_port, check_groups,
  check_host_port, check_https, check_schemes, validate_upstream_address, after_last_colon,
  has_port, has_digits_last, is_doh_url, accepts_schemes, server_accepts_address,
}

-- A text of digits has no colon.
after_last_colon-digits : (s : Text) → every is_digit s ≡ true → after_last_colon s ≡ none
unfolding after_last_colon
after_last_colon-digits [] h = refl
after_last_colon-digits (c ∷ s) h =
    let (a, b) = &&-eq-true (is_digit c) (every is_digit s) h in
    ground (arith, after_last_colon-digits s b)

-- The digits after a colon are what follows the last one.
after_last_colon-port :
    (s port : Text) → every is_digit port ≡ true → after_last_colon (s ++ (b':' ∷ port)) ≡ some port
unfolding after_last_colon
after_last_colon-port [] port h = rw (after_last_colon-digits port h) refl
after_last_colon-port (c ∷ s) port h = rw (after_last_colon-port s port h) refl

cut_at-some : (c : ℕ) (s a b : Text) → cut_at c s ≡ some (a, b) → s ≡ a ++ (c ∷ b)
unfolding cut_at
cut_at-some c [] a b h = cc
cut_at-some c (d ∷ s) a b h = elim (Bool-cases (nat_eq d c)) [
  | inl same ↦ ground arith
  | inr other ↦ elim (Option-cases (cut_at c s)) [
    | inl none_left ↦ cc (rw (other, none_left) at h)
    | inr ((x, y), e) ↦
        let split : ◌≡◌ {A = Option (Text × Text)} (some (d ∷ x, y)) (some (a, b)) =
          rw (other, e) at h in
        ground (arith, cut_at-some c s x y e)
  ]
]

-- A host, a colon and a port.
abbrev EndsInPort : Text → Type 0
EndsInPort s =
    (host : Text) × (port : Text) × (s ≡ host ++ (b':' ∷ port)) × (is_port_text port ≡ true)

host_groups-some :
    (host port : Text) (g : Text × Text)
    → host_groups (some (host, port)) ≡ some g
    → is_port_text port ≡ true
host_groups-some host port g h = elim (Bool-cases (not (is_empty host) && is_port_text port)) [
  | inl good ↦ (&&-eq-true (not (is_empty host)) (is_port_text port) good).1
  | inr bad ↦ cc (rw bad at h)
]

bracket_groups-some :
    (host after : Text) (g : Text × Text)
    → bracket_groups (some (host, after)) ≡ some g
    → (port : Text) × (after ≡ b':' ∷ port) × (is_port_text port ≡ true)
bracket_groups-some host [] g h = cc
bracket_groups-some host (c ∷ port) g h =
    elim (Bool-cases (not (is_empty host) && nat_eq c b':' && is_port_text port)) [
      | inl good ↦
          let (a, b) = &&-eq-true (not (is_empty host) && nat_eq c b':') (is_port_text port) good in
          (port, ground arith, b)
      | inr bad ↦ cc (rw bad at h)
    ]

match_host_port-EndsInPort :
    (s : Text) (g : Text × Text) → match_host_port s ≡ some g → EndsInPort s
unfolding match_host_port
match_host_port-EndsInPort s g h = elim (Option-cases (cut_at b':' s)) [
  | inl no_colon ↦ cc (rw no_colon at h)
  | inr ((host, port), e) ↦
      (host, port, cut_at-some b':' s host port e, host_groups-some host port g (rw e at h))
]

match_bracketed-EndsInPort :
    (s : Text) (g : Text × Text) → match_bracketed s ≡ some g → EndsInPort s
unfolding match_bracketed
match_bracketed-EndsInPort [] g h = cc
match_bracketed-EndsInPort (c ∷ s) g h = elim (Bool-cases (nat_eq c b'[')) [
  | inr other ↦ cc (rw other at h)
  | inl open_bracket ↦ elim (Option-cases (cut_at b']' s)) [
    | inl no_bracket ↦ cc (rw (open_bracket, no_bracket) at h)
    | inr ((host, after), e) ↦
        let (port, e', good) = bracket_groups-some host after g (rw (open_bracket, e) at h) in
        (
          c ∷ (host ++ (b']' ∷ [])),
          port,
          ap (λ t. c ∷ t)
              (cut_at-some b']' s host after e
                ∙ ap (λ t. host ++ (b']' ∷ t)) e'
                ∙ sym (append_assoc host (b']' ∷ []) (b':' ∷ port))),
          good,
        )
  ]
]

module _ (url : Text → Option Url) where
  check_host_port-EndsInPort : (s : Text) → check_host_port url s ≡ none → EndsInPort s
  check_host_port-EndsInPort s h =
      from_groups s (match_bracketed s) (match_host_port s) refl refl (unfold check_host_port in h)
    where
      from_groups :
          (t : Text) (b p : Option (Text × Text))
          → match_bracketed t ≡ b
          → match_host_port t ≡ p
          → check_groups url b p ≡ none
          → EndsInPort t
      from_groups t (some g) p e e' k = match_bracketed-EndsInPort t g e
      from_groups t none (some g) e e' k = match_host_port-EndsInPort t g e'
      from_groups t none none e e' k = cc

  EndsInPort-has_port : (s : Text) → EndsInPort s → has_port (after_last_colon s) ≡ true
  EndsInPort-has_port s (host, port, e, good) =
      let (digits, short) = &&-eq-true (is_digits port) (leb (length port) 5) good in
      let (filled, all) = &&-eq-true (not (is_empty port)) (every is_digit port) digits in
      ap (λ t. has_port (after_last_colon t)) e
      ∙ ap has_port (after_last_colon-port host port all)
      ∙ good

  has_port-has_digits_last : (o : Option Text) → has_port o ≡ true → has_digits_last o ≡ true
  has_port-has_digits_last none h = cc
  has_port-has_digits_last (some port) h = (&&-eq-true (is_digits port) (leb (length port) 5) h).0

  check_https-is_doh_url : (o : Option Url) → check_https url o ≡ none → is_doh_url url o ≡ true
  check_https-is_doh_url none h = cc
  check_https-is_doh_url (some u) h = ground arith

  schemes_accepted :
      (raw : Text) (tls quic https : Option Text)
      → check_schemes url raw tls quic https ≡ none
      → accepts_schemes url raw tls quic https ≡ true
  schemes_accepted raw (some hp) quic https h =
      EndsInPort-has_port hp (check_host_port-EndsInPort hp h)
  schemes_accepted raw none (some hp) https h =
      EndsInPort-has_port hp (check_host_port-EndsInPort hp h)
  schemes_accepted raw none none (some rest) h = check_https-is_doh_url (url raw) h
  schemes_accepted raw none none none h =
      has_port-has_digits_last (after_last_colon raw)
        (EndsInPort-has_port raw (check_host_port-EndsInPort raw h))

  -- An address that the form of the client accepts passes the tests of the server.
  pub server_accepts_address_lem :
      (address : Text)
      → validate_upstream_address url address ≡ none
      → server_accepts_address url (trim address) ≡ true
  unfolding validate_upstream_address server_accepts_address
  server_accepts_address_lem address h = elim (Bool-cases (is_empty (trim address))) [
    | inl blank ↦ cc (rw blank at h)
    | inr filled ↦
        schemes_accepted (trim address) (after_prefix (text "tls://") (trim address))
          (after_prefix (text "quic://") (trim address))
          (after_prefix (text "https://") (trim address)) (rw filled at h)
  ]
