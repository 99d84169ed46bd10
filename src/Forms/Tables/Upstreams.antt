-- ===== src/Forms/Tables/Upstreams.antt =====
-- The rows of upstreams that the form passes on.
use beyond_ads_dns.Prelude.{
  ◌≡◌, ◌⊎◌, refl, sym, subst, Bool, true, false, ◌&&◌, Option, none, some, [], ◌∷◌, ◌=?◌,
  list_eq_iff, nat-Eq, list-Eq, arith, Bool-cases, inl, inr, if◌then◌else◌,
}
use beyond_ads_dns.Js.Text.{Text, text, is_empty, trim, lower}
use beyond_ads_dns.Js.Text.Laws.{trim_idempotent}
use beyond_ads_dns.Js.Value.{is_some}
use beyond_ads_dns.Normalize.Entries.{or_text}
use beyond_ads_dns.Address.Upstream.{Url, validate_upstream_address}
use beyond_ads_dns.Forms.Rows.Laws.{complete_of, complete-touched}
use beyond_ads_dns.Forms.Tables.{
  Upstream, UpstreamError, Scheme, dot, doq, doh, plain, missing, scheme_of, protocol_fits,
  effective_protocol, in_address, upstream_row, upstream_form_row,
}

complete-upstream_row :
    (e : UpstreamError) (u b : Upstream)
    → complete_of (upstream_row e u) ≡ some b
    → (b ≡ u) × (is_some e.address ≡ false) × (is_some e.wrong_protocol ≡ false)
complete-upstream_row e u b h = ground arith

-- One of the five protocols, or none of those that go with a scheme.
abbrev pub IsProtocol : Text → Type 0
IsProtocol p =
    (p ≡ text "udp") ⊎ (p ≡ text "tcp") ⊎ (p ≡ text "tls") ⊎ (p ≡ text "https") ⊎ (p ≡ text "quic")

effective_protocol-IsProtocol :
    (s : Scheme) (p : Text) → protocol_fits s p ≡ true → IsProtocol (effective_protocol s p)
effective_protocol-IsProtocol dot p h = inr (inr (inl refl))
effective_protocol-IsProtocol doq p h = inr (inr (inr (inr refl)))
effective_protocol-IsProtocol doh p h = inr (inr (inr (inl refl)))
effective_protocol-IsProtocol plain p h = elim (Bool-cases (p =? text "udp")) [
  | inl e ↦ inl ((list_eq_iff p (text "udp")).0 e)
  | inr f ↦ inr (inl ((list_eq_iff p (text "tcp")).0 (rw f at h)))
]

-- What is known of a row that the form passes on.
pub record IsTaken (url : Text → Option Url) (b : Upstream) : Type 0 where
  pub name_filled : is_empty b.name ≡ false
  pub name_trimmed : trim b.name ≡ b.name
  pub address_filled : is_empty b.address ≡ false
  pub address_trimmed : trim b.address ≡ b.address
  pub address_valid : validate_upstream_address url b.address ≡ none
  pub protocol_known : IsProtocol b.protocol

or_text-filled : (s : Text) → is_empty (or_text s (text "upstream")) ≡ false
or_text-filled [] = refl
or_text-filled (c ∷ s) = refl

or_text-trimmed :
    (s : Text) → trim (or_text (trim s) (text "upstream")) ≡ or_text (trim s) (text "upstream")
or_text-trimmed s = elim (Bool-cases (is_empty (trim s))) [
  | inl e ↦ rw e (unfold trim in refl)
  | inr f ↦ rw f (trim_idempotent s)
]

module _ (url : Text → Option Url) where
  address_ok :
      (a : Text)
      → is_some (if is_empty a then some missing else in_address (validate_upstream_address url a))
        ≡ false
      → (is_empty a ≡ false) × (validate_upstream_address url a ≡ none)
  address_ok a h = ground arith

  fits_of_none :
      (c : Bool) (s : Scheme) → is_some {A = Scheme} (if c then none else some s) ≡ false → c ≡ true
  fits_of_none c s h = ground arith

  pub upstream_form_row-IsTaken :
      (u b : Upstream) → complete_of (upstream_form_row url u) ≡ some b → IsTaken url b
  unfolding upstream_form_row
  upstream_form_row-IsTaken u b h =
      let n = trim u.name in
      let a = trim u.address in
      let p = lower (trim (or_text u.protocol (text "udp"))) in
      let s = scheme_of (lower a) in
      let whole : Upstream = record {
        name = or_text n (text "upstream");
        address = a;
        protocol = effective_protocol s p;
      } in
      let e : UpstreamError = record {
        address = if is_empty a then some missing else in_address (validate_upstream_address url a);
        wrong_protocol = if protocol_fits s p then none else some s;
      } in
      let (same, address_none, protocol_none) =
        complete-upstream_row e whole b
          (complete-touched (is_empty n && is_empty a) (upstream_row e whole) b h) in
      let (filled, valid) = address_ok a address_none in
      subst (IsTaken url) (sym same) (record {
        name_filled = or_text-filled n;
        name_trimmed = or_text-trimmed u.name;
        address_filled = filled;
        address_trimmed = trim_idempotent u.address;
        address_valid = valid;
        protocol_known =
            effective_protocol-IsProtocol s p (fits_of_none (protocol_fits s p) s protocol_none);
      })
