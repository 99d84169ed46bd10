-- ===== src/Routes/Upstreams/Laws.antt =====
-- The upstreams that the form of the web client passes on are taken by the handler as they are.
use beyond_ads_dns.Prelude.{
  ◌≡◌, refl, sym, ap, subst, list_eq, true, false, Option, some, List, [], ◌∷◌, map, All, All-of,
  nat-Eq, list-Eq, inl, inr,
}
use beyond_ads_dns.Js.Text.{Text, is_empty, trim, lower}
use beyond_ads_dns.Js.Value.{Number, find}
use beyond_ads_dns.Js.Convert.{text_of, text_or, items}
use beyond_ads_dns.Normalize.Unique.{includes}
use beyond_ads_dns.Normalize.Unique.Laws.{unique_by-All}
use beyond_ads_dns.Address.Upstream.{Url, server_accepts_address}
use beyond_ads_dns.Address.Upstream.Laws.{server_accepts_address_lem}
use beyond_ads_dns.Forms.Rows.Laws.{complete_of, taken-check_rows}
use beyond_ads_dns.Forms.Tables.{
  Upstream, upstream_key, duplicate_upstream_of, upstream_form_row, validate_upstreams_form,
}
use beyond_ads_dns.Forms.Tables.Upstreams.{IsProtocol, IsTaken, upstream_form_row-IsTaken}
use beyond_ads_dns.Routes.Upstreams.{
  upstream_value, protocols, read_upstream, read_upstreams, accepts_upstreams,
}

-- The three facts that the handler needs of a protocol.
abbrev IsServerProtocol : Text → Type 0
IsServerProtocol p = (is_empty p ≡ false) × (lower (trim p) ≡ p) × (includes p protocols ≡ true)

IsProtocol-IsServerProtocol : (p : Text) → IsProtocol p → IsServerProtocol p
unfolding includes trim lower list_eq
IsProtocol-IsServerProtocol p (inl e) = rw e (refl, refl, refl)
IsProtocol-IsServerProtocol p (inr (inl e)) = rw e (refl, refl, refl)
IsProtocol-IsServerProtocol p (inr (inr (inl e))) = rw e (refl, refl, refl)
IsProtocol-IsServerProtocol p (inr (inr (inr (inl e)))) = rw e (refl, refl, refl)
IsProtocol-IsServerProtocol p (inr (inr (inr (inr e)))) = rw e (refl, refl, refl)

module _ (number_text : Number → Text) (url : Text → Option Url) where
  read_upstream-upstream_value :
      (u : Upstream) → IsTaken url u → read_upstream number_text (upstream_value u) ≡ some u
  unfolding read_upstream find text_or text_of
  read_upstream-upstream_value u t =
      let (filled, same, known) = IsProtocol-IsServerProtocol u.protocol t.protocol_known in
      rw t.name_filled (
        rw t.address_filled (
          rw t.address_trimmed (
            rw t.address_filled
              (rw t.name_trimmed (rw t.name_filled (rw filled (rw same (rw filled refl))))))))

  server_accepts_taken :
      (u : Upstream) → IsTaken url u → server_accepts_address url u.address ≡ true
  server_accepts_taken u t =
      subst (λ a. server_accepts_address url a ≡ true) t.address_trimmed
        (server_accepts_address_lem url u.address t.address_valid)

  read_upstreams-items :
      (us : List Upstream)
      → All (IsTaken url) us
      → read_upstreams number_text (items (map upstream_value us)) ≡ us
  unfolding read_upstreams items
  read_upstreams-items [] h = refl
  read_upstreams-items (u ∷ us) (t, h) =
      rw (read_upstream-upstream_value u t) (ap (λ r. u ∷ r) (read_upstreams-items us h))

  accepts_taken : (us : List Upstream) → All (IsTaken url) us → accepts_upstreams url us ≡ true
  unfolding accepts_upstreams
  accepts_taken [] h = refl
  accepts_taken (u ∷ us) (t, h) =
      let (filled, same, known) = IsProtocol-IsServerProtocol u.protocol t.protocol_known in
      rw (server_accepts_taken u t) (rw filled (rw known (accepts_taken us h)))

  rows-IsTaken : (us : List Upstream) → All (IsTaken url) (validate_upstreams_form url us).1
  unfolding validate_upstreams_form
  rows-IsTaken us =
      subst (All (IsTaken url))
        (sym (taken-check_rows upstream_key duplicate_upstream_of (upstream_form_row url) [] us))
        (unique_by-All upstream_key (λ u. complete_of (upstream_form_row url u)) (IsTaken url) [] us
          (All-of _ us (upstream_form_row-IsTaken url)))

  -- The upstreams that the form passes on, sent as JSON, are read by the handler as they are, and pass
  -- its tests of addresses and protocols.
  pub validate_upstreams_form-accepts_upstreams :
      (us : List Upstream)
      → (read_upstreams number_text (items (map upstream_value (validate_upstreams_form url us).1))
          ≡ (validate_upstreams_form url us).1)
        × (accepts_upstreams url (validate_upstreams_form url us).1 ≡ true)
  validate_upstreams_form-accepts_upstreams us = (
    read_upstreams-items (validate_upstreams_form url us).1 (rows-IsTaken us),
    accepts_taken (validate_upstreams_form url us).1 (rows-IsTaken us),
  )
