-- ===== src/Forms/Settings/Laws.antt =====
-- What the forms of the settings pass on.
use beyond_ads_dns.Prelude.{
  ◌≡◌, refl, Bool, true, false, ◌&&◌, ◌||◌, ◌=?◌, nat-Eq, list-Eq, none, some, Option, arith, not,
  if◌then◌else◌,
}
use beyond_ads_dns.Js.Text.{Text, text, is_empty, trim, lower}
use beyond_ads_dns.Js.Text.Laws.{trim_idempotent}
use beyond_ads_dns.Js.Value.{is_some}
use beyond_ads_dns.Address.Duration.{is_valid_duration, is_positive_duration}
use beyond_ads_dns.Address.Upstream.{Url}
use beyond_ads_dns.Routes.Dns.{is_response}
use beyond_ads_dns.Forms.Settings.{
  ResponseMessage, response_has_errors, validate_response_form, blocked_error, bad_ttl,
}

duration-positive :
    (s : Text) → is_valid_duration (trim s) ≡ true → is_positive_duration (trim s) ≡ true
unfolding is_valid_duration
duration-positive s h =
    second_holds (is_empty (trim s)) (is_positive_duration (trim s)) (rw (trim_idempotent s) at h)
  where
    second_holds : (b c : Bool) → (not b && c) ≡ true → c ≡ true
    second_holds b c k = ground arith

no_ttl_error :
    (b : Bool) (m : Option ResponseMessage)
    → (is_some m || is_some (if b then none else some bad_ttl)) ≡ false
    → b ≡ true
no_ttl_error true m h = refl
no_ttl_error false none h = absurd (ground arith)
no_ttl_error false (some e) h = absurd (ground arith)

module _ (url : Text → Option Url) (is_ip : Text → Bool) where
  -- What a form of the response without errors sends, the server accepts exactly where it is "nxdomain" or
  -- an address that `net.isIP` knows.
  pub validate_response_form-is_response :
      (blocked ttl : Text)
      → response_has_errors (validate_response_form url blocked ttl).0 ≡ false
      → is_response is_ip
          (validate_response_form url blocked ttl).1
          (validate_response_form url blocked ttl).2
        ≡ (((validate_response_form url blocked ttl).1 =? text "nxdomain")
            || is_ip (validate_response_form url blocked ttl).1)
  unfolding validate_response_form
  validate_response_form-is_response blocked ttl h =
      let good = duration-positive ttl (
        no_ttl_error (is_valid_duration (trim ttl)) (blocked_error url (lower (trim blocked))) h) in
      rw good (always ((lower (trim blocked) =? text "nxdomain") || is_ip (lower (trim blocked))))
    where
      always : (b : Bool) → (b && true) ≡ b
      always b = ground arith
