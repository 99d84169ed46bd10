-- ===== src/Schedule/Family.antt =====
-- Family time: a window with the services and domains to block.
use beyond_ads_dns.Prelude.{
  ◌≡◌, ◌↔◌, refl, Bool, true, false, ◌&&◌, Option, none, some, nat-Eq, list-Eq, if◌then◌else◌,
  arith,
}
use beyond_ads_dns.Js.Text.{Text, is_empty}
use beyond_ads_dns.Schedule.{
  WindowError, nothing_to_block, first_error, check_window, FamilyTime, validate_family_time,
}
use beyond_ads_dns.Schedule.Laws.{IsWindow, check_window_passes, IsWindow-check_window}

blocks_something :
    (o : Option WindowError) (b : Bool)
    → first_error o (if b then some nothing_to_block else none) ≡ none
    → (o ≡ none) × (b ≡ false)
blocks_something none b h = (refl, ground arith)
blocks_something (some e) b h = cc

-- An enabled family time is accepted exactly when its window is one and it names a service or a
-- domain.
pub validate_family_time_iff :
    (i : FamilyTime)
    → i.window.enabled ≡ true
    → (validate_family_time (some i) ≡ none) ↔ (
        IsWindow i.window.start i.window.end i.window.days
        × ((is_empty i.services && is_empty i.domains) ≡ false))
unfolding validate_family_time
validate_family_time_iff i on = (
  λ h.
      let (window, named) =
        blocks_something (check_window i.window.start i.window.end i.window.days)
          (is_empty i.services && is_empty i.domains) (rw on at h) in
      (check_window_passes i.window.start i.window.end i.window.days window, named),
  λ (w, named).
      rw (on, IsWindow-check_window i.window.start i.window.end i.window.days w, named) refl,
)
