-- ===== src/Tests/Polls.antt =====
-- The polling of a page that is shown, then hidden, and gone.
use beyond_ads_dns.Prelude.{ℕ, ◌≡◌, ◌+◌, refl, true, false, [], ◌∷◌}
use beyond_ads_dns.Normalize.Unique.{includes}
use beyond_ads_dns.Polling.{
  setup, schedule_next, fire, change_visibility, cleanup, clear, fires, changes, Reach, here, next,
}
use beyond_ads_dns.Polling.Laws.{IsPolling, Reach-IsPolling, cleanup-loads, polling_goes_on}

fired_once : Reach (setup true 1) (fire 1 (setup true 1))
unfolding setup schedule_next includes
fired_once = next here (fires (setup true 1) 1 refl)

fired_test : (fire 1 (setup true 1)).pending ≡ 2 ∷ []
unfolding fire setup schedule_next clear
fired_test = refl

hidden_test : (change_visibility (fire 1 (setup true 1))).pending ≡ []
unfolding change_visibility fire setup schedule_next clear
hidden_test = refl

Reach-IsPolling_example : IsPolling (fire 1 (setup true 1))
Reach-IsPolling_example = Reach-IsPolling true 1 fired_once

cleanup-loads_example : (change_visibility (cleanup (setup true 1))).loads ≡ (setup true 1).loads
cleanup-loads_example = cleanup-loads true 1 here (next here (changes (cleanup (setup true 1))))

polling_goes_on_example :
    ((fire 1 (setup true 1)).visible ≡ true
      → (id : ℕ) × ((fire 1 (setup true 1)).pending ≡ id ∷ [])
        × ((fire id (fire 1 (setup true 1))).loads ≡ (fire 1 (setup true 1)).loads + 1)
        × ((later : ℕ) × ((fire id (fire 1 (setup true 1))).pending ≡ later ∷ [])))
    × ((fire 1 (setup true 1)).visible ≡ false → (fire 1 (setup true 1)).pending ≡ [])
unfolding fire setup schedule_next clear
polling_goes_on_example = polling_goes_on true 1 fired_once refl
