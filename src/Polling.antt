-- ===== src/Polling.antt =====
-- `setupVisibilityAwarePolling` of web/client/src/utils/visibilityAwarePolling.js: the state that its closures
-- share, with the timeouts that the browser holds, and the events that the browser delivers one at a time.
-- `load` is counted; it is taken not to call the cleanup function itself.
pub mod Laws
use beyond_ads_dns.Prelude.{
  ℕ, suc, ◌+◌, Bool, true, false, not, Option, none, some, List, [], ◌∷◌, nat_eq, nat-Eq,
  if◌then◌else◌, ◌≡◌,
}
use beyond_ads_dns.Normalize.Unique.{includes}

-- `timer` is the variable of the closure, `pending` the timeouts that may still fire, `fresh` the next
-- identifier, above 0, which `setTimeout` gives.
pub record State : Type 0 where
  pub visible : Bool
  pub listening : Bool
  pub timer : Option ℕ
  pub pending : List ℕ
  pub fresh : ℕ
  pub loads : ℕ

unfoldable pub clear : ℕ → List ℕ → List ℕ
clear id [] = []
clear id (t ∷ ts) = let rest = clear id ts in if nat_eq t id then rest else t ∷ rest

-- `clearTimeout(timer)`, where a timer was set.
abbrev pub clear_timer : Option ℕ → List ℕ → List ℕ
clear_timer none ts = ts
clear_timer (some id) ts = clear id ts

abbrev pub load : State → State
load s = record s { loads = s.loads + 1 }

unfoldable pub schedule_next : State → State
schedule_next s =
    if s.visible
    then record s { timer = some s.fresh; pending = s.fresh ∷ s.pending; fresh = s.fresh + 1 }
    else s

-- The callback of a timeout, which the browser takes off first.
unfoldable pub fire : ℕ → State → State
unfolding schedule_next clear
fire id s = schedule_next (load (record s { pending = clear id s.pending }))

-- The event of the other visibility.
unfoldable pub change_visibility : State → State
unfolding schedule_next clear
change_visibility s =
    if not s.listening
    then record s { visible = not s.visible }
    else if s.visible
    then record s { visible = false; timer = none; pending = clear_timer s.timer s.pending }
    else schedule_next (load (record s { visible = true }))

unfoldable pub setup : Bool → ℕ → State
unfolding schedule_next
setup visible fresh =
    record (schedule_next (
      load (record {
        visible = visible;
        listening = false;
        timer = none;
        pending = [];
        fresh = fresh;
        loads = 0;
      }))) { listening = true }

-- The function that is returned.
unfoldable pub cleanup : State → State
unfolding clear
cleanup s = record s { listening = false; pending = clear_timer s.timer s.pending }

-- What may happen next: a pending timeout fires, the visibility changes, the component goes.
pub data Step : State → State → Type 0 where
  fires : (s : State) (id : ℕ) → includes id s.pending ≡ true → Step s (fire id s)
  changes : (s : State) → Step s (change_visibility s)
  leaves : (s : State) → Step s (cleanup s)

pub data Reach (s : State) : State → Type 0 where
  here : Reach s s
  next : {t u : State} → Reach s t → Step t u → Reach s u
