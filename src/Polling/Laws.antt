-- ===== src/Polling/Laws.antt =====
-- When the polling loads, and that it never holds more than one timeout.
use beyond_ads_dns.Prelude.{
  ℕ, ◌+◌, ◌≡◌, refl, Bool, true, false, Option, none, some, List, [], ◌∷◌, arith, nat_eq_iff,
  nat-Eq, inl, inr, ap, Bool-cases, ◌&&◌,
}
use beyond_ads_dns.Normalize.Unique.{includes}
use beyond_ads_dns.Polling.{
  State, clear, clear_timer, fire, change_visibility, setup, cleanup, Step, fires, changes, leaves,
  Reach, here, next,
}

-- While the polling goes on and the page is visible, one timeout is pending, that of `timer`; otherwise
-- none is.
abbrev pub HasPending : Bool → Bool → Option ℕ → List ℕ → Type 0
HasPending true true (some id) pending = pending ≡ id ∷ []
HasPending true true none pending = ⊥
HasPending true false timer pending = pending ≡ []
HasPending false visible timer pending = pending ≡ []

abbrev pub IsPolling : State → Type 0
IsPolling s = HasPending s.listening s.visible s.timer s.pending

clear-nil : (id : ℕ) → clear id [] ≡ []
unfolding clear
clear-nil id = refl

clear_self : (id : ℕ) → clear id (id ∷ []) ≡ []
unfolding clear
clear_self id = rw ((nat_eq_iff id id).1 refl)

setup-IsPolling : (visible : Bool) (fresh : ℕ) → IsPolling (setup visible fresh)
unfolding setup
setup-IsPolling true fresh = refl
setup-IsPolling false fresh = refl

-- The one pending timeout fires, or is cleared.
clear-one :
    (t id : ℕ) (pending : List ℕ)
    → pending ≡ t ∷ []
    → includes id pending ≡ true
    → clear id pending ≡ []
unfolding clear includes
clear-one t id pending p held =
    let one : includes id (t ∷ []) ≡ true = rw p at held in
    rw p (ground (arith, one, nat_eq_iff t id))

none_pending : (id : ℕ) (pending : List ℕ) → pending ≡ [] → includes id pending ≡ true → ⊥
unfolding includes
none_pending id pending p held = let none_held : includes id [] ≡ true = rw p at held in cc

fire-at :
    (visible listening : Bool) (timer : Option ℕ) (pending : List ℕ) (fresh loads id : ℕ)
    → HasPending listening visible timer pending
    → includes id pending ≡ true
    → IsPolling (
        fire id (record {
          visible = visible;
          listening = listening;
          timer = timer;
          pending = pending;
          fresh = fresh;
          loads = loads;
        }))
unfolding fire
fire-at true true (some t) pending fresh loads id p held =
    ap (λ ts. fresh ∷ ts) (clear-one t id pending p held)
fire-at true true none pending fresh loads id p held = absurd p
fire-at true false timer pending fresh loads id p held = absurd (none_pending id pending p held)
fire-at false true timer pending fresh loads id p held = absurd (none_pending id pending p held)
fire-at false false timer pending fresh loads id p held = absurd (none_pending id pending p held)

change-at :
    (visible listening : Bool) (timer : Option ℕ) (pending : List ℕ) (fresh loads : ℕ)
    → HasPending listening visible timer pending
    → IsPolling (
        change_visibility (record {
          visible = visible;
          listening = listening;
          timer = timer;
          pending = pending;
          fresh = fresh;
          loads = loads;
        }))
unfolding change_visibility
change-at true true (some t) pending fresh loads p = rw p (clear_self t)
change-at true true none pending fresh loads p = absurd p
change-at false true timer pending fresh loads p = ap (λ ts. fresh ∷ ts) p
change-at true false timer pending fresh loads p = p
change-at false false timer pending fresh loads p = p

cleanup-at :
    (visible listening : Bool) (timer : Option ℕ) (pending : List ℕ)
    → HasPending listening visible timer pending
    → clear_timer timer pending ≡ []
cleanup-at true true (some t) pending p = rw p (clear_self t)
cleanup-at true true none pending p = absurd p
cleanup-at false true none pending p = p
cleanup-at false true (some t) pending p = rw p (clear-nil t)
cleanup-at true false none pending p = p
cleanup-at true false (some t) pending p = rw p (clear-nil t)
cleanup-at false false none pending p = p
cleanup-at false false (some t) pending p = rw p (clear-nil t)

cleanup-IsPolling : (s : State) → IsPolling s → IsPolling (cleanup s)
unfolding cleanup
cleanup-IsPolling s p = cleanup-at s.visible s.listening s.timer s.pending p

Step-IsPolling : {s t : State} → IsPolling s → Step s t → IsPolling t
Step-IsPolling p (fires s id held) =
    fire-at s.visible s.listening s.timer s.pending s.fresh s.loads id p held
Step-IsPolling p (changes s) = change-at s.visible s.listening s.timer s.pending s.fresh s.loads p
Step-IsPolling p (leaves s) = cleanup-IsPolling s p

-- Whatever the browser does after the setup, one timeout is pending while the page is visible and the
-- component has not gone, and none is pending otherwise.
pub Reach-IsPolling :
    (visible : Bool) (fresh : ℕ) {t : State} → Reach (setup visible fresh) t → IsPolling t
Reach-IsPolling visible fresh here = setup-IsPolling visible fresh
Reach-IsPolling visible fresh (next r step) = Step-IsPolling (Reach-IsPolling visible fresh r) step

idle-at :
    (visible listening : Bool) (timer : Option ℕ) (pending : List ℕ)
    → HasPending listening visible timer pending
    → (visible && listening) ≡ false
    → pending ≡ []
idle-at true true timer pending p idle = cc
idle-at false true timer pending p idle = p
idle-at true false timer pending p idle = p
idle-at false false timer pending p idle = p

-- What a component that has gone is left with.
abbrev IsGone : ℕ → State → Type 0
IsGone loads s = (s.listening ≡ false) × (s.pending ≡ []) × (s.loads ≡ loads)

Step-IsGone : {s t : State} (loads : ℕ) → IsGone loads s → Step s t → IsGone loads t
unfolding change_visibility cleanup
Step-IsGone loads (gone, left, same) (fires s id held) =
    absurd (none_pending id s.pending left held)
Step-IsGone loads (gone, left, same) (changes s) = rw gone (refl, left, same)
Step-IsGone loads (gone, left, same) (leaves s) = (refl, cleared s.timer, same)
  where
    cleared : (timer : Option ℕ) → clear_timer timer s.pending ≡ []
    cleared none = left
    cleared (some t) = rw left (clear-nil t)

Reach-IsGone : {s t : State} (loads : ℕ) → IsGone loads s → Reach s t → IsGone loads t
Reach-IsGone loads g here = g
Reach-IsGone loads g (next r step) = Step-IsGone loads (Reach-IsGone loads g r) step

-- Once the component has gone, nothing is loaded any more, whatever the browser does.
pub cleanup-loads :
    (visible : Bool) (fresh : ℕ) {s t : State}
    → Reach (setup visible fresh) s
    → Reach (cleanup s) t
    → t.loads ≡ s.loads
unfolding cleanup
cleanup-loads visible fresh {s} r after =
    (Reach-IsGone s.loads
      (
        refl,
        cleanup-at s.visible s.listening s.timer s.pending (Reach-IsPolling visible fresh r),
        refl,
      )
      after).2

due-at :
    (visible listening : Bool) (timer : Option ℕ) (pending : List ℕ)
    → HasPending listening visible timer pending
    → visible ≡ true
    → listening ≡ true
    → (id : ℕ) × (pending ≡ id ∷ [])
due-at true true (some t) pending p v l = (t, p)
due-at true true none pending p v l = absurd p
due-at true false timer pending p v l = cc
due-at false listening timer pending p v l = cc

fire_loads : (id : ℕ) (s : State) → (fire id s).loads ≡ s.loads + 1
unfolding fire
fire_loads id s = elim (Bool-cases s.visible) [ inl e ↦ rw e refl | inr e ↦ rw e refl ]

-- While the page is visible and the component has not gone, a load is always due: a timeout is
-- pending, and when it fires it loads once and leaves a timeout pending again. While the page is hidden
-- no timeout is pending.
pub polling_goes_on :
    (visible : Bool) (fresh : ℕ) {s : State}
    → Reach (setup visible fresh) s
    → s.listening ≡ true
    → (s.visible ≡ true
        → (id : ℕ) × (s.pending ≡ id ∷ [])
          × ((fire id s).loads ≡ s.loads + 1)
          × ((later : ℕ) × ((fire id s).pending ≡ later ∷ [])))
      × (s.visible ≡ false → s.pending ≡ [])
unfolding fire clear
polling_goes_on visible fresh {s} r on = (
  λ shown.
      let (id, one) =
        due-at s.visible s.listening s.timer s.pending (Reach-IsPolling visible fresh r) shown on in
      (
        id,
        one,
        fire_loads id s,
        (s.fresh, rw (shown, one) (ap (λ ts. s.fresh ∷ ts) (clear_self id))),
      ),
  λ hidden.
      idle-at s.visible s.listening s.timer s.pending (Reach-IsPolling visible fresh r)
        (rw hidden refl),
)
