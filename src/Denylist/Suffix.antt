-- ===== src/Denylist/Suffix.antt =====
-- The loop over the labels finds exactly the name itself and its parent domains.
use beyond_ads_dns.Prelude.{
  ℕ, zero, suc, ◌<◌, ◌≤◌, ◌≡◌, ◌≢◌, ◌↔◌, ◌⊎◌, inl, inr, refl, sym, ap, ◌∙◌, Bool, true, false,
  Option, none, some, [], ◌∷◌, ◌++◌, ◌=?◌, nat-Eq, list-Eq, list_eq_iff, nat_eq, if◌then◌else◌,
  length, length-append, subst, arith, Bool-cases,
}
use mathlib.Core.List.{append_assoc}
use beyond_ads_dns.Js.Text.{Text}
use beyond_ads_dns.Denylist.{continue_with, after_dot, match_labels, match_suffix}

-- `entry` is the domain, or a domain above it: what remains of it behind one of its dots.
abbrev pub IsSelfOrParent : Text → Text → Type 0
IsSelfOrParent entry domain =
    (domain ≡ entry) ⊎ ((labels : Text) × (domain ≡ labels ++ (b'.' ∷ entry)))

after_dot-eq-some :
    (s r : Text) → after_dot s ≡ some r → (p : Text) × (s ≡ p ++ (b'.' ∷ r)) × (length r < length s)
unfolding after_dot
after_dot-eq-some [] r h = cc
after_dot-eq-some (c ∷ s) r h = elim (Bool-cases (nat_eq c b'.')) [
  | inl dot ↦ ([], ground arith, ground arith)
  | inr other ↦
      let (p, e, lt) = after_dot-eq-some s r (ground arith) in
      (c ∷ p, ap (λ t. c ∷ t) e, omega arith)
]

prefixed : Option Text → Text → Option Text
prefixed none e = some e
prefixed (some p) e = some (p ++ (b'.' ∷ e))

after_dot-append : (p e : Text) → after_dot (p ++ (b'.' ∷ e)) ≡ prefixed (after_dot p) e
unfolding after_dot prefixed
after_dot-append [] e = refl
after_dot-append (c ∷ p) e = ground (arith, after_dot-append p e)

-- A parent of what is left behind a dot is a parent of the whole.
pub IsSelfOrParent-after_dot :
    (entry s p r : Text) → s ≡ p ++ (b'.' ∷ r) → IsSelfOrParent entry r → IsSelfOrParent entry s
IsSelfOrParent-after_dot entry s p r e (inl same) = inr (p, e ∙ ap (λ t. p ++ (b'.' ∷ t)) same)
IsSelfOrParent-after_dot entry s p r e (inr (q, below)) = inr (
  p ++ (b'.' ∷ q),
  e ∙ ap (λ t. p ++ (b'.' ∷ t)) below ∙ sym (append_assoc p (b'.' ∷ q) (b'.' ∷ entry)),
)

append-cons-ne-nil : (p e : Text) → (p ++ (b'.' ∷ e)) ≢ []
append-cons-ne-nil [] e h = cc
append-cons-ne-nil (c ∷ p) e h = cc

either_true : (b : Bool) {x : Bool} → x ≡ true → (if b then true else x) ≡ true
either_true true h = refl
either_true false h = h

module _ (entry : Text) where
  continue_with_sound :
      (n : ℕ) (s : Text) (o : Option Text)
      → after_dot s ≡ o
      → continue_with o (λ r. match_labels n entry r) ≡ true
      → ((r : Text) → match_labels n entry r ≡ true → (entry ≢ []) × IsSelfOrParent entry r)
      → (entry ≢ []) × IsSelfOrParent entry s
  continue_with_sound n s none e h ih = cc
  continue_with_sound n s (some r) e h ih =
      let (filled, below) = ih r h in
      let (p, q, lt) = after_dot-eq-some s r e in
      (filled, IsSelfOrParent-after_dot entry s p r q below)

  match_labels_sound :
      (n : ℕ) (s : Text) → match_labels n entry s ≡ true → (entry ≢ []) × IsSelfOrParent entry s
  unfolding match_labels
  match_labels_sound zero s h = cc
  match_labels_sound (suc n) [] h = cc
  match_labels_sound (suc n) (c ∷ s) h = elim (Bool-cases (entry =? (c ∷ s))) [
    | inl same ↦
        let e = (list_eq_iff entry (c ∷ s)).0 same in (λ (z : entry ≡ []). cc (e, z), inl (sym e))
    | inr other ↦
        continue_with_sound n (c ∷ s) (after_dot (c ∷ s)) refl (rw other at h)
          (λ r. match_labels_sound n r)
  ]

  match_labels_self :
      (n : ℕ) (s : Text) → length s ≤ n → s ≢ [] → s ≡ entry → match_labels n entry s ≡ true
  unfolding match_labels
  match_labels_self n [] l filled e = absurd (filled refl)
  match_labels_self zero (c ∷ s) l filled e = absurd (omega arith)
  match_labels_self (suc n) (c ∷ s) l filled e = rw ((list_eq_iff entry (c ∷ s)).1 (sym e))

  match_labels-suc :
      (n : ℕ) (s : Text)
      → s ≢ []
      → match_labels (suc n) entry s
        ≡ (if entry =? s then true else continue_with (after_dot s) (λ r. match_labels n entry r))
  unfolding match_labels
  match_labels-suc n [] h = absurd (h refl)
  match_labels-suc n (c ∷ s) h = refl

  continue_with_parent :
      (n : ℕ) (p : Text) (o : Option Text)
      → after_dot p ≡ o
      → length (p ++ (b'.' ∷ entry)) ≤ suc n
      → entry ≢ []
      → ((q : Text)
          → length (q ++ (b'.' ∷ entry)) ≤ n
          → match_labels n entry (q ++ (b'.' ∷ entry)) ≡ true)
      → continue_with (prefixed o entry) (λ r. match_labels n entry r) ≡ true
  unfolding prefixed
  continue_with_parent n p none e l filled ih =
      match_labels_self n entry (omega (arith, length-append {0} p (b'.' ∷ entry))) filled refl
  continue_with_parent n p (some q) e l filled ih =
      let (front, same, lt) = after_dot-eq-some p q e in
      ih q (omega (arith, length-append {0} p (b'.' ∷ entry), length-append {0} q (b'.' ∷ entry)))

  match_labels_parent :
      (n : ℕ) (p : Text)
      → length (p ++ (b'.' ∷ entry)) ≤ n
      → entry ≢ []
      → match_labels n entry (p ++ (b'.' ∷ entry)) ≡ true
  match_labels_parent zero p l filled = absurd (omega (arith, length-append {0} p (b'.' ∷ entry)))
  match_labels_parent (suc n) p l filled =
      let s = p ++ (b'.' ∷ entry) in
      match_labels-suc n s (append-cons-ne-nil p entry)
      ∙ either_true (entry =? s) (
          ap (λ o. continue_with o (λ r. match_labels n entry r)) (after_dot-append p entry)
          ∙ continue_with_parent n p (after_dot p) refl l filled
              (λ q k. match_labels_parent n q k filled))

-- The loop answers true exactly for an entry that is not empty and is the name or one of its parent
-- domains.
pub match_suffix_iff :
    (entry s : Text) → (match_suffix entry s ≡ true) ↔ ((entry ≢ []) × IsSelfOrParent entry s)
unfolding match_suffix
match_suffix_iff entry s =
    (match_labels_sound entry (length s) s, λ (filled, below). from filled below)
  where
    from : entry ≢ [] → IsSelfOrParent entry s → match_labels (length s) entry s ≡ true
    from filled (inl e) =
        match_labels_self entry (length s) s (omega arith) (λ (z : s ≡ []). filled (sym e ∙ z)) e
    from filled (inr (p, e)) =
        subst (λ t. match_labels (length t) entry t ≡ true) (sym e)
          (match_labels_parent entry (length (p ++ (b'.' ∷ entry))) p (omega arith) filled)
