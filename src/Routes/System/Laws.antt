-- ===== src/Routes/System/Laws.antt =====
-- What the sections of a body change in the override, and what they leave.
pub mod Bounds
pub mod Saved
use mathlib.Core.Option
use beyond_ads_dns.Prelude.{
  ◌≡◌, ◌↔◌, ◌⊎◌, inl, inr, refl, sym, ap, ◌∙◌, ◌==◌, eq_iff, String, Bool, true, false, Option,
  none, some, List, [], ◌∷◌, ◌++◌, All, All-of, Bool-cases, Option-cases, cc_false, subst, if_both,
  eq_refl, arith, if◌then◌else◌,
}
use beyond_ads_dns.Js.Text.{Text}
use beyond_ads_dns.Js.Value.{Number, Value, undefined, obj, arr, Fields, put, remove, is_truthy}
use beyond_ads_dns.Js.Path.{prop}
use beyond_ads_dns.Js.Path.Laws.{prop-put}
use beyond_ads_dns.Js.Value.Laws.{find-remove}
use beyond_ads_dns.Routes.System.{
  Section, apply_section, apply_sections, sections, without, accepted_body, system_edit,
  is_system_replica,
}

-- The values that a section with this key gives all have the property.
abbrev pub Gives : String → (Value → Type 0) → Section → Type 0
Gives key Q s = (s.0 == key) ≡ true → (b old v : Value) → s.1 b old ≡ some v → Q v

-- A section has another key, or the body has no such section.
abbrev pub IsSkipped : Value → String → Section → Type 0
IsSkipped body key s = ((s.0 == key) ≡ false) ⊎ (is_truthy (prop s.0 body) ≡ false)

-- The key is among those of the sections.
abbrev pub HasKey : String → List Section → Type 0
HasKey key [] = ⊥
HasKey key (s ∷ ss) = (s.0 ≡ key) ⊎ HasKey key ss

abbrev prop_of : String → Option Value → Value
prop_of k none = undefined
prop_of k (some v) = prop k v

module _ (body : Value) where
  -- One section: the override is as it was, or has the new value under the key.
  apply_section-cases :
      (s : Section) (o : Fields) (c : Value)
      → apply_section s body (obj o) ≡ some c
      → ((is_truthy (prop s.0 body) ≡ false) × (c ≡ obj o))
        ⊎ ((is_truthy (prop s.0 body) ≡ true)
            × ((v : Value) × (s.1 (prop s.0 body) (prop s.0 (obj o)) ≡ some v)
                × (c ≡ obj (put s.0 v o))))
  unfolding apply_section Option.bind
  apply_section-cases (key, new) o c h = elim (Bool-cases (is_truthy (prop key body))) [
    | inr e ↦ inl (e, ground arith)
    | inl e ↦ elim (Option-cases (new (prop key body) (prop key (obj o)))) [
      | inl threw ↦ cc (rw (e, threw) at h)
      | inr (v, gave) ↦ inr (e, (v, gave, saved v (rw (e, gave) at h)))
    ]
  ]
    where
      saved :
          (v : Value)
          → ◌≡◌ {A = Option Value} (some (obj (put key v o))) (some c)
          → c ≡ obj (put key v o)
      saved v p = cc

  -- The steps of several sections.
  apply_sections-cases :
      (s : Section) (ss : List Section) (o : Fields) (c : Value)
      → apply_sections (s ∷ ss) body (obj o) ≡ some c
      → (d : Value) × (apply_section s body (obj o) ≡ some d) × (apply_sections ss body d ≡ some c)
  unfolding apply_sections Option.bind
  apply_sections-cases s ss o c h = elim (Option-cases (apply_section s body (obj o))) [
    | inl threw ↦ cc (rw threw at h)
    | inr (d, e) ↦ (d, e, rw e at h)
  ]

  -- What a skipped section leaves.
  skipped :
      (key : String) (s : Section) (v : Value) (o : Fields)
      → IsSkipped body key s
      → is_truthy (prop s.0 body) ≡ true
      → prop key (obj (put s.0 v o)) ≡ prop key (obj o)
  skipped key s v o (inl other) there = prop-put s.0 key v o ∙ rw other refl
  skipped key s v o (inr gone) there = cc (gone, there)

  -- A key that every section skips keeps its value.
  pub apply_sections-skipped :
      (key : String) (ss : List Section) (o : Fields) (c : Value)
      → All (IsSkipped body key) ss
      → apply_sections ss body (obj o) ≡ some c
      → prop key c ≡ prop key (obj o)
  unfolding apply_sections
  apply_sections-skipped key [] o c skips h = ap (prop key) (same h)
    where
      same : ◌≡◌ {A = Option Value} (some (obj o)) (some c) → c ≡ obj o
      same p = cc
  apply_sections-skipped key (s ∷ ss) o c (skip, skips) h =
      let (d, e, later) = apply_sections-cases s ss o c h in
      elim (apply_section-cases s o d e) [
        | inl (gone, same) ↦ apply_sections-skipped key ss o c skips (rw same at later)
        | inr (there, (v, gave, same)) ↦
            apply_sections-skipped key ss (put s.0 v o) c skips (rw same at later)
            ∙ skipped key s v o skip there
      ]

  -- After a section, the value under the key is a new one of it, or the old one.
  put-Gives :
      (key : String) (Q : Value → Type 0) (s : Section) (b old v : Value) (o : Fields)
      → Gives key Q s
      → s.1 b old ≡ some v
      → ((s.0 == key) ≡ false → Q (prop key (obj o)))
      → Q (prop key (obj (put s.0 v o)))
  put-Gives key Q s b old v o gives gave kept = elim (Bool-cases (s.0 == key)) [
    | inl e ↦ subst Q (sym (prop-put s.0 key v o ∙ rw e refl)) (gives e b old v gave)
    | inr e ↦ subst Q (sym (prop-put s.0 key v o ∙ rw e refl)) (kept e)
  ]

  -- A property of the old value and of every new one is one of the saved value.
  apply_sections-keeps :
      (key : String) (Q : Value → Type 0) (ss : List Section) (o : Fields) (c : Value)
      → All (Gives key Q) ss
      → Q (prop key (obj o))
      → apply_sections ss body (obj o) ≡ some c
      → Q (prop key c)
  unfolding apply_sections
  apply_sections-keeps key Q [] o c all q h = subst Q (ap (prop_of key) h) q
  apply_sections-keeps key Q (s ∷ ss) o c (gives, all) q h =
      let (d, e, later) = apply_sections-cases s ss o c h in
      elim (apply_section-cases s o d e) [
        | inl (gone, same) ↦ apply_sections-keeps key Q ss o c all q (rw same at later)
        | inr (there, (v, gave, same)) ↦
            apply_sections-keeps key Q ss (put s.0 v o) c all
              (put-Gives key Q s (prop s.0 body) (prop s.0 (obj o)) v o gives gave (λ e. q))
              (rw same at later)
      ]

  -- A property of every new value is one of the saved value, where the body has the section.
  pub apply_sections-Gives :
      (key : String) (Q : Value → Type 0) (ss : List Section) (o : Fields) (c : Value)
      → All (Gives key Q) ss
      → HasKey key ss
      → is_truthy (prop key body) ≡ true
      → apply_sections ss body (obj o) ≡ some c
      → Q (prop key c)
  unfolding apply_sections
  apply_sections-Gives key Q [] o c all has sent h = elim has [ ]
  apply_sections-Gives key Q (s ∷ ss) o c (gives, all) has sent h =
      let (d, e, later) = apply_sections-cases s ss o c h in
      elim (apply_section-cases s o d e) [
        | inl (gone, same) ↦ elim has [
          | inl here ↦ absurd (clash (ap (λ k. is_truthy (prop k body)) here) gone sent)
          | inr further ↦ apply_sections-Gives key Q ss o c all further sent (rw same at later)
        ]
        | inr (there, (v, gave, same)) ↦ elim has [
          | inl here ↦
              apply_sections-keeps key Q ss (put s.0 v o) c all
                (put-Gives key Q s (prop s.0 body) (prop s.0 (obj o)) v o gives gave
                  (λ e. absurd (cc_false e ((eq_iff s.0 key).1 here))))
                (rw same at later)
          | inr further ↦
              apply_sections-Gives key Q ss (put s.0 v o) c all further sent (rw same at later)
        ]
      ]
    where
      clash : {a b : Bool} → a ≡ b → a ≡ false → b ≡ true → ⊥
      clash p q r = cc

module _ (number_text : Number → Text) (parse_float : Text → Option Number)
    (merged body : Value) where
  -- The sections of a replica's clients are dropped from the body.
  prop-without :
      (key k : String) (v : Value)
      → prop k (without key v) ≡ (if key == k then undefined else prop k v)
  prop-without key k (obj o) = rw (find-remove key k o) (ground arith)
  prop-without key k v = ground arith

  -- What is absent stays so without another key.
  without-gone :
      (key k : String) (v : Value)
      → is_truthy (prop k v) ≡ false
      → is_truthy (prop k (without key v)) ≡ false
  without-gone key k v h =
      ap is_truthy (prop-without key k v)
      ∙ if_both (λ x. is_truthy x ≡ false) (key == k) {x = undefined} {y = prop k v} refl h

  without_self : (key : String) (v : Value) → is_truthy (prop key (without key v)) ≡ false
  without_self key v = ap is_truthy (prop-without key key v) ∙ rw (eq_refl key) refl

  accepted_body-gone :
      (k : String)
      → (is_truthy (prop k body) ≡ false)
        ⊎ ((is_system_replica number_text parse_float merged ≡ true)
            × ((k ≡ "client_identification") ⊎ (k ≡ "client_groups")))
      → is_truthy (prop k (accepted_body number_text parse_float merged body)) ≡ false
  unfolding accepted_body
  accepted_body-gone k (inl h) =
      if_both (λ b. is_truthy (prop k b) ≡ false) (is_system_replica number_text parse_float merged)
        (without-gone "client_groups" k (without "client_identification" body)
          (without-gone "client_identification" k body h))
        h
  accepted_body-gone k (inr (replica, inl e)) = rw replica (
      without-gone "client_groups" k (without "client_identification" body)
        (rw e (without_self "client_identification" body)))
  accepted_body-gone k (inr (replica, inr e)) =
      rw replica (rw e (without_self "client_groups" (without "client_identification" body)))

  -- The edit of an override that is an object, before the write, which removes the secrets, changes no part
  -- that the body has no section for, and on a replica neither the clients nor their groups.
  pub system_edit-unchanged :
      (o : Fields) (c : Value) (k : String)
      → system_edit number_text parse_float merged body (obj o) ≡ some c
      → (is_truthy (prop k body) ≡ false)
        ⊎ ((is_system_replica number_text parse_float merged ≡ true)
            × ((k ≡ "client_identification") ⊎ (k ≡ "client_groups")))
      → prop k c ≡ prop k (obj o)
  unfolding system_edit
  system_edit-unchanged o c k h left =
      let b : Value = accepted_body number_text parse_float merged body in
      apply_sections-skipped b k (sections number_text parse_float) o c
        (All-of (IsSkipped b k) (sections number_text parse_float) (λ s.
          elim (Bool-cases (s.0 == k)) [
            | inl e ↦
                inr
                  (ap (λ j. is_truthy (prop j b)) ((eq_iff s.0 k).0 e) ∙ accepted_body-gone k left)
            | inr e ↦ inl e
          ]))
        h
