-- ===== src/Js/Path/Laws.antt =====
-- What a write or a deletion at a path leaves under that path and under others.
use beyond_ads_dns.Prelude.{
  String, ◌≡◌, ◌≢◌, refl, ap, ◌∙◌, false, List, [], ◌∷◌, arith, ◌==◌, eq_iff, eq_refl, Bool-cases,
  inl, inr, ◌⊎◌, if◌then◌else◌,
}
use beyond_ads_dns.Js.Value.{Value, undefined, obj, Fields, end, find, put, remove, or_undefined}
use beyond_ads_dns.Js.Value.Laws.{find-put, find-remove}
use beyond_ads_dns.Js.Path.{prop, get_path, is_undefined, set_path, settle_child, drop_path}

-- The two paths part before either ends.
abbrev pub IsApart : List String → List String → Type 0
IsApart [] q = ⊥
IsApart (k ∷ p) [] = ⊥
IsApart (k ∷ p) (j ∷ q) = (k ≢ j) ⊎ IsApart p q

IsApart-cases :
    (k j : String) (p q : List String) → IsApart (k ∷ p) (j ∷ q) → ((k ≡ j) × IsApart p q) ⊎ (k ≢ j)
IsApart-cases k j p q (inl other) = inr other
IsApart-cases k j p q (inr apart) = elim (Bool-cases (k == j)) [
  | inl same ↦ inl ((eq_iff k j).0 same, apart)
  | inr other ↦ inr (λ e. cc (other, (eq_iff k j).1 e))
]

pub get_path-undefined : (q : List String) → get_path q undefined ≡ undefined
get_path-undefined [] = refl
get_path-undefined (k ∷ q) = get_path-undefined q

-- A property after a write.
pub prop-put :
    (k j : String) (v : Value) (o : Fields)
    → prop j (obj (put k v o)) ≡ (if k == j then v else prop j (obj o))
prop-put k j v o = rw (find-put k j v o) (ground arith)

prop-put_self : (k : String) (v : Value) (o : Fields) → prop k (obj (put k v o)) ≡ v
prop-put_self k v o = simp (find-put, eq_refl)

prop-put_ne :
    (k j : String) (v : Value) (o : Fields) → k ≢ j → prop j (obj (put k v o)) ≡ prop j (obj o)
prop-put_ne k j v o h = ground (arith, find-put k j v o, eq_iff k j)

prop-remove_self : (k : String) (o : Fields) → prop k (obj (remove k o)) ≡ undefined
prop-remove_self k o = simp (find-remove, eq_refl)

prop-remove_ne : (k j : String) (o : Fields) → k ≢ j → prop j (obj (remove k o)) ≡ prop j (obj o)
prop-remove_ne k j o h = ground (arith, find-remove k j o, eq_iff k j)

pub get_path-set_path_self :
    (p : List String) (x v : Value)
    → is_undefined (get_path p v) ≡ false
    → get_path p (set_path p x v) ≡ x
unfolding set_path
get_path-set_path_self [] x v h = refl
get_path-set_path_self (k ∷ p) x (obj o) h =
    ap (get_path p) (prop-put_self k (set_path p x (or_undefined (find k o))) o)
    ∙ get_path-set_path_self p x (or_undefined (find k o)) h
get_path-set_path_self (k ∷ p) x v h = cc (h, get_path-undefined p)

pub get_path-set_path_apart :
    (p q : List String) (x v : Value) → IsApart p q → get_path q (set_path p x v) ≡ get_path q v
unfolding set_path
get_path-set_path_apart [] q x v h = absurd h
get_path-set_path_apart (k ∷ p) [] x v h = absurd h
get_path-set_path_apart (k ∷ p) (j ∷ q) x (obj o) h = elim (IsApart-cases k j p q h) [
  | inl (e, apart) ↦ rw (← e) (
      ap (get_path q) (prop-put_self k (set_path p x (or_undefined (find k o))) o)
      ∙ get_path-set_path_apart p q x (or_undefined (find k o)) apart)
  | inr other ↦ ap (get_path q) (prop-put_ne k j (set_path p x (or_undefined (find k o))) o other)
]
get_path-set_path_apart (k ∷ p) (j ∷ q) x _ h = refl

-- The object above a deletion reads as if the child had been written back.
prop-settle_child_self :
    (k : String) (v : Value) (o : Fields) (q : List String)
    → q ≢ []
    → get_path q (prop k (obj (settle_child k v o))) ≡ get_path q v
prop-settle_child_self k (obj end) o [] h = absurd (h refl)
prop-settle_child_self k (obj end) o (j ∷ q) h =
    ap (get_path (j ∷ q)) (prop-remove_self k o) ∙ unfold find in refl
prop-settle_child_self k v o q h = ap (get_path q) (prop-put_self k v o)

prop-settle_child_ne :
    (k j : String) (v : Value) (o : Fields)
    → k ≢ j
    → prop j (obj (settle_child k v o)) ≡ prop j (obj o)
prop-settle_child_ne k j (obj end) o h = prop-remove_ne k j o h
prop-settle_child_ne k j v o h = prop-put_ne k j v o h

IsApart-ne-nil : (p q : List String) → IsApart p q → q ≢ []
IsApart-ne-nil (k ∷ p) (j ∷ q) h = λ e. cc
IsApart-ne-nil _ _ h = absurd h

pub get_path-drop_path_self :
    (k : String) (p : List String) (v : Value) → get_path (k ∷ p) (drop_path (k ∷ p) v) ≡ undefined
unfolding drop_path
get_path-drop_path_self k [] (obj o) = prop-remove_self k o
get_path-drop_path_self k (j ∷ p) (obj o) =
    prop-settle_child_self k (drop_path (j ∷ p) (or_undefined (find k o))) o (j ∷ p) (λ e. cc)
    ∙ get_path-drop_path_self j p (or_undefined (find k o))
get_path-drop_path_self k [] _ = refl
get_path-drop_path_self k (j ∷ p) _ = get_path-undefined (j ∷ p)

pub get_path-drop_path_apart :
    (p q : List String) (v : Value) → IsApart p q → get_path q (drop_path p v) ≡ get_path q v
unfolding drop_path
get_path-drop_path_apart [] q v h = absurd h
get_path-drop_path_apart (k ∷ p) [] v h = absurd h
get_path-drop_path_apart (k ∷ []) (j ∷ q) (obj o) h = elim (IsApart-cases k j [] q h) [
  | inl (e, apart) ↦ absurd apart
  | inr other ↦ ap (get_path q) (prop-remove_ne k j o other)
]
get_path-drop_path_apart (k ∷ (i ∷ p)) (j ∷ q) (obj o) h = elim (IsApart-cases k j (i ∷ p) q h) [
  | inl (e, apart) ↦ rw (← e) (
      prop-settle_child_self k (drop_path (i ∷ p) (or_undefined (find k o))) o q
        (IsApart-ne-nil (i ∷ p) q apart)
      ∙ get_path-drop_path_apart (i ∷ p) q (or_undefined (find k o)) apart)
  | inr other ↦
      ap (get_path q)
        (prop-settle_child_ne k j (drop_path (i ∷ p) (or_undefined (find k o))) o other)
]
get_path-drop_path_apart (k ∷ []) (j ∷ q) _ h = refl
get_path-drop_path_apart (k ∷ (i ∷ p)) (j ∷ q) _ h = refl
