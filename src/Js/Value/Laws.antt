-- ===== src/Js/Value/Laws.antt =====
-- Lookup after a write or a deletion.
use beyond_ads_dns.Prelude.{Bool, String, ◌≡◌, refl, none, some, arith, ◌==◌, eq_iff, if◌then◌else◌}
use beyond_ads_dns.Prelude.{ap, ap₂, ◌&&◌, &&-eq-true, true, list_eq_iff, nat-Eq}
use beyond_ads_dns.Js.Value.{
  Number, Value, undefined, null, bool, num, str, arr, obj, Items, nil, cons, Fields, end, field,
  find, put, remove, number_eq, bool_eq, same, same_items, same_fields, strict_equal,
}

pub find-put :
    (k j : String) (v : Value) (o : Fields)
    → find j (put k v o) ≡ (if k == j then some v else find j o)
unfolding find put
find-put k j v end = refl
find-put k j v (field i w o) = ground (arith, eq_iff k j, eq_iff i k, eq_iff i j, find-put k j v o)

pub find-remove :
    (k j : String) (o : Fields) → find j (remove k o) ≡ (if k == j then none else find j o)
unfolding find remove
find-remove k j end = ground arith
find-remove k j (field i w o) =
    ground (arith, eq_iff k j, eq_iff i k, eq_iff i j, find-remove k j o)

-- Writing what is there changes nothing.
pub put_same : (k : String) (v : Value) (o : Fields) → find k o ≡ some v → put k v o ≡ o
unfolding find put
put_same k v end h = ground arith
put_same k v (field i w o) h = ground (arith, put_same k v o)

number_eq_sound : (a b : Number) → number_eq a b ≡ true → a ≡ b
number_eq_sound a b h = ground arith

bool_eq_sound : (a b : Bool) → bool_eq a b ≡ true → a ≡ b
bool_eq_sound a b h = ground arith

mutual
  unfolding same

  same_sound : (a b : Value) → same a b ≡ true → a ≡ b
  same_sound undefined b h = ground arith
  same_sound null b h = ground arith
  same_sound (bool x) (bool y) h = ap bool (bool_eq_sound x y h)
  same_sound (num x) (num y) h = ap num (number_eq_sound x y h)
  same_sound (str x) (str y) h = ap str ((list_eq_iff x y).0 h)
  same_sound (arr xs) (arr ys) h = ap arr (same_items_sound xs ys h)
  same_sound (obj o) (obj p) h = ap obj (same_fields_sound o p h)
  same_sound _ _ h = cc

  same_items_sound : (xs ys : Items) → same_items xs ys ≡ true → xs ≡ ys
  same_items_sound nil nil h = refl
  same_items_sound (cons x xs) (cons y ys) h =
      let (p, q) = &&-eq-true (same x y) (same_items xs ys) h in
      ap₂ cons (same_sound x y p) (same_items_sound xs ys q)
  same_items_sound _ _ h = cc

  same_fields_sound : (o p : Fields) → same_fields o p ≡ true → o ≡ p
  same_fields_sound end end h = refl
  same_fields_sound (field j v o) (field k w p) h =
      let (q, r) = &&-eq-true (j == k && same v w) (same_fields o p) h in
      let (s, t) = &&-eq-true (j == k) (same v w) q in
      cc ((eq_iff j k).0 s, same_sound v w t, same_fields_sound o p r)
  same_fields_sound _ _ h = cc

-- The test finds only equal values.
pub same-eq : (a b : Value) → same a b ≡ true → a ≡ b
same-eq a b h = same_sound a b h

pub same_items-eq : (xs ys : Items) → same_items xs ys ≡ true → xs ≡ ys
same_items-eq xs ys h = same_items_sound xs ys h

pub strict_equal-eq : (a b : Value) → strict_equal a b ≡ true → a ≡ b
unfolding strict_equal
strict_equal-eq (arr xs) b h = cc
strict_equal-eq (obj o) b h = cc
strict_equal-eq a b h = same-eq a b h
