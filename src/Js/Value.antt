-- ===== src/Js/Value.antt =====
-- JavaScript values as the configuration code meets them: what `YAML.parse` and a JSON body give.
-- An object is its list of entries in insertion order; keys that JavaScript would reorder
-- (decimal numerals) and the names of `Object.prototype` are not distinguished from others.
pub mod Laws
use beyond_ads_dns.Prelude.{
  ℕ, String, Bool, true, false, not, ◌&&◌, ◌≡◌, Option, none, some, ◌==◌, nat_eq, if◌then◌else◌, Eq,
  ◌=?◌, ◌↔◌, arith, list_eq, nat-Eq, list-Eq,
}
use beyond_ads_dns.Prelude.Int.{ℤ, pos, negsuc}
use beyond_ads_dns.Js.Text.{Text, is_empty}

-- A finite double in lowest terms, units / 2^scale. `-0` is not told apart from `0`.
pub record Number : Type 0 where
  pub units : ℤ
  pub scale : ℕ

mutual
  pub data Value : Type 0 where
    undefined null : Value
    bool : Bool → Value
    num : Number → Value
    str : Text → Value
    obj : Fields → Value
    arr : Items → Value

  pub data Fields : Type 0 where
    end : Fields
    field : String → Value → Fields → Fields

  pub data Items : Type 0 where
    nil : Items
    cons : Value → Items → Items

abbrev pub bool_eq : Bool → Bool → Bool
bool_eq true b = b
bool_eq false b = not b

abbrev pub int_eq : ℤ → ℤ → Bool
int_eq (pos m) (pos n) = nat_eq m n
int_eq (negsuc m) (negsuc n) = nat_eq m n
int_eq _ _ = false

abbrev pub number_eq : Number → Number → Bool
number_eq a b = int_eq a.units b.units && nat_eq a.scale b.scale

number_eq_iff : (a b : Number) → (number_eq a b ≡ true) ↔ (a ≡ b)
number_eq_iff a b = (λ h. ground arith, λ h. ground arith)

instance pub number-Eq : Eq Number
number-Eq = record { beq = number_eq; beq_iff = number_eq_iff }

-- Equality of what two values hold, the order of entries included.
unfoldable mutual
  unfolding list_eq

  pub same : Value → Value → Bool
  same undefined undefined = true
  same null null = true
  same (bool a) (bool b) = bool_eq a b
  same (num a) (num b) = number_eq a b
  same (str a) (str b) = a =? b
  same (arr xs) (arr ys) = same_items xs ys
  same (obj o) (obj p) = same_fields o p
  same _ _ = false

  pub same_items : Items → Items → Bool
  same_items nil nil = true
  same_items (cons x xs) (cons y ys) = same x y && same_items xs ys
  same_items _ _ = false

  pub same_fields : Fields → Fields → Bool
  same_fields end end = true
  same_fields (field j v o) (field k w p) = j == k && same v w && same_fields o p
  same_fields _ _ = false

-- `obj[k]`, with a missing key kept apart from a key that holds `undefined`.
unfoldable pub find : String → Fields → Option Value
find k end = none
find k (field j v o) = if j == k then some v else find k o

abbrev pub or_undefined : Option Value → Value
or_undefined none = undefined
or_undefined (some v) = v

-- `obj[k] = v`: a present key keeps its place.
unfoldable pub put : String → Value → Fields → Fields
put k v end = field k v end
put k v (field j w o) = if j == k then field j v o else field j w (put k v o)

-- `delete obj[k]`
unfoldable pub remove : String → Fields → Fields
remove k end = end
remove k (field j v o) = let r = remove k o in if j == k then r else field j v r

-- Whether the key is among the entries.
abbrev pub is_some {ℓ} : {A : Type ℓ} → Option A → Bool
is_some none = false
is_some (some v) = true

-- The keys of an object are distinct, at every depth outside arrays.
abbrev mutual
  pub IsDistinct : Value → Type 0
  IsDistinct (obj o) = AreDistinct o
  IsDistinct _ = Unit

  pub AreDistinct : Fields → Type 0
  AreDistinct end = Unit
  AreDistinct (field k v o) = (find k o ≡ none) × IsDistinct v × AreDistinct o

-- `a === b`: two arrays or two objects of different documents are never the same one.
unfoldable pub strict_equal : Value → Value → Bool
unfolding same
strict_equal (arr xs) b = false
strict_equal (obj o) b = false
strict_equal a b = same a b

-- `isObject`-like tests of the program read `value && typeof value === "object"` and so on.
abbrev pub is_truthy : Value → Bool
is_truthy undefined = false
is_truthy null = false
is_truthy (bool b) = b
is_truthy (num n) = not (int_eq n.units (pos 0))
is_truthy (str s) = not (is_empty s)
is_truthy (arr xs) = true
is_truthy (obj o) = true
