-- ===== src/Js/Path.antt =====
-- Chains of property accesses such as `config.cache?.redis?.password`.
pub mod Laws
use beyond_ads_dns.Prelude.{String, Bool, true, false, List, [], ◌∷◌, if◌then◌else◌}
use beyond_ads_dns.Js.Value.{
  Value, undefined, obj, Fields, end, field, find, put, remove, or_undefined,
}

-- `v?.k`: a value that is no object has none of the properties that the program names.
abbrev pub prop : String → Value → Value
prop k (obj o) = or_undefined (find k o)
prop k _ = undefined

-- `v?.k1?.k2`
abbrev pub get_path : List String → Value → Value
get_path [] v = v
get_path (k ∷ ks) v = get_path ks (prop k v)

abbrev pub is_undefined : Value → Bool
is_undefined undefined = true
is_undefined _ = false

-- `v.k1.k2 = x`, at a path on which every value but the last is an object.
unfoldable pub set_path : List String → Value → Value → Value
unfolding find put
set_path [] x v = x
set_path (k ∷ ks) x (obj o) = obj (put k (set_path ks x (or_undefined (find k o))) o)
set_path (k ∷ ks) x v = v

-- An emptied object is deleted from the object above it.
abbrev settle_child : String → Value → Fields → Fields
settle_child k (obj end) o = remove k o
settle_child k v o = put k v o

-- `delete v.k1.k2`, and then the deletion of each object above that this leaves empty, but for `v`.
unfoldable pub drop_path : List String → Value → Value
unfolding find put remove
drop_path [] v = v
drop_path (k ∷ []) (obj o) = obj (remove k o)
drop_path (k ∷ (j ∷ ks)) (obj o) =
    obj (settle_child k (drop_path (j ∷ ks) (or_undefined (find k o))) o)
drop_path (k ∷ ks) v = v
