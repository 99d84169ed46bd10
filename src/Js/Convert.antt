-- ===== src/Js/Convert.antt =====
-- `String(v)`, and the reading of a JSON body's fields as texts. How a number is printed is a parameter,
-- since doubles are not modelled.
use beyond_ads_dns.Prelude.{String, true, false, List, [], ◌∷◌, ◌++◌, if◌then◌else◌}
use beyond_ads_dns.Js.Text.{Text, text}
use beyond_ads_dns.Js.Value.{
  Number, Value, undefined, null, bool, num, str, obj, arr, Items, nil, cons, is_truthy,
}

-- `v == null ? d : s`
abbrev pub nullish_or {ℓ} : {A : Type ℓ} → Value → A → A → A
nullish_or undefined d s = d
nullish_or null d s = d
nullish_or v d s = s

module _ (number_text : Number → Text) where
  -- An array is joined with commas, its absent items as nothing.
  unfoldable mutual
    pub text_of : Value → Text
    text_of undefined = text "undefined"
    text_of null = text "null"
    text_of (bool true) = text "true"
    text_of (bool false) = text "false"
    text_of (num n) = number_text n
    text_of (str s) = s
    text_of (obj o) = text "[object Object]"
    text_of (arr nil) = []
    text_of (arr (cons v rest)) = nullish_or v [] (text_of v) ++ more_items rest

    more_items : Items → Text
    more_items nil = []
    more_items (cons v rest) = b',' ∷ (nullish_or v [] (text_of v) ++ more_items rest)

  -- `String(v || d)`
  unfoldable pub text_or : Value → String → Text
  unfolding text_of
  text_or v d = if is_truthy v then text_of v else text d

  -- `String(v ?? d)`
  unfoldable pub text_or_default : Value → String → Text
  unfolding text_of
  text_or_default v d = nullish_or v (text d) (text_of v)

-- `Array.isArray(v) ? v : []`
abbrev pub items_of : Value → Items
items_of (arr xs) = xs
items_of v = nil

unfoldable pub list_of : Items → List Value
list_of nil = []
list_of (cons v rest) = v ∷ list_of rest

unfoldable pub items : List Value → Items
items [] = nil
items (v ∷ vs) = cons v (items vs)
