-- ===== src/Routes/Sync/Tokens.antt =====
-- The tokens of a primary: what creating one and revoking one do to the list.
use beyond_ads_dns.Prelude.{ℕ, suc, ◌≡◌, refl, ap, ◌∙◌, true, false, Option, none, some, arith, leb}
use beyond_ads_dns.Prelude.Int.{ℤ, pos}
use beyond_ads_dns.Js.Text.{Text, text, trim}
use beyond_ads_dns.Js.Convert.{text_or}
use beyond_ads_dns.Js.Value.{
  Number, Value, obj, arr, str, bool, Items, Fields, nil, cons, end, put, strict_equal, field,
}
use beyond_ads_dns.Js.Path.{prop}
use beyond_ads_dns.Js.Path.Laws.{prop-put}
use beyond_ads_dns.Js.Parse.{parse_int}
use beyond_ads_dns.Routes.Update.{saved_reply}
use beyond_ads_dns.Routes.Dns.{spread}
use beyond_ads_dns.Routes.Edit.{saves}
use beyond_ads_dns.Routes.Sync.{
  sync_of, tokens_of, has_role, push, count, remove_at, revoke_token_edit, create_token_edit,
  token_value, add_token, is_out_of_range, splice_index,
}

pub count-push : (v : Value) (xs : Items) → count (push v xs) ≡ suc (count xs)
unfolding count push
count-push v nil = refl
count-push v (cons x xs) = ap suc (count-push v xs)

pub remove_at-push : (v : Value) (xs : Items) → remove_at (count xs) (push v xs) ≡ xs
unfolding remove_at count push
remove_at-push v nil = refl
remove_at-push v (cons x xs) = ap (cons x) (remove_at-push v xs)

count-within : (n : ℕ) → leb (suc n) n ≡ false
count-within n = ground arith

-- The synchronisation of a configuration with this value of `sync`.
sync_of-put : (s : Fields) (o : Fields) → sync_of (obj (put "sync" (obj s) o)) ≡ obj s
sync_of-put s o = rw (prop-put "sync" "sync" (obj s) o) refl

tokens_of-put : (ts : Items) (s : Fields) → tokens_of (obj (put "tokens" (arr ts) s)) ≡ arr ts
tokens_of-put ts s = rw (prop-put "tokens" "tokens" (arr ts) s) refl

abbrev new_sync : Items → Fields → Fields
new_sync ts s =
    put "tokens" (arr ts) (put "role" (str (text "primary")) (put "enabled" (bool true) s))

prop-new_sync : (ts : Items) (s : Fields) → prop "role" (obj (new_sync ts s)) ≡ str (text "primary")
prop-new_sync ts s = simp prop-put

new_sync-role : (ts : Items) (s : Fields) → has_role "replica" (obj (new_sync ts s)) ≡ false
unfolding strict_equal
new_sync-role ts s = rw (prop-new_sync ts s) refl

-- A revocation within the list, on a primary.
revoke_token-saves :
    (o s : Fields) (ts : Items) (index : Text) (i : Option ℤ)
    → sync_of (obj o) ≡ obj s
    → has_role "replica" (obj s) ≡ false
    → tokens_of (obj s) ≡ arr ts
    → parse_int index ≡ i
    → is_out_of_range i (count ts) ≡ false
    → revoke_token_edit index (obj o)
      ≡ saves
          (obj (put "sync" (obj (put "tokens" (arr (remove_at (splice_index i) ts)) s)) o))
          (saved_reply end)
unfolding revoke_token_edit
revoke_token-saves o s ts index i is primary held at within =
    rw (is, primary, held, at, within) refl

module _ (number_text : Number → Text) (body : Value) (id now : Text) where
  -- The token that the handler makes of the body.
  abbrev pub new_token : Value
  new_token = token_value id (trim (text_or number_text (prop "name" body) "Replica")) now

  create_token-saves :
      (o : Fields) (ts : Items)
      → has_role "replica" (sync_of (obj o)) ≡ false
      → tokens_of (sync_of (obj o)) ≡ arr ts
      → create_token_edit number_text body id now (obj o)
        ≡ add_token (obj o) (sync_of (obj o)) (arr ts) new_token
  unfolding create_token_edit
  create_token-saves o ts primary held = rw (primary, held) refl

  -- On a primary whose tokens are a list, a new token is put after the others; and to revoke the token
  -- at that place gives back the list of before.
  pub revoke_token-create_token :
      (o : Fields) (ts : Items) (index : Text)
      → has_role "replica" (sync_of (obj o)) ≡ false
      → tokens_of (sync_of (obj o)) ≡ arr ts
      → parse_int index ≡ some (pos (count ts))
      → (c : Value) × (reply : Value) × (d : Value) × (create_token_edit number_text body id now
            (obj o)
          ≡ saves c reply)
        × (tokens_of (sync_of c) ≡ arr (push new_token ts))
        × (revoke_token_edit index c ≡ saves d (saved_reply end))
        × (tokens_of (sync_of d) ≡ arr ts)
  unfolding revoke_token_edit
  revoke_token-create_token o ts index primary held at =
      let s : Fields = new_sync (push new_token ts) (spread (sync_of (obj o))) in
      let t : Fields = put "tokens" (arr ts) s in
      (
        obj (put "sync" (obj s) o),
        saved_reply (
            field "token" (prop "id" new_token) (
              field "name" (prop "name" new_token) (
                field "message" (str (text "Copy the token now; it will not be shown again."))
                  end))),
        obj (put "sync" (obj t) (put "sync" (obj s) o)),
        create_token-saves o ts primary held,
        rw (sync_of-put s o) (tokens_of-put (push new_token ts) _),
        revoke_token-saves (put "sync" (obj s) o) s (push new_token ts) index
              (some (pos (count ts))) (sync_of-put s o)
              (new_sync-role (push new_token ts) (spread (sync_of (obj o))))
              (tokens_of-put (push new_token ts) _) at
              (ap (λ n. leb n (count ts)) (count-push new_token ts) ∙ count-within (count ts))
            ∙ ap
                (λ xs.
                  saves (obj (put "sync" (obj (put "tokens" (arr xs) s)) (put "sync" (obj s) o)))
                    (saved_reply end))
                (remove_at-push new_token ts),
        rw (sync_of-put t (put "sync" (obj s) o)) (tokens_of-put ts s),
      )

-- On a primary whose tokens are a list with one token at least, any text that is no number, as the
-- index of a token to revoke, revokes the first token.
pub revoke_token-no_number :
    (o : Fields) (t : Value) (ts : Items) (index : Text)
    → has_role "replica" (sync_of (obj o)) ≡ false
    → tokens_of (sync_of (obj o)) ≡ arr (cons t ts)
    → parse_int index ≡ none
    → (c : Value) × (revoke_token_edit index (obj o) ≡ saves c (saved_reply end))
      × (tokens_of (sync_of c) ≡ arr ts)
unfolding revoke_token_edit
revoke_token-no_number o t ts index primary held nan =
    let s : Fields = put "tokens" (arr ts) (spread (sync_of (obj o))) in
    (
      obj (put "sync" (obj s) o),
      rw (primary, held, nan) refl,
      rw (sync_of-put s o) (tokens_of-put ts _),
    )
