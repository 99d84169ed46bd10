-- ===== src/Control/Errors/Laws.antt =====
-- Who may restart the application, and which level the list of errors shows.
use mathlib.Core.Option
use beyond_ads_dns.Prelude.{
  ◌≡◌, ◌↔◌, ◌⊎◌, inl, inr, refl, sym, ap, ◌∙◌, ◌=?◌, Bool-cases, true, false, some, [], ◌∷◌, nat-Eq,
  list-Eq, list_eq, list_eq_iff, arith,
}
use beyond_ads_dns.Js.Text.{Text, text, is_empty, trim, lower}
use beyond_ads_dns.Js.Path.{prop, get_path}
use beyond_ads_dns.Routes.Update.{or_falsy}
use beyond_ads_dns.Js.Convert.{text_or}
use beyond_ads_dns.Js.Value.{Number, Value, str, obj, put, is_truthy}
use beyond_ads_dns.Config.Options.{levels, normalize_error_log_level}
use beyond_ads_dns.Config.Options.Laws.{normalize_error_log_level_idempotent}
use beyond_ads_dns.Normalize.Unique.{includes}
use beyond_ads_dns.Config.Store.{Yaml, Disk, read_merged_config}
use beyond_ads_dns.Routes.Settings.{Ctx, ok, refused, has_no_path}
use beyond_ads_dns.Routes.Dns.{spread}
use beyond_ads_dns.Control.{Response, answered, is_ok}
use beyond_ads_dns.Control.Errors.{
  bearer_token, restarting, restart, configured_level, errors_reply,
}

-- A request restarts the application exactly when no token is set, or one of its two headers gives the
-- token; otherwise it is refused with 401.
pub restart_iff :
    (token auth header : Text)
    → (((restart token auth header).1 ≡ true)
        ↔ ((token ≡ []) ⊎ (bearer_token auth ≡ token) ⊎ (header ≡ token)))
      × (((restart token auth header).1 ≡ true) → (restart token auth header).0 ≡ ok restarting)
      × (((restart token auth header).1 ≡ false) → (restart token auth header).0 ≡ refused 401)
unfolding restart
restart_iff [] auth header = ((λ h. inl refl, λ h. refl), λ h. refl, λ h. cc)
restart_iff (c ∷ s) auth header =
    ground (arith, list_eq_iff (bearer_token auth) (c ∷ s), list_eq_iff header (c ∷ s))

level-filled : (s : Text) → includes s levels ≡ true → is_empty s ≡ false
unfolding includes list_eq
level-filled [] h = cc
level-filled (c ∷ s) h = refl

module _ (number_text : Number → Text) where
  configured_level-filled :
      (merged : Value) → is_empty (configured_level number_text merged) ≡ false
  unfolding configured_level
  configured_level-filled merged =
      level-filled (configured_level number_text merged) (normalize_error_log_level_idempotent _).0

or_falsy-chosen :
    (v d raw : Value)
    → ((is_truthy v ≡ true) × (raw ≡ v)) ⊎ ((is_truthy v ≡ false) × (raw ≡ d))
    → or_falsy v d ≡ raw
or_falsy-chosen v d raw (inl (on, e)) = sym (e ∙ rw on refl)
or_falsy-chosen v d raw (inr (off, e)) = sym (e ∙ rw off refl)

-- A text that is one of the four levels stands for itself, and any other for "warning".
normalize_error_log_level-shown :
    (t : Text)
    → ((includes (trim (lower t)) levels ≡ true) × (normalize_error_log_level t ≡ trim (lower t)))
      ⊎ ((includes (trim (lower t)) levels ≡ false)
          × (normalize_error_log_level t ≡ text "warning"))
unfolding normalize_error_log_level
normalize_error_log_level-shown t = elim (Bool-cases (trim (lower t) =? text "warn")) [
  | inl warn ↦
      let same = (list_eq_iff (trim (lower t)) (text "warn")).0 warn in
      inr (
        ap (λ s. includes s levels) same ∙ unfold includes list_eq in refl,
        rw warn (unfold includes list_eq in refl),
      )
  | inr other ↦ elim (Bool-cases (includes (trim (lower t)) levels)) [
    | inl known ↦ inl (known, rw (other, known) refl)
    | inr unknown ↦ inr (unknown, rw (other, unknown) refl)
  ]
]

module _ (number_text : Number → Text) where
  -- The value that sets the level: `logging.level` where it is truthy, and else
  -- `control.errors.log_level`.
  abbrev pub SetsLevel : Value → Value → Type 0
  SetsLevel merged raw =
      ((is_truthy (get_path ("logging" ∷ ("level" ∷ [])) merged) ≡ true)
        × (raw ≡ get_path ("logging" ∷ ("level" ∷ [])) merged))
      ⊎ ((is_truthy (get_path ("logging" ∷ ("level" ∷ [])) merged) ≡ false)
          × (raw ≡ get_path ("control" ∷ ("errors" ∷ ("log_level" ∷ []))) merged))

  configured_level-raw :
      (merged raw : Value)
      → SetsLevel merged raw
      → configured_level number_text merged ≡ normalize_error_log_level (text_or number_text raw "")
  unfolding configured_level
  configured_level-raw merged raw sets =
      ap (λ v. normalize_error_log_level (text_or number_text v ""))
        (or_falsy-chosen (prop "level" (prop "logging" merged))
          (prop "log_level" (prop "errors" (prop "control" merged))) raw sets)

  -- Where a configuration can be read and the control server answers with success, the list of errors
  -- shows, in place of the level that the control server reports, the level of the configuration: what
  -- `logging.level`, or else `control.errors.log_level`, has as a text in lower case without blanks around
  -- it, if that is one of the four levels, and else "warning".
  pub errors_reply-configured :
      {Content : Type 0} (yaml : Yaml Content) (ctx : Ctx) (disk : Disk Content) (r : Response)
      (merged v raw : Value)
      → has_no_path yaml ctx ≡ false
      → read_merged_config yaml ctx.default_config_path ctx.config_path disk ≡ some merged
      → is_ok r.status ≡ true
      → r.json_body ≡ some v
      → SetsLevel merged raw
      → (level : Text) × (errors_reply yaml ctx number_text disk (answered r)
          ≡ ok (obj (put "log_level" (str level) (spread v))))
        × (((includes (trim (lower (text_or number_text raw ""))) levels ≡ true)
              × (level ≡ trim (lower (text_or number_text raw ""))))
            ⊎ ((includes (trim (lower (text_or number_text raw ""))) levels ≡ false)
                × (level ≡ text "warning")))
  unfolding errors_reply Option.bind
  errors_reply-configured yaml ctx disk r merged v raw set read fine body sets = (
    normalize_error_log_level (text_or number_text raw ""),
    rw (fine, body, set, read, configured_level-filled number_text merged)
        (ap (λ (l : Text). ok (obj (put "log_level" (str l) (spread v))))
          (configured_level-raw merged raw sets)),
    normalize_error_log_level-shown (text_or number_text raw ""),
  )
