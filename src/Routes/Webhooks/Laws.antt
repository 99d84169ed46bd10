-- ===== src/Routes/Webhooks/Laws.antt =====
-- The targets that are saved are shown again.
use beyond_ads_dns.Prelude.{
  ◌≡◌, ◌≢◌, ◌⊎◌, refl, ap, ◌∙◌, subst, true, Bool-cases, inl, inr, Option, none, some, List, [],
  ◌∷◌,
}
use beyond_ads_dns.Js.Text.{Text, text, trim, lower}
use beyond_ads_dns.Js.Text.Laws.{trim_idempotent, lower-trim_idempotent}
use beyond_ads_dns.Js.Value.{
  Number, Value, undefined, arr, str, obj, Items, Fields, nil, cons, is_truthy, find, or_undefined,
  IsDistinct,
}
use beyond_ads_dns.Js.Path.{prop}
use beyond_ads_dns.Js.Path.Laws.{prop-put}
use beyond_ads_dns.Js.Value.Laws.{find-put, find-remove}
use beyond_ads_dns.Config.Merge.{merge_deep}
use beyond_ads_dns.Config.Merge.Laws.{merged_entry, merge_deep-find}
use beyond_ads_dns.Routes.Update.Laws.{prop-merge_deep}
use beyond_ads_dns.Routes.Dns.{spread}
use beyond_ads_dns.Js.Convert.{text_of, text_or, items_of}
use beyond_ads_dns.Normalize.Entries.{or_text}
use beyond_ads_dns.Routes.Update.{or_falsy}
use beyond_ads_dns.Routes.Webhooks.{
  shown_target, shown_targets, saved_target, saved_targets, with_targets, normalize_webhook_targets,
  targets_or_old, old_target, hook_fields, hook_limits, hook_targets,
}

-- The address, the time limit and the format of each target.
unfoldable pub summaries : Items → List (Value × Value × Value)
summaries nil = []
summaries (cons t ts) = (prop "url" t, prop "timeout" t, prop "target" t) ∷ summaries ts

module _ (number_text : Number → Text) (number_of : Value → Option Number) where
  url-again : (x : Text) → trim x ≡ x → trim (text_or number_text (str x) "") ≡ x
  unfolding text_or text_of
  url-again [] e = e
  url-again (c ∷ x) e = e

  timeout-again :
      (x : Text)
      → trim x ≡ x
      → or_text (trim (text_or number_text (str (or_text x (text "5s"))) "5s")) (text "5s")
        ≡ or_text x (text "5s")
  unfolding text_or text_of trim
  timeout-again [] e = refl
  timeout-again (c ∷ x) e = rw e refl

  target-again :
      (x : Text) (v : Value)
      → lower (trim x) ≡ x
      → or_text
          (lower
            (trim (text_or number_text (or_falsy (str (or_text x (text "default"))) v) "default")))
          (text "default")
        ≡ or_text x (text "default")
  unfolding text_or text_of trim lower
  target-again [] v e = refl
  target-again (c ∷ x) v e = rw e refl

  brief : Value → Value × Value × Value
  brief t = (prop "url" t, prop "timeout" t, prop "target" t)

  brief-again :
      (later : Value) (hook : Fields) (t : Value)
      → brief (
          shown_target number_text number_of
            (obj (saved_target number_text number_of hook t))
            later)
        ≡ brief (obj (saved_target number_text number_of hook t))
  unfolding brief find
  brief-again later hook t = λ i. (
    str (
        url-again (trim (text_or number_text (prop "url" t) ""))
          (trim_idempotent (text_or number_text (prop "url" t) "")) i),
    str (
        timeout-again (trim (text_or number_text (prop "timeout" t) "5s"))
          (trim_idempotent (text_or number_text (prop "timeout" t) "5s")) i),
    str (
        target-again (lower (trim (text_or number_text (prop "target" t) "default"))) undefined
          (lower-trim_idempotent (text_or number_text (prop "target" t) "default")) i),
  )

  shown_targets-saved_targets :
      (later : Value) (hook : Fields) (ts : Items)
      → summaries
          (shown_targets number_text number_of later (saved_targets number_text number_of hook ts))
        ≡ summaries (saved_targets number_text number_of hook ts)
  unfolding shown_targets saved_targets brief summaries
  shown_targets-saved_targets later hook nil = refl
  shown_targets-saved_targets later hook (cons t ts) =
      elim (Bool-cases (is_truthy (prop "url" (obj (saved_target number_text number_of hook t))))) [
        | inr blank ↦ rw blank (shown_targets-saved_targets later hook ts)
        | inl named ↦ rw named (
            kept (obj (saved_target number_text number_of hook t))
              (saved_targets number_text number_of hook ts) named (brief-again later hook t)
              (shown_targets-saved_targets later hook ts))
      ]
    where
      kept :
          (s : Value) (rest : Items)
          → is_truthy (prop "url" s) ≡ true
          → brief (shown_target number_text number_of s later) ≡ brief s
          → summaries (shown_targets number_text number_of later rest) ≡ summaries rest
          → summaries (shown_targets number_text number_of later (cons s rest))
            ≡ summaries (cons s rest)
      kept s rest named same others =
          rw (ap (λ (x : Value × Value × Value). is_truthy x.0) same ∙ named)
            (λ i. same i ∷ others i)

  -- A hook whose targets are emptied.
  abbrev emptied : Fields → Fields
  emptied h = with_targets number_text number_of nil h

  no_targets : (h : Fields) → prop "targets" (obj (emptied h)) ≡ arr nil
  no_targets h = simp (find-remove, find-put)

  -- What is shown of a value that has the targets, or no targets and no address of the old form.
  shown_again :
      (v : Value) (xs : Items)
      → prop "targets" v ≡ arr xs
      → (xs ≡ nil → prop "url" v ≡ undefined)
      → ((later : Value) → summaries (shown_targets number_text number_of later xs) ≡ summaries xs)
      → (shown : Items) × (normalize_webhook_targets number_text number_of v v ≡ some shown)
        × (summaries shown ≡ summaries xs)
  unfolding normalize_webhook_targets
  shown_again v nil e none_old again = (
    nil,
    ap (λ t. targets_or_old number_text number_of v v (items_of t)) e
        ∙ ap (old_target number_text number_of v v) (none_old refl),
    refl,
  )
  shown_again v (cons t ts) e none_old again =
      (shown_targets number_text number_of v (cons t ts), rw e refl, again v)

  targets_of :
      (xs : Items) (h : Fields)
      → prop "targets" (obj (with_targets number_text number_of xs h)) ≡ arr xs
  targets_of nil h = no_targets h
  targets_of (cons t ts) h = prop-put "targets" "targets" (arr (cons t ts)) h

  no_old_url :
      (xs : Items) (h : Fields)
      → xs ≡ nil
      → find "url" (with_targets number_text number_of xs h) ≡ none
  no_old_url nil h e = simp find-remove
  no_old_url (cons t ts) h e = cc

  -- Over a default hook, emptied targets leave no address but that of the default hook.
  merged_url :
      (base : Fields) (xs : Items) (h : Fields)
      → IsDistinct (obj (with_targets number_text number_of xs h))
      → (xs ≢ nil) ⊎ (prop "url" (obj base) ≡ undefined)
      → xs ≡ nil
      → prop "url" (merge_deep (obj base) (obj (with_targets number_text number_of xs h)))
        ≡ undefined
  merged_url base xs h d (inl some_left) e = absurd (some_left e)
  merged_url base xs h d (inr bare) e =
      let (r, same, at) = merge_deep-find base (with_targets number_text number_of xs h) d in
      ap (prop "url") same
      ∙ ap or_undefined (at "url" ∙ ap (merged_entry (find "url" base)) (no_old_url xs h e))
      ∙ bare

  -- Where a hook that `PUT /api/webhooks` saves, for targets sent as an array, is merged over the hook of the
  -- default configuration, `GET /api/webhooks` shows of the merged hook the targets that were saved, with
  -- the same addresses, time limits and formats, in the same order, whatever the two hooks had before;
  -- where no target was saved, this holds, and none is shown, if the default hook has no address in the old
  -- form. The saved hook has distinct keys.
  pub normalize_webhook_targets-hook_fields :
      (base : Fields) (input existing : Value) (ts : Items)
      → prop "targets" input ≡ arr ts
      → IsDistinct (obj (hook_fields number_text number_of input existing))
      → (saved_targets number_text number_of
            (hook_limits number_text number_of input (spread existing))
            ts
          ≢ nil)
        ⊎ (prop "url" (obj base) ≡ undefined)
      → (shown : Items) × (normalize_webhook_targets number_text number_of
            (merge_deep (obj base) (obj (hook_fields number_text number_of input existing)))
            (merge_deep (obj base) (obj (hook_fields number_text number_of input existing)))
          ≡ some shown)
        × (summaries shown
            ≡ summaries (
                saved_targets number_text number_of
                  (hook_limits number_text number_of input (spread existing))
                  ts))
  unfolding hook_fields
  normalize_webhook_targets-hook_fields base input existing ts sent distinct left =
      let h = hook_limits number_text number_of input (spread existing) in
      let xs = saved_targets number_text number_of h ts in
      let saved : Value = obj (hook_targets number_text number_of (prop "targets" input) h) in
      let targets : saved ≡ obj (with_targets number_text number_of xs h) =
        λ i. obj (hook_targets number_text number_of (sent i) h) in
      let d = subst IsDistinct targets distinct in
      shown_again (merge_deep (obj base) saved) xs
        (prop-merge_deep base "targets" saved xs distinct
          (ap (prop "targets") targets ∙ targets_of xs h))
        (λ e.
          ap (λ v. prop "url" (merge_deep (obj base) v)) targets ∙ merged_url base xs h d left e)
        (λ later. shown_targets-saved_targets later h ts)
