-- ===== src/Routes/Blocklists/Laws.antt =====
-- What `PUT /api/blocklists` saves, and what it leaves of the old settings.
use beyond_ads_dns.Prelude.{
  String, ◌≡◌, ◌≢◌, ◌⊎◌, inl, inr, refl, ap, ◌∙◌, ℕ, Bool, true, false, not, ◌&&◌, Option, none,
  some, List, [], ◌∷◌, ◌==◌, map, arith, if◌then◌else◌, string-Eq,
}
use beyond_ads_dns.Js.Text.{Text, trim}
use beyond_ads_dns.Normalize.Entries.{Source, normalize_sources, normalize_domains}
use beyond_ads_dns.Schedule.{
  validate_scheduled_pause, normalize_scheduled_pause, validate_family_time, normalize_family_time,
}
use beyond_ads_dns.Config.Options.{validate_health_check, normalize_health_check}
use beyond_ads_dns.Js.Value.{Number, Value, Fields, obj, arr, str, field, end, find, put, is_some}
use beyond_ads_dns.Js.Value.Laws.{find-put}
use beyond_ads_dns.Js.Path.{prop, is_undefined}
use beyond_ads_dns.Js.Convert.{text_or, items_of, list_of, items}
use beyond_ads_dns.Config.Secrets.{remove_password_fields}
use beyond_ads_dns.Config.Store.{Yaml, Disk, Faults, read_override_config, read_merged_config}
use beyond_ads_dns.Routes.Settings.{Ctx, Reply, ok, refused, is_replica, or_empty}
use beyond_ads_dns.Routes.Update.{saved_reply, change}
use beyond_ads_dns.Routes.Update.Laws.{change-ChangesOrRefuses, saved_edit}
use beyond_ads_dns.Routes.Dns.{spread}
use beyond_ads_dns.Routes.Blocklists.{
  source_value, texts_value, BlocklistsBody, read_blocklists_body, is_blocklists_body, put_sent,
  blocklists_fields, write_blocklists, put_blocklists, read_source, read_pause, read_family,
  pause_value, family_value, health_value, has_source,
}

find-put_sent :
    (sent : Bool) (k j : String) (v : Value) (o : Fields)
    → find j (put_sent sent k v o)
      ≡ (if k == j then if sent then some v else find j o else find j o)
find-put_sent true k j v o = find-put k j v o
find-put_sent false k j v o = ground arith

-- A key that the handler does not write.
abbrev pub IsOther : String → Type 0
IsOther k =
    (("refresh_interval" == k) ≡ false)
    × (("sources" == k) ≡ false)
    × (("allowlist" == k) ≡ false)
    × (("denylist" == k) ≡ false)
    × (("scheduled_pause" == k) ≡ false)
    × (("family_time" == k) ≡ false)
    × (("health_check" == k) ≡ false)

-- The new settings have the normalised lists of the body; a scheduled pause, a family time and a health
-- check that the body leaves out stay as they were, and so does every other entry.
pub blocklists_fields-find :
    (b : BlocklistsBody) (old : Value)
    → (find "sources" (blocklists_fields b old) ≡ some (arr (items (map source_value b.sources))))
      × (find "allowlist" (blocklists_fields b old) ≡ some (texts_value b.allowlist))
      × (find "denylist" (blocklists_fields b old) ≡ some (texts_value b.denylist))
      × (find "refresh_interval" (blocklists_fields b old) ≡ some (str b.refresh_interval))
      × (b.pause_sent ≡ false
          → find "scheduled_pause" (blocklists_fields b old) ≡ find "scheduled_pause" (spread old))
      × (b.family_sent ≡ false
          → find "family_time" (blocklists_fields b old) ≡ find "family_time" (spread old))
      × (is_undefined b.health_check ≡ true
          → find "health_check" (blocklists_fields b old) ≡ find "health_check" (spread old))
      × (b.pause_sent ≡ true
          → find "scheduled_pause" (blocklists_fields b old)
            ≡ some (pause_value (normalize_scheduled_pause b.scheduled_pause)))
      × (b.family_sent ≡ true
          → find "family_time" (blocklists_fields b old)
            ≡ some (family_value (normalize_family_time b.family_time)))
      × (is_undefined b.health_check ≡ false
          → find "health_check" (blocklists_fields b old)
            ≡ some (health_value (normalize_health_check b.health_check)))
      × ((k : String) → IsOther k → find k (blocklists_fields b old) ≡ find k (spread old))
unfolding blocklists_fields
blocklists_fields-find b old = (
  simp (find-put_sent, find-put),
  simp (find-put_sent, find-put),
  simp (find-put_sent, find-put),
  simp (find-put_sent, find-put),
  λ h. simp (find-put_sent, find-put, h),
  λ h. simp (find-put_sent, find-put, h),
  λ h. simp (find-put_sent, find-put, h),
  λ h. simp (find-put_sent, find-put, h),
  λ h. simp (find-put_sent, find-put, h),
  λ h. simp (find-put_sent, find-put, h),
  λ k (r, s, a, d, p, f, c). simp (find-put_sent, find-put, r, s, a, d, p, f, c),
)

is_some-none : {A : Type 0} (o : Option A) → not (is_some o) ≡ true → o ≡ none
is_some-none none h = refl
is_some-none (some x) h = cc

all_four :
    (a b c d : Bool) → (a && b && c && d) ≡ true → (a ≡ true) × (b ≡ true) × (c ≡ true) × (d ≡ true)
all_four a b c d h = ground arith

has_source-filled : (ss : List Source) → has_source ss ≡ true → ss ≢ []
has_source-filled [] h e = cc
has_source-filled (s ∷ ss) h e = cc

-- The parts of a body that passes the tests.
pub is_blocklists_body_parts :
    (b : BlocklistsBody)
    → is_blocklists_body b ≡ true
    → (b.sources ≢ [])
      × (validate_scheduled_pause b.scheduled_pause ≡ none)
      × (validate_family_time b.family_time ≡ none)
      × (validate_health_check b.health_check ≡ none)
unfolding is_blocklists_body
is_blocklists_body_parts b h =
    let (s, p, f, c) =
      all_four (has_source b.sources) (not (is_some (validate_scheduled_pause b.scheduled_pause)))
        (not (is_some (validate_family_time b.family_time)))
        (not (is_some (validate_health_check b.health_check))) h in
    (has_source-filled b.sources s, is_some-none _ p, is_some-none _ f, is_some-none _ c)

module _ (number_text : Number → Text) (number_of : Value → Option Number) where
  abbrev pub sent_sources : Value → List Source
  sent_sources body =
      normalize_sources
        (map (read_source number_text number_of) (list_of (items_of (prop "sources" body))))

  abbrev pub sent_domains : String → Value → List Text
  sent_domains key body =
      normalize_domains (map (λ v. text_or number_text v "") (list_of (items_of (prop key body))))

  -- A body that can be saved: a source is left once the sources are normalised, and the windows and the
  -- health check are valid.
  abbrev pub IsAccepted : Value → Type 0
  IsAccepted body =
      (sent_sources body ≢ [])
      × (validate_scheduled_pause (read_pause number_text number_of (prop "scheduled_pause" body))
          ≡ none)
      × (validate_family_time (read_family number_text number_of (prop "family_time" body)) ≡ none)
      × (validate_health_check (prop "health_check" body) ≡ none)

  -- What is under a key that a body may leave out: the old entry, or what is sent, normalised.
  abbrev pub IsKeptOr : String → Value → Value → Fields → Fields → Type 0
  IsKeptOr key sent new before after =
      (is_undefined sent ≡ true → find key after ≡ find key before)
      × (is_undefined sent ≡ false → find key after ≡ some new)

  -- The new settings: the lists of the body, normalised, and the refresh interval, "6h" where none is sent;
  -- the two windows and the health check, if sent; and every other entry as before.
  abbrev pub HasSettings : Value → Value → Fields → Type 0
  HasSettings body old t =
      (find "sources" t ≡ some (arr (items (map source_value (sent_sources body)))))
      × (find "allowlist" t ≡ some (texts_value (sent_domains "allowlist" body)))
      × (find "denylist" t ≡ some (texts_value (sent_domains "denylist" body)))
      × (find "refresh_interval" t
          ≡ some (str (trim (text_or number_text (prop "refreshInterval" body) "6h"))))
      × IsKeptOr "scheduled_pause" (prop "scheduled_pause" body)
          (pause_value (
            normalize_scheduled_pause
              (read_pause number_text number_of (prop "scheduled_pause" body))))
          (spread old) t
      × IsKeptOr "family_time" (prop "family_time" body)
          (family_value
            (normalize_family_time (read_family number_text number_of (prop "family_time" body))))
          (spread old) t
      × IsKeptOr "health_check" (prop "health_check" body)
          (health_value (normalize_health_check (prop "health_check" body))) (spread old) t
      × ((k : String) → IsOther k → find k t ≡ find k (spread old))

  accepted :
      (body : Value)
      → is_blocklists_body (read_blocklists_body number_text number_of body) ≡ true
      → IsAccepted body
  unfolding read_blocklists_body
  accepted body h = is_blocklists_body_parts (read_blocklists_body number_text number_of body) h

  has_settings :
      (body old : Value)
      → HasSettings body old
          (blocklists_fields (read_blocklists_body number_text number_of body) old)
  unfolding read_blocklists_body
  has_settings body old =
      let (s, a, d, r, p, f, c, p', f', c', o) =
        blocklists_fields-find (read_blocklists_body number_text number_of body) old in
      (
        s,
        a,
        d,
        r,
        (λ h. p (rw h refl), λ h. p' (rw h refl)),
        (λ h. f (rw h refl), λ h. f' (rw h refl)),
        (c, c'),
        o,
      )

module _ {Content : Type 0} (yaml : Yaml Content) (ctx : Ctx) where
  open ctx use {default_config_path, config_path}

  -- The answer and the configuration file after a save of the body over the override `o`, or after a refusal.
  abbrev pub SavesBlocklists :
      (Number → Text)
      → (Value → Option Number)
      → Value
      → Fields
      → Disk Content
      → Reply Value × Disk Content
      → Type 0
  SavesBlocklists number_text number_of body o disk (answer, after) =
      ((t : Fields) × (answer ≡ ok (saved_reply (field "blocklists" (obj t) end)))
        × (after config_path
            ≡ some (yaml.stringify (remove_password_fields (obj (put "blocklists" (obj t) o)))))
        × HasSettings number_text number_of body (prop "blocklists" (obj o)) t
        × IsAccepted number_text number_of body
        × (is_replica (or_empty (read_merged_config yaml default_config_path config_path disk))
            ≡ false))
      ⊎ ((status : ℕ) × (answer ≡ refused status) × (after config_path ≡ disk config_path))

  -- Over an override that is an object, `PUT /api/blocklists` either saves: it answers with the new settings,
  -- the file holds the override with these under `blocklists`, without its secrets, they have the
  -- sources, the two lists and the refresh interval of the body, normalised, a window or a health check
  -- exactly as the body has one, and every other entry as it was, and this is done only on no replica and
  -- for a body with a source left, valid windows and a valid health check; or it answers with a status,
  -- and the file is as it was.
  pub put_blocklists_saved :
      (number_text : Number → Text) (number_of : Value → Option Number) (body : Value)
      (suffix : Text) (f : Faults Content) (disk : Disk Content) (o : Fields)
      → read_override_config yaml config_path disk ≡ some (obj o)
      → SavesBlocklists number_text number_of body o disk
          (put_blocklists yaml ctx number_text number_of body suffix f disk)
  unfolding put_blocklists
  put_blocklists_saved number_text number_of body suffix f disk o read =
      let b = read_blocklists_body number_text number_of body in
      let t : Fields = blocklists_fields b (prop "blocklists" (obj o)) in
      let edit = write_blocklists b in
      let r = change yaml ctx (is_blocklists_body b) edit suffix f disk in
      elim (change-ChangesOrRefuses yaml ctx (is_blocklists_body b) edit suffix f disk) [
        | inl (w, reply, e, valid, primary, said, holds) ↦
            let (_, _, same, file) =
              saved_edit yaml ctx (is_blocklists_body b) edit disk (obj o)
                (obj (put "blocklists" (obj t) o)) (saved_reply (field "blocklists" (obj t) end)) r
                reply (change-ChangesOrRefuses yaml ctx (is_blocklists_body b) edit suffix f disk)
                said read (unfold write_blocklists in refl) in
            inl (
              t,
              said ∙ ap ok same,
              file,
              has_settings number_text number_of body (prop "blocklists" (obj o)),
              accepted number_text number_of body valid,
              primary,
            )
        | inr refusal ↦ inr refusal
      ]
