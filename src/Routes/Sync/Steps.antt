-- ===== src/Routes/Sync/Steps.antt =====
-- What the steps of a change of the synchronisation's settings keep and add.
use mathlib.Core.Option
use beyond_ads_dns.Prelude.{
  ◌≡◌, inl, inr, refl, ◌∙◌, ◌==◌, String, Bool, true, false, not, Option, some, [], arith,
  if◌then◌else◌, Bool-cases,
}
use beyond_ads_dns.Js.Text.{Text, text}
use beyond_ads_dns.Js.Value.{
  Number, Value, obj, str, Fields, put, strict_equal, is_truthy, undefined,
}
use beyond_ads_dns.Js.Path.{prop, is_undefined}
use beyond_ads_dns.Js.Path.Laws.{prop-put}
use beyond_ads_dns.Routes.Update.{or_falsy}
use beyond_ads_dns.Routes.Sync.{
  is_array, assign_if, sync_prop, set_sent, set_or_keep, with_replica, with_role, trimmed,
}

-- What the resolver needs of the settings: a primary that is enabled has a list of tokens, a replica
-- that is enabled an address, a token and an interval, though they may be empty, and settings that are
-- disabled have a role.
pub record IsComplete (sync : Value) : Type 0 where
  pub primary :
      is_truthy (prop "enabled" sync) ≡ true
      → strict_equal (prop "role" sync) (str (text "primary")) ≡ true
      → is_array (prop "tokens" sync) ≡ true
  pub replica :
      is_truthy (prop "enabled" sync) ≡ true
      → strict_equal (prop "role" sync) (str (text "replica")) ≡ true
      → (is_undefined (prop "primary_url" sync) ≡ false)
        × (is_undefined (prop "sync_token" sync) ≡ false)
        × (is_undefined (prop "sync_interval" sync) ≡ false)
  pub disabled : is_truthy (prop "enabled" sync) ≡ false → is_truthy (prop "role" sync) ≡ true

-- A value that is an object with fields of which Q holds.
abbrev pub Holds : (Fields → Type 0) → Option Value → Type 0
Holds Q o = (t : Fields) × (o ≡ some (obj t)) × Q t

pub assign_if-Holds :
    (Q R : Fields → Type 0) (b : Bool) (k : String) (v : Value) (o : Option Value)
    → ((t : Fields) → Q t → o ≡ some (obj t) → b ≡ true → R (put k v t))
    → ((t : Fields) → Q t → o ≡ some (obj t) → b ≡ false → R t)
    → Holds Q o
    → Holds R (assign_if b k v o)
unfolding Option.bind
assign_if-Holds Q R true k v o write keep (t, e, q) = (put k v t, rw e refl, write t q e refl)
assign_if-Holds Q R false k v o write keep (t, e, q) = (t, e, keep t q e refl)

abbrev pub IsEnabled : Bool → Fields → Type 0
IsEnabled b t = is_truthy (prop "enabled" (obj t)) ≡ b

abbrev pub HasRole : String → Fields → Type 0
HasRole role t = strict_equal (prop "role" (obj t)) (str (text role)) ≡ true

abbrev pub IsSent : String → Fields → Type 0
IsSent k t = is_undefined (prop k (obj t)) ≡ false

or_falsy-truthy : (v d : Value) → is_truthy d ≡ true → is_truthy (or_falsy v d) ≡ true
or_falsy-truthy v d h = ground arith

or_falsy-sent : (v d : Value) → is_undefined d ≡ false → is_undefined (or_falsy v d) ≡ false
or_falsy-sent undefined d h = h
or_falsy-sent v d h = ground arith

pub clash : {b : Bool} → b ≡ false → b ≡ true → ⊥
clash p q = cc

IsComplete-disabled :
    (t : Fields) → IsEnabled false t → is_truthy (prop "role" (obj t)) ≡ true → IsComplete (obj t)
IsComplete-disabled t off role = record {
  primary = λ h. absurd (clash off h);
  replica = λ h. absurd (clash off h);
  disabled = λ h. role;
}

-- A disabled synchronisation gets a role; one that is enabled is left alone by the last step.
pub with_role-disabled :
    (t : Fields) → IsEnabled false t → Holds (λ s. IsComplete (obj s)) (with_role (some (obj t)))
unfolding with_role
with_role-disabled t off =
    assign_if-Holds (λ s. s ≡ t) (λ s. IsComplete (obj s))
      (not (is_truthy (prop "enabled" (obj t)))) "role"
      (or_falsy (prop "role" (obj t)) (str (text "primary"))) (some (obj t))
      (λ s same e h. rw same (
        IsComplete-disabled (put "role" (or_falsy (prop "role" (obj t)) (str (text "primary"))) t)
          (rw (prop-put "role" "enabled" (or_falsy (prop "role" (obj t)) (str (text "primary"))) t)
            off)
          (rw (prop-put "role" "role" (or_falsy (prop "role" (obj t)) (str (text "primary"))) t)
            (or_falsy-truthy (prop "role" (obj t)) (str (text "primary")) refl))))
      (λ s same e h. absurd (clash h (rw off refl))) (t, refl, refl)

pub with_role-enabled :
    (o : Option Value)
    → Holds (λ s. IsEnabled true s × IsComplete (obj s)) o
    → Holds (λ s. IsComplete (obj s)) (with_role o)
unfolding with_role
with_role-enabled o (t, e, (on, h)) = (t, rw (e, on) refl, h)

-- A write leaves another property.
pub stays :
    (k j : String) (v : Value) (t : Fields)
    → (k == j) ≡ false
    → prop j (obj (put k v t)) ≡ prop j (obj t)
stays k j v t h = prop-put k j v t ∙ rw h refl

-- What the steps for a replica keep and add.
abbrev pub IsReplica : Fields → Type 0
IsReplica t = IsEnabled true t × HasRole "replica" t

module _ (number_text : Number → Text) (body : Value) where
  -- The value that `set_or_keep` writes is no `undefined`.
  kept_value :
      (k : String) (d : Text) (o : Option Value)
      → is_undefined (
          if is_undefined (prop k body)
          then or_falsy (sync_prop k o) (str d)
          else trimmed number_text (prop k body))
        ≡ false
  kept_value k d o = elim (Bool-cases (is_undefined (prop k body))) [
    | inl e ↦ rw e (or_falsy-sent (sync_prop k o) (str d) refl)
    | inr e ↦ rw e refl
  ]

  set_or_keep-Holds :
      (Q R : Fields → Type 0) (k : String) (d : Text) (o : Option Value)
      → ((t : Fields) (v : Value) → is_undefined v ≡ false → Q t → R (put k v t))
      → Holds Q o
      → Holds R (set_or_keep number_text k body d o)
  set_or_keep-Holds Q R k d o write h =
      assign_if-Holds Q R true k
        (if is_undefined (prop k body)
          then or_falsy (sync_prop k o) (str d)
          else trimmed number_text (prop k body))
        o (λ t q e b. write t _ (kept_value k d o) q) (λ t q e b. absurd (clash b refl)) h

  set_sent-Holds :
      (Q : Fields → Type 0) (k : String) (o : Option Value)
      → ((t : Fields) (v : Value) → Q t → Q (put k v t))
      → Holds Q o
      → Holds Q (set_sent number_text k body o)
  set_sent-Holds Q k o write h =
      assign_if-Holds Q Q (not (is_undefined (prop k body))) k (trimmed number_text (prop k body)) o
        (λ t q e b. write t _ q) (λ t q e b. q) h

  put-IsReplica :
      (k : String) (v : Value) (t : Fields)
      → (k == "enabled") ≡ false
      → (k == "role") ≡ false
      → IsReplica t
      → IsReplica (put k v t)
  put-IsReplica k v t e r (on, role) =
      (rw (stays k "enabled" v t e) on, rw (stays k "role" v t r) role)

  pub with_replica-IsReplica :
      (t : Fields)
      → IsReplica t
      → Holds
          (λ s.
            IsReplica s × IsSent "primary_url" s × IsSent "sync_token" s × IsSent "sync_interval" s)
          (with_replica number_text body (some (obj t)))
  unfolding with_replica
  with_replica-IsReplica t (on, role) =
      rw (on, role)
        (set_sent-Holds
          (λ s.
            IsReplica s × IsSent "primary_url" s × IsSent "sync_token" s × IsSent "sync_interval" s)
          "stats_source_url" _
          (λ s v (r, a, b, c). (
            put-IsReplica "stats_source_url" v s refl refl r,
            rw (stays "stats_source_url" "primary_url" v s refl) a,
            rw (stays "stats_source_url" "sync_token" v s refl) b,
            rw (stays "stats_source_url" "sync_interval" v s refl) c,
          ))
          (set_or_keep-Holds (λ s. IsReplica s × IsSent "primary_url" s × IsSent "sync_token" s)
            (λ s.
              IsReplica s
              × IsSent "primary_url" s
              × IsSent "sync_token" s
              × IsSent "sync_interval" s)
            "sync_interval" (text "60s") _
            (λ s v d (r, a, b). (
              put-IsReplica "sync_interval" v s refl refl r,
              rw (stays "sync_interval" "primary_url" v s refl) a,
              rw (stays "sync_interval" "sync_token" v s refl) b,
              rw (prop-put "sync_interval" "sync_interval" v s) d,
            ))
            (set_or_keep-Holds (λ s. IsReplica s × IsSent "primary_url" s)
              (λ s. IsReplica s × IsSent "primary_url" s × IsSent "sync_token" s) "sync_token" [] _
              (λ s v d (r, a). (
                put-IsReplica "sync_token" v s refl refl r,
                rw (stays "sync_token" "primary_url" v s refl) a,
                rw (prop-put "sync_token" "sync_token" v s) d,
              ))
              (set_or_keep-Holds IsReplica (λ s. IsReplica s × IsSent "primary_url" s) "primary_url"
                [] (some (obj t))
                (λ s v d r. (
                  put-IsReplica "primary_url" v s refl refl r,
                  rw (prop-put "primary_url" "primary_url" v s) d,
                ))
                (t, refl, (on, role))))))
