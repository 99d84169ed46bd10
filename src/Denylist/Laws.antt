-- ===== src/Denylist/Laws.antt =====
-- When a query name is blocked, by which entries, and what that means for its subdomains.
use beyond_ads_dns.Prelude.{
  ◌≡◌, ◌≢◌, ◌↔◌, ◌⊎◌, inl, inr, refl, sym, ap, ◌∙◌, Bool, true, false, not, ◌&&◌, Option, none,
  some, List, [], ◌∷◌, ◌++◌, ◌=?◌, nat-Eq, list-Eq, list_eq_iff, if◌then◌else◌, arith, Bool-cases,
}
use beyond_ads_dns.Js.Text.{Text, is_empty}
use beyond_ads_dns.Normalize.Unique.{includes}
use beyond_ads_dns.Denylist.{
  RegExp, is_regex_entry, pattern_of, test_pattern, normalize_domain_for_blocklist, entry_matches,
  any_entry, matching_entries, is_domain_blocked_by_denylist, get_denylist_entries_blocking,
}
use beyond_ads_dns.Denylist.Suffix.{IsSelfOrParent, IsSelfOrParent-after_dot, match_suffix_iff}

module _ (regexp : RegExp) where
  -- A name that is not empty meets an entry: by the expression between the slashes, or as the entry
  -- itself or a subdomain of it.
  abbrev pub Blocks : Text → Text → Type 0
  Blocks entry name =
      ((is_regex_entry entry ≡ true)
        × (name ≢ [])
        × ((test : Text → Bool) × (regexp (pattern_of entry) ≡ some test) × (test name ≡ true)))
      ⊎ ((is_regex_entry entry ≡ false) × (entry ≢ []) × IsSelfOrParent entry name)

  parent-ne-nil : (entry name : Text) → entry ≢ [] → IsSelfOrParent entry name → name ≢ []
  parent-ne-nil entry name filled (inl e) z = filled (sym e ∙ z)
  parent-ne-nil entry name filled (inr ([], e)) z = cc
  parent-ne-nil entry name filled (inr ((c ∷ p), e)) z = cc

  test_pattern-true :
      (o : Option (Text → Bool)) (s : Text)
      → test_pattern o s ≡ true
      → (test : Text → Bool) × (o ≡ some test) × (test s ≡ true)
  test_pattern-true none s h = cc
  test_pattern-true (some test) s h = (test, refl, h)

  entry_matches_iff :
      (entry name : Text) → name ≢ [] → (entry_matches regexp name entry ≡ true) ↔ Blocks entry name
  unfolding entry_matches
  entry_matches_iff entry name filled = elim (Bool-cases (is_regex_entry entry)) [
    | inl expr ↦ (
      λ h. inl (expr, filled, test_pattern-true (regexp (pattern_of entry)) name (rw expr at h)),
      λ b. elim b [
        | inl (_, _, (test, found, passed)) ↦ rw expr (ap (λ o. test_pattern o name) found ∙ passed)
        | inr (plain, _, _) ↦ cc (expr, plain)
      ],
    )
    | inr plain ↦ (
      λ h.
          let (full, below) = (match_suffix_iff entry name).0 (rw plain at h) in
          inr (plain, full, below),
      λ b. elim b [
        | inl (expr, _, _) ↦ cc (expr, plain)
        | inr (_, full, below) ↦ rw plain ((match_suffix_iff entry name).1 (full, below))
      ],
    )
  ]

  any_entry-eq-true :
      (name : Text) (list : List Text)
      → any_entry regexp name list ≡ true
      → (entry : Text) × (includes entry list ≡ true) × (entry_matches regexp name entry ≡ true)
  unfolding any_entry includes
  any_entry-eq-true name [] h = cc
  any_entry-eq-true name (e ∷ list) h = elim (Bool-cases (entry_matches regexp name e)) [
    | inl here ↦ (e, rw ((list_eq_iff e e).1 refl) refl, here)
    | inr later ↦
        let (entry, listed, found) = any_entry-eq-true name list (rw later at h) in
        (entry, ground arith, found)
  ]

  any_entry_of_listed :
      (name entry : Text) (list : List Text)
      → includes entry list ≡ true
      → entry_matches regexp name entry ≡ true
      → any_entry regexp name list ≡ true
  unfolding any_entry includes
  any_entry_of_listed name entry [] l h = cc
  any_entry_of_listed name entry (e ∷ list) l h =
      ground (arith, list_eq_iff e entry, any_entry_of_listed name entry list)

  Blocks-ne-nil : (entry name : Text) → Blocks entry name → name ≢ []
  Blocks-ne-nil entry name (inl (_, filled, _)) = filled
  Blocks-ne-nil entry name (inr (_, full, below)) = parent-ne-nil entry name full below

  -- A query name is blocked exactly when some entry of the list blocks its normalised form: a valid
  -- expression that the form passes, or a plain entry that is the form or a domain above it.
  pub is_domain_blocked_by_denylist_iff :
      (qname : Text) (list : List Text)
      → (is_domain_blocked_by_denylist regexp qname list ≡ true) ↔ (
          (entry : Text) × (includes entry list ≡ true)
          × Blocks entry (normalize_domain_for_blocklist qname))
  unfolding is_domain_blocked_by_denylist
  is_domain_blocked_by_denylist_iff qname list = decide (normalize_domain_for_blocklist qname)
    where
      decide :
          (name : Text)
          → ((if is_empty name then false else any_entry regexp name list) ≡ true)
            ↔ ((entry : Text) × (includes entry list ≡ true) × Blocks entry name)
      decide [] = (λ h. cc, λ (entry, listed, b). absurd (Blocks-ne-nil entry [] b refl))
      decide (c ∷ s) = (
        λ h.
            let (entry, listed, found) = any_entry-eq-true (c ∷ s) list h in
            (entry, listed, (entry_matches_iff entry (c ∷ s) (λ e. cc)).0 found),
        λ (entry, listed, b).
            any_entry_of_listed (c ∷ s) entry list listed
              ((entry_matches_iff entry (c ∷ s) (λ e. cc)).1 b),
      )

  matching_entries-any :
      (name : Text) (list : List Text)
      → is_empty (matching_entries regexp name list) ≡ not (any_entry regexp name list)
  unfolding matching_entries any_entry
  matching_entries-any name [] = refl
  matching_entries-any name (e ∷ list) = ground (arith, matching_entries-any name list)

  matching_entries-cons :
      (name e : Text) (list : List Text)
      → matching_entries regexp name (e ∷ list) ≡ (
          if entry_matches regexp name e
          then e ∷ matching_entries regexp name list
          else matching_entries regexp name list)
  unfolding matching_entries
  matching_entries-cons name e list = refl

  kept_or_dropped :
      (entry e : Text) (b c : Bool) (list rest : List Text)
      → (e ≡ entry → b ≡ c)
      → includes entry rest ≡ (includes entry list && c)
      → includes entry (if b then e ∷ rest else rest) ≡ (includes entry (e ∷ list) && c)
  unfolding includes
  kept_or_dropped entry e b c list rest h ih = elim (Bool-cases (e =? entry)) [
    | inl same ↦ rw (h ((list_eq_iff e entry).0 same)) (ground arith)
    | inr other ↦ ground arith
  ]

  includes-matching_entries :
      (name entry : Text) (list : List Text)
      → includes entry (matching_entries regexp name list)
        ≡ (includes entry list && entry_matches regexp name entry)
  includes-matching_entries name entry [] = unfold matching_entries includes in refl
  includes-matching_entries name entry (e ∷ list) =
      ap (includes entry) (matching_entries-cons name e list)
      ∙ kept_or_dropped entry e (entry_matches regexp name e) (entry_matches regexp name entry) list
          (matching_entries regexp name list) (λ p. ap (entry_matches regexp name) p)
          (includes-matching_entries name entry list)

  -- The list of blocking entries is empty exactly when the name is not blocked, and it holds exactly
  -- the entries of the list that alone would block the name.
  pub includes-get_denylist_entries_blocking :
      (qname : Text) (list : List Text)
      → (is_empty (get_denylist_entries_blocking regexp qname list)
          ≡ not (is_domain_blocked_by_denylist regexp qname list))
        × ((entry : Text)
            → includes entry (get_denylist_entries_blocking regexp qname list)
              ≡ (includes entry list && is_domain_blocked_by_denylist regexp qname (entry ∷ [])))
  unfolding get_denylist_entries_blocking is_domain_blocked_by_denylist any_entry includes
  includes-get_denylist_entries_blocking qname list = split (normalize_domain_for_blocklist qname)
    where
      split :
          (name : Text)
          → (is_empty (if is_empty name then [] else matching_entries regexp name list)
              ≡ not (if is_empty name then false else any_entry regexp name list))
            × ((entry : Text)
                → includes entry (if is_empty name then [] else matching_entries regexp name list)
                  ≡ (includes entry list
                      && (if is_empty name then false else any_entry regexp name (entry ∷ []))))
      split [] = (refl, λ entry. ground arith)
      split (c ∷ s) = (
        matching_entries-any (c ∷ s) list,
        λ entry. ground (arith, includes-matching_entries (c ∷ s) entry list),
      )

  -- With a list of plain entries, whoever blocks a domain blocks its subdomains.
  pub is_domain_blocked_by_denylist-subdomain :
      (qname sub labels : Text) (list : List Text)
      → ((entry : Text) → includes entry list ≡ true → is_regex_entry entry ≡ false)
      → normalize_domain_for_blocklist sub ≡ labels ++ (b'.' ∷ normalize_domain_for_blocklist qname)
      → is_domain_blocked_by_denylist regexp qname list ≡ true
      → is_domain_blocked_by_denylist regexp sub list ≡ true
  is_domain_blocked_by_denylist-subdomain qname sub labels list plain e h =
      let (entry, listed, b) = (is_domain_blocked_by_denylist_iff qname list).0 h in
      (is_domain_blocked_by_denylist_iff sub list).1
        (entry, listed, below entry (plain entry listed) b)
    where
      below :
          (entry : Text)
          → is_regex_entry entry ≡ false
          → Blocks entry (normalize_domain_for_blocklist qname)
          → Blocks entry (normalize_domain_for_blocklist sub)
      below entry p (inl (expr, _, _)) = cc (expr, p)
      below entry p (inr (_, full, under)) =
          inr (p, full, IsSelfOrParent-after_dot entry _ labels _ e under)
