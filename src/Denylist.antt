-- ===== src/Denylist.antt =====
-- web/client/src/utils/blocklist.js: which entries of a deny or allow list a query name meets.
pub mod Suffix
pub mod Laws
use beyond_ads_dns.Prelude.{
  ℕ, zero, suc, Bool, true, false, not, ◌&&◌, Option, none, some, List, [], ◌∷◌, ◌=?◌, nat-Eq,
  list-Eq, nat_eq, if◌then◌else◌, length,
}
use beyond_ads_dns.Js.Text.{Text, is_empty, trim, lower}

-- `s.replace(/\.$/, "")`
unfoldable pub strip_dot : Text → Text
strip_dot [] = []
strip_dot (c ∷ s) = let r = strip_dot s in if nat_eq c b'.' && is_empty s then [] else c ∷ r

-- A query name that is no text is the empty text here.
unfoldable pub normalize_domain_for_blocklist : Text → Text
unfolding strip_dot
normalize_domain_for_blocklist qname = strip_dot (lower (trim qname))

-- What follows the first dot; `none` where `indexOf(".")` is -1.
unfoldable pub after_dot : Text → Option Text
after_dot [] = none
after_dot (c ∷ s) = let r = after_dot s in if nat_eq c b'.' then some s else r

-- `if (idx === -1) break;`, else the next round.
abbrev pub continue_with : Option Text → (Text → Bool) → Bool
continue_with none go = false
continue_with (some r) go = go r

-- The `while (remaining)` loop. Each round drops a label with its dot, so the text's length is
-- enough fuel.
unfoldable pub match_labels : ℕ → Text → Text → Bool
unfolding after_dot
match_labels zero entry remaining = false
match_labels (suc n) entry [] = false
match_labels (suc n) entry (c ∷ s) =
    let more = continue_with (after_dot (c ∷ s)) (λ r. match_labels n entry r) in
    if entry =? (c ∷ s) then true else more

unfoldable pub match_suffix : Text → Text → Bool
unfolding match_labels
match_suffix entry normalized = match_labels (length normalized) entry normalized

unfoldable pub ends_with_slash : Text → Bool
ends_with_slash [] = false
ends_with_slash (c ∷ s) = let r = ends_with_slash s in if is_empty s then nat_eq c b'/' else r

unfoldable pub is_regex_entry : Text → Bool
unfolding ends_with_slash
is_regex_entry (b ∷ (c ∷ (d ∷ s))) = nat_eq b b'/' && ends_with_slash (b ∷ (c ∷ (d ∷ s)))
is_regex_entry _ = false

-- All but the last unit.
unfoldable pub but_last : Text → Text
but_last [] = []
but_last (c ∷ s) = let r = but_last s in if is_empty s then [] else c ∷ r

-- `entry.slice(1, -1)`
unfoldable pub pattern_of : Text → Text
unfolding but_last
pattern_of [] = []
pattern_of (c ∷ s) = but_last s

-- `new RegExp(pattern)`: `none` where the constructor throws, else what `test` answers.
abbrev pub RegExp : Type 0
RegExp = Text → Option (Text → Bool)

abbrev test_pattern : Option (Text → Bool) → Text → Bool
test_pattern none s = false
test_pattern (some test) s = test s

module _ (regexp : RegExp) where
  -- The body of the loop over the entries.
  unfoldable pub entry_matches : Text → Text → Bool
  unfolding is_regex_entry pattern_of match_suffix
  entry_matches normalized entry =
      if is_regex_entry entry
      then test_pattern (regexp (pattern_of entry)) normalized
      else match_suffix entry normalized

  unfoldable pub any_entry : Text → List Text → Bool
  unfolding entry_matches
  any_entry normalized [] = false
  any_entry normalized (entry ∷ list) =
      let rest = any_entry normalized list in if entry_matches normalized entry then true else rest

  unfoldable pub matching_entries : Text → List Text → List Text
  unfolding entry_matches
  matching_entries normalized [] = []
  matching_entries normalized (entry ∷ list) =
      let rest = matching_entries normalized list in
      if entry_matches normalized entry then entry ∷ rest else rest

  unfoldable pub is_domain_blocked_by_denylist : Text → List Text → Bool
  unfolding normalize_domain_for_blocklist any_entry
  is_domain_blocked_by_denylist qname list =
      let normalized = normalize_domain_for_blocklist qname in
      if is_empty normalized then false else any_entry normalized list

  unfoldable pub get_denylist_entries_blocking : Text → List Text → List Text
  unfolding normalize_domain_for_blocklist matching_entries
  get_denylist_entries_blocking qname list =
      let normalized = normalize_domain_for_blocklist qname in
      if is_empty normalized then [] else matching_entries normalized list

  unfoldable pub is_domain_in_allowlist : Text → List Text → Bool
  unfolding normalize_domain_for_blocklist any_entry
  is_domain_in_allowlist qname list =
      let normalized = normalize_domain_for_blocklist qname in
      if is_empty normalized then false else any_entry normalized list

  unfoldable pub every_domain_blocked : List Text → List Text → Bool
  unfolding is_domain_blocked_by_denylist
  every_domain_blocked [] list = true
  every_domain_blocked (d ∷ ds) list =
      is_domain_blocked_by_denylist d list && every_domain_blocked ds list

  unfoldable pub is_service_blocked_by_denylist : List Text → List Text → Bool
  unfolding every_domain_blocked
  is_service_blocked_by_denylist domains list =
      if is_empty list
      then false
      else if is_empty domains
      then false
      else every_domain_blocked domains list
