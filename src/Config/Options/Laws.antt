-- ===== src/Config/Options/Laws.antt =====
-- Exclusion lists and log levels, read again after they were cleaned.
use beyond_ads_dns.Prelude.{
  list_eq, ◌≡◌, ◌⊎◌, inl, inr, subst, list_eq_iff, if◌then◌else◌, nat-Eq, list-Eq, refl, sym, ap,
  ◌∙◌, true, false, List, [], ◌∷◌, ◌++◌, All, arith, Bool-cases,
}
use beyond_ads_dns.Js.Text.{Text, text, is_empty, trim, trim_start, trim_end, lower}
use beyond_ads_dns.Js.Text.Laws.{trim_idempotent}
use beyond_ads_dns.Normalize.Unique.{includes}
use beyond_ads_dns.Config.Options.{
  ExclusionInput, array, one_text, neither, split_lines, trim_all, parse_exclusion_list, levels,
  normalize_error_log_level,
}

abbrev pub IsTrimmed : Text → Type 0
IsTrimmed s = (trim s ≡ s) × (is_empty s ≡ false)

trim_all-IsTrimmed : (ss : List Text) → All IsTrimmed (trim_all ss)
unfolding trim_all
trim_all-IsTrimmed [] = tt
trim_all-IsTrimmed (s ∷ ss) = elim (Bool-cases (is_empty (trim s))) [
  | inl blank ↦ rw blank (trim_all-IsTrimmed ss)
  | inr full ↦ rw full ((trim_idempotent s, full), trim_all-IsTrimmed ss)
]

trim_all_settled : (ss : List Text) → All IsTrimmed ss → trim_all ss ≡ ss
unfolding trim_all
trim_all_settled [] h = refl
trim_all_settled (s ∷ ss) ((same, full), h) = rw (same, full, trim_all_settled ss h) refl

parse_exclusion_list-IsTrimmed : (v : ExclusionInput) → All IsTrimmed (parse_exclusion_list v)
unfolding parse_exclusion_list
parse_exclusion_list-IsTrimmed (array ss) = trim_all-IsTrimmed ss
parse_exclusion_list-IsTrimmed (one_text s) = trim_all-IsTrimmed (split_lines s)
parse_exclusion_list-IsTrimmed neither = tt

-- The texts of the list, with a line feed after each.
abbrev pub as_lines : List Text → Text
as_lines [] = []
as_lines (s ∷ ss) = s ++ (10 ∷ as_lines ss)

split_lines-line :
    (s t : Text)
    → includes 10 s ≡ false
    → includes 13 s ≡ false
    → split_lines (s ++ (10 ∷ t)) ≡ s ∷ split_lines t
unfolding split_lines includes
split_lines-line [] t h k = refl
split_lines-line (c ∷ s) t h k = ground (arith, split_lines-line s t)

-- An exclusion list, whether given as an array or as a text, has no blank item and no item with blanks
-- around it; and it is the same list when it is given again as an array.
pub parse_exclusion_list_idempotent :
    (v : ExclusionInput)
    → All IsTrimmed (parse_exclusion_list v)
      × (parse_exclusion_list (array (parse_exclusion_list v)) ≡ parse_exclusion_list v)
parse_exclusion_list_idempotent v = (
  parse_exclusion_list-IsTrimmed v,
  unfold parse_exclusion_list in trim_all_settled _ (parse_exclusion_list-IsTrimmed v),
)

-- No line feed and no carriage return.
abbrev pub IsOneLine : Text → Type 0
IsOneLine s = (includes 10 s ≡ false) × (includes 13 s ≡ false)

trim_all-kept :
    (s : Text) (ss : List Text)
    → trim s ≡ s
    → is_empty s ≡ false
    → trim_all (s ∷ ss) ≡ s ∷ trim_all ss
unfolding trim_all
trim_all-kept s ss same full = rw (same, full) refl

trim_all-as_lines :
    (ss : List Text)
    → All IsTrimmed ss
    → All IsOneLine ss
    → trim_all (split_lines (as_lines ss)) ≡ ss
trim_all-as_lines [] h k = unfold trim_all split_lines trim trim_start trim_end in refl
trim_all-as_lines (s ∷ ss) ((same, full), h) ((feed, carriage), k) =
    ap trim_all (split_lines-line s (as_lines ss) feed carriage)
    ∙ trim_all-kept s (split_lines (as_lines ss)) same full
    ∙ ap (λ r. s ∷ r) (trim_all-as_lines ss h k)

-- The items of an exclusion list, one on each line of a text, are read back from it; no item is blank,
-- has blanks around it, or holds a line feed or a carriage return.
pub parse_exclusion_list-as_lines :
    (ss : List Text)
    → All IsTrimmed ss
    → All IsOneLine ss
    → parse_exclusion_list (one_text (as_lines ss)) ≡ ss
unfolding parse_exclusion_list
parse_exclusion_list-as_lines ss h k = trim_all-as_lines ss h k

level_cases :
    (n : Text)
    → includes n levels ≡ true
    → (n ≡ text "error") ⊎ (n ≡ text "warning") ⊎ (n ≡ text "info") ⊎ (n ≡ text "debug")
unfolding includes
level_cases n h = ground (
  arith,
  list_eq_iff (text "error") n,
  list_eq_iff (text "warning") n,
  list_eq_iff (text "info") n,
  list_eq_iff (text "debug") n,
)

level_settled : (n : Text) → includes n levels ≡ true → normalize_error_log_level n ≡ n
unfolding normalize_error_log_level list_eq trim lower
level_settled n h = elim (level_cases n h) [
  | inl e ↦ subst (λ t. normalize_error_log_level t ≡ t) (sym e) refl
  | inr (inl e) ↦ subst (λ t. normalize_error_log_level t ≡ t) (sym e) refl
  | inr (inr (inl e)) ↦ subst (λ t. normalize_error_log_level t ≡ t) (sym e) refl
  | inr (inr (inr e)) ↦ subst (λ t. normalize_error_log_level t ≡ t) (sym e) refl
]

chosen_level : (n : Text) → includes (if includes n levels then n else text "warning") levels ≡ true
unfolding list_eq
chosen_level n = elim (Bool-cases (includes n levels)) [
  | inl known ↦ rw known known
  | inr unknown ↦ rw unknown (unfold includes in refl)
]

normalize_error_log_level-known :
    (level : Text) → includes (normalize_error_log_level level) levels ≡ true
unfolding normalize_error_log_level
normalize_error_log_level-known level = chosen_level _

-- A normalised level is one of the four, and normalising it again changes nothing.
pub normalize_error_log_level_idempotent :
    (level : Text)
    → (includes (normalize_error_log_level level) levels ≡ true)
      × (normalize_error_log_level (normalize_error_log_level level)
          ≡ normalize_error_log_level level)
normalize_error_log_level_idempotent level =
    (normalize_error_log_level-known level, level_settled _ (normalize_error_log_level-known level))
