-- ===== src/Config/Options.antt =====
-- `parseExclusionList`, `normalizeErrorLogLevel`, `validateHealthCheck` and `normalizeHealthCheck` of
-- web/server/src/utils/config.js.
pub mod Laws
use beyond_ads_dns.Prelude.{
  Bool, true, false, not, ◌||◌, Option, none, some, List, [], ◌∷◌, ◌=?◌, nat-Eq, list-Eq, nat_eq,
  if◌then◌else◌,
}
use beyond_ads_dns.Js.Text.{Text, text, is_empty, trim, lower}
use beyond_ads_dns.Js.Value.{Value, undefined, bool, obj, Fields, end, field, strict_equal}
use beyond_ads_dns.Js.Path.{prop, is_undefined}
use beyond_ads_dns.Normalize.Unique.{includes}

-- An array of texts, a text, or a value of another type.
pub data ExclusionInput : Type 0 where
  array : List Text → ExclusionInput
  one_text : Text → ExclusionInput
  neither : ExclusionInput

-- A text goes before the first of the texts.
abbrev push_unit : List Text → (Text → Text) → List Text
push_unit [] f = f [] ∷ []
push_unit (l ∷ ls) f = f l ∷ ls

-- A carriage return before a line feed is part of the separator.
abbrev is_line_feed_next : Text → Bool
is_line_feed_next [] = false
is_line_feed_next (c ∷ s) = nat_eq c 10

-- `value.split(/\r?\n/)`
unfoldable pub split_lines : Text → List Text
split_lines [] = [] ∷ []
split_lines (c ∷ s) =
    let rest = split_lines s in
    if nat_eq c 10
    then [] ∷ rest
    else if nat_eq c 13
    then if is_line_feed_next s then rest else push_unit rest (λ l. c ∷ l)
    else push_unit rest (λ l. c ∷ l)

-- `.map((s) => s.trim()).filter(Boolean)`
unfoldable pub trim_all : List Text → List Text
trim_all [] = []
trim_all (s ∷ ss) = let rest = trim_all ss in if is_empty (trim s) then rest else trim s ∷ rest

unfoldable pub parse_exclusion_list : ExclusionInput → List Text
unfolding split_lines trim_all
parse_exclusion_list (array ss) = trim_all ss
parse_exclusion_list (one_text s) = trim_all (split_lines s)
parse_exclusion_list neither = []

abbrev pub levels : List Text
levels = text "error" ∷ (text "warning" ∷ (text "info" ∷ (text "debug" ∷ [])))

-- An absent level is the empty text.
unfoldable pub normalize_error_log_level : Text → Text
unfolding includes
normalize_error_log_level level =
    let s = trim (lower level) in
    let normalized = if s =? text "warn" then text "warning" else s in
    if includes normalized levels then normalized else text "warning"

pub data HealthCheckError : Type 0 where
  enabled_not_boolean fail_on_any_not_boolean : HealthCheckError

-- `typeof v !== "boolean" && v !== undefined` is the test for an error.
abbrev is_flag : Value → Bool
is_flag undefined = true
is_flag (bool b) = true
is_flag v = false

-- `input === null || input === undefined`
abbrev is_absent : Value → Bool
is_absent undefined = true
is_absent Value.null = true
is_absent v = false

unfoldable pub validate_health_check : Value → Option HealthCheckError
validate_health_check input =
    if is_absent input
    then none
    else if not (is_flag (prop "enabled" input))
    then some enabled_not_boolean
    else if not (is_flag (prop "fail_on_any" input))
    then some fail_on_any_not_boolean
    else none

unfoldable pub normalize_health_check : Value → Option Value
unfolding strict_equal
normalize_health_check input =
    if is_absent input
    then none
    else some (
        obj (
          field "enabled" (bool (strict_equal (prop "enabled" input) (bool true))) (
            field "fail_on_any" (bool (not (strict_equal (prop "fail_on_any" input) (bool false))))
              end)))
