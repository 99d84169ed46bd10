-- ===== src/Queries.antt =====
-- The filters of the list of queries: web/server/src/services/clickhouse.js with `clampNumber` of
-- web/server/src/utils/helpers.js, and `buildQueryParams` of web/client/src/utils/queryParams.js, which sends
-- them. `Number(v)` is a parameter, `none` for NaN, and so is the start of a window of minutes, a date. The
-- parameters of a URL are an object of texts on both sides.
pub mod Laws
pub mod Texts
pub mod Safety
use beyond_ads_dns.Prelude.{
  ℕ, suc, ◌+◌, ◌*◌, ◌^◌, String, Bool, true, false, not, Option, none, some, List, [], ◌∷◌, ◌++◌,
  ◌=?◌, map, nat-Eq, list-Eq, leb, ltb, nat_eq, length, if◌then◌else◌,
}
use beyond_ads_dns.Prelude.Int.{ℤ, pos, negsuc}
use beyond_ads_dns.Js.Text.{Text, text, is_empty, trim, lower}
use beyond_ads_dns.Js.Value.{Number, Value, num, str, obj, Fields, end, put}
use beyond_ads_dns.Js.Path.{prop}
use beyond_ads_dns.Js.Convert.{text_or}
use beyond_ads_dns.Address.{split_on}
use beyond_ads_dns.Normalize.Unique.{includes}
use beyond_ads_dns.Config.Options.{trim_all}
use beyond_ads_dns.Routes.Update.{or_falsy}

abbrev pub whole : ℕ → Number
whole n = record { units = pos n; scale = 0 }

-- `Math.min(max, Math.max(min, n))`, for bounds that are natural numbers.
abbrev pub clamp_units : ℕ → ℕ → Number → ℤ → Number
clamp_units low high n (negsuc u) = whole low
clamp_units low high n (pos u) =
    if ltb u (low * 2 ^ n.scale)
    then whole low
    else if ltb (high * 2 ^ n.scale) u
    then whole high
    else n

-- `clampNumber(value, fallback, min, max)`, of `Number(value)`.
unfoldable pub clamp_number : Option Number → ℕ → ℕ → ℕ → Number
clamp_number none fallback low high = whole fallback
clamp_number (some n) fallback low high = clamp_units low high n n.units

-- `n > 0`
abbrev pub is_positive : Number → Bool
is_positive n = elim (n.units) [ pos u ↦ ltb 0 u | negsuc u ↦ false ]

abbrev pub sort_columns : List Text
sort_columns =
    text "ts"
    ∷ (text "duration_ms"
        ∷ (text "qname"
            ∷ (text "qtype"
                ∷ (text "qclass"
                    ∷ (text "outcome"
                        ∷ (text "rcode"
                            ∷ (text "client_ip"
                                ∷ (text "client_name" ∷ (text "protocol" ∷ [])))))))))

-- The conditions of the query and the values of its parameters.
pub data Filters : Type 0 where
  filters : List Text → Fields → Filters

abbrev pub clauses : Filters → List Text
clauses (filters cs ps) = cs

abbrev pub params : Filters → Fields
params (filters cs ps) = ps

unfoldable pub add : Bool → String → String → Value → Filters → Filters
unfolding put
add present clause k v f =
    if present then filters (clauses f ++ text clause ∷ []) (put k v (params f)) else f

module _ (number_text : Number → Text) where
  unfoldable pub normalize_sort_by : Value → Text
  unfolding text_or includes lower
  normalize_sort_by v =
      let raw = lower (text_or number_text v "ts") in
      if includes raw sort_columns then raw else text "ts"

  unfoldable pub normalize_sort_dir : Value → Text
  unfolding text_or lower
  normalize_sort_dir v =
      if lower (text_or number_text v "desc") =? text "asc" then text "asc" else text "desc"

  -- `outcome_${i}`, as the name of a parameter.
  abbrev pub outcome_name : ℕ → Text
  outcome_name i = text "outcome_" ++ number_text (whole i)

  abbrev pub outcome_clause : ℕ → Text
  outcome_clause i = text "outcome = {" ++ (outcome_name i ++ text ": String}")

  -- The clauses after the first, joined with " OR ".
  unfoldable pub more_outcomes : ℕ → List Text → Text
  more_outcomes i [] = []
  more_outcomes i (o ∷ os) = text " OR " ++ (outcome_clause i ++ more_outcomes (suc i) os)

module _ (number_text : Number → Text) (number_of : Value → Option Number)
    (window_start : Number → Text) (name_of : Text → String) (query : Value) where
  -- `String(query[k] || "").trim()`
  unfoldable pub asked : String → Text
  unfolding text_or trim
  asked k = trim (text_or number_text (prop k query) "")

  -- The first of two names that is given.
  unfoldable pub asked_either : String → String → Text
  unfolding text_or trim
  asked_either k j = trim (text_or number_text (or_falsy (prop k query) (prop j query)) "")

  unfoldable pub put_outcomes : ℕ → List Text → Fields → Fields
  unfolding put
  put_outcomes i [] o = o
  put_outcomes i (t ∷ ts) o =
      put_outcomes (suc i) ts (put (name_of (outcome_name number_text i)) (str t) o)

  -- One outcome, or several of which one must hold.
  unfoldable pub add_outcomes : List Text → Filters → Filters
  unfolding add put put_outcomes more_outcomes
  add_outcomes [] f = f
  add_outcomes (t ∷ []) f = add true "outcome = {outcome: String}" "outcome" (str t) f
  add_outcomes (t ∷ (u ∷ us)) f =
      filters
        (clauses f
          ++ (text "("
              ++ (outcome_clause number_text 0
                  ++ (more_outcomes number_text 1 (u ∷ us) ++ text ")")))
            ∷ [])
        (put_outcomes 0 (t ∷ (u ∷ us)) (params f))

  abbrev pub outcomes : List Text
  outcomes = trim_all (split_on b',' (asked "outcome"))

  abbrev pub add_text : Text → String → String → Filters → Filters
  add_text s clause k f = add (not (is_empty s)) clause k (str s) f

  abbrev pub since_minutes : Number
  since_minutes = clamp_number (number_of (prop "since_minutes" query)) 0 0 525600

  abbrev pub duration : String → Number
  duration k = clamp_number (number_of (prop k query)) 0 0 10000000

  unfoldable pub build_query_filters : Filters
  build_query_filters =
      add (is_positive (duration "max_duration_ms")) "duration_ms <= {max_duration: UInt32}"
        "max_duration" (num (duration "max_duration_ms"))
        (add (is_positive (duration "min_duration_ms")) "duration_ms >= {min_duration: UInt32}"
          "min_duration" (num (duration "min_duration_ms"))
          (add (is_positive since_minutes) "ts >= {since_start: DateTime}" "since_start"
            (str (window_start since_minutes))
            (add_text (asked_either "client_ip" "client")
              "(positionCaseInsensitive(client_ip, {client: String}) > 0 OR positionCaseInsensitive(client_name, {client: String}) > 0)"
              "client"
              (add_text (asked "protocol") "protocol = {protocol: String}" "protocol" (
                add_text (asked "qclass") "qclass = {qclass: String}" "qclass" (
                  add_text (asked "qtype") "qtype = {qtype: String}" "qtype" (
                    add_text (asked "rcode") "rcode = {rcode: String}" "rcode" (
                      add_outcomes (if is_empty (asked "outcome") then [] else outcomes) (
                        add_text (asked "qname")
                          "positionCaseInsensitive(qname, {qname: String}) > 0" "qname"
                          (add_text (asked_either "q" "search")
                            "(positionCaseInsensitive(qname, {search: String}) > 0 OR positionCaseInsensitive(client_ip, {search: String}) > 0 OR positionCaseInsensitive(client_name, {search: String}) > 0)"
                            "search" (filters [] end)))))))))))

-- The filters of the client, each "" where it is not set.
pub record QueryFilters : Type 0 where
  pub page : Text
  pub page_size : Text
  pub sort_by : Text
  pub sort_dir : Text
  pub search : Text
  pub qname : Text
  pub outcome : Text
  pub rcode : Text
  pub client : Text
  pub qtype : Text
  pub protocol : Text
  pub since_minutes : Text
  pub min_latency : Text
  pub max_latency : Text

abbrev pub set_filter : String → Text → Fields → Fields
set_filter k s o = if is_empty s then o else put k (str s) o

unfoldable pub build_query_params : QueryFilters → Fields
unfolding put
build_query_params f = set_filter "max_duration_ms" f.max_latency (
    set_filter "min_duration_ms" f.min_latency (
      set_filter "since_minutes" f.since_minutes (
        set_filter "protocol" f.protocol (
          set_filter "qtype" f.qtype (
            set_filter "client_ip" f.client (
              set_filter "rcode" f.rcode (
                set_filter "outcome" f.outcome (
                  set_filter "qname" f.qname (
                    set_filter "q" f.search (
                      put "sort_dir" (str f.sort_dir) (
                        put "sort_by" (str f.sort_by) (
                          put "page_size" (str f.page_size)
                            (put "page" (str f.page) end)))))))))))))
