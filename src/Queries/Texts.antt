-- ===== src/Queries/Texts.antt =====
-- The query texts of `GET /api/queries/recent` and `GET /api/queries/export` in
-- web/server/src/routes/queries.js, laid out as in the source. The names of the database and of the table
-- come from the server's configuration.
use beyond_ads_dns.Prelude.{String, Option, List, [], ◌∷◌, ◌++◌}
use beyond_ads_dns.Js.Text.{Text, text}
use beyond_ads_dns.Js.Value.{Number, Value}
use beyond_ads_dns.Js.Path.{prop}
use beyond_ads_dns.Queries.{clauses, normalize_sort_by, normalize_sort_dir, build_query_filters}

-- A line of the template, and its end.
abbrev line : Text → Text
line t = 10 ∷ text "      " ++ t

abbrev last_line : Text
last_line = 10 ∷ text "    "

-- `clauses.join(" AND ")` after a first clause.
unfoldable pub and_more : List Text → Text
and_more [] = []
and_more (c ∷ cs) = text " AND " ++ (c ++ and_more cs)

unfoldable pub where_clause : List Text → Text
unfolding and_more
where_clause [] = []
where_clause (c ∷ cs) = text "WHERE " ++ (c ++ and_more cs)

abbrev columns : Text
columns =
    text
      "SELECT ts, client_ip, client_name, protocol, qname, qtype, qclass, outcome, rcode, duration_ms"

module _ (database table : Text) where
  abbrev from_table : Text
  from_table = text "FROM " ++ (database ++ (text "." ++ table))

  unfoldable pub base_query : List Text → Text
  unfolding where_clause
  base_query cs = line from_table ++ (line (where_clause cs) ++ last_line)

  abbrev order_by : Text → Text → Text
  order_by by dir = text "ORDER BY " ++ (by ++ (text " " ++ dir))

  unfoldable pub recent_query : List Text → Text → Text → Text
  unfolding base_query
  recent_query cs by dir =
      line columns
      ++ (line (base_query cs)
          ++ (line (order_by by dir)
              ++ (line (text "LIMIT {limit: UInt32}")
                  ++ (line (text "OFFSET {offset: UInt32}") ++ last_line))))

  unfoldable pub count_query : List Text → Text
  unfolding base_query
  count_query cs = line (text "SELECT count() as total") ++ (line (base_query cs) ++ last_line)

  unfoldable pub export_query : List Text → Text → Text → Text
  unfolding where_clause
  export_query cs by dir =
      line columns
      ++ (line from_table
          ++ (line (where_clause cs)
              ++ (line (order_by by dir) ++ (line (text "LIMIT {limit: UInt32}") ++ last_line))))

  -- The texts that a request has the server send: of the list, of its count and of the export.
  unfoldable pub query_texts :
      (Number → Text)
      → (Value → Option Number)
      → (Number → Text)
      → (Text → String)
      → Value
      → List Text
  unfolding recent_query count_query export_query build_query_filters normalize_sort_by
      normalize_sort_dir
  query_texts number_text number_of window_start name_of q =
      let cs = clauses (build_query_filters number_text number_of window_start name_of q) in
      let by = normalize_sort_by number_text (prop "sort_by" q) in
      let dir = normalize_sort_dir number_text (prop "sort_dir" q) in
      recent_query cs by dir ∷ (count_query cs ∷ (export_query cs by dir ∷ []))
