-- ===== src/Collect/Tables.antt =====
-- The reads of internal/cluster/collect.go that list tables: key-value pairs, fingerprints, tables without
-- a primary key or on another engine, their size, and the cascading keys.
use Prim.Native.String.{slice}
use galera_doctor.Prelude.{
  ℕ, zero, suc, String, ◌||◌, Option, none, some, List, [], ◌∷◌, ◌++◌, if◌then◌else◌, ◌==◌, ◌<>◌,
  map,
}
use galera_doctor.Prelude.Int.{ℤ, pos}
use galera_doctor.Go.Text.{to_lower, join, fmt_ℤ}
use galera_doctor.Go.Sort.{sort_strings}
use galera_doctor.Go.Map.{Map, put, get_or}
use galera_doctor.Go.Float.{Float}
use galera_doctor.Config.Expand.{Result, done, fail}
use galera_doctor.Collect.Session.{
  Cell, Rows, Server, Session, give, lift, then_ask, query, read_rows, scan_all, texts,
}

abbrev pub system_schemas : List String
system_schemas = "mysql" ∷ "information_schema" ∷ "performance_schema" ∷ "sys" ∷ []

abbrev pub replicated_engines : List String
replicated_engines = "InnoDB" ∷ []

-- n question marks between commas
unfoldable pub placeholders : ℕ → String
placeholders zero = ""
placeholders (suc zero) = "?"
placeholders (suc (suc n)) = "?," <> placeholders (suc n)

-- v.String of a NullString
unfoldable pub null_string : Cell → String
null_string none = ""
null_string (some v) = v

-- `scan_error` is the driver's text for a cell that has another type
module _ (scan_error : String) where
  scan_pair : List Cell → Result (String × String)
  unfolding null_string
  scan_pair (k ∷ v ∷ []) = done (null_string k, null_string v)
  scan_pair _ = fail scan_error

  lower_keys : Map String → List (String × String) → Map String
  unfolding to_lower put
  lower_keys out [] = out
  lower_keys out ((k, v) ∷ rest) = lower_keys (put (to_lower k) v out) rest

  -- keyValue: the map, and the error that ended the rows; a row that cannot be scanned leaves no map
  unfoldable pub key_value : Server → String → Session (Map String × String)
  unfolding scan_all scan_pair lower_keys
  key_value server q = then_ask (query server q []) (λ r.
      then_ask (lift (scan_all scan_pair r.rows)) (λ pairs. give (lower_keys [] pairs, r.end)))

-- `sha256` is the hexadecimal digest of a text, and `parse_int` is what Scan reads an int with
module _ (scan_error : String) (sha256 : String → String) (parse_int : String → Option ℤ) where
  hashed_text : List String → String
  hashed_text [] = ""
  hashed_text (r ∷ rs) = r <> "\n" <> hashed_text rs

  -- Fingerprint of internal/cluster/cluster.go
  unfoldable pub fingerprint : List String → String
  unfolding sort_strings hashed_text
  fingerprint rows = slice (sha256 (hashed_text (sort_strings rows))) 0 16

  -- ColumnRow of internal/cluster/cluster.go
  unfoldable pub column_row : String → ℤ → String → String → String → String → String
  unfolding fmt_ℤ
  column_row column ordinal col_type nullable key def =
      column
      <> "|"
      <> fmt_ℤ ordinal
      <> "|"
      <> col_type
      <> "|"
      <> nullable
      <> "|"
      <> key
      <> "|"
      <> def

  -- a table's name, and its column's definition
  scan_column : List String → Result (String × String)
  unfolding column_row
  scan_column (table ∷ column ∷ ordinal ∷ col_type ∷ nullable ∷ key ∷ def ∷ []) =
      elim (parse_int ordinal) [
        | none ↦ fail scan_error
        | some n ↦ done (table, column_row column n col_type nullable key def)
      ]
  scan_column _ = fail scan_error

  scan_sys_column : List Cell → Result (String × String)
  unfolding texts scan_column
  scan_sys_column cells = elim (texts cells) [ none ↦ fail scan_error | some vs ↦ scan_column vs ]

  qualified : List String → List String
  qualified (schema ∷ table ∷ vs) = (schema <> "." <> table) ∷ vs
  qualified vs = []

  scan_app_column : List Cell → Result (String × String)
  unfolding texts scan_column qualified
  scan_app_column cells = elim (texts cells) [
    | none ↦ fail scan_error
    | some vs ↦ scan_column (qualified vs)
  ]

  -- perTable[table] = append(perTable[table], row)
  per_table : Map (List String) → List (String × String) → Map (List String)
  unfolding put get_or
  per_table out [] = out
  per_table out ((table, row) ∷ rest) =
      per_table (put table (get_or table [] out ++ row ∷ []) out) rest

  unfoldable pub fingerprints : List (String × String) → Map String
  unfolding per_table fingerprint
  fingerprints columns = map (λ p. (p.0, fingerprint p.1)) (per_table [] columns)

  unfoldable pub sys_table_fingerprints : Server → Session (Map String)
  unfolding read_rows scan_sys_column fingerprints
  sys_table_fingerprints server =
      then_ask
        (query server
          "\n\t\tSELECT TABLE_NAME, COLUMN_NAME, ORDINAL_POSITION, COLUMN_TYPE,\n\t\t       IS_NULLABLE, COLUMN_KEY, IFNULL(COLUMN_DEFAULT, '~none~')\n\t\t  FROM information_schema.COLUMNS\n\t\t WHERE TABLE_SCHEMA = 'mysql'\n\t\t ORDER BY TABLE_NAME, ORDINAL_POSITION"
          [])
        (λ r.
          then_ask (lift (read_rows scan_sys_column r)) (λ columns. give (fingerprints columns)))

  unfoldable pub app_table_fingerprints : Server → Session (Map String)
  unfolding read_rows scan_app_column fingerprints placeholders
  app_table_fingerprints server =
      then_ask
        (query server
          ("\n\t\tSELECT c.TABLE_SCHEMA, c.TABLE_NAME, c.COLUMN_NAME, c.ORDINAL_POSITION,\n\t\t       c.COLUMN_TYPE, c.IS_NULLABLE, c.COLUMN_KEY,\n\t\t       IFNULL(c.COLUMN_DEFAULT, '~none~')\n\t\t  FROM information_schema.COLUMNS c\n\t\t  JOIN information_schema.TABLES t\n\t\t    ON t.TABLE_SCHEMA = c.TABLE_SCHEMA\n\t\t   AND t.TABLE_NAME = c.TABLE_NAME\n\t\t WHERE t.TABLE_TYPE = 'BASE TABLE'\n\t\t   AND c.TABLE_SCHEMA NOT IN ("
            <> placeholders 4
            <> ")\n\t\t ORDER BY c.TABLE_SCHEMA, c.TABLE_NAME, c.ORDINAL_POSITION")
          system_schemas)
        (λ r.
          then_ask (lift (read_rows scan_app_column r)) (λ columns. give (fingerprints columns)))

module _ (scan_error : String) where
  table_name : List String → Result String
  table_name (schema ∷ table ∷ []) = done (schema <> "." <> table)
  table_name _ = fail scan_error

  scan_table : List Cell → Result String
  unfolding texts table_name
  scan_table cells = elim (texts cells) [ none ↦ fail scan_error | some vs ↦ table_name vs ]

  unfoldable pub tables_without_pk : Server → Session (List String)
  unfolding read_rows scan_table sort_strings placeholders
  tables_without_pk server =
      then_ask
        (query server
          ("\n\t\tSELECT t.TABLE_SCHEMA, t.TABLE_NAME\n\t\t  FROM information_schema.TABLES t\n\t\t  LEFT JOIN information_schema.TABLE_CONSTRAINTS c\n\t\t         ON c.TABLE_SCHEMA = t.TABLE_SCHEMA\n\t\t        AND c.TABLE_NAME = t.TABLE_NAME\n\t\t        AND c.CONSTRAINT_TYPE = 'PRIMARY KEY'\n\t\t WHERE t.TABLE_TYPE = 'BASE TABLE'\n\t\t   AND t.TABLE_SCHEMA NOT IN ("
            <> placeholders 4
            <> ")\n\t\t   AND c.CONSTRAINT_NAME IS NULL\n\t\t ORDER BY t.TABLE_SCHEMA, t.TABLE_NAME")
          system_schemas)
        (λ r. then_ask (lift (read_rows scan_table r)) (λ tables. give (sort_strings tables)))

  engine_text : List String → Result String
  engine_text (schema ∷ table ∷ engine ∷ []) =
      done (schema <> "." <> table <> " (" <> engine <> ")")
  engine_text _ = fail scan_error

  scan_engine : List Cell → Result String
  unfolding texts engine_text
  scan_engine cells = elim (texts cells) [ none ↦ fail scan_error | some vs ↦ engine_text vs ]

  unfoldable pub tables_not_replicated : Server → Session (List String)
  unfolding read_rows scan_engine placeholders
  tables_not_replicated server =
      then_ask
        (query server
          ("\n\t\tSELECT TABLE_SCHEMA, TABLE_NAME, ENGINE\n\t\t  FROM information_schema.TABLES\n\t\t WHERE TABLE_TYPE = 'BASE TABLE'\n\t\t   AND ENGINE IS NOT NULL\n\t\t   AND TABLE_SCHEMA NOT IN ("
            <> placeholders 4
            <> ")\n\t\t   AND ENGINE NOT IN ("
            <> placeholders 1
            <> ")\n\t\t ORDER BY TABLE_SCHEMA, TABLE_NAME")
          (system_schemas ++ replicated_engines))
        (λ r. lift (read_rows scan_engine r))

  -- an action that writes rows of the child table
  on_action : String → String → List String
  on_action event rule =
      if (rule == "CASCADE") || (rule == "SET NULL")
      then ("ON " <> event <> " " <> rule) ∷ []
      else []

  cascade_text : List String → Result String
  unfolding on_action join
  cascade_text (schema ∷ table ∷ parent ∷ on_update ∷ on_delete ∷ []) = done (
      schema
      <> "."
      <> parent
      <> " → "
      <> schema
      <> "."
      <> table
      <> " ("
      <> join (on_action "DELETE" on_delete ++ on_action "UPDATE" on_update) ", "
      <> ")")
  cascade_text _ = fail scan_error

  scan_cascade : List Cell → Result String
  unfolding texts cascade_text
  scan_cascade cells = elim (texts cells) [ none ↦ fail scan_error | some vs ↦ cascade_text vs ]

  unfoldable pub cascading_keys : Server → Session (List String)
  unfolding read_rows scan_cascade placeholders
  cascading_keys server =
      then_ask
        (query server
          ("\n\t\tSELECT CONSTRAINT_SCHEMA, TABLE_NAME, REFERENCED_TABLE_NAME, UPDATE_RULE, DELETE_RULE\n\t\t  FROM information_schema.REFERENTIAL_CONSTRAINTS\n\t\t WHERE CONSTRAINT_SCHEMA NOT IN ("
            <> placeholders 4
            <> ")\n\t\t   AND (UPDATE_RULE = 'CASCADE' OR DELETE_RULE = 'CASCADE'\n\t\t        OR UPDATE_RULE = 'SET NULL' OR DELETE_RULE = 'SET NULL')\n\t\t ORDER BY CONSTRAINT_SCHEMA, TABLE_NAME")
          system_schemas)
        (λ r. lift (read_rows scan_cascade r))

-- the first row of an answer, and an error where there is none; rows.Err() has nothing to report while
-- only the first row was read
unfoldable pub first_row {ℓ} : {A : Type ℓ} → String → (List Cell → Result A) → Rows → Result A
first_row absent scan r = elim r.rows [
  | [] ↦ if r.end == "" then fail absent else fail r.end
  | row ∷ rest ↦ scan row
]

module _ {ℓ} (F : Type ℓ) ⦃fl : Float F⦄ (scan_error : String) where
  open fl use {parse_float, to_int}

  -- int64 of a NullFloat64, which is 0 for NULL
  scan_size : List Cell → Result ℤ
  scan_size (none ∷ []) = done (pos 0)
  scan_size (some v ∷ []) = elim (parse_float v) [
    | none ↦ fail scan_error
    | some f ↦ done (to_int f)
  ]
  scan_size _ = fail scan_error

  unfoldable pub dataset_bytes : Server → Session ℤ
  unfolding first_row scan_size placeholders
  dataset_bytes server =
      then_ask
        (query server
          ("\n\t\tSELECT SUM(DATA_LENGTH + INDEX_LENGTH)\n\t\t  FROM information_schema.TABLES\n\t\t WHERE TABLE_TYPE = 'BASE TABLE'\n\t\t   AND TABLE_SCHEMA NOT IN ("
            <> placeholders 4
            <> ")")
          system_schemas)
        (λ r. lift (first_row "no row from the dataset size query" scan_size r))
