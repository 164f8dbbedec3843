-- ===== src/Audit/Tables.antt =====
-- Checks of internal/audit/audit.go on tables and transactions: storageEngines, longTransactions,
-- cascades, primaryKeys.
use galera_doctor.Prelude.{
  ◌-◌, String, Bool, true, false, ◌||◌, none, some, List, [], ◌∷◌, ◌++◌, ltb, eqb, if◌then◌else◌,
  ◌==◌, ◌<>◌, length, take,
}
use galera_doctor.Prelude.Int.{pos, ltb_ℤ}
use galera_doctor.Go.Text.{fmt_ℕ, fmt_ℤ, join, to_lower}
use galera_doctor.Go.Sort.{sort_strings}
use galera_doctor.Go.Map.{Map, get, put, keys, delete}
use galera_doctor.Go.Time.{Duration, is_zero, time_sub, second, round, duration_string}
use galera_doctor.Go.Float.{Float, seconds}
use galera_doctor.Finding.{Finding, warn, bad}
use galera_doctor.Cluster.{Snapshot, Transaction, get_var, get_bool}
use galera_doctor.Audit.Groups.{
  Options, Groups, contains_fold, describe_groups, group_by, measure, num,
}

-- seen[t] = true
add_seen : Map Bool → List String → Map Bool
unfolding put
add_seen out [] = out
add_seen out (t ∷ ts) = add_seen (put t true out) ts

module _ {ℓ} {F : Type ℓ} where
  seen_from : (Snapshot F → List String) → Map Bool → List (Snapshot F) → Map Bool
  unfolding add_seen
  seen_from items out [] = out
  seen_from items out (s ∷ ss) = seen_from items (add_seen out (items s)) ss

  -- what the nodes list, each text once, sorted
  unfoldable pub seen_on : (Snapshot F → List String) → List (Snapshot F) → List String
  unfolding seen_from keys sort_strings
  seen_on items live = sort_strings (keys (seen_from items [] live))

  -- what a node does with tables that Galera does not replicate
  unfoldable pub engine_mode : Snapshot F → String
  engine_mode s =
      let mode = get_var s "wsrep_mode" in
      let by_mode : Bool = elim mode [
        | none ↦ false
        | some m ↦ contains_fold m "REPLICATE_MYISAM" || contains_fold m "REPLICATE_ARIA"
      ] in
      let by_myisam : Bool = elim (get_bool s "wsrep_replicate_myisam") [
        | none ↦ false
        | some on ↦ on
      ] in
      if by_mode || by_myisam then "replicated" else elim mode [
        | some m ↦ "not replicated"
        | none ↦ elim (get_var s "wsrep_replicate_myisam") [
          | none ↦ "unknown"
          | some v ↦ "not replicated"
        ]
      ]

-- the first five texts, and how many more there are
unfoldable pub first_five : List String → String
first_five l =
    join (take 5 l) ", "
    <> (if ltb 5 (length l) then " (+" <> fmt_ℕ (length l - 5) <> " more)" else "")

replicated_hint : Groups → String
unfolding get
replicated_hint groups = elim (get "replicated" groups) [
  | some nodes ↦
      "MyISAM and Aria replication is enabled here, which is experimental and certifies nothing: a conflicting write is not detected, it is applied — move the tables to InnoDB"
  | none ↦
      "these writes are not replicated: they succeed, no counter records them, and the rows exist on the node that took them — move the tables to InnoDB, or accept that they are per-node data"
]

long_message : Transaction → Duration → String
long_message t age =
    "transaction "
    <> t.id
    <> " has been open for "
    <> duration_string (round age second)
    <> (if t.state == "" then "" else " (" <> to_lower t.state <> ")")
    <> (if ltb_ℤ (pos 0) t.rows then ", " <> fmt_ℤ t.rows <> " row(s) modified" else "")

module _ {ℓ} {F : Type ℓ} ⦃fl : Float F⦄ where
  unfoldable pub primary_keys : List (Snapshot F) → List (Finding F)
  unfolding seen_on first_five num
  primary_keys live =
      let tables = seen_on (λ s. s.tables_no_pk) live in
      if eqb (length tables) 0
      then []
      else measure "schema/no-pk" "schema" warn
          (fmt_ℕ (length tables) <> " table(s) without a primary key: " <> first_five tables)
          (num F (length tables)) "tables"
          "row-based replication applies these by full-row scan on every node, and DELETEs can apply in a different order — Galera's own documentation calls this unsupported"
        ∷ []

  unfoldable pub cascades : List (Snapshot F) → List (Finding F)
  unfolding seen_on first_five num
  cascades live =
      let list = seen_on (λ s. s.cascades) live in
      if eqb (length list) 0
      then []
      else measure "schema/fk-cascade" "schema" warn
          (fmt_ℕ (length list) <> " cascading foreign key(s): " <> first_five list)
          (num F (length list)) "constraints"
          "certification covers the rows the statement touched, not the rows a cascade goes on to change: two writes to different parents can both certify and still collide in the child, which arrives as an inconsistency rather than as a conflict"
        ∷ []

  unfoldable pub storage_engines : List (Snapshot F) → List (Finding F)
  unfolding seen_on first_five num replicated_hint delete
  storage_engines live =
      let tables = seen_on (λ s. s.tables_non_innodb) live in
      let groups = delete "unknown" (group_by live engine_mode) in
      let msg =
        fmt_ℕ (length tables)
        <> " application table(s) on an engine Galera does not replicate: "
        <> first_five tables in
      if eqb (length tables) 0
      then []
      else if ltb 1 (length groups)
      then measure "schema/engine" "schema" bad
          (msg <> " — and the nodes disagree about replicating them: " <> describe_groups groups)
          (num F (length tables)) "tables"
          "the same write lands on some nodes and not others, which is divergence arriving one statement at a time: align wsrep_mode across the nodes, then move these tables to InnoDB"
        ∷ []
      else measure "schema/engine" "schema" warn msg (num F (length tables)) "tables"
          (replicated_hint groups)
        ∷ []

  unfoldable pub long_transaction : Options F → String → Transaction → List (Finding F)
  unfolding long_message time_sub seconds
  long_transaction opt node t =
      let age = time_sub opt.now t.started in
      if is_zero t.started || ltb_ℤ age opt.transaction_warn
      then []
      else measure "txn/long-running" node warn (long_message t age) (seconds F age) "seconds"
          "in a cluster this is not only a slow query: it is the likeliest brute-force abort when a conflicting writeset arrives, and a TOI schema change waits for it on every node — which is what a rolling DDL that never finishes looks like from here"
        ∷ []

  long_on_node : Options F → String → List Transaction → List (Finding F)
  unfolding long_transaction
  long_on_node opt node [] = []
  long_on_node opt node (t ∷ ts) = long_transaction opt node t ++ long_on_node opt node ts

  unfoldable pub long_transactions : List (Snapshot F) → Options F → List (Finding F)
  unfolding long_on_node
  long_transactions [] opt = []
  long_transactions (s ∷ ss) opt =
      long_on_node opt s.node s.transactions ++ long_transactions ss opt
