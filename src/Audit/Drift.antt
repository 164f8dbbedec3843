-- ===== src/Audit/Drift.antt =====
-- sysTableDrift and schemaDrift of internal/audit/audit.go: definitions that differ between nodes.
pub mod Laws
use galera_doctor.Prelude.{
  ℕ, zero, suc, ◌-◌, String, Bool, true, false, Option, none, some, List, [], ◌∷◌, ◌++◌, ltb, leb,
  eqb, if◌then◌else◌, ◌<>◌, filter, length, map, take,
}
use galera_doctor.Go.Text.{fmt_ℕ, join}
use galera_doctor.Go.Sort.{sort_strings}
use galera_doctor.Go.Map.{Map, get, get_or, put, keys}
use galera_doctor.Go.Float.{Float}
use galera_doctor.Finding.{Finding, ok, warn, bad}
use galera_doctor.Cluster.{Snapshot}
use galera_doctor.Audit.Groups.{Groups, gather, describe_groups, statement, measure, num}

-- a node and the definitions that were read on it
pub record Audited : Type 0 where
  pub node : String
  pub tables : Map String

-- tables[t] = true for the tables of one node, then of all
add_names : Map Bool → List String → Map Bool
unfolding put
add_names out [] = out
add_names out (t ∷ ts) = add_names (put t true out) ts

all_names : Map Bool → List Audited → Map Bool
unfolding add_names keys
all_names out [] = out
all_names out (a ∷ as') = all_names (add_names out (keys a.tables)) as'

unfoldable pub table_names : List Audited → List String
unfolding all_names sort_strings
table_names audited = sort_strings (keys (all_names [] audited))

-- the nodes by the definition that they have of a table
unfoldable pub definition_of : String → Audited → String
definition_of table a = get_or table "absent" a.tables

unfoldable pub definitions : List Audited → String → Groups
unfolding gather definition_of
definitions audited table = gather (definition_of table) (λ a. a.node) [] audited

unfoldable pub differs : List Audited → String → Bool
unfolding definitions
differs audited table = ltb 1 (length (definitions audited table))

-- len(m) == 0
unfoldable pub is_empty : Map String → Bool
is_empty [] = true
is_empty (e ∷ es) = false

module _ {ℓ} {F : Type ℓ} where
  unread : String → String → Snapshot F → Finding F
  unread check what s =
      statement check s.node warn (what <> " were not read")
        "the audit user needs SELECT on information_schema.COLUMNS; without it this node is excluded from the drift comparison"

  unfoldable pub sys_unread : List (Snapshot F) → List (Finding F)
  unfolding unread is_empty
  sys_unread [] = []
  sys_unread (s ∷ ss) =
      let rest = sys_unread ss in
      if is_empty s.sys_tables
      then unread "systables/drift" "system table definitions" s ∷ rest
      else rest

  unfoldable pub sys_audited : List (Snapshot F) → List Audited
  unfolding is_empty
  sys_audited [] = []
  sys_audited (s ∷ ss) =
      let rest = sys_audited ss in
      if is_empty s.sys_tables then rest else record { node = s.node; tables = s.sys_tables } ∷ rest

  unfoldable pub app_unread : List (Snapshot F) → List (Finding F)
  unfolding unread
  app_unread [] = []
  app_unread (s ∷ ss) =
      let rest = app_unread ss in
      elim s.app_tables [
        | none ↦ unread "schema/drift" "application schema definitions" s ∷ rest
        | some t ↦ rest
      ]

  unfoldable pub app_audited : List (Snapshot F) → List Audited
  app_audited [] = []
  app_audited (s ∷ ss) =
      let rest = app_audited ss in
      elim s.app_tables [ none ↦ rest | some t ↦ record { node = s.node; tables = t } ∷ rest ]

  drifted_sys_table : List Audited → String → Finding F
  unfolding definitions
  drifted_sys_table audited table =
      statement "systables/drift" ("mysql." <> table) bad
        ("definition differs across nodes: " <> describe_groups (definitions audited table))
        "Galera does not replicate this: fix it per node (mysql_upgrade, or align the definition by hand) — no wsrep_* metric will ever show it"

drift_hint : String
drift_hint =
    "application DDL is replicated, so this is a change that did not finish: compare the definitions and re-apply it on the nodes that are behind (a failed ALTER, a change applied by hand, or one that landed while a node was desynced)"

abbrev pub max_drifted_listed : ℕ
max_drifted_listed = 5

module _ {ℓ} {F : Type ℓ} where
  drifted_table : List Audited → String → Finding F
  unfolding definitions drift_hint
  drifted_table audited table =
      statement "schema/drift" table bad
        ("definition differs across nodes: " <> describe_groups (definitions audited table))
        drift_hint

module _ {ℓ} {F : Type ℓ} ⦃fl : Float F⦄ where
  -- "len(groups) == 1" skips a table: with a node audited there is always a group
  unfoldable pub sys_drift : String → List Audited → List (Finding F)
  unfolding table_names filter differs drifted_sys_table num
  sys_drift name audited =
      let names = table_names audited in
      let drifted = filter (differs audited) names in
      elim drifted [
        | [] ↦
            measure "systables/drift" name ok
              (fmt_ℕ (length names)
                <> " system table(s) identical across "
                <> fmt_ℕ (length audited)
                <> " node(s)")
              (num F (length names)) "tables" ""
            ∷ []
        | t ∷ ts ↦ map (drifted_sys_table audited) (t ∷ ts)
      ]

  unfoldable pub sys_table_drift : String → List (Snapshot F) → List (Finding F)
  unfolding sys_unread sys_audited sys_drift
  sys_table_drift name live =
      let audited = sys_audited live in
      if ltb (length audited) 2 then sys_unread live else sys_unread live ++ sys_drift name audited

  -- the switch of schemaDrift on the number of drifted tables
  unfoldable pub app_drift : String → List Audited → List (Finding F)
  unfolding table_names filter differs drifted_table num drift_hint
  app_drift name audited =
      let names = table_names audited in
      let drifted = filter (differs audited) names in
      if eqb (length drifted) 0
      then measure "schema/drift" name ok
          (fmt_ℕ (length names)
            <> " application table(s) identical across "
            <> fmt_ℕ (length audited)
            <> " node(s)")
          (num F (length names)) "tables" ""
        ∷ []
      else if leb (length drifted) max_drifted_listed
      then map (drifted_table audited) drifted
      else measure "schema/drift" name bad
          (fmt_ℕ (length drifted)
            <> " application table(s) differ across nodes: "
            <> join (take max_drifted_listed drifted) ", "
            <> " and "
            <> fmt_ℕ (length drifted - max_drifted_listed)
            <> " more")
          (num F (length drifted)) "tables"
          ("this many tables at once is a node that missed a whole schema change, not one bad ALTER: "
            <> drift_hint)
        ∷ []

  unfoldable pub schema_drift : String → List (Snapshot F) → List (Finding F)
  unfolding app_unread app_audited app_drift
  schema_drift name live =
      let audited = app_audited live in
      if ltb (length audited) 2 then app_unread live else app_unread live ++ app_drift name audited
