-- ===== src/Audit/Interpretation.antt =====
-- interpretation, canonicalSet and describeSetDifference of internal/audit/audit.go.
use galera_doctor.Prelude.{
  String, Bool, true, false, not, ◌&&◌, none, some, List, [], ◌∷◌, ◌++◌, ltb, eqb, if◌then◌else◌,
  ◌==◌, ◌<>◌, length, map, filter, any,
}
use galera_doctor.Go.Text.{join, trim_space, to_upper, equal_fold, split}
use galera_doctor.Go.Sort.{sort_strings}
use galera_doctor.Go.Map.{Map, put, keys}
use galera_doctor.Finding.{Finding, warn}
use galera_doctor.Cluster.{Snapshot, get_var}
use galera_doctor.Audit.Groups.{
  group_by, describe_groups, reporting_var, var_value, text_of, statement,
}
use galera_doctor.Audit.Settings.{disagreement}
use galera_doctor.Audit.Replication.{with_var}
use galera_doctor.Audit.Peers.{is_member}

-- the parts of a set, without white space and empty ones
unfoldable pub set_parts : String → List String
unfolding filter
set_parts v = filter (λ p. not (p == "")) (map trim_space (split (to_upper (trim_space v)) b','))

unfoldable pub canonical_set : String → String
unfolding set_parts sort_strings
canonical_set v = join (sort_strings (set_parts v)) ","

-- the flags of a canonical set
unfoldable pub flags_in : String → List String
unfolding canonical_set filter
flags_in v = filter (λ p. not (p == "")) (split (canonical_set v) b',')

add_flags : Map Bool → List String → Map Bool
unfolding put
add_flags out [] = out
add_flags out (f ∷ fs) = add_flags (put f true out) fs

module _ {ℓ} {F : Type ℓ} where
  unfoldable pub flags_of : String → Snapshot F → List String
  unfolding flags_in text_of
  flags_of key s = flags_in (text_of (get_var s key))

  all_flags : String → Map Bool → List (Snapshot F) → Map Bool
  unfolding add_flags flags_of
  all_flags key out [] = out
  all_flags key out (s ∷ ss) = all_flags key (add_flags out (flags_of key s)) ss

  -- present[flag][node]: a node of this name has the flag
  unfoldable pub has_flag : String → String → List (Snapshot F) → String → Bool
  unfolding is_member flags_of any
  has_flag key flag snaps node =
      any (λ s. (s.node == node) && is_member flag (flags_of key s)) snaps

  -- the names of the nodes that have a flag, each once
  nodes_with : String → String → List (Snapshot F) → Map Bool → Map Bool
  unfolding is_member flags_of put
  nodes_with key flag [] out = out
  nodes_with key flag (s ∷ ss) out =
      nodes_with key flag ss (if is_member flag (flags_of key s) then put s.node true out else out)

  -- what is said of a flag that is not on every node
  flag_text : String → List (Snapshot F) → String → List String
  unfolding nodes_with has_flag filter sort_strings
  flag_text key snaps flag =
      let missing = filter (λ s. not (has_flag key flag snaps s.node)) snaps in
      if eqb (length (nodes_with key flag snaps [])) (length snaps)
      then []
      else (flag <> " is not set on " <> join (sort_strings (map (λ s. s.node) missing)) ", ") ∷ []

  flag_texts : String → List (Snapshot F) → List String → List String
  unfolding flag_text
  flag_texts key snaps [] = []
  flag_texts key snaps (f ∷ fs) = flag_text key snaps f ++ flag_texts key snaps fs

  unfoldable pub describe_set_difference : List (Snapshot F) → String → String
  unfolding flag_texts all_flags keys sort_strings
  describe_set_difference snaps key =
      join (flag_texts key snaps (sort_strings (keys (all_flags key [] snaps)))) "; "

  -- the set of flags of a node, as groupBy names it
  unfoldable pub set_of : String → Snapshot F → String
  unfolding canonical_set text_of
  set_of key s = canonical_set (text_of (get_var s key))

  unfoldable pub sql_mode : String → List (Snapshot F) → List (Finding F)
  unfolding with_var group_by set_of describe_set_difference
  sql_mode name live =
      let modes = with_var "sql_mode" live in
      if ltb 1 (length modes) && ltb 1 (length (group_by modes (set_of "sql_mode")))
      then statement "node/sql-mode" name warn
          ("nodes disagree about sql_mode: " <> describe_set_difference modes "sql_mode")
          "Galera replicates the result of a statement, not its interpretation, so this never becomes a conflict: the same DDL run on the wrong node builds a different table, and the same INSERT is refused on one node and truncated on another"
        ∷ []
      else []

  -- one round of the loop over the three settings
  unfoldable pub meaning_setting : String → List (Snapshot F) → String → String → List (Finding F)
  unfolding disagreement reporting_var
  meaning_setting name live key hint =
      elim (disagreement (reporting_var key live) (var_value key)) [
        | none ↦ []
        | some groups ↦
            statement (if key == "time_zone" then "node/timezone" else "node/charset") name warn
              ("nodes disagree about " <> key <> ": " <> describe_groups groups) hint
            ∷ []
      ]

  -- the nodes that use the machine's zone and say which it is
  on_system_zone : Snapshot F → Bool
  on_system_zone s = elim (get_var s "time_zone") [
    | none ↦ false
    | some tz ↦
        equal_fold (trim_space tz) "SYSTEM"
        && elim (get_var s "system_time_zone") [ none ↦ false | some z ↦ true ]
  ]

  unfoldable pub system_zone : String → List (Snapshot F) → List (Finding F)
  unfolding on_system_zone group_by var_value filter
  system_zone name live =
      let systems = filter on_system_zone live in
      let groups = group_by systems (var_value "system_time_zone") in
      if ltb 1 (length systems) && ltb 1 (length groups)
      then statement "node/timezone" name warn
          ("nodes all use time_zone=SYSTEM and their systems disagree: " <> describe_groups groups)
          "agreeing on SYSTEM is not agreeing on a time zone — the setting is uniform and the value it resolves to is not, which is the same divergence wearing a uniform"
        ∷ []
      else []

  unfoldable pub interpretation : String → List (Snapshot F) → List (Finding F)
  unfolding sql_mode meaning_setting system_zone
  interpretation name live =
      sql_mode name live
      ++ (meaning_setting name live "character_set_server"
            "a CREATE TABLE without an explicit charset is a different table depending on which node ran it — which is where a schema/drift finding comes from, and why this is the cause rather than another symptom"
          ++ (meaning_setting name live "collation_server"
                "the same comparison sorts and matches differently depending on which node built the table — and schema/drift reports the definitions that result, one release later than this would have"
              ++ (meaning_setting name live "time_zone"
                    "a NOW() in a default, a trigger or a view stores a different instant depending on the node that evaluated it: same statement, different row, no conflict"
                  ++ system_zone name live)))
