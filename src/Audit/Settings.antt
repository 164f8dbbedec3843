-- ===== src/Audit/Settings.antt =====
-- Checks of internal/audit/audit.go on settings that the nodes should share: syncWait,
-- writeSetLimits, durability, segments, flowSettings, strictMode, versions, applierTriggers.
pub mod Laws
use galera_doctor.Prelude.{
  ℕ, String, Bool, true, false, not, ◌&&◌, ◌||◌, Option, none, some, List, [], ◌∷◌, ◌++◌, ltb, eqb,
  if◌then◌else◌, ◌==◌, ◌<>◌, filter, length, map,
}
use galera_doctor.Go.Text.{fmt_ℕ, join, trim_space, to_upper}
use galera_doctor.Go.Sort.{sort_strings}
use galera_doctor.Go.Map.{get_or, keys}
use galera_doctor.Go.Float.{Float}
use galera_doctor.Finding.{Finding, ok, warn, bad}
use galera_doctor.Cluster.{Snapshot, get_status, get_var, get_bool, get_float}
use galera_doctor.Audit.Groups.{
  Groups, text_of, describe_groups, group_by, reporting_var, reporting_option, var_value,
  option_value, statement, measure, num,
}

-- what a check has kept while it looks for the node with the smallest number
pub record Smallest {ℓ} (F : Type ℓ) : Type ℓ where
  pub node : String
  pub number : F

module _ {ℓ} {F : Type ℓ} where
  -- the groups of the nodes that report, when at least two of them report and they differ
  unfoldable pub disagreement : List (Snapshot F) → (Snapshot F → String) → Option Groups
  disagreement reporting key =
      let groups = group_by reporting key in
      if ltb (length reporting) 2 then none else if eqb (length groups) 1 then none else some groups

  unfoldable pub sync_wait : String → List (Snapshot F) → List (Finding F)
  unfolding disagreement
  sync_wait name live =
      elim (disagreement (reporting_var "wsrep_sync_wait" live) (var_value "wsrep_sync_wait")) [
        | none ↦ []
        | some groups ↦
            statement "repl/sync-wait" name warn
              ("nodes disagree about wsrep_sync_wait: " <> describe_groups groups)
              "a read is causal or not depending on which node the proxy picked, which reaches the application as \"sometimes the row is not there yet\" and reaches no dashboard at all"
            ∷ []
      ]

  -- the nodes whose value is not the safe one
  unfoldable pub weak_nodes : String → String → List (Snapshot F) → List String
  unfolding filter
  weak_nodes key safe reporting =
      map (λ s. s.node)
        (filter (λ s. elim (get_var s key) [ none ↦ false | some v ↦ not (trim_space v == safe) ])
          reporting)

  unfoldable pub durability_of : String → String → String → List (Snapshot F) → List (Finding F)
  unfolding disagreement weak_nodes sort_strings
  durability_of name key safe live =
      let reporting = reporting_var key live in
      elim (disagreement reporting (var_value key)) [
        | none ↦ []
        | some groups ↦
            statement "node/durability" name warn
              ("nodes disagree about " <> key <> ": " <> describe_groups groups)
              ("a cluster's durability is its weakest node's, not its average: on "
                <> join (sort_strings (weak_nodes key safe reporting)) ", "
                <> " a commit is acknowledged before it reaches the disk, so \"committed on every node\" survives a process crash and not a power cut")
            ∷ []
      ]

  unfoldable pub durability : String → List (Snapshot F) → List (Finding F)
  unfolding durability_of
  durability name live =
      durability_of name "innodb_flush_log_at_trx_commit" "1" live
      ++ durability_of name "sync_binlog" "1" live

  -- strings.ToUpper(strings.TrimSpace(v))
  unfoldable pub upper_value : String → Snapshot F → String
  upper_value key s = to_upper (var_value key s)

  -- one group, whose name is the mode of every node
  strict_mode_of : String → ℕ → Groups → List (Finding F)
  strict_mode_of name n [] = []
  strict_mode_of name n ((mode, nodes) ∷ groups) =
      if not (mode == "DISABLED") && not (mode == "PERMISSIVE")
      then []
      else statement "pxc/strict-mode" name warn
          ("pxc_strict_mode is " <> mode <> " on all " <> fmt_ℕ n <> " node(s)")
          "this is the guard rail that refuses what breaks replication silently: with it off, schema/no-pk and schema/engine in this report are the consequences rather than warnings about a possibility"
        ∷ []

  unfoldable pub strict_mode : String → List (Snapshot F) → List (Finding F)
  unfolding strict_mode_of
  strict_mode name live =
      let reporting = reporting_var "pxc_strict_mode" live in
      let groups = group_by reporting (upper_value "pxc_strict_mode") in
      if eqb (length reporting) 0
      then []
      else if ltb 1 (length groups)
      then statement "pxc/strict-mode" name bad
          ("nodes disagree about pxc_strict_mode: " <> describe_groups groups)
          "the permissive node accepts statements its peers refuse — and the cluster then has to replicate something it was configured to reject, which is how a table with no primary key or a MyISAM write gets in through one door"
        ∷ []
      else strict_mode_of name (length reporting) groups

  -- the nodes whose wsrep_slave_run_triggers is a variable and reads as a Boolean
  unfoldable pub trigger_reports : Snapshot F → Bool
  trigger_reports s = elim (get_var s "wsrep_slave_run_triggers") [
    | none ↦ false
    | some v ↦ elim (get_bool s "wsrep_slave_run_triggers") [ none ↦ false | some b ↦ true ]
  ]

  unfoldable pub trigger_on : Snapshot F → Bool
  trigger_on s = elim (get_bool s "wsrep_slave_run_triggers") [ none ↦ false | some b ↦ b ]

  unfoldable pub applier_triggers : String → List (Snapshot F) → List (Finding F)
  unfolding trigger_reports trigger_on filter
  applier_triggers name live =
      let reporting = filter trigger_reports live in
      let on = length (filter trigger_on reporting) in
      let groups = group_by reporting (upper_value "wsrep_slave_run_triggers") in
      let consequence : String =
        "the writer's trigger has already put its rows in the writeset, so an applier that runs the trigger again applies them twice" in
      if ltb (length reporting) 2
      then []
      else if ltb 1 (length groups)
      then statement "repl/triggers" name bad
          ("nodes disagree about wsrep_slave_run_triggers: " <> describe_groups groups)
          (consequence
            <> " — so the same statement ends up with different rows per node, and certification compares writesets rather than their consequences")
        ∷ []
      else if eqb on (length reporting)
      then statement "repl/triggers" name warn
          ("all "
            <> fmt_ℕ (length reporting)
            <> " node(s) run triggers on apply (wsrep_slave_run_triggers is ON)")
          (consequence
            <> " — uniform, so the nodes stay consistent with each other, but each row the trigger writes is applied twice unless the trigger is written to expect that")
        ∷ []
      else []

segment_text : Groups → String → String
unfolding sort_strings
segment_text groups k = "segment " <> k <> ": " <> join (sort_strings (get_or k [] groups)) ", "

unfoldable pub segments_text : Groups → String
unfolding segment_text sort_strings keys
segments_text groups = join (map (segment_text groups) (sort_strings (keys groups))) "; "

module _ {ℓ} {F : Type ℓ} ⦃fl : Float F⦄ where
  open fl use {decimal, flt, feq, parse_float, trim_float}

  unfoldable pub segments : String → List (Snapshot F) → List (Finding F)
  unfolding segments_text num
  segments name live =
      let reporting = reporting_option "gmcast.segment" live in
      let groups = group_by reporting (option_value "gmcast.segment") in
      let msg = segments_text groups in
      if ltb (length reporting) 2
      then []
      else if eqb (length groups) (length reporting) && ltb 2 (length reporting)
      then measure "cluster/segments" name warn ("every node is in a segment of its own — " <> msg)
          (num F (length groups)) "segments"
          "a write-set crosses a link once per segment, not once per node: with one node per segment there is nothing left to share, so every node pays the WAN transfer separately"
        ∷ []
      else measure "cluster/segments" name ok
          (fmt_ℕ (length groups)
            <> " segment(s) over "
            <> fmt_ℕ (length reporting)
            <> " node(s) — "
            <> msg)
          (num F (length groups)) "segments" ""
        ∷ []

  -- the smallest number so far; an empty node name counts as none kept
  unfoldable pub keep_smaller : Smallest F → String → F → Smallest F
  keep_smaller best node v =
      if (best.node == "") || flt v best.number then record { node = node; number = v } else best

  unfoldable pub none_kept : Smallest F
  none_kept = record { node = ""; number = decimal 0 0 }

  -- the loop of writeSetLimits: 0 is no limit
  unfoldable pub smallest_limit : String → Smallest F → List (Snapshot F) → Smallest F
  unfolding keep_smaller
  smallest_limit key best [] = best
  smallest_limit key best (s ∷ ss) =
      smallest_limit key
        (elim (get_float s key) [
          | none ↦ best
          | some v ↦ if feq v (decimal 0 0) then best else keep_smaller best s.node v
        ])
        ss

  unfoldable pub ws_limit : String → List (Snapshot F) → String → List (Finding F)
  unfolding disagreement smallest_limit none_kept
  ws_limit name live key =
      let reporting = reporting_var key live in
      let weakest = smallest_limit key none_kept reporting in
      elim (disagreement reporting (var_value key)) [
        | none ↦ []
        | some groups ↦
            statement "repl/ws-limits" name warn
              ("nodes disagree about "
                <> key
                <> ": "
                <> describe_groups groups
                <> (if weakest.node == ""
                    then ""
                    else " — the cluster's real limit is "
                      <> weakest.node
                      <> "'s "
                      <> trim_float weakest.number))
              "the write-set is certified on the node that accepted it and refused by the applier with the smaller limit, which then leaves the cluster — it arrives as a node failure and it is a configuration difference"
            ∷ []
      ]

  unfoldable pub write_set_limits : String → List (Snapshot F) → List (Finding F)
  unfolding ws_limit
  write_set_limits name live =
      ws_limit name live "wsrep_max_ws_size" ++ ws_limit name live "wsrep_max_ws_rows"

  -- the loop of flowSettings over gcs.fc_limit
  unfoldable pub strictest_limit : String → Smallest F → List (Snapshot F) → Smallest F
  unfolding keep_smaller
  strictest_limit opt best [] = best
  strictest_limit opt best (s ∷ ss) =
      strictest_limit opt
        (elim (parse_float (option_value opt s)) [
          | none ↦ best
          | some f ↦ keep_smaller best s.node f
        ])
        ss

  unfoldable pub flow_setting : String → List (Snapshot F) → String → List (Finding F)
  unfolding disagreement strictest_limit none_kept
  flow_setting name live opt =
      let reporting = reporting_option opt live in
      let strictest = strictest_limit opt none_kept reporting in
      elim (disagreement reporting (option_value opt)) [
        | none ↦ []
        | some groups ↦
            let msg = "nodes disagree about " <> opt <> ": " <> describe_groups groups in
            (if opt == "gcs.fc_limit"
              then statement "flow/settings" name warn
                  (if strictest.node == ""
                    then msg
                    else msg
                      <> " — "
                      <> strictest.node
                      <> " throttles first, at "
                      <> trim_float strictest.number)
                  ("the cluster pauses when the slowest queue hits its own limit, so "
                    <> strictest.node
                    <> " paces every writer in the cluster — flow/paused reports that pausing without this reason")
              else statement "flow/settings" name warn msg
                  "these settings are the cluster's pacing, not a node's: the strictest node decides when everybody waits")
            ∷ []
      ]

  unfoldable pub flow_settings : String → List (Snapshot F) → List (Finding F)
  unfolding flow_setting
  flow_settings name live =
      flow_setting name live "gcs.fc_limit"
      ++ (flow_setting name live "gcs.fc_factor"
          ++ (flow_setting name live "gcs.fc_master_slave"
              ++ flow_setting name live "gcs.fc_single_primary"))

  mixed : String → String → String → String → Groups → List (Finding F)
  unfolding num
  mixed name check what hint groups =
      if ltb 1 (length groups)
      then measure check name warn (what <> describe_groups groups) (num F (length groups))
          "versions" hint
        ∷ []
      else []

  unfoldable pub versions : String → List (Snapshot F) → List (Finding F)
  unfolding mixed
  versions name live =
      mixed name "cluster/versions" "mixed server versions: "
        "expected during a rolling upgrade and a liability after it: keep the window short"
        (group_by live (λ s. text_of (get_var s "version")))
      ++ mixed name "cluster/provider-version" "mixed wsrep provider versions: "
          "the group communication protocol is negotiated down to the oldest member"
          (group_by live (λ s. text_of (get_status s "wsrep_provider_version")))
