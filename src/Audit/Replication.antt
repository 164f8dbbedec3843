-- ===== src/Audit/Replication.antt =====
-- serverIdentity, asyncReplication and binlog of internal/audit/audit.go: what replicates into and out
-- of the cluster.
pub mod Laws
use galera_doctor.Prelude.{
  String, Bool, false, not, ◌&&◌, Option, none, some, List, [], ◌∷◌, ◌++◌, ltb, if◌then◌else◌, ◌==◌,
  ◌<>◌, length, map, filter, any,
}
use galera_doctor.Go.Text.{fmt_ℕ, join, trim_space, to_upper}
use galera_doctor.Go.Sort.{sort_strings}
use galera_doctor.Go.Map.{get_or, keys}
use galera_doctor.Go.Time.{whole_duration, duration_string}
use galera_doctor.Go.Float.{Float}
use galera_doctor.Finding.{Finding, warn, bad}
use galera_doctor.Cluster.{Snapshot, ReplicaLink, running, get_bool, get_var}
use galera_doctor.Audit.Groups.{
  Groups, gather, group_by, describe_groups, reporting_var, var_value, text_of, statement, measure,
  num,
}
use galera_doctor.Audit.Settings.{disagreement}
use galera_doctor.Audit.Coverage.{is_nil}

-- a server id that several nodes have
duplicate_from : Groups → List String → List String
unfolding sort_strings get_or
duplicate_from ids [] = []
duplicate_from ids (k ∷ ks) =
    let nodes = get_or k [] ids in
    let rest = duplicate_from ids ks in
    if ltb (length nodes) 2 then rest else (k <> " on " <> join (sort_strings nodes) ", ") ∷ rest

unfoldable pub duplicates : Groups → List String
unfolding duplicate_from keys sort_strings
duplicates ids = duplicate_from ids (sort_strings (keys ids))

module _ {ℓ} {F : Type ℓ} where
  unfoldable pub server_ids : List (Snapshot F) → Groups
  unfolding gather reporting_var var_value
  server_ids live = gather (var_value "server_id") (λ s. s.node) [] (reporting_var "server_id" live)

  unfoldable pub server_id : String → List (Snapshot F) → List (Finding F)
  unfolding server_ids duplicates
  server_id name live =
      let dupes = duplicates (server_ids live) in
      if ltb 0 (length dupes)
      then statement "repl/server-id" name bad ("nodes share a server_id: " <> join dupes "; ")
          "an async replica downstream cannot tell their events apart, and a replication loop becomes possible — every node needs its own, and it has to survive being rebuilt from a backup"
        ∷ []
      else []

  -- s.Bool(key), true only where it is known and true
  unfoldable pub is_on : String → Snapshot F → Bool
  unfolding get_bool
  is_on key s = elim (get_bool s key) [ none ↦ false | some on ↦ on ]

  unfoldable pub is_off : String → Snapshot F → Bool
  unfolding get_bool
  is_off key s = elim (get_bool s key) [ none ↦ false | some on ↦ not on ]

  unfoldable pub any_binlog : List (Snapshot F) → Bool
  unfolding is_on any
  any_binlog live = any (is_on "log_bin") live

  gtid_setting : String → List (Snapshot F) → String → String → String → List (Finding F)
  unfolding disagreement reporting_var
  gtid_setting name live key check hint =
      elim (disagreement (reporting_var key live) (var_value key)) [
        | none ↦ []
        | some groups ↦
            statement check name warn
              ("nodes disagree about " <> key <> ": " <> describe_groups groups) hint
            ∷ []
      ]

  unfoldable pub server_identity : String → List (Snapshot F) → List (Finding F)
  unfolding server_id any_binlog gtid_setting
  server_identity name live =
      if not (any_binlog live)
      then server_id name live
      else server_id name live
        ++ (gtid_setting name live "gtid_domain_id" "repl/gtid-domain"
              "every node in the cluster should share the domain: with different ones, a failover inside the cluster rewrites history for every downstream replica reading from it — and nothing inside the cluster notices, because replication here is by writeset"
            ++ gtid_setting name live "gtid_strict_mode" "repl/gtid-strict"
                "the nodes enforce different rules about out-of-order GTIDs, so whether a downstream replica refuses a bad sequence depends on which node it happened to be reading from")

  -- a node whose binary log is off while another's is on
  binlog_off : String → List (Snapshot F) → List (Finding F)
  unfolding is_off is_nil filter sort_strings
  binlog_off name live =
      let off = map (λ s. s.node) (filter (is_off "log_bin") live) in
      let reporting = filter (λ s. not (is_nil (get_bool s "log_bin"))) live in
      if ltb 0 (length off) && ltb (length off) (length reporting)
      then statement "node/binlog" name warn
          ("log_bin is off on " <> join (sort_strings off) ", " <> ", and on elsewhere")
          "no backup, no downstream replica and no point-in-time recovery can be taken from those nodes — which is discovered during a failover, when they are the ones left"
        ∷ []
      else []

  upper_var : String → Snapshot F → String
  upper_var key s = to_upper (trim_space (text_of (get_var s key)))

  format_of : String → List (Snapshot F) → Groups → List (Finding F)
  format_of name formats [] = []
  format_of name formats ((format, nodes) ∷ []) =
      if format == "ROW"
      then []
      else statement "node/binlog-format" name warn
          ("binlog_format is " <> format <> " on all " <> fmt_ℕ (length formats) <> " node(s)")
          "Galera requires ROW — the nodes agree, and they agree on something its own documentation calls unsupported"
        ∷ []
  format_of name formats groups =
      statement "node/binlog-format" name warn
        ("nodes disagree about binlog_format: " <> describe_groups groups)
        "Galera requires ROW; anything else is unsupported for replication here, and it changes what a downstream replica receives depending on which node it reads from"
      ∷ []

  binlog_format : String → List (Snapshot F) → List (Finding F)
  unfolding format_of reporting_var group_by upper_var
  binlog_format name live =
      let formats = reporting_var "binlog_format" live in
      format_of name formats (group_by formats (upper_var "binlog_format"))

  -- the nodes that have the variable, an empty one included
  unfoldable pub with_var : String → List (Snapshot F) → List (Snapshot F)
  unfolding filter is_nil
  with_var key live = filter (λ s. not (is_nil (get_var s key))) live

  binlog_updates : String → List (Snapshot F) → List (Finding F)
  unfolding with_var group_by upper_var any_binlog
  binlog_updates name live =
      let updates = with_var "log_slave_updates" live in
      let groups = group_by updates (upper_var "log_slave_updates") in
      if any_binlog live && ltb 1 (length updates) && ltb 1 (length groups)
      then statement "node/binlog-updates" name warn
          ("nodes disagree about log_slave_updates: " <> describe_groups groups)
          "a node that does not log the writesets it applies cannot be the source of a downstream replica: failing over to it breaks that replica silently, and nothing in the cluster notices"
        ∷ []
      else []

  unfoldable pub binlog : String → List (Snapshot F) → List (Finding F)
  unfolding binlog_off binlog_format binlog_updates
  binlog name live = binlog_off name live ++ (binlog_format name live ++ binlog_updates name live)

module _ {ℓ} {F : Type ℓ} ⦃fl : Float F⦄ where
  open fl use {to_int}

  link_name : ReplicaLink F → String
  link_name link = if link.name == "" then "the default connection" else link.name

  behind_text : Option F → String
  unfolding whole_duration
  behind_text none = ""
  behind_text (some f) = ", " <> duration_string (whole_duration (to_int f)) <> " behind"

  -- one round of the loop over the links of a node
  unfoldable pub link_finding : Snapshot F → ReplicaLink F → Finding F
  unfolding running link_name behind_text
  link_finding s link =
      if not (running link)
      then statement "repl/async-in" s.node bad
          ("async replication from "
            <> link.source
            <> " is configured and not running ("
            <> link_name link
            <> ")"
            <> (if link.last_error == "" then "" else ": " <> link.last_error))
          "somebody believes those writes are arriving in this cluster — and a link that resumes after a long stop replays everything it missed into a cluster that has moved on"
      else statement "repl/async-in" s.node warn
          ("replicating asynchronously from "
            <> link.source
            <> " ("
            <> link_name link
            <> ")"
            <> behind_text link.behind)
          "this is a second write path into the cluster, from a server no cluster check can see: those writes certify like any other, and the cluster has no opinion about where they came from"

  links_of : Snapshot F → List (ReplicaLink F)
  links_of s = elim s.replicas [ none ↦ [] | some links ↦ links ]

  hosts_of : Snapshot F → List String
  hosts_of s = elim s.replica_hosts [ none ↦ [] | some hosts ↦ hosts ]

  async_out : Snapshot F → List String → List (Finding F)
  unfolding sort_strings num
  async_out s [] = []
  async_out s hosts =
      measure "repl/async-out" s.node warn
        (fmt_ℕ (length hosts)
          <> " replica(s) read from this node: "
          <> join (sort_strings hosts) ", ")
        (num F (length hosts)) "replicas"
        "a dependency the rest of the cluster knows nothing about: the next SST rebuilds this node's binary logs out from under them, and so does anything that reinitialises it"
      ∷ []

  unfoldable pub async_node : Snapshot F → List (Finding F)
  unfolding link_finding links_of hosts_of async_out
  async_node s = map (link_finding s) (links_of s) ++ async_out s (hosts_of s)

  unfoldable pub async_replication : List (Snapshot F) → List (Finding F)
  unfolding async_node
  async_replication [] = []
  async_replication (s ∷ ss) = async_node s ++ async_replication ss
