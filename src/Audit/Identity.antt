-- ===== src/Audit/Identity.antt =====
-- Checks of internal/audit/audit.go on who is in the cluster: splitGalera, notGalera, readable,
-- nodesRead, clusterIdentity, membership, nodeState.
pub mod Laws
use galera_doctor.Prelude.{
  ℕ, String, Bool, true, false, not, ◌&&◌, Option, none, some, List, [], ◌∷◌, ◌++◌, ltb, eqb,
  if◌then◌else◌, ◌==◌, ◌<>◌, filter, length,
}
use galera_doctor.Prelude.Int.{ℤ, pos, eqb_ℤ}
use galera_doctor.Go.Text.{equal_fold, trim_space, to_lower, fmt_ℕ, fmt_ℤ}
use galera_doctor.Go.Float.{Float}
use galera_doctor.Finding.{Finding, Status, ok, warn, bad, error}
use galera_doctor.Cluster.{Snapshot, readable, get_status, get_var, get_bool, get_float}
use galera_doctor.Audit.Groups.{
  Options, text_of, describe_groups, group_by, statement, measure, num,
}

module _ {ℓ} {F : Type ℓ} where
  unfoldable pub readable_nodes : List (Snapshot F) → List (Snapshot F)
  unfolding filter
  readable_nodes = filter readable

  unfoldable pub nodes_read : List (Snapshot F) → List (Finding F)
  nodes_read [] = []
  nodes_read (s ∷ ss) =
      let rest = nodes_read ss in
      if readable s
      then rest
      else statement "node/read" s.node error ("not read: " <> s.err)
          "every cluster-wide finding below was made without this node"
        ∷ rest

  -- the first case of splitGalera's switch
  unfoldable pub is_galera : Snapshot F → Bool
  is_galera s = elim (get_var s "wsrep_provider") [
    | none ↦ false
    | some provider ↦ not (provider == "") && not (equal_fold provider "none")
  ]

  unfoldable pub split_galera : List (Snapshot F) → List (Snapshot F) × List (Snapshot F)
  unfolding is_galera
  split_galera [] = ([], [])
  split_galera (s ∷ ss) =
      let (galera, foreign) = split_galera ss in
      if is_galera s then (s ∷ galera, foreign) else (galera, s ∷ foreign)

  not_galera_message : Snapshot F → String
  unfolding text_of
  not_galera_message s =
      let version = text_of (get_var s "version") in
      let msg : String = "not a Galera node: wsrep_provider is not configured" in
      if version == "" then msg else msg <> " (server " <> version <> ")"

  unfoldable pub not_galera : List (Snapshot F) → List (Finding F)
  unfolding not_galera_message
  not_galera [] = []
  not_galera (s ∷ ss) =
      statement "node/not-galera" s.node error (not_galera_message s)
        "excluded from every cluster comparison — grading it would report an outage that is not happening"
      ∷ not_galera ss

  -- the loop of clusterIdentity over wsrep_cluster_status
  unfoldable pub not_primary : List (Snapshot F) → List (Finding F)
  not_primary [] = []
  not_primary (s ∷ ss) =
      let rest = not_primary ss in
      elim (get_status s "wsrep_cluster_status") [
        | none ↦ rest
        | some status ↦
            if equal_fold status "Primary"
            then rest
            else statement "cluster/primary" s.node bad
                ("cluster status is " <> status <> ", not Primary")
                "a non-Primary node refuses writes and reads stale data: it has lost quorum or was partitioned off"
              ∷ rest
      ]

  unfoldable pub state_uuid : Snapshot F → String
  unfolding text_of
  state_uuid s = text_of (get_status s "wsrep_cluster_state_uuid")

  unfoldable pub conf_id : Snapshot F → String
  unfolding text_of
  conf_id s = text_of (get_status s "wsrep_cluster_conf_id")

  unfoldable pub cluster_size : Snapshot F → String
  unfolding text_of
  cluster_size s = text_of (get_status s "wsrep_cluster_size")

  -- one switch of nodeState: a finding if a Boolean is read and is `expected`
  when_bool : Snapshot F → String → Bool → Finding F → List (Finding F)
  when_bool s key expected f = elim (get_bool s key) [
    | none ↦ []
    | some b ↦ if b then (if expected then f ∷ [] else []) else (if expected then [] else f ∷ [])
  ]

unfoldable pub state_comment : String → Status × String
state_comment comment =
    let c = to_lower (trim_space comment) in
    if c == "synced"
    then (ok, "")
    else if (if c == "donor/desynced" then true else c == "donor")
    then (
      warn,
      "the node is feeding a state transfer: expected while another node joins, a problem if it never ends",
    )
    else if (if c == "joined" then true else c == "joiner")
    then (warn, "the node is catching up and is not yet serving replicated reads consistently")
    else if (if c == "initialized" then true else c == "initializing")
    then (bad, "the node is not part of the cluster: it has not completed its state transfer")
    else (bad, "unexpected local state — the node is neither synced nor knowingly transferring")

module _ {ℓ} {F : Type ℓ} where
  local_state : Snapshot F → List (Finding F)
  unfolding state_comment
  local_state s = elim (get_status s "wsrep_local_state_comment") [
    | none ↦ []
    | some comment ↦
        let (st, hint) = state_comment comment in
        statement "node/state" s.node st ("local state is " <> comment) hint ∷ []
  ]

  one_node_state : Snapshot F → List (Finding F)
  unfolding when_bool local_state
  one_node_state s =
      when_bool s "wsrep_ready" false (
        statement "node/ready" s.node bad "wsrep_ready is OFF"
          "the node is refusing queries that touch replicated tables")
      ++ (when_bool s "wsrep_connected" false (
            statement "node/connected" s.node bad "wsrep_connected is OFF"
              "the node is not part of the group communication at all")
          ++ (when_bool s "wsrep_on" false (
                statement "node/wsrep-on" s.node bad
                  "wsrep_on is OFF: writes on this node are not replicated"
                  "anything written here stays here, and will conflict when the setting is put back")
              ++ (when_bool s "wsrep_desync" true (
                    statement "node/desync" s.node warn "wsrep_desync is ON"
                      "deliberate during a backup or a schema change; left on, the node drifts without flow-controlling the cluster")
                  ++ (local_state s
                      ++ when_bool s "read_only" true (
                          statement "node/read-only" s.node warn "read_only is ON"
                            "expected on a node kept out of the write path; unexpected, it is a failover that never finished")))))

  unfoldable pub node_state : List (Snapshot F) → List (Finding F)
  unfolding one_node_state
  node_state [] = []
  node_state (s ∷ ss) = one_node_state s ++ node_state ss

module _ {ℓ} {F : Type ℓ} ⦃fl : Float F⦄ where
  open fl use {to_int}

  unfoldable pub uuid_split : String → List (Snapshot F) → List (Finding F)
  unfolding num
  uuid_split name live =
      let uuids = group_by live state_uuid in
      if ltb 1 (length uuids)
      then measure "cluster/uuid" name bad
          ("nodes report different cluster state UUIDs: " <> describe_groups uuids)
          (num F (length uuids)) "clusters"
          "this is a partition, not a lag: the groups have diverged and one side has to be reinitialised from the other"
        ∷ []
      else []

  unfoldable pub conf_split : String → List (Snapshot F) → List (Finding F)
  conf_split name live =
      let uuids = group_by live state_uuid in
      let confs = group_by live conf_id in
      if eqb (length uuids) 1 && ltb 1 (length confs)
      then statement "cluster/conf-id" name warn
          ("nodes report different membership configuration ids: " <> describe_groups confs)
          "usually a membership change caught mid-flight — re-run; if it persists, a node is not receiving membership updates"
        ∷ []
      else []

  unfoldable pub cluster_identity : String → List (Snapshot F) → List (Finding F)
  unfolding uuid_split conf_split not_primary
  cluster_identity name live = uuid_split name live ++ (conf_split name live ++ not_primary live)

  -- the loop of membership, which stops at the first node with a size
  unfoldable pub first_size : String → ℤ → List (Snapshot F) → List (Finding F)
  first_size name expect [] = []
  first_size name expect (s ∷ ss) = elim (get_float s "wsrep_cluster_size") [
    | none ↦ first_size name expect ss
    | some size ↦
        let matches = eqb_ℤ (to_int size) expect in
        measure "cluster/size" name (if matches then ok else bad)
          (fmt_ℤ (to_int size) <> " member(s), expected " <> fmt_ℤ expect) size "nodes"
          (if matches
            then ""
            else "expected "
              <> fmt_ℤ expect
              <> " members; a member that left is not replicating and, below quorum, the rest stop accepting writes")
        ∷ []
  ]

  unfoldable pub membership : String → List (Snapshot F) → ℕ → Options F → List (Finding F)
  unfolding first_size
  membership name live configured opt =
      let expect = if eqb_ℤ opt.expect_nodes (pos 0) then pos configured else opt.expect_nodes in
      let sizes = group_by live cluster_size in
      if ltb 1 (length sizes)
      then statement "cluster/size" name bad
          ("nodes disagree about the cluster size: " <> describe_groups sizes)
          "the nodes are not seeing the same membership — check connectivity between the groups above"
        ∷ []
      else first_size name expect live
