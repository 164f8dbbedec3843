-- ===== src/Proxysql.antt =====
-- internal/proxysql/proxysql.go: the proxy's view of the cluster against the cluster's own.
pub mod Laws
pub mod Read
pub mod Checks
pub mod Nodes
pub mod Hostgroups
pub mod Reports
use galera_doctor.Prelude.{
  ℕ, String, Bool, true, false, not, ◌&&◌, Option, none, some, List, [], ◌∷◌, ◌++◌, eqb,
  if◌then◌else◌, ◌==◌, ◌<>◌, length, filter, any,
}
use galera_doctor.Prelude.Int.{ℤ, pos, eqb_ℤ, ltb_ℤ}
use galera_doctor.Go.Text.{fmt_ℕ, fmt_ℤ, join, trim_space, equal_fold}
use galera_doctor.Go.Sort.{sort_by}
use galera_doctor.Go.Float.{Float}
use galera_doctor.Go.Time.{Time}
use galera_doctor.Finding.{Finding, ok, warn, bad, error}
use galera_doctor.Cluster
use galera_doctor.Cluster.{readable, get_status}
use galera_doctor.Cluster.Address.{addresses}
use galera_doctor.Audit.Groups.{statement, measure, num, text_of}

pub record Server : Type 0 where
  pub hostgroup : ℤ
  pub hostname : String
  pub port : ℤ
  pub status : String
  pub weight : ℤ
  pub comment : String

pub record HostgroupSet : Type 0 where
  pub writer : ℤ
  pub backup_writer : ℤ
  pub reader : ℤ
  pub offline : ℤ
  pub active : ℤ

pub record Snapshot : Type 0 where
  pub at : Time
  pub servers : List Server
  pub hostgroups : List HostgroupSet
  pub monitor_enabled : Option Bool
  pub err : String

-- s.MonitorManaged(hostgroup)
unfoldable pub monitor_managed : Snapshot → ℤ → Bool
unfolding any
monitor_managed snap hostgroup = any (λ h. eqb_ℤ h.offline hostgroup) snap.hostgroups

-- the servers outside the offline hostgroups
unfoldable pub serving : Snapshot → List Server
unfolding monitor_managed filter
serving snap = filter (λ srv. not (monitor_managed snap srv.hostgroup)) snap.servers

unfoldable pub or_unknown : String → String
or_unknown s = if trim_space s == "" then "an unknown state" else s

unfoldable pub online : Server → Bool
online srv = equal_fold srv.status "ONLINE"

-- the hostgroups that have a server, each once
unfoldable pub add_group : ℤ → List ℤ → List ℤ
unfolding any
add_group g gs = if any (eqb_ℤ g) gs then gs else gs ++ g ∷ []

unfoldable pub groups_from : List ℤ → List Server → List ℤ
unfolding add_group
groups_from gs [] = gs
groups_from gs (srv ∷ srvs) = groups_from (add_group srv.hostgroup gs) srvs

-- in ascending order
unfoldable pub hostgroups_of : List Server → List ℤ
unfolding groups_from sort_by
hostgroups_of servers = sort_by ltb_ℤ (groups_from [] servers)

unfoldable pub in_group : ℤ → List Server → List Server
unfolding filter
in_group g = filter (λ srv. eqb_ℤ srv.hostgroup g)

module _ {ℓ} {F : Type ℓ} where
  -- whether a server is one of a node's addresses
  unfoldable pub serves : Cluster.Snapshot F → Server → Bool
  unfolding any
  serves node srv = any (λ addr. equal_fold addr srv.hostname) (addresses node)

  unfoldable pub synced : Cluster.Snapshot F → Bool
  synced node = elim (get_status node "wsrep_local_state_comment") [
    | none ↦ false
    | some c ↦ equal_fold (trim_space c) "synced"
  ]

  -- the switch over a matching server
  unfoldable pub disagreement : Cluster.Snapshot F → Server → List (Finding F)
  unfolding or_unknown online synced text_of
  disagreement node srv =
      if online srv
      then (if synced node
          then []
          else statement "proxysql/disagreement" node.node bad
              ("ONLINE in hostgroup "
                <> fmt_ℤ srv.hostgroup
                <> " while the node reports "
                <> or_unknown (text_of (get_status node "wsrep_local_state_comment")))
              "queries are being sent to a node that is not synced: the monitor has not caught up, or it is not running"
            ∷ [])
      else if synced node
      then statement "proxysql/disagreement" node.node warn
          (srv.status
            <> " in hostgroup "
            <> fmt_ℤ srv.hostgroup
            <> " while the node reports Synced")
          "the proxy is refusing a healthy node — a shun that never cleared, or a monitor login that fails"
        ∷ []
      else []

  unfoldable pub disagreements : Cluster.Snapshot F → List Server → List (Finding F)
  unfolding disagreement
  disagreements node [] = []
  disagreements node (srv ∷ srvs) = disagreement node srv ++ disagreements node srvs

  unfoldable pub missing : Cluster.Snapshot F → Finding F
  missing node =
      statement "proxysql/missing" node.node bad
        "the node is in the cluster and not in any serving hostgroup"
        ("no traffic will ever reach it: capacity you are paying for and not using, and a failover target that cannot take over. Tried "
          <> join (addresses node) ", ")

  -- one round of the loop over the nodes, given the servers outside the offline hostgroups
  unfoldable pub node_findings : List Server → Cluster.Snapshot F → List (Finding F)
  unfolding serves disagreements missing filter
  node_findings servers node =
      let match = filter (serves node) servers in
      if not (readable node)
      then []
      else if eqb (length match) 0
      then missing node ∷ []
      else disagreements node match

  unfoldable pub nodes_findings : List Server → List (Cluster.Snapshot F) → List (Finding F)
  unfolding node_findings
  nodes_findings servers [] = []
  nodes_findings servers (node ∷ nodes) = node_findings servers node ++ nodes_findings servers nodes

  unfoldable pub mapping : List HostgroupSet → List (Finding F)
  mapping [] = []
  mapping (h ∷ hs) =
      statement "proxysql/mapping"
        ("hostgroup " <> fmt_ℤ h.writer <> "/" <> fmt_ℤ h.reader <> "/" <> fmt_ℤ h.offline) ok
        ("writer "
          <> fmt_ℤ h.writer
          <> ", backup writer "
          <> fmt_ℤ h.backup_writer
          <> ", reader "
          <> fmt_ℤ h.reader
          <> ", offline "
          <> fmt_ℤ h.offline
          <> " (monitor-managed, not graded)")
        "the offline hostgroup is where ProxySQL's Galera monitor parks nodes on its own: its contents are never a finding"
      ∷ mapping hs

  unfoldable pub monitor_off : Option Bool → List (Finding F)
  monitor_off none = []
  monitor_off (some true) = []
  monitor_off (some false) =
      statement "proxysql/monitor" "proxysql" bad
        "mysql-monitor_enabled is false: nothing is updating the hostgroups"
        "every other proxysql/* finding below is a photograph, not live — the monitor is what moves a desynced node out of the writer hostgroup, so the proxy can agree with a cluster that moved hours ago"
      ∷ []

  unfoldable pub inactive_sets : List HostgroupSet → List (Finding F)
  inactive_sets [] = []
  inactive_sets (h ∷ hs) =
      let rest = inactive_sets hs in
      if not (eqb_ℤ h.active (pos 0))
      then rest
      else statement "proxysql/monitor" ("hostgroup " <> fmt_ℤ h.writer) bad
          ("the Galera hostgroup set for writer " <> fmt_ℤ h.writer <> " is inactive (active=0)")
          "the monitor does not drive an inactive set, so nodes are never moved between these hostgroups: the mapping is a photograph and not live, however well it happens to match right now"
        ∷ rest

  unfoldable pub monitor_running : Snapshot → List (Finding F)
  unfolding monitor_off inactive_sets
  monitor_running snap = monitor_off snap.monitor_enabled ++ inactive_sets snap.hostgroups

module _ {ℓ} {F : Type ℓ} ⦃fl : Float F⦄ where
  -- one round of the loop over the hostgroups
  unfoldable pub group_findings : Snapshot → ℤ → List (Finding F)
  unfolding in_group online filter num
  group_findings snap g =
      let members = in_group g snap.servers in
      if monitor_managed snap g
      then []
      else if eqb (length (filter online members)) 0
      then measure "proxysql/hostgroup" ("hostgroup " <> fmt_ℤ g) bad
          (fmt_ℕ (length members) <> " server(s) configured, none ONLINE") (num F 0) "servers"
          "every query routed to this hostgroup fails"
        ∷ []
      else []

  unfoldable pub groups_findings : Snapshot → List ℤ → List (Finding F)
  unfolding group_findings
  groups_findings snap [] = []
  groups_findings snap (g ∷ gs) = group_findings snap g ++ groups_findings snap gs

  unfoldable pub audit : Snapshot → List (Cluster.Snapshot F) → List (Finding F)
  unfolding monitor_running nodes_findings groups_findings mapping serving hostgroups_of
  audit snap snaps =
      if not (snap.err == "")
      then statement "proxysql/read" "proxysql" error ("admin interface not read: " <> snap.err)
          "no statement about the traffic path was made — the cluster findings still stand"
        ∷ []
      else monitor_running snap
        ++ (nodes_findings (serving snap) snaps
            ++ (groups_findings snap (hostgroups_of snap.servers) ++ mapping snap.hostgroups))
