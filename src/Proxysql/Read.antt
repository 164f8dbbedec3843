-- ===== src/Proxysql/Read.antt =====
-- Collect of internal/proxysql/proxysql.go: one read of the admin interface. The driver's text for a cell
-- that cannot be scanned and its reading of an int are parameters; the timeout is an error that the
-- connection brings.
pub mod Laws
use galera_doctor.Prelude.{
  String, Bool, not, ◌||◌, Option, none, some, List, [], ◌∷◌, ◌++◌, if◌then◌else◌, ◌==◌,
}
use galera_doctor.Prelude.Int.{ℤ}
use galera_doctor.Go.Text.{trim_space, equal_fold}
use galera_doctor.Config.Expand.{done, fail}
use galera_doctor.Collect.Session.{Cell, Rows, Session, query}
use galera_doctor.Collect.Tables.{null_string}
use galera_doctor.Collect.Nodes.{Connection, Logged, then_log}
use galera_doctor.Proxysql.{Server, HostgroupSet, Snapshot}

abbrev pub servers_query : String
servers_query =
    "SELECT hostgroup_id, hostname, port, status, weight, comment\n\t                                       FROM runtime_mysql_servers ORDER BY hostgroup_id, hostname"

abbrev pub hostgroups_query : String
hostgroups_query =
    "SELECT writer_hostgroup, backup_writer_hostgroup, reader_hostgroup,\n\t                                           offline_hostgroup, active\n\t                                      FROM runtime_mysql_galera_hostgroups"

abbrev pub monitor_query : String
monitor_query =
    "SELECT variable_value FROM runtime_global_variables\n\t                                         WHERE variable_name = 'mysql-monitor_enabled'"

-- the loop over mysql-monitor_enabled: the last value that can be read stands
unfoldable pub scan_monitor : Option Bool → List (List Cell) → Option Bool
scan_monitor on [] = on
scan_monitor on ((some v ∷ []) ∷ rs) =
    scan_monitor (some (equal_fold (trim_space v) "true" || (trim_space v == "1"))) rs
scan_monitor on (_ ∷ rs) = scan_monitor on rs

-- NULL is no int
unfoldable pub int_cell : (String → Option ℤ) → Cell → Option ℤ
int_cell parse_int none = none
int_cell parse_int (some v) = parse_int v

-- a statement whose error leaves the snapshot as it is
unfoldable pub if_answered : Session Rows → Snapshot → (Rows → Snapshot) → Logged Snapshot
if_answered (sent, fail e) snap set = (sent, snap)
if_answered (sent, done r) snap set = (sent, set r)

module _ (scan_error : String) (parse_int : String → Option ℤ) where
  unfoldable pub scan_server : List Cell → Option Server
  unfolding int_cell null_string
  scan_server (group ∷ some host ∷ port ∷ some state ∷ load ∷ note ∷ []) =
      elim (int_cell parse_int group) [
        | none ↦ none
        | some g ↦ elim (int_cell parse_int port) [
          | none ↦ none
          | some p ↦ elim (int_cell parse_int load) [
            | none ↦ none
            | some w ↦ some (record {
              hostgroup = g;
              hostname = host;
              port = p;
              status = state;
              weight = w;
              comment = null_string note;
            })
          ]
        ]
      ]
  scan_server _ = none

  -- the loop over the servers: those before the first row that cannot be scanned, and its error
  unfoldable pub scan_servers : List Server → List (List Cell) → List Server × Option String
  unfolding scan_server
  scan_servers out [] = (out, none)
  scan_servers out (r ∷ rs) = elim (scan_server r) [
    | none ↦ (out, some scan_error)
    | some s ↦ scan_servers (out ++ s ∷ []) rs
  ]

  unfoldable pub scan_hostgroup : List Cell → Option HostgroupSet
  unfolding int_cell
  scan_hostgroup (c1 ∷ c2 ∷ c3 ∷ c4 ∷ c5 ∷ []) = elim (int_cell parse_int c1) [
    | none ↦ none
    | some w ↦ elim (int_cell parse_int c2) [
      | none ↦ none
      | some b ↦ elim (int_cell parse_int c3) [
        | none ↦ none
        | some r ↦ elim (int_cell parse_int c4) [
          | none ↦ none
          | some o ↦ elim (int_cell parse_int c5) [
            | none ↦ none
            | some a ↦
                some (record { writer = w; backup_writer = b; reader = r; offline = o; active = a })
          ]
        ]
      ]
    ]
  ]
  scan_hostgroup _ = none

  -- the loop over the hostgroups: a row that cannot be scanned is passed over
  unfoldable pub scan_hostgroups : List (List Cell) → List HostgroupSet
  unfolding scan_hostgroup
  scan_hostgroups [] = []
  scan_hostgroups (r ∷ rs) = elim (scan_hostgroup r) [
    | none ↦ scan_hostgroups rs
    | some h ↦ h ∷ scan_hostgroups rs
  ]

  -- the servers, without which nothing else is read; how the rows ended is not looked at
  unfoldable pub read_servers :
      Session Rows → Snapshot → (Snapshot → Logged Snapshot) → Logged Snapshot
  unfolding scan_servers
  read_servers (sent, fail e) snap next = (sent, record snap { err = e })
  read_servers (sent, done r) snap next =
      let (found, stopped) = scan_servers [] r.rows in
      let (more, full) = next (record snap { servers = found }) in
      elim stopped [
        | none ↦ (sent ++ more, full)
        | some e ↦ (sent, record snap { servers = found; err = e })
      ]

  -- the reads whose failure is passed over
  unfoldable pub read_monitor : Connection → Snapshot → Logged Snapshot
  unfolding if_answered scan_hostgroups scan_monitor
  read_monitor c snap =
      then_log
        (if_answered (query c.server hostgroups_query []) snap
          (λ r. record snap { hostgroups = scan_hostgroups r.rows }))
        (λ grouped.
          if_answered (query c.server monitor_query []) grouped
            (λ r. record grouped { monitor_enabled = scan_monitor none r.rows }))

  -- Collect: the statements that were sent, and the snapshot
  unfoldable pub collect : Connection → Logged Snapshot
  unfolding read_servers read_monitor
  collect c =
      let snap : Snapshot = record {
        at = c.started;
        servers = [];
        hostgroups = [];
        monitor_enabled = none;
        err = "";
      } in
      if not (c.open_error == "")
      then ([], record snap { err = c.open_error })
      else if not (c.ping_error == "")
      then ([], record snap { err = "admin interface not reachable" })
      else read_servers (query c.server servers_query []) snap (read_monitor c)
