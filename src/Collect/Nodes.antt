-- ===== src/Collect/Nodes.antt =====
-- Collect of internal/cluster/collect.go: one read of a node. Timeouts are errors that a connection
-- brings; their lengths are not modelled.
use galera_doctor.Prelude.{
  String, Bool, true, false, not, Option, none, some, List, [], ◌++◌, if◌then◌else◌, ◌==◌,
}
use galera_doctor.Prelude.Int.{ℤ, pos}
use galera_doctor.Go.Map.{Map}
use galera_doctor.Go.Time.{Time}
use galera_doctor.Go.Float.{Float}
use galera_doctor.Cluster.{Node, Snapshot}
use galera_doctor.Config.Expand.{done, fail}
use galera_doctor.Collect.Session.{Server, Session, Statement, or_default}
use galera_doctor.Collect.Tables.{
  key_value, sys_table_fingerprints, app_table_fingerprints, tables_without_pk,
  tables_not_replicated, cascading_keys, dataset_bytes,
}
use galera_doctor.Collect.Links.{replica_links, replica_hosts, membership_view}
use galera_doctor.Collect.Times.{redact, server_clock, open_transactions}

-- what a node is to the collector: the errors of opening and of the ping ("" for none), the server, and
-- the two readings of the clock
pub record Connection : Type 0 where
  pub open_error : String
  pub ping_error : String
  pub server : Server
  pub started : Time
  pub asked : Time

-- the Collector's two switches
pub record Switches : Type 0 where
  pub skip_sys_tables : Bool
  pub skip_schema : Bool

-- what is under no file of the repository: the driver, time.Parse, SHA-256, the scan of an int
pub record Library : Type 0 where
  pub scan_error : String
  pub parse_time : String → String → Option Time
  pub sha256 : String → String
  pub parse_int : String → Option ℤ

-- a log and a value
abbrev pub Logged {ℓ} : Type ℓ → Type ℓ
Logged A = List Statement × A

unfoldable pub then_log {ℓ κ} : {A : Type ℓ} {B : Type κ} → Logged A → (A → Logged B) → Logged B
then_log (sent, a) f = let (more, b) = f a in (sent ++ more, b)

-- a read that a switch turns off
unfoldable pub unless {ℓ} : {A : Type ℓ} → Bool → A → Logged A → Logged A
unless true a m = ([], a)
unless false a m = m

-- an error is nil, a value is not
unfoldable pub optional {ℓ} : {A : Type ℓ} → Session A → Logged (Option A)
optional (sent, done a) = (sent, some a)
optional (sent, fail e) = (sent, none)

module _ {ℓ} {F : Type ℓ} ⦃fl : Float F⦄ (lib : Library) where
  unfoldable pub no_snapshot : Node → Time → Snapshot F
  no_snapshot n at = record {
    node = n.name;
    at = at;
    clock = pos 0;
    status = [];
    vars = [];
    sys_tables = [];
    app_tables = none;
    tables_no_pk = [];
    transactions = [];
    cascades = [];
    membership = [];
    replicas = none;
    replica_hosts = none;
    data_bytes = none;
    tables_non_innodb = [];
    err = "";
  }

  -- the reads of the schemas, which SkipSysTables and SkipSchema turn off
  unfoldable pub read_schemas : Switches → Server → Snapshot F → Logged (Snapshot F)
  read_schemas sw server snap =
      then_log
        (unless sw.skip_sys_tables []
          (or_default [] (sys_table_fingerprints lib.scan_error lib.sha256 lib.parse_int server)))
        (λ sys_tables.
          then_log
            (unless sw.skip_schema none
              (optional (app_table_fingerprints lib.scan_error lib.sha256 lib.parse_int server)))
            (λ app_tables.
              then_log
                (unless sw.skip_schema [] (or_default [] (tables_without_pk lib.scan_error server)))
                (λ no_pk.
                  then_log
                    (unless sw.skip_schema []
                      (or_default [] (tables_not_replicated lib.scan_error server)))
                    (λ not_replicated.
                      then_log
                        (unless sw.skip_schema none
                          (optional (dataset_bytes F lib.scan_error server)))
                        (λ bytes. (
                          [],
                          record snap {
                            sys_tables = sys_tables;
                            app_tables = app_tables;
                            tables_no_pk = no_pk;
                            tables_non_innodb = not_replicated;
                            data_bytes = bytes;
                          },
                        ))))))

  -- the reads after them
  unfoldable pub read_links : Switches → Server → Snapshot F → Logged (Snapshot F)
  read_links sw server snap = then_log (optional (replica_links server)) (λ replicas.
      then_log (optional (replica_hosts server)) (λ hosts.
        then_log
          (or_default [] (open_transactions F lib.scan_error lib.parse_time lib.parse_int server))
          (λ transactions.
            then_log
              (unless sw.skip_schema [] (or_default [] (cascading_keys lib.scan_error server)))
              (λ cascades. then_log (or_default [] (membership_view server)) (λ members. (
                [],
                record snap {
                  replicas = replicas;
                  replica_hosts = hosts;
                  transactions = transactions;
                  cascades = cascades;
                  membership = members;
                },
              ))))))

  unfoldable pub read_details : Switches → Server → Snapshot F → Logged (Snapshot F)
  read_details sw server snap = then_log (read_schemas sw server snap) (read_links sw server)

  -- a key-value read that has to succeed: `set` puts the map in, and the error ends the read of the node
  unfoldable pub must_read :
      String
      → Session (Map String × String)
      → Snapshot F
      → (Map String → Snapshot F)
      → (Snapshot F → Logged (Snapshot F))
      → Logged (Snapshot F)
  unfolding redact
  must_read dsn (sent, fail e) snap set next = (sent, record snap { err = redact e dsn })
  must_read dsn (sent, done (m, end)) snap set next =
      let (more, full) = next (set m) in
      if end == "" then (sent ++ more, full) else (sent, record (set m) { err = redact end dsn })

  -- the status and the variables, without which nothing else is read
  unfoldable pub read_node : Switches → Connection → Node → Snapshot F → Logged (Snapshot F)
  read_node sw c n snap =
      must_read n.dsn (key_value lib.scan_error c.server "SHOW GLOBAL STATUS") snap
        (λ status. record snap { status = status })
        (λ with_status.
          must_read n.dsn (key_value lib.scan_error c.server "SHOW GLOBAL VARIABLES") with_status
            (λ vars. record with_status { vars = vars }) (read_details sw c.server))

  -- c.Collect(n): the statements that were sent, and the snapshot
  unfoldable pub collect : Switches → Connection → Node → Logged (Snapshot F)
  unfolding no_snapshot redact
  collect sw c n =
      let snap = no_snapshot n c.started in
      if not (c.open_error == "")
      then ([], record snap { err = redact c.open_error n.dsn })
      else if not (c.ping_error == "")
      then ([], record snap { err = redact c.ping_error n.dsn })
      else then_log (or_default (pos 0) (server_clock F lib.scan_error lib.parse_time c.server))
          (λ clock. read_node sw c n (record snap { at = c.asked; clock = clock }))
