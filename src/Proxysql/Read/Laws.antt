-- ===== src/Proxysql/Read/Laws.antt =====
-- What Collect of internal/proxysql/proxysql.go sends, and what it does not look at.
use galera_doctor.Prelude.{
  String, ◌≡◌, refl, ap, ◌∙◌, Bool-cases, Option-cases, inl, inr, Option, List, [], ◌++◌, ◌==◌,
}
use galera_doctor.Prelude.Int.{ℤ}
use galera_doctor.Config.Expand.{Result, done, fail}
use galera_doctor.Collect.Gate.{read_only}
use galera_doctor.Collect.Session
use galera_doctor.Collect.Session.{Rows, Session, query}
use galera_doctor.Collect.Nodes.{Connection, Logged, then_log}
use galera_doctor.Collect.Sends.{
  OnlyReads, query-OnlyReads, none-OnlyReads, then_log-OnlyReads, append-IsReadOnly,
}
use galera_doctor.Proxysql.{Snapshot}
use galera_doctor.Proxysql.Read.{
  hostgroups_query, monitor_query, servers_query, if_answered, scan_servers, read_servers,
  read_monitor, collect,
}

-- rows without the error that ended them
abbrev whole_rows : Result Rows → Result Rows
whole_rows (fail e) = fail e
whole_rows (done r) = done (record r { end = "" })

abbrev pub never_broken : Session.Server → Session.Server
never_broken server st = whole_rows (server st)

-- the same connection, whose rows never end in an error
abbrev pub unbroken : Connection → Connection
unbroken c = record c { server = never_broken c.server }

query-never_broken :
    (server : Session.Server) (q : String) (args : List String)
    → query (never_broken server) q args
      ≡ ((query server q args).0, whole_rows ((query server q args).1))
unfolding query
query-never_broken server q args = elim (Bool-cases (read_only q)) [
  | inl e ↦ rw e refl
  | inr e ↦ rw e refl
]

if_answered-OnlyReads :
    (m : Session Rows) (snap : Snapshot) (set : Rows → Snapshot)
    → OnlyReads m
    → OnlyReads (if_answered m snap set)
unfolding if_answered
if_answered-OnlyReads (sent, fail e) snap set p = record { sent = p.sent }
if_answered-OnlyReads (sent, done r) snap set p = record { sent = p.sent }

if_answered-whole :
    (m : Session Rows) (snap : Snapshot) (set : Rows → Snapshot)
    → ((r : Rows) → set (record r { end = "" }) ≡ set r)
    → if_answered (m.0, whole_rows m.1) snap set ≡ if_answered m snap set
unfolding if_answered
if_answered-whole (sent, fail e) snap set h = refl
if_answered-whole (sent, done r) snap set h = ap (λ s. (sent, s)) (h r)

module _ (scan_error : String) (parse_int : String → Option ℤ) where
  read_monitor-OnlyReads :
      (c : Connection) (snap : Snapshot) → OnlyReads (read_monitor scan_error parse_int c snap)
  unfolding read_monitor
  read_monitor-OnlyReads c snap =
      then_log-OnlyReads _ _
        (if_answered-OnlyReads _ _ _ (query-OnlyReads c.server hostgroups_query []))
        (λ grouped. if_answered-OnlyReads _ _ _ (query-OnlyReads c.server monitor_query []))

  read_servers-OnlyReads :
      (m : Session Rows) (snap : Snapshot) (next : Snapshot → Logged Snapshot)
      → OnlyReads m
      → ((s : Snapshot) → OnlyReads (next s))
      → OnlyReads (read_servers scan_error parse_int m snap next)
  unfolding read_servers
  read_servers-OnlyReads (sent, fail e) snap next p q = record { sent = p.sent }
  read_servers-OnlyReads (sent, done r) snap next p q =
      elim (Option-cases ((scan_servers scan_error parse_int [] r.rows).1)) [
        | inl e ↦ record {
          sent =
              rw (read_servers, e)
                (append-IsReadOnly sent _ p.sent
                  (q (record snap {
                    servers = (scan_servers scan_error parse_int [] r.rows).0;
                  })).sent);
        }
        | inr (x, e) ↦ record { sent = rw (read_servers, e) p.sent }
      ]

  -- Every statement that reading the admin interface sends is a SHOW or a SELECT, as far as the gate can
  -- tell.
  pub collect-OnlyReads : (c : Connection) → OnlyReads (collect scan_error parse_int c)
  unfolding collect
  collect-OnlyReads c = elim (Bool-cases (c.open_error == "")) [
    | inr e ↦ rw e (none-OnlyReads _)
    | inl e ↦ elim (Bool-cases (c.ping_error == "")) [
      | inr f ↦ rw (e, f) (none-OnlyReads _)
      | inl f ↦
          rw (e, f)
            (read_servers-OnlyReads _ _ _ (query-OnlyReads c.server servers_query [])
              (read_monitor-OnlyReads c))
    ]
  ]

  part-unbroken :
      (server : Session.Server) (q : String) (snap : Snapshot) (set : Rows → Snapshot)
      → ((r : Rows) → set (record r { end = "" }) ≡ set r)
      → if_answered (query (never_broken server) q []) snap set
        ≡ if_answered (query server q []) snap set
  part-unbroken server q snap set h =
      ap (λ m. if_answered m snap set) (query-never_broken server q [])
      ∙ if_answered-whole (query server q []) snap set h

  then_log-pointwise :
      (m n : Logged Snapshot) (f g : Snapshot → Logged Snapshot)
      → m ≡ n
      → ((s : Snapshot) → f s ≡ g s)
      → then_log m f ≡ then_log n g
  unfolding then_log
  then_log-pointwise m n f g p h = λ i. ((p i).0 ++ (h ((p i).1) i).0, (h ((p i).1) i).1)

  read_monitor-unbroken :
      (c : Connection) (snap : Snapshot)
      → read_monitor scan_error parse_int (unbroken c) snap
        ≡ read_monitor scan_error parse_int c snap
  unfolding read_monitor
  read_monitor-unbroken c snap =
      then_log-pointwise _ _ _ _ (part-unbroken c.server hostgroups_query snap _ (λ r. refl))
        (λ s. part-unbroken c.server monitor_query s _ (λ r. refl))

  read_servers-whole :
      (m : Session Rows) (snap : Snapshot) (next : Snapshot → Logged Snapshot)
      → read_servers scan_error parse_int (m.0, whole_rows m.1) snap next
        ≡ read_servers scan_error parse_int m snap next
  unfolding read_servers
  read_servers-whole (sent, fail e) snap next = refl
  read_servers-whole (sent, done r) snap next = refl

  read_servers-unbroken :
      (c : Connection) (snap : Snapshot)
      → read_servers scan_error parse_int
          (query (never_broken c.server) servers_query [])
          snap
          (read_monitor scan_error parse_int (unbroken c))
        ≡ read_servers scan_error parse_int
            (query c.server servers_query [])
            snap
            (read_monitor scan_error parse_int c)
  read_servers-unbroken c snap =
      ap
        (λ m.
          read_servers scan_error parse_int m snap (read_monitor scan_error parse_int (unbroken c)))
        (query-never_broken c.server servers_query [])
      ∙ read_servers-whole (query c.server servers_query []) snap _
      ∙ (λ i.
          read_servers scan_error parse_int (query c.server servers_query []) snap
            (λ s. read_monitor-unbroken c s i))

  -- A read whose rows break off in an error is not told from one that was complete: the statements and
  -- the snapshot are those of a connection that brings the same rows and no error at their end.
  pub collect-unbroken :
      (c : Connection) → collect scan_error parse_int (unbroken c) ≡ collect scan_error parse_int c
  unfolding collect
  collect-unbroken c = elim (Bool-cases (c.open_error == "")) [
    | inr e ↦ rw e refl
    | inl e ↦ elim (Bool-cases (c.ping_error == "")) [
      | inr f ↦ rw (e, f) refl
      | inl f ↦ rw (e, f) (read_servers-unbroken c _)
    ]
  ]
