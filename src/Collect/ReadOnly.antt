-- ===== src/Collect/ReadOnly.antt =====
-- Which statements internal/cluster/collect.go sends: only what the gate passes.
use galera_doctor.Prelude.{String, Option, none, List, [], ◌∷◌, Bool-cases, inl, inr, ◌==◌}
use galera_doctor.Prelude.Int.{ℤ, pos}
use galera_doctor.Go.Time.{Time}
use galera_doctor.Go.Map.{Map}
use galera_doctor.Go.Float.{Float}
use galera_doctor.Cluster.{Node, Snapshot}
use galera_doctor.Config.Expand.{done, fail}
use galera_doctor.Collect.Session.{Server, Session}
use galera_doctor.Collect.Tables.{
  key_value, sys_table_fingerprints, app_table_fingerprints, tables_without_pk,
  tables_not_replicated, cascading_keys, dataset_bytes,
}
use galera_doctor.Collect.Links.{replica_links, replica_hosts, membership_view}
use galera_doctor.Collect.Times.{server_clock, open_transactions}
use galera_doctor.Collect.Nodes.{
  Connection, Switches, Library, Logged, must_read, read_schemas, read_links, read_details,
  read_node, collect,
}
use galera_doctor.Collect.Backups.{BackupAnswer, ask_node, ask_from, ask_backup}
use galera_doctor.Collect.Sends.{
  OnlyReads, append-IsReadOnly, query-OnlyReads, none-OnlyReads, then_ask-OnlyReads,
  or_ask-OnlyReads, then_log-OnlyReads, unless-OnlyReads, optional-OnlyReads, or_default-OnlyReads,
  read-OnlyReads, make-OnlyReads,
}

module _ (e : String) (server : Server) where
  key_value-OnlyReads : (q : String) → OnlyReads (key_value e server q)
  unfolding key_value
  key_value-OnlyReads q = make-OnlyReads server _ _ _ _

  tables_without_pk-OnlyReads : OnlyReads (tables_without_pk e server)
  unfolding tables_without_pk
  tables_without_pk-OnlyReads = make-OnlyReads server _ _ _ _

  tables_not_replicated-OnlyReads : OnlyReads (tables_not_replicated e server)
  unfolding tables_not_replicated
  tables_not_replicated-OnlyReads = read-OnlyReads server _ _ _

  cascading_keys-OnlyReads : OnlyReads (cascading_keys e server)
  unfolding cascading_keys
  cascading_keys-OnlyReads = read-OnlyReads server _ _ _

  replica_hosts-OnlyReads : OnlyReads (replica_hosts server)
  unfolding replica_hosts
  replica_hosts-OnlyReads =
      then_ask-OnlyReads _ _
        (or_ask-OnlyReads _ _ (query-OnlyReads server _ _) (query-OnlyReads server _ _))
        (λ r. none-OnlyReads _)

  membership_view-OnlyReads : OnlyReads (membership_view server)
  unfolding membership_view
  membership_view-OnlyReads = read-OnlyReads server _ _ _

  module _ (sha256 : String → String) (parse_int : String → Option ℤ) where
    sys_table_fingerprints-OnlyReads : OnlyReads (sys_table_fingerprints e sha256 parse_int server)
    unfolding sys_table_fingerprints
    sys_table_fingerprints-OnlyReads = make-OnlyReads server _ _ _ _

    app_table_fingerprints-OnlyReads : OnlyReads (app_table_fingerprints e sha256 parse_int server)
    unfolding app_table_fingerprints
    app_table_fingerprints-OnlyReads = make-OnlyReads server _ _ _ _

  module _ {ℓ} (F : Type ℓ) ⦃fl : Float F⦄ where
    replica_links-OnlyReads : OnlyReads (replica_links {F = F} server)
    unfolding replica_links
    replica_links-OnlyReads =
        then_ask-OnlyReads _ _
          (or_ask-OnlyReads _ _ (query-OnlyReads server _ _) (query-OnlyReads server _ _))
          (λ r. none-OnlyReads _)

    dataset_bytes-OnlyReads : OnlyReads (dataset_bytes F e server)
    unfolding dataset_bytes
    dataset_bytes-OnlyReads = read-OnlyReads server _ _ _

    module _ (parse_time : String → String → Option Time) where
      server_clock-OnlyReads : OnlyReads (server_clock F e parse_time server)
      unfolding server_clock
      server_clock-OnlyReads = read-OnlyReads server _ _ _

      open_transactions-OnlyReads :
          (parse_int : String → Option ℤ)
          → OnlyReads (open_transactions F e parse_time parse_int server)
      unfolding open_transactions
      open_transactions-OnlyReads parse_int = read-OnlyReads server _ _ _

-- a key-value read and what follows it
must_read-OnlyReads {ℓ} :
    {F : Type ℓ} ⦃fl : Float F⦄ (lib : Library) (dsn : String) (m : Session (Map String × String))
    (snap : Snapshot F) (set : Map String → Snapshot F) (next : Snapshot F → Logged (Snapshot F))
    → OnlyReads m
    → ((s : Snapshot F) → OnlyReads (next s))
    → OnlyReads (must_read lib dsn m snap set next)
unfolding must_read
must_read-OnlyReads lib dsn (sent, fail e) snap set next p q = record { sent = p.sent }
must_read-OnlyReads lib dsn (sent, done (m, end)) snap set next p q =
    elim (Bool-cases (end == "")) [
      | inl e ↦ record {
        sent = rw e (append-IsReadOnly sent (next (set m)).0 p.sent (q (set m)).sent);
      }
      | inr e ↦ record { sent = rw e p.sent }
    ]

module _ {ℓ} {F : Type ℓ} ⦃fl : Float F⦄ (lib : Library) where
  read_schemas-OnlyReads :
      (sw : Switches) (server : Server) (snap : Snapshot F)
      → OnlyReads (read_schemas lib sw server snap)
  unfolding read_schemas
  read_schemas-OnlyReads sw server snap =
      then_log-OnlyReads _ _
        (unless-OnlyReads sw.skip_sys_tables [] _ (
          or_default-OnlyReads [] _
            (sys_table_fingerprints-OnlyReads lib.scan_error server lib.sha256 lib.parse_int)))
        (λ a.
          then_log-OnlyReads _ _
            (unless-OnlyReads sw.skip_schema none _ (
              optional-OnlyReads _
                (app_table_fingerprints-OnlyReads lib.scan_error server lib.sha256 lib.parse_int)))
            (λ b.
              then_log-OnlyReads _ _
                (unless-OnlyReads sw.skip_schema [] _
                  (or_default-OnlyReads [] _ (tables_without_pk-OnlyReads lib.scan_error server)))
                (λ c.
                  then_log-OnlyReads _ _
                    (unless-OnlyReads sw.skip_schema [] _ (
                      or_default-OnlyReads [] _
                        (tables_not_replicated-OnlyReads lib.scan_error server)))
                    (λ d.
                      then_log-OnlyReads _ _
                        (unless-OnlyReads sw.skip_schema none _
                          (optional-OnlyReads _ (dataset_bytes-OnlyReads lib.scan_error server F)))
                        (λ e. none-OnlyReads _)))))

  read_links-OnlyReads :
      (sw : Switches) (server : Server) (snap : Snapshot F)
      → OnlyReads (read_links lib sw server snap)
  unfolding read_links
  read_links-OnlyReads sw server snap =
      then_log-OnlyReads _ _
        (optional-OnlyReads _ (replica_links-OnlyReads lib.scan_error server F))
        (λ a.
          then_log-OnlyReads _ _
            (optional-OnlyReads _ (replica_hosts-OnlyReads lib.scan_error server))
            (λ b.
              then_log-OnlyReads _ _
                (or_default-OnlyReads [] _ (
                  open_transactions-OnlyReads lib.scan_error server F lib.parse_time lib.parse_int))
                (λ c.
                  then_log-OnlyReads _ _
                    (unless-OnlyReads sw.skip_schema [] _
                      (or_default-OnlyReads [] _ (cascading_keys-OnlyReads lib.scan_error server)))
                    (λ d.
                      then_log-OnlyReads _ _
                        (or_default-OnlyReads [] _
                          (membership_view-OnlyReads lib.scan_error server))
                        (λ e. none-OnlyReads _)))))

  read_node-OnlyReads :
      (sw : Switches) (c : Connection) (n : Node) (snap : Snapshot F)
      → OnlyReads (read_node lib sw c n snap)
  unfolding read_node read_details
  read_node-OnlyReads sw c n snap =
      must_read-OnlyReads lib _ _ _ _ _ (key_value-OnlyReads lib.scan_error c.server _)
        (λ with_status.
          must_read-OnlyReads lib _ _ _ _ _ (key_value-OnlyReads lib.scan_error c.server _)
            (λ with_vars.
              then_log-OnlyReads _ _ (read_schemas-OnlyReads sw c.server with_vars)
                (read_links-OnlyReads sw c.server)))

  -- Every statement that reading a node sends is a SHOW or a SELECT, as far as the gate can tell.
  pub collect-OnlyReads :
      (sw : Switches) (c : Connection) (n : Node) → OnlyReads (collect {F = F} lib sw c n)
  unfolding collect
  collect-OnlyReads sw c n = elim (Bool-cases (c.open_error == "")) [
    | inr e ↦ rw e (none-OnlyReads _)
    | inl e ↦ rw e (elim (Bool-cases (c.ping_error == "")) [
      | inr e' ↦ rw e' (none-OnlyReads _)
      | inl e' ↦ rw e' (
          then_log-OnlyReads _ _
            (or_default-OnlyReads (pos 0) _
              (server_clock-OnlyReads lib.scan_error c.server F lib.parse_time))
            (λ clock. read_node-OnlyReads sw c n _))
    ])
  ]

module _ {ℓ} (F : Type ℓ) ⦃fl : Float F⦄ (lib : Library) where
  ask_node-OnlyReads : (c : Connection) (n : Node) (q : String) → OnlyReads (ask_node F lib c n q)
  unfolding ask_node
  ask_node-OnlyReads c n q = elim (Bool-cases (c.open_error == "")) [
    | inr e ↦ rw e (none-OnlyReads _)
    | inl e ↦ rw e (
        then_log-OnlyReads _ _
          (or_default-OnlyReads c.started _
            (server_clock-OnlyReads lib.scan_error c.server F lib.parse_time))
          (λ now. record { sent = (query-OnlyReads c.server q []).sent }))
  ]

  ask_from-OnlyReads :
      (connect : Node → Connection) (q : String) (last : BackupAnswer) (nodes : List Node)
      → OnlyReads (ask_from F lib connect q last nodes)
  unfolding ask_from
  ask_from-OnlyReads connect q last [] = none-OnlyReads last
  ask_from-OnlyReads connect q last (n ∷ ns) =
      let b = ask_node F lib (connect n) n q in
      let p = ask_node-OnlyReads (connect n) n q in
      let more = ask_from-OnlyReads connect q b.1 ns in
      elim (Bool-cases (b.1.err == "")) [
        | inl e ↦ record { sent = rw e p.sent }
        | inr e ↦ record {
          sent = rw e (append-IsReadOnly b.0 (ask_from F lib connect q b.1 ns).0 p.sent more.sent);
        }
      ]

  -- Every statement that a backup query leads to is a SHOW or a SELECT, as far as the gate can tell,
  -- whatever the text of the query is.
  pub ask_backup-OnlyReads :
      (connect : Node → Connection) (nodes : List Node) (q : String)
      → OnlyReads (ask_backup F lib connect nodes q)
  unfolding ask_backup
  ask_backup-OnlyReads connect nodes q = ask_from-OnlyReads connect q _ nodes
