-- ===== src/Lib.antt =====
-- galera-doctor reads the nodes of a Galera cluster and reports what is wrong with it. A node's status,
-- variables and tables become one snapshot; the checks of the audit turn the snapshots, and the
-- counters and statuses of the previous run, into findings; a proxy's view is compared with the
-- cluster's; the findings are sorted, filtered and, when watching, compared with the previous round.
--
-- Which file models what (a module's theorems stand in its children):
--   Finding          internal/finding/finding.go: Severity, AtLeast, Summarize, Worst, SortWorstFirst
--   Cluster          internal/cluster/cluster.go: Snapshot and the readers of its values (OK, Get, Var,
--                    Float, Bool, ProviderOption, ReplLatency, Segment, Bytes, Names)
--   Cluster/Address  internal/cluster/cluster.go: Addresses, hostOnly, dedupe
--   State            internal/state/state.go: New, Merge, Scope, Key, Delta, Since; State/File has Load and
--                    Save
--   Audit/...        internal/audit/audit.go, one file for each group of checks: Groups (options and
--                    groupBy), Identity, Rates, Writers, Drift, Readiness, Settings, Tables, Backup,
--                    Changes, Coverage, Increment, Clock, Peers, Appliers, Latency, Replication,
--                    Interpretation; Run composes them. A Go function is the definition of the same
--                    name with underscores (nodesRead is nodes_read); its loops are helpers above it.
--   Collect/...      internal/cluster/collect.go: Gate (ReadOnly), Session (Query and the rows), Tables,
--                    Links and Times (the reads), Nodes (Collect), Backups (AskBackup), All (CollectAll)
--   Config           internal/config/config.go: Load, validate, Names; Config/Expand has expand
--   Command/...      cmd/galera-doctor/main.go: Flags (the arguments and the targets), Pass (runOnce and
--                    the exit code), Watch (the watch loop)
--   Proxysql         internal/proxysql/proxysql.go: Audit, monitorRunning, MonitorManaged; Proxysql/Read
--                    has Collect
--   Output           internal/output/output.go: Text, Changed, Statuses, Summary, Findings
--   Go/...           what the program uses of Go: text, words, sorting, maps, time, host and port, float64
--   Prelude/...      lists and integers over the native numbers
--   Tests/...        concrete inputs
--
-- State. A struct is a record; nil is `none`. A map is an association list in the order of insertion
-- (Go/Map); every place that ranges over a map sorts what it collects, as the source does. The state
-- file of a previous run is an argument, `none` where there is none.
--
-- Numbers. A float64 is a type with the operations of Go/Float, an instance argument: parsing,
-- arithmetic, comparison and printing are parameters, with no law assumed of them. A time is an integer
-- of nanoseconds from the zero time, a duration one of nanoseconds. Int values are unbounded, but the
-- conversion of the gcache window to a duration wraps at 64 bits, and a difference of times saturates,
-- as in the source. Duration.Round's saturation at the ends of the range is left out.
--
-- Text. A string is a list of characters, so that all text is valid UTF-8; folding of case and trimming
-- of white space are of the ASCII characters. Decimal printing works on 20 digits, which every 64-bit
-- number has at most. Calendar dates (time.RFC3339) are a parameter.
--
-- The outside world. A server is a function from a statement to its rows or its error, so that it
-- answers a statement in one way during one read; a session is the list of the statements that it sent
-- and what came of it. What a pass reads (the clock, the nodes, the backup query, the proxy) is a value,
-- and a tick of the watch loop carries that of its pass and whether its output could be written. The
-- goroutines of CollectAll are a step relation: at each step one of those that run stores its snapshot
-- and sends its index, or the caller receives one. The environment, time.Parse, time.ParseDuration, SHA-256, the scan of an int and the driver's text for a cell that cannot be
-- scanned are parameters, with nothing assumed of them. Quotes that %q puts around a text of an error
-- are left out, and so is the path of the configuration file.
--
-- Loops are structural recursion, so every definition is total. sortedKeys sorts as many places as there
-- are keys.
--
-- The state file. A disk is the contents by path. JSON and the outcome of each call of the operating
-- system are parameters; an interruption leaves one of the disks that Save goes through, and a rename is
-- one step.
--
-- Not modelled: the contexts and the lengths of timeouts, reading and decoding the configuration file,
-- the flag package and the usage text, the layout of the printed lines and JSON.
pub mod Prelude
pub mod Go
pub mod Finding
pub mod Cluster
pub mod State
pub mod Audit
pub mod Proxysql
pub mod Output
pub mod Config
pub mod Collect
pub mod Command
pub mod Tests
