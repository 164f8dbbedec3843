-- ===== src/Tests/Commands.antt =====
-- Passes, the collector, the configuration and the watch loop on concrete inputs.
use galera_doctor.Prelude.{
  ◌⊎◌, ◌≤◌, ℕ, suc, String, ◌≡◌, refl, ◌≢◌, ◌↔◌, inr, Bool, true, false, none, some, List, [], ◌∷◌,
  map, Memᴰ, All, arith, eq_iff, ◌==◌, if◌then◌else◌,
}
use galera_doctor.Prelude.Int.{ℤ, pos}
use galera_doctor.Go.Map.{Map, get, keys}
use galera_doctor.Go.Sort.{sort_strings}
use galera_doctor.Go.Time.{Time}
use galera_doctor.Finding.{Finding, warn, bad, error, severity}
use galera_doctor.Cluster.{Node, readable}
use galera_doctor.State.Scope.{NoSlash}
use galera_doctor.Config.{ClusterConfig}
use galera_doctor.Config.Expand.{done}
use galera_doctor.Audit.Run.{Report}
use galera_doctor.Collect.Session.{Server}
use galera_doctor.Collect.Nodes.{Connection, Switches, Library, collect}
use galera_doctor.Collect.Backups.{ask_backup}
use galera_doctor.Collect.All.{
  Progress, Step, stores, Reach, here, next, started, goroutines, empty_slots, put_slot,
}
use galera_doctor.Collect.Sends.{OnlyReads}
use galera_doctor.Collect.ReadOnly.{collect-OnlyReads, ask_backup-OnlyReads}
use galera_doctor.Collect.Finish.{steps, collect_all_ends}
use galera_doctor.Collect.Failures.{collect-unreachable}
use galera_doctor.Command.Flags.{sorted_keys}
use galera_doctor.Command.Sorted.{sorted_keys-sort_strings}
use galera_doctor.Command.Pass.{World, Settings, collector_world, exit_code, audit_target, run_once}
use galera_doctor.Command.Pass.Laws.{SeesOwn, run_once-scope}
use galera_doctor.Command.Pass.Exit.{Reaches, exit_code_iff, run_once-unreachable}
use galera_doctor.Command.Watch.{watch}
use galera_doctor.Command.Watch.Laws.{all_written, described, passes, watch-passes}
use galera_doctor.Tests.Data.{whole, options, node_with, unreadable, said}

abbrev rfc3339 : Time → String
rfc3339 t = "2026-01-01T00:00:00Z"

abbrev library : Library
library = record {
  scan_error = "sql: Scan error";
  parse_time = λ layout v. none;
  sha256 = λ s. "00112233445566778899";
  parse_int = λ s. none;
}

abbrev both : Switches
both = record { skip_sys_tables = false; skip_schema = false }

-- a server that answers every statement with one row of two cells
abbrev answers : Server
answers st = done (record {
  columns = "Variable_name" ∷ "Value" ∷ [];
  rows = (some "wsrep_cluster_size" ∷ some "2" ∷ []) ∷ [];
  end = "";
})

abbrev dial_error : String
dial_error = "dial tcp: connection refused"

-- the second node does not answer
abbrev connect : Node → Connection
connect n = record {
  open_error = "";
  ping_error = if n.name == "db2" then dial_error else "";
  server = answers;
  started = pos 5;
  asked = pos 6;
}

abbrev db1 : Node
db1 = record { name = "db1"; dsn = "audit:secret@tcp(db1:3306)/" }

abbrev db2 : Node
db2 = record { name = "db2"; dsn = "audit:secret@tcp(db2:3306)/" }

abbrev cluster_of : List Node → ClusterConfig
cluster_of nodes = record { nodes = nodes; proxysql_dsn = ""; expect_nodes = pos 2; backup = none }

abbrev targets : Map ClusterConfig
targets = ("us", cluster_of (db1 ∷ [])) ∷ ("eu", cluster_of (db1 ∷ db2 ∷ [])) ∷ []

abbrev no_proxy : String → Connection
no_proxy dsn = record {
  open_error = "no proxy";
  ping_error = "";
  server = answers;
  started = pos 5;
  asked = pos 6;
}

abbrev settings : Settings ℤ
settings = record { options = options; expect = pos 0; proxy_dsn = "" }

refused : dial_error ≢ ""
refused e = ground (arith, eq_iff dial_error "")

run_once-unreachable_example :
    exit_code error (
      (run_once rfc3339
        (collector_world library both connect no_proxy (pos 100))
        settings
        targets
        none).0)
    ≡ 1
run_once-unreachable_example =
    run_once-unreachable rfc3339 library both connect no_proxy (pos 100) settings none targets error
      "eu" (cluster_of (db1 ∷ db2 ∷ [])) db2 (λ e. ground (arith, eq_iff error ""))
      (unfold get in refl) (Memᴰ.tail (Memᴰ.head refl)) (inr refused)

-- the reads of two clusters, of which one has a node that was read
abbrev world : World ℤ
world = record {
  clock = pos 100;
  collect_all = map (λ n. if n.name == "db2" then unreadable "db2" else node_with n.name [] []);
  ask_backup = λ nodes q. record { node = ""; at = none; now = pos 0; err = "" };
  collect_proxy = λ dsn. record {
    at = pos 0;
    servers = [];
    hostgroups = [];
    monitor_enabled = none;
    err = "no proxy";
  };
}

targets-NoSlash : All NoSlash (keys targets)
targets-NoSlash =
    unfold keys in
    (
      ((λ e. omega (arith, e)), ((λ e. omega (arith, e)), tt)),
      (((λ e. omega (arith, e)), ((λ e. omega (arith, e)), tt)), tt),
    )

run_once-scope_example :
    SeesOwn
      ((run_once rfc3339 world settings targets none).1)
      "us"
      "db1"
      ((audit_target rfc3339 world settings none "us" (cluster_of (db1 ∷ []))).state)
run_once-scope_example =
    run_once-scope rfc3339 world settings none targets targets-NoSlash "us" "db1"
      (cluster_of (db1 ∷ [])) (unfold get in refl) (λ e. ground (arith, eq_iff "db1" ""))

sorted_keys-sort_strings_example : sorted_keys targets ≡ sort_strings (keys targets)
sorted_keys-sort_strings_example = sorted_keys-sort_strings targets

abbrev report : Finding ℤ → Report ℤ
report f = record {
  cluster = "eu";
  at = pos 100;
  nodes = "db1" ∷ [];
  findings = f ∷ [];
  state = record { version = 2; at = pos 100; nodes = []; findings = [] };
}

exit_code_iff_example :
    (exit_code warn (report (said "node/clock" "eu" bad) ∷ []) ≡ 1)
    ↔ Reaches warn (report (said "node/clock" "eu" bad) ∷ [])
exit_code_iff_example =
    exit_code_iff warn (report (said "node/clock" "eu" bad) ∷ []) (unfold severity in omega arith)

collect-OnlyReads_example : OnlyReads (collect {F = ℤ} library both (connect db1) db1)
collect-OnlyReads_example = collect-OnlyReads library both (connect db1) db1

ask_backup-OnlyReads_example :
    OnlyReads (ask_backup ℤ library connect (db1 ∷ db2 ∷ []) "DELETE FROM backups")
ask_backup-OnlyReads_example =
    ask_backup-OnlyReads ℤ library connect (db1 ∷ db2 ∷ []) "DELETE FROM backups"

-- the second node is done first
abbrev two_nodes : List Node
two_nodes = db1 ∷ db2 ∷ []

abbrev second_done : Progress Node String
second_done = record {
  slots = none ∷ some "db2" ∷ [];
  running = (0, db1) ∷ [];
  channel = 1 ∷ [];
  waiting = 2;
}

second-first : Reach (λ (n : Node). n.name) (started String two_nodes) second_done
second-first =
    unfold started goroutines empty_slots put_slot in
    next here (stores ((0, db1) ∷ []) [] 1 db2 refl refl)

collect_all_ends_example :
    (((second_done.waiting ≡ 0) × (second_done.slots ≡ map (λ (n : Node). some n.name) two_nodes))
      ⊎ ((q : Progress Node String) × Step (λ (n : Node). n.name) second_done q))
    × (steps (λ (n : Node). n.name) second-first ≤ 4)
collect_all_ends_example =
    collect_all_ends (λ (n : Node). n.name) two_nodes second_done second-first

collect-unreachable_example :
    (readable ((collect {F = ℤ} library both (connect db2) db2).1) ≡ false)
    × ((collect {F = ℤ} library both (connect db2) db2).0 ≡ [])
collect-unreachable_example = collect-unreachable ℤ library both (connect db2) db2 (inr refused)

abbrev steady : Bool → ℕ → List (Report ℤ) × ℕ
steady w s = (report (said "node/clock" "eu" bad) ∷ [], suc s)

abbrev two_ticks : List (Bool × Bool)
two_ticks = (true, true) ∷ (false, true) ∷ []

watch-passes_example :
    watch steady 0 two_ticks
    ≡ ((if all_written steady two_ticks then 0 else 2), described (passes steady 0 two_ticks))
watch-passes_example = watch-passes steady 0 two_ticks
