-- ===== src/Tests/Data.antt =====
-- Test data: whole numbers in the place of float64 values, and small clusters.
use Prim.Native.Char.{code}
use galera_doctor.Prelude.{
  ℕ, ◌+◌, ◌-◌, ◌*◌, ◌/◌, String, Bool, Option, none, some, [], ◌∷◌, leb, ◌&&◌, if◌then◌else◌,
}
use galera_doctor.Prelude.Int.{ℤ, pos, ltb_ℤ, leb_ℤ, eqb_ℤ, ◌+ℤ◌, ◌-ℤ◌, ◌*ℤ◌, pos_part}
use galera_doctor.Go.Map.{Map}
use galera_doctor.Go.Text.{fmt_ℤ}
use galera_doctor.Go.Float.{Float}
use galera_doctor.Go.Time.{second, minute}
use galera_doctor.Finding.{Finding, Status}
use galera_doctor.Cluster.{Snapshot}
use galera_doctor.State.{NodeState, State}
use galera_doctor.Audit.Groups.{Options, BackupResult}

abbrev pub parse_digits : ℕ → String → Option ℤ
parse_digits n String.[] = some (pos n)
parse_digits n (String.◌∷◌ c s) =
    let rest = parse_digits (n * 10 + (code c - 48)) s in
    if leb 48 (code c) && leb (code c) 57 then rest else none

-- whole numbers, with the quotient dropped to a whole number
instance abbrev pub whole : Float ℤ
whole = record {
  parse_float = parse_digits 0;
  decimal = λ m k. pos m;
  of_int = λ n. n;
  to_int = λ n. n;
  flt = ltb_ℤ;
  fle = leb_ℤ;
  feq = eqb_ℤ;
  fadd = λ a b. a +ℤ b;
  fsub = λ a b. a -ℤ b;
  fmul = λ a b. a *ℤ b;
  fdiv = λ a b. pos (pos_part a / pos_part b);
  fmt_float = λ n a. fmt_ℤ a;
  trim_float = fmt_ℤ;
}

abbrev pub node_with : String → Map String → Map String → Snapshot ℤ
node_with name status vars = record {
  node = name;
  at = pos 0;
  clock = pos 0;
  status = status;
  vars = vars;
  sys_tables = [];
  app_tables = none;
  tables_no_pk = [];
  transactions = [];
  cascades = [];
  membership = [];
  replicas = none;
  replica_hosts = none;
  data_bytes = none;
  tables_non_innodb = [];
  err = "";
}

abbrev pub unreadable : String → Snapshot ℤ
unreadable name = record (node_with name [] []) { err = "connection refused" }

abbrev pub said : String → String → Status → Finding ℤ
said check target status = record {
  check = check;
  target = target;
  status = status;
  message = "";
  value = none;
  unit = "";
  hint = "";
}

abbrev pub counted : ℕ → ℕ → NodeState ℤ
counted at paused = record {
  at = pos at;
  uptime = pos at;
  gcomm_uuid = "u1";
  counters = ("wsrep_flow_control_paused_ns", pos paused) ∷ [];
}

abbrev pub run : ℕ → Map (NodeState ℤ) → State ℤ
run at nodes = record { version = 2; at = pos at; nodes = nodes; findings = [] }

abbrev pub options : Options ℤ
options = record {
  cluster = "eu";
  expect_nodes = pos 2;
  flow_warn = pos 10;
  flow_bad = pos 50;
  recv_queue_warn = pos 5;
  ist_warn = pos minute;
  transaction_warn = pos minute;
  latency_floor = pos second;
  clock_warn = pos second;
  clock_bad = pos minute;
  backup = none;
  now = pos 1000;
}

abbrev pub backup_at : Option ℤ → BackupResult
backup_at at = record {
  configured = Bool.true;
  node = "db1";
  at = at;
  now = pos 5000;
  err = "";
  warn = pos 1000;
  bad = pos 2000;
}
