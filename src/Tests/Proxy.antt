-- ===== src/Tests/Proxy.antt =====
-- The reads of a proxy on concrete inputs.
use galera_doctor.Prelude.{◌≡◌, refl, some, [], ◌∷◌, length}
use galera_doctor.Prelude.Int.{pos}
use galera_doctor.Config.Expand.{done}
use galera_doctor.Collect.Nodes.{Connection, then_log}
use galera_doctor.Collect.Session.{query}
use galera_doctor.Go.Text.{strip_prefix}
use galera_doctor.Proxysql.Read.{collect}
use galera_doctor.Proxysql.Read.Laws.{unbroken, collect-unbroken}
use galera_doctor.Tests.Data.{parse_digits}

-- one server arrives before the connection breaks
abbrev breaking : Connection
breaking = record {
  open_error = "";
  ping_error = "";
  server = λ st. done (record {
    columns = [];
    rows = (some "10" ∷ some "db1" ∷ some "3306" ∷ some "ONLINE" ∷ some "1" ∷ some "" ∷ []) ∷ [];
    end = "invalid connection";
  });
  started = pos 5;
  asked = pos 6;
}

-- ... and the snapshot has it and no error
breaking_read :
    ((collect "sql: Scan error" (parse_digits 0) breaking).1.err ≡ "")
    × (length ((collect "sql: Scan error" (parse_digits 0) breaking).1.servers) ≡ 1)
unfolding collect query strip_prefix then_log
breaking_read = (refl, refl)

collect-unbroken_example :
    collect "sql: Scan error" (parse_digits 0) (unbroken breaking)
    ≡ collect "sql: Scan error" (parse_digits 0) breaking
collect-unbroken_example = collect-unbroken "sql: Scan error" (parse_digits 0) breaking
