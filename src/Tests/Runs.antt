-- ===== src/Tests/Runs.antt =====
-- The configuration and whole runs on concrete inputs.
use galera_doctor.Prelude.{
  String, ◌≡◌, refl, ◌≢◌, true, Option, none, some, List, [], ◌∷◌, ◌++◌, Memᴰ, All, ◌==◌,
  if◌then◌else◌,
}
use galera_doctor.Prelude.Int.{ℤ, pos}
use galera_doctor.Go.Map.{keys}
use galera_doctor.Go.Text.{trim_space, equal_fold, contains, strip_prefix}
use galera_doctor.Go.Words.{fields, trim_suffix}
use galera_doctor.Go.Time.{Time, Duration}
use galera_doctor.Finding.{at_least, error}
use galera_doctor.Cluster.{Snapshot, readable}
use galera_doctor.Collect.Gate.{read_only}
use galera_doctor.Config.{Backup, File, validate, load_backup, load_proxy, load}
use galera_doctor.Config.Expand.{done, expand}
use galera_doctor.Config.Laws.{IsAuditable, load-IsAuditable}
use galera_doctor.Audit.Groups.{Options, num}
use galera_doctor.Audit.Backup.{backup_freshness}
use galera_doctor.Audit.Changes.{changes}
use galera_doctor.Audit.Run.{Report, report_worst, finish, run}
use galera_doctor.Audit.Run.Laws.{unread, run-unread}
use galera_doctor.Audit.Run.Rerun.{finish-rerun}
use galera_doctor.Tests.Data.{whole, options, node_with, unreadable, said, backup_at}

abbrev rfc3339 : Time → String
rfc3339 t = "2026-01-01T00:00:00Z"

abbrev snaps : List (Snapshot ℤ)
snaps = node_with "db1" [] [] ∷ unreadable "db2" ∷ []

run-unread_example :
    Memᴰ (unread (unreadable "db2")) ((run rfc3339 (pos 9) snaps none options).findings)
    × (at_least (report_worst (run rfc3339 (pos 9) snaps none options)) error ≡ true)
run-unread_example =
    run-unread rfc3339 (pos 9) snaps none options (unreadable "db2") (Memᴰ.tail (Memᴰ.head refl))
      (unfold readable in refl)

abbrev backed_up : Options ℤ
backed_up = record options { backup = some (backup_at none) }

abbrev started : Report ℤ
started = record {
  cluster = "eu";
  at = pos 100;
  nodes = "db1" ∷ [];
  findings = [];
  state = record { version = 2; at = pos 100; nodes = []; findings = [] };
}

finish-rerun_example :
    All
      (λ f. f.value ≡ some (num ℤ 0))
      (changes "eu"
        ((said "node/clock" "eu" "BAD" ∷ []) ++ backup_freshness rfc3339 "eu" backed_up)
        (some ((finish rfc3339 started (said "node/clock" "eu" "BAD" ∷ []) none backed_up).state))
        (pos 2000))
finish-rerun_example =
    finish-rerun rfc3339 started (said "node/clock" "eu" "BAD" ∷ []) none backed_up (pos 2000)

abbrev lookup : String → Option String
lookup k = if k == "DB_PASS" then some "secret" else none

abbrev parse : String → Option Duration
parse v = none

abbrev backup : Backup
backup = record {
  query = "SELECT MAX(finished) FROM backups";
  warn_text = "";
  bad_text = "";
  warn = pos 0;
  bad = pos 0;
}

abbrev written : File
written = record {
  clusters =
      (
        "eu",
        record {
          nodes = record { name = "db1"; dsn = "audit:${DB_PASS}@tcp(db1)/" } ∷ [];
          proxysql_dsn = "";
          expect_nodes = pos 1;
          backup = some backup;
        },
      )
      ∷ [];
}

abbrev loaded : File
loaded = record {
  clusters =
      (
        "eu",
        record {
          nodes = record { name = "db1"; dsn = "audit:secret@tcp(db1)/" } ∷ [];
          proxysql_dsn = "";
          expect_nodes = pos 1;
          backup = some (record backup { warn = pos 93600000000000; bad = pos 180000000000000 });
        },
      )
      ∷ [];
}

loads : load lookup parse written ≡ done loaded
unfolding load expand load_backup load_proxy validate trim_space read_only strip_prefix equal_fold
    fields contains trim_suffix
loads = refl

load-IsAuditable_example :
    (loaded.clusters ≢ [])
    × All (λ p. IsAuditable p.1) loaded.clusters
    × (keys written.clusters ≡ keys loaded.clusters)
load-IsAuditable_example = load-IsAuditable lookup parse written loaded loads
