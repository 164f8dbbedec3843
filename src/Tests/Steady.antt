-- ===== src/Tests/Steady.antt =====
-- Two passes over a cluster that stays unreachable, on concrete inputs.
use galera_doctor.Prelude.{
  ℕ, String, ◌≡◌, refl, sym, ◌∙◌, Bool, true, false, not, ◌&&◌, Option, none, some, List, [], ◌∷◌,
  Memᴰ, map, any, any_iff, arith, ◌==◌, eq_iff, Bool-cases, inl, inr,
}
use galera_doctor.Prelude.Int.{ℤ, pos}
use galera_doctor.Go.Map.{Map}
use galera_doctor.Go.Time.{Time}
use galera_doctor.Finding.{Finding, Status, error}
use galera_doctor.Cluster.{readable}
use galera_doctor.Audit.Identity.{nodes_read, readable_nodes}
use galera_doctor.Audit.Backup.{backup_freshness}
use galera_doctor.Audit.Changes.{changes}
use galera_doctor.State.{State, trim_prefix}
use galera_doctor.Go.Text.{strip_prefix}
use galera_doctor.Audit.Drift.{is_empty}
use galera_doctor.Audit.Run.{Report}
use galera_doctor.Config.{ClusterConfig}
use galera_doctor.Command.Pass.{World, Settings, run_once}
use galera_doctor.Command.Watch.{full, transitions, rendered, watch}
use galera_doctor.Command.Watch.Laws.{watch-steady}
use galera_doctor.Output.{text, statuses, report_key}
use galera_doctor.Output
use galera_doctor.Output.Laws.{IsConsistent}
use galera_doctor.Tests.Data.{whole, options, unreadable}

abbrev rfc3339 : Time → String
rfc3339 t = "2026-01-01T00:00:00Z"

-- no node answers
abbrev dark : ℕ → World ℤ
dark clock = record {
  clock = pos clock;
  collect_all = map (λ n. unreadable n.name);
  ask_backup = λ nodes q. record { node = ""; at = none; now = pos 0; err = "" };
  collect_proxy = λ dsn. record {
    at = pos 0;
    servers = [];
    hostgroups = [];
    monitor_enabled = none;
    err = "no proxy";
  };
}

abbrev settings : Settings ℤ
settings = record { options = options; expect = pos 0; proxy_dsn = "" }

abbrev targets : Map ClusterConfig
targets =
    (
      "eu",
      record {
        nodes = record { name = "db1"; dsn = "audit:secret@tcp(db1:3306)/" } ∷ [];
        proxysql_dsn = "";
        expect_nodes = pos 1;
        backup = none;
      },
    )
    ∷ []

abbrev pass : ℕ → Option (State ℤ) → List (Report ℤ) × Option (State ℤ)
pass clock prev = let r = run_once rfc3339 (dark clock) settings targets prev in (r.0, some r.1)

-- a finding that counts and is no error
abbrev is_odd : Finding ℤ → Bool
is_odd f = not (f.check == "audit/changes") && not (f.status == error)

abbrev any_odd : List (Output.Report ℤ) → Bool
any_odd reps = any (λ r. any is_odd r.findings) reps

errors-IsConsistent : (reps : List (Output.Report ℤ)) → any_odd reps ≡ false → IsConsistent reps
errors-IsConsistent reps h r r' f f' (m, n, e) (m', n', e') q =
    is_error r f m n e ∙ sym (is_error r' f' m' n' e')
  where
    is_error :
        (r : Output.Report ℤ) (f : Finding ℤ)
        → Memᴰ r reps
        → Memᴰ f r.findings
        → (f.check == "audit/changes") ≡ false
        → f.status ≡ error
    is_error r f m n e = elim (Bool-cases (f.status == error)) [
      | inl s ↦ (eq_iff f.status error).0 s
      | inr s ↦
          let o : is_odd f ≡ true = rw (e, s) refl in
          let i = (any_iff is_odd r.findings).1 (f, n, o) in
          let j = (any_iff (λ (t : Output.Report ℤ). any is_odd t.findings) reps).1 (r, m, i) in
          absurd (ground (arith, h, j))
    ]

abbrev dark_statuses : Map Status
dark_statuses = ("eu/cluster/membership@eu", error) ∷ ("eu/node/read@db1", error) ∷ []

abbrev first_pass : List (Output.Report ℤ)
first_pass = map rendered ((pass 100 none).0)

abbrev second_pass : List (Output.Report ℤ)
second_pass = map rendered ((pass 160 ((pass 100 none).1)).0)

first_steady : (statuses first_pass ≡ dark_statuses) × (any_odd first_pass ≡ false)
unfolding run_once rendered statuses nodes_read readable readable_nodes backup_freshness changes
    report_key any
first_steady = (refl, refl)

second_steady : (statuses second_pass ≡ dark_statuses) × (any_odd second_pass ≡ false)
unfolding run_once rendered statuses nodes_read readable readable_nodes backup_freshness changes
    report_key any is_empty trim_prefix strip_prefix
second_steady = (refl, refl)

abbrev two_ticks : List (ℕ × Bool)
two_ticks = (100, true) ∷ (160, true) ∷ []

watch-steady_example :
    watch pass none two_ticks ≡ (0, full (text first_pass "") ∷ transitions [] [] ∷ [])
watch-steady_example = watch-steady pass dark_statuses none 100 ((160, true) ∷ []) refl (
  (first_steady.0, errors-IsConsistent first_pass first_steady.1),
  ((second_steady.0, errors-IsConsistent second_pass second_steady.1), tt),
)
