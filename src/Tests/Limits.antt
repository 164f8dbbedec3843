-- ===== src/Tests/Limits.antt =====
-- Settings and the gcache window on concrete inputs.
use galera_doctor.Prelude.{
  ℕ, some, ◌⊎◌, length, ◌≤◌, ◌≡◌, refl, List, [], ◌∷◌, ◌<>◌, All, filter, arith,
}
use galera_doctor.Prelude.Int.{ℤ, pos, ◌+ℤ◌}
use galera_doctor.Go.Map.{get}
use galera_doctor.Go.Text.{to_lower, trim_space}
use galera_doctor.Go.Float.{seconds}
use galera_doctor.Go.Time.{second}
use galera_doctor.Finding.{ok, warn}
use galera_doctor.Cluster.{Snapshot, get_var, get_status}
use galera_doctor.State.{State, NodeState, Delta, per_second}
use galera_doctor.Audit.Groups.{group_by, reporting_var, reports, var_value, describe_groups}
use galera_doctor.Audit.Settings.{ws_limit}
use galera_doctor.Audit.Settings.Laws.{NoStatus, ws_limit_unnamed}
use galera_doctor.Audit.Writers.{writing, tally, writers, window, graded_gcache}
use galera_doctor.Audit.Writers.Laws.{IsMeasured, sorted_shares, writers-graded, gcache_overflow}
use galera_doctor.Tests.Data.{run, whole, node_with, options}

abbrev limits : List (Snapshot ℤ)
limits =
    node_with "db1" [] (("wsrep_max_ws_size", "1000") ∷ ("wsrep_sync_wait", "0") ∷ [])
    ∷ node_with "db2" [] (("wsrep_max_ws_size", "500") ∷ ("wsrep_sync_wait", "1") ∷ [])
    ∷ []

limits-NoStatus : NoStatus "wsrep_max_ws_size" (reporting_var "wsrep_max_ws_size" limits)
unfolding reporting_var filter reports get_var get_status get to_lower trim_space
limits-NoStatus = (refl, (refl, tt))

ws_limit_unnamed_example :
    All
      (λ f.
        f.message
        ≡ "nodes disagree about "
          <> "wsrep_max_ws_size"
          <> ": "
          <> describe_groups
              (group_by (reporting_var "wsrep_max_ws_size" limits) (var_value "wsrep_max_ws_size")))
      (ws_limit "eu" limits "wsrep_max_ws_size")
ws_limit_unnamed_example = ws_limit_unnamed "eu" limits "wsrep_max_ws_size" limits-NoStatus

-- a byte a second
abbrev idle : Delta ℤ
idle = record { value = pos 1; elapsed = pos second }

rate_of_idle : per_second idle ≡ pos 1
unfolding per_second seconds ◌+ℤ◌
rate_of_idle = refl

gcache_overflow_example :
    (graded_gcache options
      (node_with "db1" [] [])
      "10G"
      (window (pos 10000000000) idle)
      (per_second idle)).status
    ≡ warn
gcache_overflow_example =
    gcache_overflow options (node_with "db1" [] []) "10G" (pos 10000000000) idle 10000000000
      60000000000 (rw rate_of_idle refl) (omega arith) (omega arith) refl

abbrev replicated : ℕ → ℕ → NodeState ℤ
replicated at n = record {
  at = pos at;
  uptime = pos at;
  gcomm_uuid = "u1";
  counters = ("wsrep_replicated", pos n) ∷ [];
}

abbrev first_run : State ℤ
first_run = run 100 (("db1", replicated 100 5) ∷ ("db2", replicated 100 50) ∷ [])

abbrev second_run : State ℤ
second_run = run 160 (("db1", replicated 160 45) ∷ ("db2", replicated 160 90) ∷ [])

writers-graded_example :
    All
      (λ f.
        (f.status ≡ ok)
        ⊎ (All (IsMeasured (some first_run) second_run) limits
            × (2
                ≤ length (
                    writing
                      (tally (some first_run) second_run limits).total
                      (sorted_shares (some first_run) second_run limits)))))
      (writers "eu" limits (some first_run) second_run)
writers-graded_example = writers-graded "eu" limits (some first_run) second_run
