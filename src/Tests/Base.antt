-- ===== src/Tests/Base.antt =====
-- Findings, the state file and the rates on concrete inputs.
use galera_doctor.Prelude.{filter, ◌≡◌, refl, ◌↔◌, some, List, [], ◌∷◌, eq_iff, arith}
use galera_doctor.Prelude.Int.{ℤ, pos}
use galera_doctor.Go.Map.{get}
use galera_doctor.Finding.{Finding, ok, warn, error, sort_worst_first}
use galera_doctor.Finding.Laws.{IsWorstFirst, same_place, sort_worst_first-IsWorstFirst}
use mathlib.Core.List.{Perm}
use galera_doctor.State.{State, since, scope, merge}
use galera_doctor.State.Since.{Baseline, since_iff}
use galera_doctor.State.Scope.{
  IsFile, or_else, in_cluster, node_in, finding_in, scope-merge, scope-merge_other,
  scope-merge_leak,
}
use galera_doctor.Tests.Data.{whole, said, counted, run}

abbrev mixed : List (Finding ℤ)
mixed =
    said "cluster/flow-control" "db1" warn
    ∷ said "node/read" "db3" error
    ∷ said "cluster/flow-control" "db2" ok
    ∷ said "cluster/flow-control" "db1" warn
    ∷ []

sort_worst_first-IsWorstFirst_example :
    Perm (sort_worst_first mixed) mixed
    × IsWorstFirst (sort_worst_first mixed)
    × (filter (same_place (said "cluster/flow-control" "db1" warn)) (sort_worst_first mixed)
        ≡ filter (same_place (said "cluster/flow-control" "db1" warn)) mixed)
sort_worst_first-IsWorstFirst_example =
    sort_worst_first-IsWorstFirst (said "cluster/flow-control" "db1" warn) mixed

abbrev before_run : State ℤ
before_run = run 100 (("db1", counted 100 7) ∷ [])

since_iff_example :
    (since (some before_run) "db1" "wsrep_flow_control_paused_ns" (counted 160 19)
      ≡ some (record { value = pos 12; elapsed = pos 60 }))
    ↔ Baseline
        (some before_run)
        "db1"
        "wsrep_flow_control_paused_ns"
        (counted 160 19)
        (record { value = pos 12; elapsed = pos 60 })
since_iff_example =
    since_iff (some before_run) "db1" "wsrep_flow_control_paused_ns" (counted 160 19)
      (record { value = pos 12; elapsed = pos 60 })

-- a file with an entry of another cluster
abbrev file : State ℤ
file = run 100 (("us/db1", counted 90 3) ∷ [])

file-IsFile : IsFile file
file-IsFile = (unfold get in (refl, tt), tt)

before_run-IsFile : IsFile before_run
before_run-IsFile = (unfold get in (refl, tt), tt)

scope-merge_example :
    (node_in (scope (some (merge file "eu" before_run)) "eu") "db1"
      ≡ or_else (get "db1" before_run.nodes) (node_in (scope (some file) "eu") "db1"))
    × (finding_in (scope (some (merge file "eu" before_run)) "eu") "db1"
        ≡ or_else (get "db1" before_run.findings) (finding_in (scope (some file) "eu") "db1"))
scope-merge_example =
    scope-merge file before_run "eu" "db1" file-IsFile before_run-IsFile
      (λ e. ground (arith, eq_iff "db1" ""))

scope-merge_other_example :
    (node_in (scope (some (merge file "eu" before_run)) "us") "db1"
      ≡ node_in (scope (some file) "us") "db1")
    × (finding_in (scope (some (merge file "eu" before_run)) "us") "db1"
        ≡ finding_in (scope (some file) "us") "db1")
scope-merge_other_example =
    scope-merge_other file before_run "eu" "us" "db1" file-IsFile
      ((λ e. omega (arith, e)), ((λ e. omega (arith, e)), tt))
      ((λ e. omega (arith, e)), ((λ e. omega (arith, e)), tt))
      (λ e. ground (arith, eq_iff "eu" "us")) (λ e. ground (arith, eq_iff "db1" ""))

scope-merge_leak_example :
    node_in
      (scope (some (merge file (in_cluster "eu" "west") before_run)) "eu")
      (in_cluster "west" "db1")
    ≡ some (counted 100 7)
scope-merge_leak_example =
    scope-merge_leak file before_run "eu" "west" "db1" file-IsFile before_run-IsFile
      (unfold get in refl) (λ e. ground (arith, eq_iff (in_cluster "west" "db1") ""))
