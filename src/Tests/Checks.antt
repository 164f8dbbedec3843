-- ===== src/Tests/Checks.antt =====
-- The checks on concrete clusters.
use galera_doctor.Prelude.{◌≤◌, ◌≡◌, refl, ◌≢◌, ◌↔◌, some, List, [], ◌∷◌, All, arith, map, length}
use galera_doctor.Prelude.Int.{ℤ, pos}
use galera_doctor.Go.Map.{get, get_or, put}
use galera_doctor.Go.Text.{to_lower}
use galera_doctor.Finding.{Finding, ok, bad}
use galera_doctor.Cluster.{Snapshot, get_status}
use galera_doctor.State.{State}
use galera_doctor.Audit.Groups.{group_by, gather, add_to_group, group_name, text_of}
use galera_doctor.Audit.Groups.Laws.{Disagree}
use galera_doctor.Audit.Identity.{
  state_uuid, conf_id, cluster_size, uuid_split, conf_split, membership,
}
use galera_doctor.Audit.Identity.Laws.{
  uuid_split_iff, conf_split-only, HasSize, expected_size, membership_verdict,
}
use galera_doctor.Audit.Rates.{flow_control}
use galera_doctor.Audit.Rates.Laws.{OkOrGraded, flow_grade, flow_control-graded}
use galera_doctor.Audit.Backup.{backup_result}
use galera_doctor.Audit.Backup.Laws.{IsFresh, backup_result-ok}
use galera_doctor.Tests.Data.{whole, node_with, counted, run, options, backup_at}

-- two nodes that disagree about the cluster, and one that was not read
abbrev db1 : Snapshot ℤ
db1 =
    node_with "db1"
      (("wsrep_cluster_size", "2")
        ∷ ("wsrep_cluster_state_uuid", "a")
        ∷ ("wsrep_cluster_conf_id", "5")
        ∷ [])
      (("wsrep_on", "ON") ∷ [])

abbrev db2 : Snapshot ℤ
db2 =
    node_with "db2" (("wsrep_cluster_size", "1") ∷ ("wsrep_cluster_state_uuid", "b") ∷ [])
      (("wsrep_on", "OFF") ∷ [])

abbrev db4 : Snapshot ℤ
db4 = node_with "db4" (("wsrep_cluster_state_uuid", "a") ∷ ("wsrep_cluster_conf_id", "6") ∷ []) []

abbrev pair : List (Snapshot ℤ)
pair = db1 ∷ db2 ∷ []

uuid_split-iff_example : (uuid_split "eu" pair ≢ []) ↔ Disagree state_uuid pair
uuid_split-iff_example = uuid_split_iff "eu" pair

membership_verdict_example :
    (length (membership "eu" pair 2 options) ≤ 1)
    × ((f : Finding ℤ)
        → membership "eu" pair 2 options ≡ f ∷ []
        → f.status ≡ ok
        → (¬ (Disagree cluster_size pair)) × HasSize (expected_size 2 options) pair)
    × (Disagree cluster_size pair → map (λ f. f.status) (membership "eu" pair 2 options) ≡ bad ∷ [])
membership_verdict_example = membership_verdict "eu" pair 2 options

-- one state UUID, and two configuration ids
abbrev moved_on : List (Snapshot ℤ)
moved_on = db1 ∷ db4 ∷ []

one_uuid : length (group_by moved_on state_uuid) ≡ 1
unfolding group_by gather add_to_group get_or put get group_name get_status state_uuid text_of
    to_lower
one_uuid = refl

two_confs : length (group_by moved_on conf_id) ≡ 2
unfolding group_by gather add_to_group get_or put get group_name get_status conf_id text_of to_lower
two_confs = refl

conf_split-moved_on : conf_split "eu" moved_on ≢ []
unfolding conf_split
conf_split-moved_on e = ground (arith, e, one_uuid, two_confs)

conf_split-only_example : (¬ (Disagree state_uuid moved_on)) × Disagree conf_id moved_on
conf_split-only_example = conf_split-only "eu" moved_on conf_split-moved_on

abbrev before_run : State ℤ
before_run = run 100 (("db1", counted 100 7) ∷ [])

abbrev now_run : State ℤ
now_run = run 160 (("db1", counted 160 40) ∷ [])

flow_control-graded_example :
    All
      (OkOrGraded
        (some before_run)
        now_run
        "wsrep_flow_control_paused_ns"
        (flow_grade (some before_run) now_run options)
        pair)
      (flow_control pair (some before_run) now_run options)
flow_control-graded_example = flow_control-graded (some before_run) now_run options pair

backup_result-ok_example :
    ((backup_result {F = ℤ} (λ t. "a date") "eu" (backup_at (some (pos 4500))) (pos 5000)).status
      ≡ ok)
    ↔ IsFresh (backup_at (some (pos 4500))) (pos 5000)
backup_result-ok_example =
    backup_result-ok ℤ (λ t. "a date") "eu" (backup_at (some (pos 4500))) (pos 5000)
