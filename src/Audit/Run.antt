-- ===== src/Audit/Run.antt =====
-- Run of internal/audit/audit.go: one audit of a set of snapshots, from all the checks.
pub mod Laws
pub mod Rerun
use galera_doctor.Prelude.{
  ℕ, String, Bool, true, false, Option, none, some, List, [], ◌∷◌, ◌++◌, eqb, if◌then◌else◌, ◌==◌,
  ◌<>◌, length,
}
use galera_doctor.Prelude.Int.{pos}
use galera_doctor.Go.Time.{Time, Duration, is_zero, second, millisecond, minute}
use galera_doctor.Go.Float.{Float}
use galera_doctor.Finding.{Finding, Status, error, worst, sort_worst_first}
use galera_doctor.Cluster.{Snapshot, names}
use galera_doctor.State.{State, new}
use galera_doctor.Audit.Groups.{BackupResult, Options, statement}
use galera_doctor.Audit.Identity.{
  readable_nodes, nodes_read, split_galera, not_galera, cluster_identity, membership, node_state,
}
use galera_doctor.Audit.Rates.{flow_control, certification, queues, restarted}
use galera_doctor.Audit.Drift.{sys_table_drift, schema_drift}
use galera_doctor.Audit.Readiness.{
  sst_readiness, quorum_settings, gcache_recover, osu_method, evs, transfer_progress,
}
use galera_doctor.Audit.Settings.{
  sync_wait, write_set_limits, durability, segments, flow_settings, applier_triggers, strict_mode,
  versions,
}
use galera_doctor.Audit.Increment.{auto_increment}
use galera_doctor.Audit.Clock.{clock_skew}
use galera_doctor.Audit.Peers.{peer_list, membership_view}
use galera_doctor.Audit.Appliers.{appliers, sst_size}
use galera_doctor.Audit.Latency.{latency}
use galera_doctor.Audit.Replication.{server_identity, async_replication, binlog}
use galera_doctor.Audit.Interpretation.{interpretation}
use galera_doctor.Audit.Writers.{writers, gcache}
use galera_doctor.Audit.Tables.{long_transactions, cascades, storage_engines, primary_keys}
use galera_doctor.Audit.Backup.{backup_freshness}
use galera_doctor.Audit.Changes.{changes, carry}
use galera_doctor.Audit.Coverage.{coverage}

pub record Report {ℓ} (F : Type ℓ) : Type ℓ where
  pub cluster : String
  pub at : Time
  pub nodes : List String
  pub findings : List (Finding F)
  pub state : State F

module _ {ℓ} {F : Type ℓ} where
  -- rep.Worst()
  unfoldable pub report_worst : Report F → Status
  unfolding worst
  report_worst rep = worst rep.findings

  -- what the calls of `add` append
  unfoldable pub concat : List (List (Finding F)) → List (Finding F)
  concat [] = []
  concat (fs ∷ rest) = fs ++ concat rest

  no_member : String → String → String → Finding F
  no_member name message hint = statement "cluster/membership" name error message hint

  -- the options with a time
  unfoldable pub stamped : Time → Options F → Options F
  stamped clock opt = if is_zero opt.now then record opt { now = clock } else opt

module _ {ℓ} (F : Type ℓ) ⦃fl : Float F⦄ where
  open fl use {decimal, of_int}

  -- DefaultOptions at a given time
  unfoldable pub default_options : Time → Options F
  default_options now = record {
    cluster = "";
    expect_nodes = pos 0;
    flow_warn = decimal 1 2;
    flow_bad = decimal 10 2;
    recv_queue_warn = of_int (pos 10);
    ist_warn = pos 1800000000000;
    transaction_warn = pos 300000000000;
    latency_floor = pos 2000000;
    clock_warn = pos 2000000000;
    clock_bad = pos 30000000000;
    backup = none;
    now = now;
  }

module _ {ℓ} {F : Type ℓ} ⦃fl : Float F⦄ (rfc3339 : Time → String) where
  -- the checks of a cluster with a live member, in order
  unfoldable pub live_checks :
      String
      → List (Snapshot F)
      → List (Snapshot F)
      → Option (State F)
      → State F
      → Options F
      → List (List (Finding F))
  live_checks name snaps live prev state opt =
      cluster_identity name live
      ∷ membership name live (length snaps) opt
      ∷ node_state live
      ∷ flow_control live prev state opt
      ∷ certification live prev state
      ∷ queues live opt
      ∷ sys_table_drift name live
      ∷ schema_drift name live
      ∷ sst_readiness name live
      ∷ quorum_settings name live
      ∷ sync_wait name live
      ∷ auto_increment name live
      ∷ gcache_recover live
      ∷ osu_method live
      ∷ clock_skew name live opt
      ∷ write_set_limits name live
      ∷ durability name live
      ∷ segments name live
      ∷ peer_list live
      ∷ flow_settings name live
      ∷ appliers name live
      ∷ sst_size name live
      ∷ latency name live opt
      ∷ server_identity name live
      ∷ applier_triggers name live
      ∷ async_replication live
      ∷ binlog name live
      ∷ writers name live prev state
      ∷ restarted live prev state
      ∷ membership_view name live
      ∷ strict_mode name live
      ∷ interpretation name live
      ∷ evs live
      ∷ long_transactions live opt
      ∷ cascades live
      ∷ transfer_progress live
      ∷ coverage name snaps live prev
      ∷ storage_engines live
      ∷ primary_keys live
      ∷ versions name live
      ∷ gcache live prev state opt
      ∷ []

  -- the findings once the nodes that do not run Galera are set aside
  unfoldable pub galera_checks :
      String
      → List (Snapshot F)
      → List (Snapshot F) × List (Snapshot F)
      → Option (State F)
      → State F
      → Options F
      → List (Finding F)
  unfolding live_checks concat no_member
  galera_checks name snaps (live, foreign) prev state opt =
      not_galera foreign
      ++ (if eqb (length live) 0
          then no_member name "no node in this list is running Galera"
              "nothing was audited as a cluster — check the DSNs, or use a tool for standalone servers"
            ∷ []
          else concat (live_checks name snaps live prev state opt))

  -- the findings up to the call of `finish`
  unfoldable pub checks :
      String → List (Snapshot F) → Option (State F) → State F → Options F → List (Finding F)
  unfolding galera_checks no_member
  checks name snaps prev state opt =
      let live = readable_nodes snaps in
      nodes_read snaps
      ++ (if eqb (length live) 0
          then no_member name "no node could be read"
              "nothing below this line was audited — fix access first"
            ∷ []
          else galera_checks name snaps (split_galera live) prev state opt)

  -- `finish`: the backup, what changed, and what to carry into the next run
  unfoldable pub finish : Report F → List (Finding F) → Option (State F) → Options F → Report F
  finish rep found prev opt =
      let audited = found ++ backup_freshness rfc3339 rep.cluster opt in
      let all = audited ++ changes rep.cluster audited prev opt.now in
      record rep {
        findings = sort_worst_first all;
        state = record (rep.state) { findings = carry all };
      }

  -- the report before the checks; a cluster without a name is called "cluster"
  unfoldable pub empty_report : List (Snapshot F) → Options F → Report F
  unfolding names new
  empty_report snaps opt = record {
    cluster = if opt.cluster == "" then "cluster" else opt.cluster;
    at = opt.now;
    nodes = names snaps;
    findings = [];
    state = new snaps opt.now;
  }

  unfoldable run_at : List (Snapshot F) → Option (State F) → Options F → Report F
  unfolding checks finish empty_report
  run_at snaps prev opt =
      let rep = empty_report snaps opt in
      finish rep (checks rep.cluster snaps prev rep.state opt) prev opt

  -- Run; `clock` is time.Now(), read where the options give no time
  unfoldable pub run : Time → List (Snapshot F) → Option (State F) → Options F → Report F
  unfolding run_at stamped
  run clock snaps prev opt = run_at snaps prev (stamped clock opt)
