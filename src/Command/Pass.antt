-- ===== src/Command/Pass.antt =====
-- runOnce and the exit code of cmd/galera-doctor/main.go: one audit of every target.
pub mod Laws
pub mod Exit
use galera_doctor.Prelude.{
  ℕ, String, Bool, true, false, not, ◌&&◌, Option, none, some, List, [], ◌∷◌, ◌++◌, if◌then◌else◌,
  ◌==◌, any, map,
}
use galera_doctor.Prelude.Int.{ℤ, pos, eqb_ℤ}
use galera_doctor.Go.Map.{Map, get}
use galera_doctor.Go.Time.{Time, Duration}
use galera_doctor.Go.Float.{Float}
use galera_doctor.Finding.{Status, at_least, sort_worst_first}
use galera_doctor.Cluster.{Node, Snapshot}
use galera_doctor.State.{State, version, scope, merge}
use galera_doctor.Proxysql
use galera_doctor.Proxysql.Read
use galera_doctor.Config.{ClusterConfig}
use galera_doctor.Config
use galera_doctor.Audit.Groups.{Options, BackupResult}
use galera_doctor.Audit.Run.{Report, run, report_worst}
use galera_doctor.Collect.Nodes.{Connection, Switches, Library, collect}
use galera_doctor.Collect.Backups.{BackupAnswer, ask_backup}
use galera_doctor.Command.Flags.{sorted_keys}

-- what a pass reads: the clock, the nodes, the backup query, the proxy
pub record World {ℓ} (F : Type ℓ) : Type ℓ where
  pub clock : Time
  pub collect_all : List Node → List (Snapshot F)
  pub ask_backup : List Node → String → BackupAnswer
  pub collect_proxy : String → Proxysql.Snapshot

-- the flags that a pass uses
pub record Settings {ℓ} (F : Type ℓ) : Type ℓ where
  pub options : Options F
  pub expect : ℤ
  pub proxy_dsn : String

-- the world where the nodes, the backup query and the proxy are read as the program reads them
unfoldable pub collector_world {ℓ} :
    {F : Type ℓ} ⦃fl : Float F⦄
    → Library
    → Switches
    → (Node → Connection)
    → (String → Connection)
    → Time
    → World F
unfolding collect ask_backup
collector_world {F = F} lib sw connect dial clock = record {
  clock = clock;
  collect_all = map (λ n. (collect lib sw (connect n) n).1);
  ask_backup = λ nodes q. (ask_backup F lib connect nodes q).1;
  collect_proxy = λ dsn. (Proxysql.Read.collect lib.scan_error lib.parse_int (dial dsn)).1;
}

module _ {ℓ} {F : Type ℓ} where
  -- the backup query of a cluster, when it declared one
  unfoldable pub ask : World F → List Node → Option Config.Backup → Option BackupResult
  ask w nodes none = none
  ask w nodes (some b) =
      let answer = w.ask_backup nodes b.query in
      some (record {
        configured = true;
        node = answer.node;
        at = answer.at;
        now = answer.now;
        err = answer.err;
        warn = b.warn;
        bad = b.bad;
      })

  -- the options of one cluster
  unfoldable pub target_options : World F → Settings F → String → ClusterConfig → Options F
  unfolding ask
  target_options w s name c = record (s.options) {
    now = w.clock;
    cluster = name;
    expect_nodes = if eqb_ℤ s.expect (pos 0) then c.expect_nodes else s.expect;
    backup = ask w c.nodes c.backup;
  }

  unfoldable pub empty_state : Time → State F
  empty_state now = record { version = version; at = now; nodes = []; findings = [] }

  -- the `--exit-on` of a run that printed
  unfoldable pub exit_code : Status → List (Report F) → ℕ
  unfolding any at_least report_worst
  exit_code exit_on reps =
      if not (exit_on == "") && any (λ r. at_least (report_worst r) exit_on) reps then 1 else 0

module _ {ℓ} {F : Type ℓ} ⦃fl : Float F⦄ (rfc3339 : Time → String) where
  -- the proxy's findings, where there is a proxy
  unfoldable pub with_proxy : World F → String → List (Snapshot F) → Report F → Report F
  unfolding Proxysql.audit sort_worst_first
  with_proxy w dsn snaps rep = if dsn == "" then rep else record rep {
    findings = sort_worst_first (rep.findings ++ Proxysql.audit (w.collect_proxy dsn) snaps);
  }

  -- one round of the loop over the targets, up to the merge
  unfoldable pub audit_target :
      World F → Settings F → Option (State F) → String → ClusterConfig → Report F
  unfolding with_proxy run scope target_options
  audit_target w s prev name c =
      let snaps = w.collect_all c.nodes in
      let rep = run rfc3339 w.clock snaps (scope prev name) (target_options w s name c) in
      let dsn = if s.proxy_dsn == "" then c.proxysql_dsn else s.proxy_dsn in
      with_proxy w dsn snaps rep

  -- the loop: the reports, and the merged state
  unfoldable pub audit_targets :
      World F
      → Settings F
      → Option (State F)
      → Map ClusterConfig
      → State F
      → List String
      → List (Report F) × State F
  unfolding audit_target get merge
  audit_targets w s prev targets merged [] = ([], merged)
  audit_targets w s prev targets merged (name ∷ names) = elim (get name targets) [
    | none ↦ audit_targets w s prev targets merged names
    | some c ↦
        let rep = audit_target w s prev name c in
        let (reps, final) = audit_targets w s prev targets (merge merged name rep.state) names in
        (rep ∷ reps, final)
  ]

  -- runOnce: the reports, and what the next pass compares with
  unfoldable pub run_once :
      World F → Settings F → Map ClusterConfig → Option (State F) → List (Report F) × State F
  unfolding audit_targets empty_state sorted_keys
  run_once w s targets prev =
      audit_targets w s prev targets (empty_state w.clock) (sorted_keys targets)
