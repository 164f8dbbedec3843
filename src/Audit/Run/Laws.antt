-- ===== src/Audit/Run/Laws.antt =====
-- What Run of internal/audit/audit.go keeps: the unreadable nodes, the backup, and a state of maps.
use mathlib.Core.List.Memᴰ
use galera_doctor.Prelude.{
  String, ◌≡◌, sym, ap, true, false, Option, List, [], ◌∷◌, ◌++◌, Memᴰ, ◌<>◌, Bool-cases, inl, inr,
  All-Mem,
}
use galera_doctor.Go.Time.{Time}
use galera_doctor.Go.Float.{Float}
use galera_doctor.Go.Map.{Map, put, IsMap, put-IsMap}
use galera_doctor.Go.Sort.Laws.{sort_by-Mem}
use galera_doctor.Finding.{Finding, error, before, worst, at_least, sort_worst_first}
use galera_doctor.Finding.Laws.{worst-IsGreatest}
use galera_doctor.Cluster.{Snapshot, readable}
use galera_doctor.State.{NodeState, State, new_from, new, node_state}
use galera_doctor.State.Scope.{IsFile}
use galera_doctor.Audit.Groups.{Options, statement}
use galera_doctor.Audit.Identity.{nodes_read}
use galera_doctor.Audit.Backup.{backup_freshness}
use galera_doctor.Audit.Changes.{changes}
use galera_doctor.Audit.Changes.Same.{carry-IsMap}
use galera_doctor.Audit.Run.{
  Report, report_worst, checks, finish, empty_report, run_at, run, stamped,
}

module _ {ℓ} {F : Type ℓ} where
  -- the finding of a node that was not read
  abbrev pub unread : Snapshot F → Finding F
  unread s =
      statement "node/read" s.node error ("not read: " <> s.err)
        "every cluster-wide finding below was made without this node"

  nodes_read-Mem :
      (s : Snapshot F) (snaps : List (Snapshot F))
      → Memᴰ s snaps
      → readable s ≡ false
      → Memᴰ (unread s) (nodes_read snaps)
  unfolding nodes_read
  nodes_read-Mem s [] m h = elim m [ ]
  nodes_read-Mem s (t ∷ snaps) (Memᴰ.head p) h =
      let h' : readable t ≡ false = rw (sym p) h in rw h' (Memᴰ.head (ap unread p))
  nodes_read-Mem s (t ∷ snaps) (Memᴰ.tail m) h = elim (Bool-cases (readable t)) [
    | inl e ↦ rw e (nodes_read-Mem s snaps m h)
    | inr e ↦ rw e (Memᴰ.tail (nodes_read-Mem s snaps m h))
  ]

  -- the worst status of findings is at least that of each
  pub worst-Mem :
      (f : Finding F) (fs : List (Finding F)) → Memᴰ f fs → at_least (worst fs) f.status ≡ true
  worst-Mem f fs m =
      All-Mem (λ g. at_least (worst fs) g.status ≡ true) f fs m (worst-IsGreatest fs).0

module _ {ℓ} {F : Type ℓ} ⦃fl : Float F⦄ where
  new_from-IsMap :
      (now : Time) (out : Map (NodeState F)) (snaps : List (Snapshot F))
      → IsMap out
      → IsMap (new_from now out snaps)
  unfolding new_from
  new_from-IsMap now out [] h = h
  new_from-IsMap now out (s ∷ snaps) h = elim (Bool-cases (readable s)) [
    | inr e ↦ rw e (new_from-IsMap now out snaps h)
    | inl e ↦ rw e (
        new_from-IsMap now (put s.node (node_state s now) out) snaps
          (put-IsMap s.node (node_state s now) out h))
  ]

module _ {ℓ} {F : Type ℓ} ⦃fl : Float F⦄ (rfc3339 : Time → String) where
  -- what the checks found and the backup stay in the report
  finish-Mem :
      (rep : Report F) (found : List (Finding F)) (prev : Option (State F)) (opt : Options F)
      (f : Finding F)
      → Memᴰ f (found ++ backup_freshness rfc3339 rep.cluster opt)
      → Memᴰ f ((finish rfc3339 rep found prev opt).findings)
  unfolding finish sort_worst_first
  finish-Mem rep found prev opt f m = sort_by-Mem before f _ (Memᴰ.append_left _ m)

  finish-IsMap :
      (rep : Report F) (found : List (Finding F)) (prev : Option (State F)) (opt : Options F)
      → IsMap ((finish rfc3339 rep found prev opt).state.findings)
  unfolding finish
  finish-IsMap rep found prev opt =
      let audited = found ++ backup_freshness rfc3339 rep.cluster opt in
      carry-IsMap (audited ++ changes rep.cluster audited prev opt.now)

  -- A node that could not be read is an error in the report, whatever the other nodes are, and the
  -- report's worst status is an error.
  pub run-unread :
      (clock : Time) (snaps : List (Snapshot F)) (prev : Option (State F)) (opt : Options F)
      (s : Snapshot F)
      → Memᴰ s snaps
      → readable s ≡ false
      → let rep = run rfc3339 clock snaps prev opt in
        Memᴰ (unread s) rep.findings × (at_least (report_worst rep) error ≡ true)
  unfolding run run_at checks report_worst
  run-unread clock snaps prev opt s m h =
      let o = stamped clock opt in
      let rep = empty_report rfc3339 snaps o in
      let f =
        finish-Mem rep (checks rfc3339 rep.cluster snaps prev rep.state o) prev o (unread s)
          (Memᴰ.append_left _ (Memᴰ.append_left _ (nodes_read-Mem s snaps m h))) in
      (f, worst-Mem (unread s) _ f)

  -- Where the options have a backup, its finding is in the report, whatever was read of the nodes.
  pub run-backup :
      (clock : Time) (snaps : List (Snapshot F)) (prev : Option (State F)) (opt : Options F)
      (f : Finding F)
      → Memᴰ f
          (backup_freshness rfc3339 (run rfc3339 clock snaps prev opt).cluster (stamped clock opt))
      → Memᴰ f ((run rfc3339 clock snaps prev opt).findings)
  unfolding run run_at
  run-backup clock snaps prev opt f m =
      let o = stamped clock opt in
      let rep = empty_report rfc3339 snaps o in
      let found = checks rfc3339 rep.cluster snaps prev rep.state o in
      finish-Mem rep found prev o f (Memᴰ.append_right found m)

  -- The state that a run carries into the next one has one entry for a node and for a finding.
  pub run-IsFile :
      (clock : Time) (snaps : List (Snapshot F)) (prev : Option (State F)) (opt : Options F)
      → IsFile ((run rfc3339 clock snaps prev opt).state)
  unfolding run run_at empty_report new
  run-IsFile clock snaps prev opt =
      let o = stamped clock opt in
      let rep = empty_report rfc3339 snaps o in
      (
        unfold finish in new_from-IsMap o.now [] snaps tt,
        finish-IsMap rep (checks rfc3339 rep.cluster snaps prev rep.state o) prev o,
      )
