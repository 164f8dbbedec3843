-- ===== src/Audit/Coverage.antt =====
-- coverage of internal/audit/audit.go: what this run could not audit, in one line.
pub mod Laws
use galera_doctor.Prelude.{
  ℕ, String, Bool, true, false, not, ◌&&◌, Option, none, some, List, [], ◌∷◌, ◌++◌, ltb, eqb,
  if◌then◌else◌, ◌<>◌, length, map, filter,
}
use galera_doctor.Go.Text.{fmt_ℕ, join}
use galera_doctor.Go.Time.{is_zero}
use galera_doctor.Go.Float.{Float}
use galera_doctor.Finding.{Finding, Status, ok, warn}
use galera_doctor.Cluster.{Snapshot, readable}
use galera_doctor.State.{State}
use galera_doctor.Audit.Groups.{measure, num}
use galera_doctor.Audit.Drift.{is_empty}

-- v == nil
unfoldable pub is_nil {κ} : {A : Type κ} → Option A → Bool
is_nil none = true
is_nil (some a) = false

-- a gap, if there are nodes in it
unfoldable pub gap : String → List String → List String
gap what nodes = if eqb (length nodes) 0 then [] else (what <> join nodes ", ") ∷ []

unfoldable pub unread_gap : List String → List String
unread_gap nodes =
    if eqb (length nodes) 0
    then []
    else (fmt_ℕ (length nodes) <> " node(s) could not be read (" <> join nodes ", " <> ")") ∷ []

module _ {ℓ} {F : Type ℓ} where
  -- the names of the nodes that fail a test, in order
  unfoldable pub nodes_where : (Snapshot F → Bool) → List (Snapshot F) → List String
  unfolding filter
  nodes_where unread live = map (λ s. s.node) (filter unread live)

  -- the gaps that follow from access, in the order of the code
  unfoldable pub access_gaps : List (Snapshot F) → List (Snapshot F) → List String
  unfolding gap unread_gap nodes_where is_nil
  access_gaps snaps live =
      unread_gap (nodes_where (λ s. not (readable s)) snaps)
      ++ (gap "system table definitions on " (nodes_where (λ s. is_empty s.sys_tables) live)
          ++ (gap "application schemas on " (nodes_where (λ s. is_nil s.app_tables) live)
              ++ (gap "the clock on " (nodes_where (λ s. is_zero s.clock) live)
                  ++ (gap "the dataset size on " (nodes_where (λ s. is_nil s.data_bytes) live)
                      ++ gap "the replication status on "
                          (nodes_where (λ s. is_nil s.replicas && is_nil s.replica_hosts) live)))))

  baseline_gap : Option (State F) → List String
  baseline_gap none =
      "no baseline: the counter checks report lifetime totals instead of the interval" ∷ []
  baseline_gap (some prev) = []

module _ {ℓ} {F : Type ℓ} ⦃fl : Float F⦄ where
  unfoldable pub coverage :
      String → List (Snapshot F) → List (Snapshot F) → Option (State F) → List (Finding F)
  unfolding access_gaps baseline_gap num
  coverage name snaps live prev =
      let from_access = access_gaps snaps live in
      let gaps = from_access ++ baseline_gap prev in
      let access = ltb 0 (length from_access) in
      if eqb (length gaps) 0
      then measure "audit/coverage" name ok
          ("every check ran, across " <> fmt_ℕ (length live) <> " node(s)") (num F (length live))
          "nodes" ""
        ∷ []
      else measure "audit/coverage" name (if access then warn else ok)
          ((if access
              then "audited with gaps: "
              else if ltb 1 (length gaps)
              then "audited with gaps: "
              else "everything was audited, with one caveat: ")
            <> join gaps "; ")
          (num F (length live)) "nodes"
          "an OK from a check that never ran is not an OK — grant the audit user what is missing above, or take the gap into account before believing this report"
        ∷ []
