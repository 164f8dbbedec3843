-- ===== src/Audit/Rates.antt =====
-- Checks of internal/audit/audit.go that grade counters over the interval between two runs:
-- flowControl, certification, restarted; and queues, which are gauges.
pub mod Laws
use galera_doctor.Prelude.{
  ℕ, String, Bool, true, false, not, ◌&&◌, ◌||◌, Option, none, some, List, [], ◌∷◌, ◌++◌, ltb, eqb,
  if◌then◌else◌, ◌==◌, ◌<>◌, length, map, filter,
}
use galera_doctor.Prelude.Int.{ℤ, pos, ltb_ℤ, leb_ℤ, ◌*ℤ◌}
use galera_doctor.Go.Text.{fmt_ℕ, join}
use galera_doctor.Go.Sort.{sort_by}
use galera_doctor.Go.Map.{get, get_or}
use galera_doctor.Go.Time.{Duration, second, minute, round, duration_string, whole_duration}
use galera_doctor.Go.Float.{Float, seconds}
use galera_doctor.Finding.{Finding, Status, ok, warn, bad}
use galera_doctor.Cluster.{Snapshot, get_float, provider_option, bytes}
use galera_doctor.State.{
  State, NodeState, Delta, version, since, node_state_of, fraction, per_second, uptime_fell,
}
use galera_doctor.Audit.Groups.{Options, statement, measure, num}

module _ {ℓ} {F : Type ℓ} ⦃fl : Float F⦄ where
  open fl use {decimal, of_int, to_int, flt, fle, feq, fadd, fmul, fdiv, fmt_float, trim_float}

  percent : ℕ → F → String
  percent places share = fmt_float places (fmul share (decimal 100 0)) <> "%"

  -- a share of the interval against its two thresholds
  unfoldable pub flow_status : Options F → F → Status
  flow_status opt frac =
      if fle opt.flow_bad frac then bad else if fle opt.flow_warn frac then warn else ok

  flow_hint : Options F → F → String
  flow_hint opt frac =
      if fle opt.flow_bad frac
      then "the cluster is being held back by this node: writers everywhere are waiting on it"
      else if fle opt.flow_warn frac
      then "this node is intermittently the slowest in the cluster; look at its disk and its replication threads"
      else ""

  -- without a baseline the lifetime figure is context and is not graded
  flow_lifetime : Snapshot F → List (Finding F)
  unfolding percent
  flow_lifetime s = elim (get_float s "wsrep_flow_control_paused") [
    | none ↦ []
    | some v ↦
        measure "flow/paused" s.node ok
          (percent 1 v <> " of the time since the last status reset (not graded: no baseline)") v
          "fraction"
          "run again with --state to grade the interval between runs instead of the lifetime total"
        ∷ []
  ]

  unfoldable pub flow_node : Option (State F) → State F → Options F → Snapshot F → List (Finding F)
  unfolding flow_lifetime flow_status flow_hint percent
  flow_node prev now opt s =
      elim (since prev s.node "wsrep_flow_control_paused_ns" (node_state_of now s.node)) [
        | none ↦ flow_lifetime s
        | some d ↦
            let frac = fraction d in
            measure "flow/paused" s.node (flow_status opt frac)
              ("flow-controlled "
                <> percent 2 frac
                <> " of the last "
                <> duration_string (round d.elapsed second))
              frac "fraction" (flow_hint opt frac)
            ∷ []
      ]

  unfoldable pub flow_control :
      List (Snapshot F) → Option (State F) → State F → Options F → List (Finding F)
  unfolding flow_node
  flow_control [] prev now opt = []
  flow_control (s ∷ ss) prev now opt = flow_node prev now opt s ++ flow_control ss prev now opt

  unfoldable pub conflict_status : F → Status
  conflict_status ratio =
      if fle (decimal 5 2) ratio then bad else if fle (decimal 5 3) ratio then warn else ok

  conflict_hint : F → String
  conflict_hint ratio =
      if fle (decimal 5 2) ratio
      then "transactions are being rolled back after committing locally: the same rows are being written on more than one node"
      else if fle (decimal 5 3) ratio
      then "some write conflicts across nodes — usually a workload that should be pinned to one writer"
      else ""

  unfoldable pub certification_node : Option (State F) → State F → Snapshot F → List (Finding F)
  unfolding conflict_status conflict_hint percent
  certification_node prev now s =
      let ns = node_state_of now s.node in
      elim (since prev s.node "wsrep_local_cert_failures" ns) [
        | none ↦ []
        | some fails ↦ elim (since prev s.node "wsrep_replicated" ns) [
          | none ↦ []
          | some repl ↦
              let ratio = fdiv fails.value repl.value in
              if feq repl.value (decimal 0 0)
              then []
              else measure "repl/cert-failures" s.node (conflict_status ratio)
                  (fmt_float 0 fails.value
                    <> " certification failure(s) out of "
                    <> fmt_float 0 repl.value
                    <> " writesets in the last "
                    <> duration_string (round fails.elapsed second)
                    <> " ("
                    <> percent 3 ratio
                    <> ")")
                  ratio "fraction" (conflict_hint ratio)
                ∷ []
        ]
      ]

  unfoldable pub certification : List (Snapshot F) → Option (State F) → State F → List (Finding F)
  unfolding certification_node
  certification [] prev now = []
  certification (s ∷ ss) prev now = certification_node prev now s ++ certification ss prev now

  -- a queue at or above the threshold
  unfoldable pub deep_queue :
      Options F → Snapshot F → String → String → String → String → List (Finding F)
  deep_queue opt s key check what hint = elim (get_float s key) [
    | none ↦ []
    | some q ↦
        if fle opt.recv_queue_warn q
        then measure check s.node warn (fmt_float 0 q <> what) q "writesets" hint ∷ []
        else []
  ]

  unfoldable pub queues : List (Snapshot F) → Options F → List (Finding F)
  unfolding deep_queue
  queues [] opt = []
  queues (s ∷ ss) opt =
      deep_queue opt s "wsrep_local_recv_queue" "queue/recv" " writesets waiting to be applied"
        "this node is applying more slowly than the cluster writes; it is the next one to flow-control"
      ++ (deep_queue opt s "wsrep_local_send_queue" "queue/send" " writesets waiting to be sent"
            "the node cannot push to the group fast enough — look at the network before the disk"
          ++ queues ss opt)

  -- the text of a number of whole seconds
  whole_seconds : F → String
  unfolding whole_duration
  whole_seconds f = duration_string (whole_duration (to_int f))

  -- why a node is taken to have restarted, if it is
  unfoldable pub restart_reason : NodeState F → NodeState F → Option String
  unfolding whole_seconds uptime_fell
  restart_reason earlier current =
      if not (earlier.gcomm_uuid == "")
        && not (current.gcomm_uuid == "")
        && not (earlier.gcomm_uuid == current.gcomm_uuid)
      then some "its group communication UUID changed"
      else if uptime_fell earlier.uptime current.uptime
      then some (
          "its uptime went from "
          <> whole_seconds earlier.uptime
          <> " to "
          <> whole_seconds current.uptime)
      else none

  restarted_node : State F → State F → Snapshot F → List (Finding F)
  unfolding restart_reason
  restarted_node prev now s = elim (get s.node prev.nodes) [
    | none ↦ []
    | some earlier ↦ elim (get s.node now.nodes) [
      | none ↦ []
      | some current ↦ elim (restart_reason earlier current) [
        | none ↦ []
        | some why ↦
            statement "node/restarted" s.node warn
              ("this node restarted since the previous run: " <> why)
              "every counter on it started again from zero, which is why the rate checks above report no baseline for it — and if nobody planned this restart, that is the finding rather than the rates"
            ∷ []
      ]
    ]
  ]

  restarted_from : State F → State F → List (Snapshot F) → List (Finding F)
  unfolding restarted_node
  restarted_from prev now [] = []
  restarted_from prev now (s ∷ ss) = restarted_node prev now s ++ restarted_from prev now ss

  unfoldable pub restarted : List (Snapshot F) → Option (State F) → State F → List (Finding F)
  unfolding restarted_from
  restarted live none now = []
  restarted live (some prev) now =
      if not (eqb prev.version version) then [] else restarted_from prev now live
