-- ===== src/State.antt =====
-- internal/state/state.go: the previous run's counters, which turn totals into rates.
pub mod Since
pub mod Scope
pub mod File
use galera_doctor.Prelude.{
  ℕ, suc, String, Bool, true, false, not, ◌&&◌, ◌||◌, Option, none, some, List, [], ◌∷◌, eqb,
  if◌then◌else◌, ◌==◌, ◌<>◌,
}
use galera_doctor.Prelude.Int.{ℤ, pos, negsuc, ltb_ℤ, leb_ℤ}
use galera_doctor.Go.Text.{strip_prefix, trim_space}
use galera_doctor.Go.Map.{Map, get, get_or, put}
use galera_doctor.Go.Time.{Time, Duration, is_zero, time_sub, second}
use galera_doctor.Go.Float.{Float, seconds}
use galera_doctor.Cluster.{Snapshot, readable, get_status, get_float}

abbrev pub version : ℕ
version = 2

abbrev pub counters : List String
counters =
    "wsrep_flow_control_paused_ns" ∷ "wsrep_local_cert_failures" ∷ "wsrep_local_bf_aborts"
    ∷ "wsrep_replicated" ∷ "wsrep_replicated_bytes" ∷ "wsrep_received_bytes" ∷ []

pub record NodeState {ℓ} (F : Type ℓ) : Type ℓ where
  pub at : Time
  pub uptime : F
  pub gcomm_uuid : String
  pub counters : Map F

pub record State {ℓ} (F : Type ℓ) : Type ℓ where
  pub version : ℕ
  pub at : Time
  pub nodes : Map (NodeState F)
  pub findings : Map String

pub record Delta {ℓ} (F : Type ℓ) : Type ℓ where
  pub value : F
  pub elapsed : Duration

-- Key
unfoldable pub key : String → String → String
key check target = check <> "@" <> target

-- The prefix must leave something.
unfoldable pub trim_prefix : String → String → Option String
trim_prefix s prefix = elim (strip_prefix prefix s) [
  | none ↦ none
  | some rest ↦ if rest == "" then none else some rest
]

module _ {ℓ} {V : Type ℓ} where
  -- a loop of Merge over one map
  unfoldable pub merge_from : String → Map V → Map V → Map V
  merge_from cluster out [] = out
  merge_from cluster out ((k, v) ∷ m) = merge_from cluster (put (cluster <> "/" <> k) v out) m

  -- a loop of Scope over one map
  unfoldable pub scope_from : String → Map V → Map V → Map V
  scope_from prefix out [] = out
  scope_from prefix out ((k, v) ∷ m) = elim (trim_prefix k prefix) [
    | none ↦ scope_from prefix out m
    | some n ↦ scope_from prefix (put n v out) m
  ]

module _ {ℓ} {F : Type ℓ} where
  -- s.Merge(cluster, from); the loop over no findings is the early return
  unfoldable pub merge : State F → String → State F → State F
  unfolding merge_from
  merge s cluster from = record s {
    nodes = merge_from cluster s.nodes from.nodes;
    findings = merge_from cluster s.findings from.findings;
  }

  -- s.Scope(cluster); a nil state stays nil
  unfoldable pub scope : Option (State F) → String → Option (State F)
  unfolding scope_from
  scope none cluster = none
  scope (some s) cluster = some (record {
    version = s.version;
    at = s.at;
    nodes = scope_from (cluster <> "/") [] s.nodes;
    findings = scope_from (cluster <> "/") [] s.findings;
  })

module _ {ℓ} {F : Type ℓ} ⦃fl : Float F⦄ where
  open fl use {decimal, of_int, flt, fsub, fdiv}

  -- the zero value of a NodeState
  unfoldable pub no_node_state : NodeState F
  no_node_state = record { at = pos 0; uptime = decimal 0 0; gcomm_uuid = ""; counters = [] }

  -- now.Nodes[node]
  unfoldable pub node_state_of : State F → String → NodeState F
  unfolding no_node_state get_or
  node_state_of s node = get_or node no_node_state s.nodes

  -- the loop of New over the counters
  read_counters : Snapshot F → Map F → List String → Map F
  unfolding get_float
  read_counters s out [] = out
  read_counters s out (k ∷ ks) =
      read_counters s (elim (get_float s k) [ none ↦ out | some v ↦ put k v out ]) ks

  unfoldable pub node_state : Snapshot F → Time → NodeState F
  unfolding read_counters get_float get_status
  node_state s now = record {
    at = if is_zero s.at then now else s.at;
    uptime = elim (get_float s "uptime") [ none ↦ decimal 0 0 | some up ↦ up ];
    gcomm_uuid = elim (get_status s "wsrep_gcomm_uuid") [ none ↦ "" | some uuid ↦ trim_space uuid ];
    counters = read_counters s [] counters;
  }

  -- the loop of New over the snapshots
  unfoldable pub new_from : Time → Map (NodeState F) → List (Snapshot F) → Map (NodeState F)
  new_from now out [] = out
  new_from now out (s ∷ ss) =
      new_from now (if readable s then put s.node (node_state s now) out else out) ss

  unfoldable pub new : List (Snapshot F) → Time → State F
  unfolding new_from
  new snaps now = record {
    version = version;
    at = now;
    nodes = new_from now [] snaps;
    findings = [];
  }

  -- d.PerSecond()
  unfoldable pub per_second : Delta F → F
  unfolding seconds
  per_second d = if leb_ℤ d.elapsed (pos 0) then decimal 0 0 else fdiv d.value (seconds F d.elapsed)

  -- d.Fraction()
  unfoldable pub fraction : Delta F → F
  fraction d = if leb_ℤ d.elapsed (pos 0) then decimal 0 0 else fdiv d.value (of_int d.elapsed)

  -- a restart that shows in the uptime
  unfoldable pub uptime_fell : F → F → Bool
  uptime_fell prev now = flt (decimal 0 0) prev && flt (decimal 0 0) now && flt now prev

  -- Since, from a node's previous state on
  since_node : NodeState F → String → NodeState F → Option (Delta F)
  unfolding uptime_fell time_sub
  since_node prev counter now = elim (get counter prev.counters) [
    | none ↦ none
    | some earlier ↦ elim (get counter now.counters) [
      | none ↦ none
      | some later ↦
          let elapsed = time_sub now.at prev.at in
          if flt later earlier
          then none
          else if leb_ℤ elapsed (pos 0)
          then none
          else if uptime_fell prev.uptime now.uptime
          then none
          else some (record { value = fsub later earlier; elapsed = elapsed })
    ]
  ]

  -- s.Since(node, key, now), where s may be nil
  unfoldable pub since : Option (State F) → String → String → NodeState F → Option (Delta F)
  unfolding since_node
  since none node counter now = none
  since (some s) node counter now =
      if not (eqb s.version version)
      then none
      else elim (get node s.nodes) [ none ↦ none | some prev ↦ since_node prev counter now ]
