-- ===== src/Audit/Latency.antt =====
-- latency of internal/audit/audit.go.
use galera_doctor.Prelude.{
  ℕ, suc, ◌/◌, String, Bool, not, ◌&&◌, ◌||◌, none, some, List, [], ◌∷◌, ◌++◌, ltb, eqb,
  if◌then◌else◌, ◌==◌, ◌<>◌, length,
}
use galera_doctor.Prelude.Int.{ℤ, pos, negsuc, sub_ℕ, ◌+ℤ◌, ◌*ℤ◌, ltb_ℤ}
use galera_doctor.Go.Text.{fmt_ℕ, join, trim_space}
use galera_doctor.Go.Sort.{sort_strings}
use galera_doctor.Go.Map.{Map, get_or, put, keys}
use galera_doctor.Go.Time.{Duration, wrap64, microsecond, round, duration_string}
use galera_doctor.Go.Float.{Float, seconds}
use galera_doctor.Finding.{Finding, ok, warn}
use galera_doctor.Cluster.{Snapshot, get_float, repl_latency, segment}
use galera_doctor.Audit.Groups.{Options, statement, measure}

pub record Sample : Type 0 where
  pub node : String
  pub segment : String
  pub avg : Duration
  pub max : Duration

-- division of an int64 by a positive number, towards zero
unfoldable pub quotient : ℤ → ℕ → ℤ
quotient (pos n) m = pos (n / m)
quotient (negsuc n) m = sub_ℕ 0 (suc n / m)

abbrev pub latency_slow_factor : ℕ
latency_slow_factor = 4

add_sample : Map (List Sample) → Sample → Map (List Sample)
unfolding get_or put
add_sample out s = put s.segment (get_or s.segment [] out ++ s ∷ []) out

-- bySegment
unfoldable pub by_segment : Map (List Sample) → List Sample → Map (List Sample)
unfolding add_sample
by_segment out [] = out
by_segment out (s ∷ ss) = by_segment (add_sample out s) ss

-- the first of the smallest averages
unfoldable pub fastest_of : Sample → List Sample → Sample
fastest_of best [] = best
fastest_of best (s ∷ ss) = fastest_of (if ltb_ℤ s.avg best.avg then s else best) ss

unfoldable pub total_of : Duration → List Sample → Duration
unfolding wrap64 ◌+ℤ◌
total_of t [] = t
total_of t (s ∷ ss) = total_of (wrap64 (t +ℤ s.avg)) ss

segment_part : String → List Sample → String
unfolding total_of quotient
segment_part seg samples =
    "segment "
    <> seg
    <> ": "
    <> duration_string (round (quotient (total_of (pos 0) samples) (length samples)) microsecond)
    <> " avg over "
    <> fmt_ℕ (length samples)
    <> " node(s)"

module _ {ℓ} {F : Type ℓ} ⦃fl : Float F⦄ where
  open fl use {of_int, fmul, fdiv, fmt_float, trim_float}

  sample_of : Snapshot F → List Sample
  unfolding repl_latency segment
  sample_of s = elim (repl_latency s) [
    | none ↦ []
    | some (avg, max) ↦
        record {
          node = s.node;
          segment = if segment s == "" then "0" else segment s;
          avg = avg;
          max = max;
        }
        ∷ []
  ]

  unfoldable pub samples_of : List (Snapshot F) → List Sample
  unfolding sample_of
  samples_of [] = []
  samples_of (s ∷ ss) = sample_of s ++ samples_of ss

  -- the send queues of the nodes of a name
  send_queue_text : String → List (Snapshot F) → String
  unfolding get_float
  send_queue_text node [] = ""
  send_queue_text node (s ∷ ss) =
      let rest = send_queue_text node ss in
      if s.node == node
      then elim (get_float s "wsrep_local_send_queue") [
        | none ↦ rest
        | some q ↦ "Its send queue is " <> trim_float q <> rest
      ]
      else rest

  -- inside its own segment: several times slower than the fastest, and above the floor
  unfoldable pub is_slow : Options F → Sample → ℕ → Sample → Bool
  unfolding wrap64 ◌*ℤ◌
  is_slow opt fastest count s =
      not ((s.node == fastest.node) || ltb count 2)
      && not (
          ltb_ℤ s.avg opt.latency_floor
          || ltb_ℤ s.avg (wrap64 (pos latency_slow_factor *ℤ fastest.avg)))

  slow_finding : List (Snapshot F) → Sample → Sample → Finding F
  unfolding send_queue_text seconds
  slow_finding live fastest s =
      measure "cluster/latency" s.node warn
        ("replicates at "
          <> duration_string (round s.avg microsecond)
          <> " in segment "
          <> s.segment
          <> ", "
          <> fmt_float 0 (fdiv (of_int s.avg) (of_int fastest.avg))
          <> "x the "
          <> duration_string (round fastest.avg microsecond)
          <> " of "
          <> fastest.node)
        (fmul (seconds F s.avg) (of_int (pos 1000))) "ms"
        (trim_space (
          "same segment, so this is not distance: the link to "
          <> s.node
          <> ", or that node itself. "
          <> send_queue_text s.node live))

  slow_from : Options F → List (Snapshot F) → Sample → ℕ → List Sample → List (Finding F)
  unfolding is_slow slow_finding
  slow_from opt live fastest count [] = []
  slow_from opt live fastest count (s ∷ ss) =
      let rest = slow_from opt live fastest count ss in
      if is_slow opt fastest count s then slow_finding live fastest s ∷ rest else rest

  -- the findings of one segment
  unfoldable pub slow_in : Options F → List (Snapshot F) → List Sample → List (Finding F)
  unfolding slow_from fastest_of
  slow_in opt live [] = []
  slow_in opt live (s ∷ ss) = slow_from opt live (fastest_of s (s ∷ ss)) (length (s ∷ ss)) (s ∷ ss)

  slow_segments : Options F → List (Snapshot F) → Map (List Sample) → List String → List (Finding F)
  unfolding slow_in get_or
  slow_segments opt live samples [] = []
  slow_segments opt live samples (seg ∷ segs) =
      slow_in opt live (get_or seg [] samples) ++ slow_segments opt live samples segs

segment_parts : Map (List Sample) → List String → List String
unfolding segment_part get_or
segment_parts samples [] = []
segment_parts samples (seg ∷ segs) =
    segment_part seg (get_or seg [] samples) ∷ segment_parts samples segs

module _ {ℓ} {F : Type ℓ} ⦃fl : Float F⦄ where
  latency_of : String → List (Snapshot F) → Options F → Map (List Sample) → List (Finding F)
  unfolding slow_segments segment_parts keys sort_strings
  latency_of name live opt samples =
      let segs = sort_strings (keys samples) in
      slow_segments opt live samples segs
      ++ statement "cluster/latency" name ok
          ("replication latency as the cluster measures it — "
            <> join (segment_parts samples segs) "; ")
          "across segments this is distance and nothing to fix; inside one it is the link or the node"
        ∷ []

  unfoldable pub latency : String → List (Snapshot F) → Options F → List (Finding F)
  unfolding samples_of by_segment latency_of
  latency name live opt =
      let samples = samples_of live in
      if eqb (length samples) 0 then [] else latency_of name live opt (by_segment [] samples)
