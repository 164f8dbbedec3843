-- ===== src/Audit/Writers.antt =====
-- The writers and gcache checks of internal/audit/audit.go.
pub mod Laws
use galera_doctor.Prelude.{
  String, Bool, true, false, not, Option, none, some, List, [], ◌∷◌, ◌++◌, ltb, if◌then◌else◌, ◌<>◌,
  length, map, filter,
}
use galera_doctor.Prelude.Int.{ℤ, pos, ltb_ℤ, leb_ℤ}
use galera_doctor.Go.Text.{fmt_ℕ, join}
use galera_doctor.Go.Sort.{sort_by}
use galera_doctor.Go.Map.{get}
use galera_doctor.Go.Time.{Duration, minute, round, duration_string, whole_duration}
use galera_doctor.Go.Float.{Float, seconds}
use galera_doctor.Finding.{Finding, ok, warn}
use galera_doctor.Cluster.{Snapshot, get_float, provider_option, bytes}
use galera_doctor.State.{State, Delta, since, node_state_of, per_second}
use galera_doctor.Audit.Groups.{Options, statement, measure, num}

-- a node's share of the writesets
pub record Share {ℓ} (F : Type ℓ) : Type ℓ where
  pub node : String
  pub count : F

-- what the first loop of writers collects
pub record Tally {ℓ} (F : Type ℓ) : Type ℓ where
  pub shares : List (Share F)
  pub total : F
  pub graded : Bool

module _ {ℓ} {F : Type ℓ} ⦃fl : Float F⦄ where
  open fl use {decimal, of_int, to_int, flt, fle, feq, fadd, fmul, fdiv, fmt_float, trim_float}

  add_share : Tally F → String → F → Tally F
  add_share t node count = record t {
    shares = t.shares ++ (record { node = node; count = count }) ∷ [];
    total = fadd t.total count;
  }

  tally_node : Option (State F) → State F → Tally F → Snapshot F → Tally F
  unfolding add_share
  tally_node prev now t s = elim (get s.node now.nodes) [
    | none ↦ t
    | some ns ↦ elim (since prev s.node "wsrep_replicated" ns) [
      | some d ↦ add_share t s.node d.value
      | none ↦ elim (get_float s "wsrep_replicated") [
        | none ↦ record t { graded = false }
        | some v ↦ add_share (record t { graded = false }) s.node v
      ]
    ]
  ]

  unfoldable pub tally_from : Option (State F) → State F → Tally F → List (Snapshot F) → Tally F
  unfolding tally_node
  tally_from prev now t [] = t
  tally_from prev now t (s ∷ ss) = tally_from prev now (tally_node prev now t s) ss

  unfoldable pub tally : Option (State F) → State F → List (Snapshot F) → Tally F
  unfolding tally_from
  tally prev now live =
      tally_from prev now (record { shares = []; total = decimal 0 0; graded = true }) live

  share_text : F → F → String
  share_text count total = fmt_float 0 (fdiv (fmul (decimal 100 0) count) total) <> "%"

  -- the nodes with at least two hundredths of the writesets
  unfoldable pub writing : F → List (Share F) → List String
  unfolding share_text filter
  writing total shares =
      map (λ sh. sh.node <> " " <> share_text sh.count total)
        (filter (λ sh. not (flt (fdiv sh.count total) (decimal 2 2))) shares)

  -- the branches of writers once the shares are sorted; `top` is the first of them
  grade_writers : String → Tally F → Share F → List (Share F) → Finding F
  unfolding writing share_text num
  grade_writers name t top sorted =
      let active = writing t.total sorted in
      if not t.graded
      then statement "repl/writers" name ok
          (top.node
            <> " has originated the most writesets since its last restart (not graded: no baseline)")
          "run again with --state: over an interval this says who is writing *now*, which is the question — a lifetime total says who wrote since each node last came up"
      else if feq t.total (decimal 0 0)
      then measure "repl/writers" name ok "no writes replicated in the interval" (num F 0)
          "writesets" ""
      else if ltb (length active) 2
      then measure "repl/writers" name ok
          ("writes arrive on "
            <> top.node
            <> " ("
            <> share_text top.count t.total
            <> " of "
            <> trim_float t.total
            <> " writesets in the interval)")
          t.total "writesets" ""
      else measure "repl/writers" name warn
          ("writes arrive on "
            <> fmt_ℕ (length active)
            <> " nodes: "
            <> join active ", "
            <> " ("
            <> trim_float t.total
            <> " writesets in the interval)")
          (num F (length active)) "nodes"
          "if this cluster is meant to have one writer, something is bypassing that — and writing to several nodes is where certification conflicts come from, so this is the cause behind a repl/cert-failures finding rather than another symptom"

  unfoldable pub writers :
      String → List (Snapshot F) → Option (State F) → State F → List (Finding F)
  unfolding tally grade_writers sort_by
  writers name live prev now =
      let t = tally prev now live in
      let sorted = sort_by (λ a b. flt b.count a.count) t.shares in
      elim sorted [ [] ↦ [] | top ∷ rest ↦ grade_writers name t top (top ∷ rest) ∷ [] ]

  -- the window that a cache of this size gives, in whole seconds
  unfoldable pub window : ℤ → Delta F → Duration
  unfolding whole_duration per_second
  window size d = whole_duration (to_int (fdiv (of_int size) (per_second d)))

  ungraded_gcache : Snapshot F → String → ℤ → Finding F
  ungraded_gcache s raw size =
      measure "gcache/window" s.node ok
        ("gcache is " <> raw <> " (not graded: no write-rate baseline)") (of_int size) "bytes"
        "run again with --state: the useful number is how many minutes of writes it holds, not how many bytes"

  unfoldable pub graded_gcache : Options F → Snapshot F → String → Duration → F → Finding F
  unfolding seconds
  graded_gcache opt s raw w rate =
      let short = ltb_ℤ w opt.ist_warn in
      measure "gcache/window" s.node (if short then warn else ok)
        ("gcache "
          <> raw
          <> " holds about "
          <> duration_string (round w minute)
          <> " of writes at the current rate ("
          <> fmt_float 1 (fdiv rate (of_int (pos 1048576)))
          <> " MB/s)")
        (seconds F w) "seconds"
        (if short
          then "a node restarting after longer than this needs a full SST: hours of transfer, and a donor taken out of service to provide it"
          else "")

  unfoldable pub gcache_node :
      Option (State F) → State F → Options F → Snapshot F → List (Finding F)
  unfolding ungraded_gcache graded_gcache window per_second
  gcache_node prev now opt s = elim (provider_option s "gcache.size") [
    | none ↦ []
    | some raw ↦ elim (bytes F raw) [
      | none ↦ []
      | some size ↦
          let ungraded = ungraded_gcache s raw size in
          if leb_ℤ size (pos 0)
          then []
          else elim (since prev s.node "wsrep_replicated_bytes" (node_state_of now s.node)) [
            | none ↦ ungraded ∷ []
            | some d ↦
                if fle (per_second d) (decimal 0 0)
                then ungraded ∷ []
                else graded_gcache opt s raw (window size d) (per_second d) ∷ []
          ]
    ]
  ]

  unfoldable pub gcache :
      List (Snapshot F) → Option (State F) → State F → Options F → List (Finding F)
  unfolding gcache_node
  gcache [] prev now opt = []
  gcache (s ∷ ss) prev now opt = gcache_node prev now opt s ++ gcache ss prev now opt
