-- ===== src/Audit/Appliers.antt =====
-- appliers and sstSize of internal/audit/audit.go.
use galera_doctor.Prelude.{
  String, Bool, true, false, ◌||◌, Option, none, some, List, [], ◌∷◌, if◌then◌else◌, ◌==◌, ◌<>◌,
  filter,
}
use galera_doctor.Prelude.Int.{ℤ, pos, ltb_ℤ}
use galera_doctor.Go.Text.{fmt_ℤ, to_lower, trim_space}
use galera_doctor.Go.Map.{Map, put, keys}
use galera_doctor.Go.Float.{Float}
use galera_doctor.Finding.{Finding, ok, warn}
use galera_doctor.Cluster.{Snapshot, get_var, get_float}
use galera_doctor.Audit.Groups.{describe_groups, reports, reporting_var, var_value, measure}
use galera_doctor.Audit.Settings.{disagreement}

module _ {ℓ} {F : Type ℓ} ⦃fl : Float F⦄ where
  open fl use {parse_float, decimal, of_int, flt, fdiv, fmt_float, trim_float}

  -- one of the two names of the variable
  threads_of : String → Snapshot F → Option F
  unfolding reports
  threads_of key s = elim (get_var s key) [
    | none ↦ none
    | some v ↦ if reports (some v) then parse_float (trim_space v) else none
  ]

  -- `value` of appliers
  unfoldable pub applier_threads : Snapshot F → Option F
  unfolding threads_of
  applier_threads s = elim (threads_of "wsrep_applier_threads" s) [
    | some f ↦ some f
    | none ↦ threads_of "wsrep_slave_threads" s
  ]

  threads_known : Snapshot F → Bool
  unfolding applier_threads
  threads_known s = elim (applier_threads s) [ none ↦ false | some f ↦ true ]

  threads_text : Snapshot F → String
  unfolding applier_threads
  threads_text s = elim (applier_threads s) [ none ↦ "" | some f ↦ trim_float f ]

  -- `slowest` and `fewest` of the loop
  unfoldable pub fewest_threads : String × F → List (Snapshot F) → String × F
  unfolding applier_threads
  fewest_threads best [] = best
  fewest_threads (node, f) (s ∷ ss) =
      fewest_threads
        (elim (applier_threads s) [
          | none ↦ (node, f)
          | some g ↦ if (node == "") || flt g f then (s.node, g) else (node, f)
        ])
        ss

  -- the receive queue of the nodes of a name
  queue_text : String → List (Snapshot F) → String
  unfolding get_float
  queue_text node [] = ""
  queue_text node (s ∷ ss) =
      let rest = queue_text node ss in
      if s.node == node
      then elim (get_float s "wsrep_local_recv_queue") [
        | none ↦ rest
        | some q ↦ " (receive queue " <> trim_float q <> ")" <> rest
      ]
      else rest

  unfoldable pub appliers : String → List (Snapshot F) → List (Finding F)
  unfolding threads_known threads_text fewest_threads queue_text disagreement filter
  appliers name live =
      let reporting = filter threads_known live in
      elim (disagreement reporting threads_text) [
        | none ↦ []
        | some groups ↦
            let (slowest, fewest) = fewest_threads ("", decimal 0 0) reporting in
            measure "repl/appliers" name warn
              ("nodes apply with different thread counts: "
                <> describe_groups groups
                <> " — "
                <> slowest
                <> " has the fewest, "
                <> trim_float fewest
                <> queue_text slowest live)
              fewest "threads"
              ("an applier count is per node while everybody discusses throughput as the cluster's: "
                <> slowest
                <> " is behind by configuration rather than by load, which is a different fix from looking at its disk")
            ∷ []
      ]

module _ {ℓ} (F : Type ℓ) ⦃fl : Float F⦄ where
  open fl use {of_int, flt, fdiv, fmt_float}

  -- the rounds of humanBytes, after the one in which a number is a number of bytes
  human_from : F → List String → String → String
  human_from f [] last = fmt_float 1 f <> " " <> last
  human_from f (suffix ∷ rest) last =
      let next = human_from (fdiv f (of_int (pos 1024))) rest last in
      if flt f (of_int (pos 1024)) then fmt_float 1 f <> " " <> suffix else next

  unfoldable pub human_bytes : ℤ → String
  unfolding human_from
  human_bytes n =
      let f = of_int n in
      if flt f (of_int (pos 1024))
      then fmt_ℤ n <> " B"
      else human_from (fdiv f (of_int (pos 1024))) ("KiB" ∷ "MiB" ∷ "GiB" ∷ []) "TiB"

module _ {ℓ} {F : Type ℓ} where
  -- `largest` and `on` of the loop
  unfoldable pub largest_data : String × ℤ → List (Snapshot F) → String × ℤ
  largest_data best [] = best
  largest_data (on, largest) (s ∷ ss) =
      largest_data
        (elim s.data_bytes [
          | none ↦ (on, largest)
          | some n ↦ if (on == "") || ltb_ℤ largest n then (s.node, n) else (on, largest)
        ])
        ss

  -- the methods of the nodes, each once
  methods_from : Map Bool → List (Snapshot F) → Map Bool
  unfolding put var_value
  methods_from out [] = out
  methods_from out (s ∷ ss) =
      methods_from (put (to_lower (var_value "wsrep_sst_method" s)) true out) ss

  sst_methods : List (Snapshot F) → List String
  unfolding methods_from reporting_var keys
  sst_methods live = keys (methods_from [] (reporting_var "wsrep_sst_method" live))

-- the one method, where there is one
one_method : List String → String
one_method (m ∷ []) = " with " <> m
one_method _ = ""

module _ {ℓ} {F : Type ℓ} ⦃fl : Float F⦄ where
  open fl use {of_int}

  unfoldable pub sst_size : String → List (Snapshot F) → List (Finding F)
  unfolding largest_data sst_methods one_method human_bytes
  sst_size name live =
      let (on, largest) = largest_data ("", pos 0) live in
      if on == ""
      then []
      else measure "sst/size" name ok
          ("a full state transfer copies about "
            <> human_bytes F largest
            <> " (largest node: "
            <> on
            <> ")"
            <> one_method (sst_methods live))
          (of_int largest) "bytes"
          "that is how much a rejoining node has to receive, and how long a donor is out of service while it sends it — the pair of numbers behind \"needs a full SST\""
        ∷ []
