-- ===== src/Command/Watch.antt =====
-- watch of cmd/galera-doctor/main.go: the first report in full, then what moved.
pub mod Laws
use galera_doctor.Prelude.{ℕ, String, Bool, true, false, List, [], ◌∷◌, map, if◌then◌else◌}
use galera_doctor.Go.Map.{Map}
use galera_doctor.Go.Float.{Float}
use galera_doctor.Go.Time.{Time}
use galera_doctor.Finding.{Status}
use galera_doctor.Output.{Transition, text, changed, statuses}
use galera_doctor.Output
use galera_doctor.Audit.Run.{Report}

-- one thing that the loop prints
pub data Printed {ℓ} (F : Type ℓ) : Type ℓ where
  full : List (Status × Output.Report F) → Printed F
  transitions : List (Transition F) → List String → Printed F

module _ {ℓ} {F : Type ℓ} where
  -- what the renderers read of a report
  unfoldable pub rendered : Report F → Output.Report F
  rendered r = record { cluster = r.cluster; nodes = r.nodes; findings = r.findings }

  -- what one tick prints, given whether the loop is at its first one
  unfoldable pub print_tick : Bool → List (Output.Report F) → Map Status → Printed F
  unfolding text changed
  print_tick true reps prev = full (text reps "")
  print_tick false reps prev = let (m, g, n) = changed reps prev in transitions m g

module _ {ℓ κ} {F : Type ℓ} {S : Type κ} {W : Type κ} (pass : W → S → List (Report F) × S) where
  -- The loop over the ticks: a tick carries what its pass reads, and whether the writer takes what is
  -- printed. The result is the exit code and what was printed.
  unfoldable pub watch_from : Bool → Map Status → S → List (W × Bool) → ℕ × List (Printed F)
  unfolding rendered print_tick statuses
  watch_from baseline prev s [] = (0, [])
  watch_from baseline prev s ((w, writes) ∷ ticks) =
      let (reps, s') = pass w s in
      let shown = map rendered reps in
      let (code, printed) = watch_from false (statuses shown) s' ticks in
      if writes then (code, print_tick baseline shown prev ∷ printed) else (2, [])

  unfoldable pub watch : S → List (W × Bool) → ℕ × List (Printed F)
  unfolding watch_from
  watch = watch_from true []
