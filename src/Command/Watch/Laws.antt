-- ===== src/Command/Watch/Laws.antt =====
-- watch of cmd/galera-doctor/main.go against a description of its output by the passes it makes.
use galera_doctor.Prelude.{
  ℕ, ◌≡◌, refl, ap, ◌∙◌, Bool, true, false, List, [], ◌∷◌, map, arith, sym, All, if◌then◌else◌,
}
use galera_doctor.Output.{text, changed, statuses}
use galera_doctor.Output
use galera_doctor.Go.Map.{Map}
use galera_doctor.Finding.{Status}
use galera_doctor.Output.Laws.{IsConsistent, changed-statuses}
use galera_doctor.Audit.Run.{Report}
use galera_doctor.Command.Watch.{
  Printed, full, transitions, rendered, print_tick, watch_from, watch,
}

module _ {ℓ} {F : Type ℓ} where
  -- what moved between two reports
  abbrev pub step_between : List (Output.Report F) → List (Output.Report F) → Printed F
  step_between old new =
      transitions ((changed new (statuses old)).0) ((changed new (statuses old)).1)

  -- what moved from each report to the next
  abbrev pub steps_after : List (Output.Report F) → List (List (Output.Report F)) → List (Printed F)
  steps_after old [] = []
  steps_after old (new ∷ rest) = step_between old new ∷ steps_after new rest

  -- the first report in full, then what moved
  abbrev pub described : List (List (Output.Report F)) → List (Printed F)
  described [] = []
  described (r ∷ rest) = full (text r "") ∷ steps_after r rest

module _ {ℓ κ} {F : Type ℓ} {S : Type κ} {W : Type κ} (pass : W → S → List (Report F) × S) where
  -- the passes up to the first that cannot be printed, each on the state that the one before it left
  abbrev pub passes : S → List (W × Bool) → List (List (Output.Report F))
  passes s [] = []
  passes s ((w, writes) ∷ ticks) =
      let rest = passes ((pass w s).1) ticks in
      if writes then map rendered ((pass w s).0) ∷ rest else []

  -- whether every tick could be printed
  abbrev pub all_written : List (W × Bool) → Bool
  all_written [] = true
  all_written ((w, writes) ∷ ticks) = let rest = all_written ticks in if writes then rest else false

  later-passes :
      (old : List (Output.Report F)) (s : S) (ticks : List (W × Bool))
      → watch_from pass false (statuses old) s ticks
        ≡ ((if all_written ticks then 0 else 2), steps_after old (passes s ticks))
  unfolding watch_from print_tick changed
  later-passes old s [] = refl
  later-passes old s ((w, false) ∷ ticks) = refl
  later-passes old s ((w, true) ∷ ticks) =
      let new = map rendered ((pass w s).0) in
      ap (λ (r : ℕ × List (Printed F)). (r.0, step_between old new ∷ r.1))
        (later-passes new ((pass w s).1) ticks)

  -- The loop ends after the ticks, or at the first whose output is refused, with 0 or 2. It has then
  -- printed the first report in full, and after it exactly what moved between each report and the next.
  pub watch-passes :
      (s : S) (ticks : List (W × Bool))
      → watch pass s ticks ≡ ((if all_written ticks then 0 else 2), described (passes s ticks))
  unfolding watch watch_from print_tick
  watch-passes s [] = refl
  watch-passes s ((w, false) ∷ ticks) = refl
  watch-passes s ((w, true) ∷ ticks) =
      let new = map rendered ((pass w s).0) in
      ap (λ (r : ℕ × List (Printed F)). (r.0, full (text new "") ∷ r.1))
        (later-passes new ((pass w s).1) ticks)

  -- the reports have these statuses, and no two findings of one cluster, check and target differ in it
  abbrev pub IsSteady : Map Status → List (Output.Report F) → Type ℓ
  IsSteady m reps = (statuses reps ≡ m) × IsConsistent reps

  steady_step :
      (m : Map Status) (old new : List (Output.Report F))
      → statuses old ≡ m
      → IsSteady m new
      → step_between old new ≡ transitions [] []
  steady_step m old new h (e, c) =
      let q : statuses old ≡ statuses new = h ∙ sym e in rw (q, changed-statuses new c) refl

  steady_steps :
      (m : Map Status) (old : List (Output.Report F)) (s : S) (ticks : List (W × Bool))
      → statuses old ≡ m
      → all_written ticks ≡ true
      → All (IsSteady m) (passes s ticks)
      → steps_after old (passes s ticks) ≡ map (λ t. transitions [] []) ticks
  steady_steps m old s [] h w a = refl
  steady_steps m old s ((x, false) ∷ ticks) h w a = absurd (ground (arith, w))
  steady_steps m old s ((x, true) ∷ ticks) h w (d, a) =
      let new = map rendered ((pass x s).0) in
      rw (steady_step m old new h d)
        (ap (◌∷◌ (transitions [] [])) (steady_steps m new ((pass x s).1) ticks d.0 w a))

  -- Where every tick is written and the reports of all passes have the same statuses, whatever else
  -- differs (the times, the messages, what the report says of its own changes), and no two findings of a
  -- report share a cluster, a check and a target and differ in their status, the loop prints the first
  -- report, and then no transition at any tick.
  pub watch-steady :
      (m : Map Status) (s : S) (w : W) (ticks : List (W × Bool))
      → all_written ticks ≡ true
      → All (IsSteady m) (passes s ((w, true) ∷ ticks))
      → watch pass s ((w, true) ∷ ticks)
        ≡ (0, full (text (map rendered ((pass w s).0)) "") ∷ map (λ t. transitions [] []) ticks)
  watch-steady m s w ticks e (d, a) =
      watch-passes s ((w, true) ∷ ticks)
      ∙ rw (e, steady_steps m (map rendered ((pass w s).0)) ((pass w s).1) ticks d.0 e a) refl
