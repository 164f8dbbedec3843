-- ===== src/Output.antt =====
-- internal/output/output.go: what the renderers select. The line layout (column widths, time stamps,
-- JSON) and the errors of the writer are not modelled: a rendering is the list of what it prints.
pub mod Laws
use galera_doctor.Prelude.{
  ℕ, ◌+◌, String, Bool, true, false, not, ◌&&◌, ◌||◌, Option, none, some, List, [], ◌∷◌, ◌++◌, ltb,
  eqb, if◌then◌else◌, ◌==◌, ◌<>◌, length, filter,
}
use galera_doctor.Go.Text.{str_lt}
use galera_doctor.Go.Sort.{sort_by, sort_strings}
use galera_doctor.Go.Map.{Map, get, get_or, put}
use galera_doctor.Finding.{
  Finding, Status, ok, warn, bad, error, severity, at_least, worst, sort_worst_first,
}
use galera_doctor.State.{key}

-- audit.Report, without the state that is not rendered
pub record Report {ℓ} (F : Type ℓ) : Type ℓ where
  pub cluster : String
  pub nodes : List String
  pub findings : List (Finding F)

-- `transition` of Changed
pub record Transition {ℓ} (F : Type ℓ) : Type ℓ where
  pub cluster : String
  pub before : String
  pub finding : Finding F

-- cluster + "/" + state.Key(check, target)
unfoldable pub report_key : String → String → String → String
unfolding key
report_key cluster check target = cluster <> "/" <> key check target

module _ {ℓ} {F : Type ℓ} where
  -- the inner loop of Statuses
  statuses_of : String → Map Status → List (Finding F) → Map Status
  unfolding put
  statuses_of cluster out [] = out
  statuses_of cluster out (f ∷ fs) =
      statuses_of cluster
        (if f.check == "audit/changes"
          then out
          else put (report_key cluster f.check f.target) f.status out)
        fs

  unfoldable pub statuses_from : Map Status → List (Report F) → Map Status
  unfolding statuses_of
  statuses_from out [] = out
  statuses_from out (r ∷ rs) = statuses_from (statuses_of r.cluster out r.findings) rs

  unfoldable pub statuses : List (Report F) → Map Status
  unfolding statuses_from
  statuses = statuses_from []

  -- one finding against the previous statuses
  unfoldable pub moved_one : Map Status → String → Finding F → List (Transition F)
  unfolding get
  moved_one prev cluster f = elim (get (report_key cluster f.check f.target) prev) [
    | none ↦
        if f.check == "audit/changes"
        then []
        else record { cluster = cluster; before = "new"; finding = f } ∷ []
    | some before ↦
        if (f.check == "audit/changes") || (before == f.status)
        then []
        else record { cluster = cluster; before = before; finding = f } ∷ []
  ]

  unfoldable pub moved_in : Map Status → String → List (Finding F) → List (Transition F)
  unfolding moved_one
  moved_in prev cluster [] = []
  moved_in prev cluster (f ∷ fs) = moved_one prev cluster f ++ moved_in prev cluster fs

  unfoldable pub moved : Map Status → List (Report F) → List (Transition F)
  unfolding moved_in
  moved prev [] = []
  moved prev (r ∷ rs) = moved_in prev r.cluster r.findings ++ moved prev rs

-- the previous statuses that are not reported any more; an OK is not news
unfoldable pub gone : Map Status → Map Status → List String
unfolding get
gone here [] = []
gone here ((k, before) ∷ prev) =
    let rest = gone here prev in
    elim (get k here) [
      | some s ↦ rest
      | none ↦ if before == ok then rest else (k <> "\t" <> before) ∷ rest
    ]

module _ {ℓ} {F : Type ℓ} where
  -- the `less` of Changed
  transition_before : Transition F → Transition F → Bool
  transition_before a b =
      if not (eqb (severity a.finding.status) (severity b.finding.status))
      then ltb (severity b.finding.status) (severity a.finding.status)
      else str_lt a.finding.check b.finding.check

  -- what Changed prints, in order, and how many lines it counts
  unfoldable pub changed : List (Report F) → Map Status → List (Transition F) × List String × ℕ
  unfolding moved gone statuses sort_by sort_strings transition_before
  changed reps prev =
      let m = sort_by transition_before (moved prev reps) in
      let g = sort_strings (gone (statuses reps) prev) in (m, g, length m + length g)

  -- min != "" && !AtLeast(f.Status, min) is skipped
  unfoldable pub shown : Status → Finding F → Bool
  unfolding at_least
  shown min f = (min == "") || at_least f.status min

  flatten_shown : Status → List (Report F) → List (Finding F)
  unfolding shown filter
  flatten_shown min [] = []
  flatten_shown min (r ∷ rs) = filter (shown min) r.findings ++ flatten_shown min rs

  -- the array of Findings
  unfoldable pub findings : List (Report F) → Status → List (Finding F)
  unfolding flatten_shown sort_worst_first
  findings reps min = sort_worst_first (flatten_shown min reps)

  -- the `less` of Text
  report_before : Report F → Report F → Bool
  unfolding worst
  report_before a b =
      let sa = severity (worst a.findings) in
      let sb = severity (worst b.findings) in
      if not (eqb sa sb) then ltb sb sa else str_lt a.cluster b.cluster

  -- a report's headline has its worst status, also where the findings with it are hidden
  show_reports : Status → List (Report F) → List (Status × Report F)
  unfolding shown filter worst
  show_reports min [] = []
  show_reports min (r ∷ rs) =
      (worst r.findings, record r { findings = filter (shown min) r.findings })
      ∷ show_reports min rs

  -- the reports of Text in their order, each with the findings that it prints
  unfoldable pub text : List (Report F) → Status → List (Status × Report F)
  unfolding sort_by report_before show_reports
  text reps min = show_reports min (sort_by report_before reps)

  -- the loops of Summary
  unfoldable pub count_nodes : List (Report F) → ℕ
  count_nodes [] = 0
  count_nodes (r ∷ rs) = length r.nodes + count_nodes rs

  unfoldable pub all_findings : List (Report F) → List (Finding F)
  all_findings [] = []
  all_findings (r ∷ rs) = r.findings ++ all_findings rs
