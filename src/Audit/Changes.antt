-- ===== src/Audit/Changes.antt =====
-- changes and carry of internal/audit/audit.go: what moved since the previous run.
pub mod Laws
pub mod Same
pub mod Counts
use galera_doctor.Prelude.{
  ℕ, ◌+◌, ◌-◌, String, Bool, true, false, not, ◌&&◌, ◌||◌, Option, none, some, List, [], ◌∷◌, ◌++◌,
  ltb, eqb, if◌then◌else◌, ◌==◌, ◌<>◌, length, take, map, filter,
}
use galera_doctor.Go.Text.{fmt_ℕ, join}
use galera_doctor.Go.Sort.{sort_strings}
use galera_doctor.Go.Map.{Map, get, put}
use galera_doctor.Go.Time.{Time, Duration, is_zero, time_sub, second, round, duration_string}
use galera_doctor.Go.Float.{Float}
use galera_doctor.Finding.{Finding, Status, ok, warn, severity}
use galera_doctor.State.{State, version, key}
use galera_doctor.Audit.Groups.{statement, measure, num}
use galera_doctor.Audit.Drift.{is_empty}

-- the lists that the loops of changes append to
pub data Move : Type 0 where
  appeared worse cleared improved : Move

-- the switch of changes, for a key of this run: the list that it is appended to, if it is. `before` is
-- its status in the previous run.
unfoldable pub classify : Option Status → Status → Option Move
unfolding severity
classify none status = if status == ok then none else some appeared
classify (some before) status =
    if before == status
    then none
    else if ltb (severity before) (severity status)
    then some worse
    else if status == ok
    then some cleared
    else some improved

-- the text that is appended
moved_text : Move → String → Option Status → Status → String
moved_text appeared k before status = k <> " (" <> status <> ")"
moved_text cleared k before status = k
moved_text m k (some before) status = k <> " (" <> before <> " → " <> status <> ")"
moved_text m k none status = k

unfoldable pub same_move : Move → Option Move → Bool
same_move appeared (some appeared) = true
same_move worse (some worse) = true
same_move cleared (some cleared) = true
same_move improved (some improved) = true
same_move _ _ = false

-- the loop over this run's findings: what it appends to one of the lists

unfoldable pub moves : Move → Map Status → Map Status → List String
unfolding classify moved_text same_move get
moves m prev [] = []
moves m prev ((k, status) ∷ now) =
    let before = get k prev in
    let rest = moves m prev now in
    if same_move m (classify before status) then moved_text m k before status ∷ rest else rest

-- the loop over the previous run's findings: those that are not reported any more
unfoldable pub gone : Map Status → Map Status → List String
unfolding get
gone now [] = []
gone now ((k, before) ∷ prev) =
    let rest = gone now prev in
    elim (get k now) [
      | some s ↦ rest
      | none ↦ if before == ok then rest else (k <> " (no longer reported)") ∷ rest
    ]

-- the cleared list, which both loops append to
unfoldable pub cleared_keys : Map Status → Map Status → List String
unfolding moves gone
cleared_keys prev now = moves cleared prev now ++ gone now prev

-- one group of the report, and nothing for an empty one
unfoldable pub change_part : String → List String → List String
change_part label items =
    if eqb (length items) 0
    then []
    else (label
        <> ": "
        <> join (take 4 items) ", "
        <> (if ltb 4 (length items) then " (+" <> fmt_ℕ (length items - 4) <> " more)" else ""))
      ∷ []

module _ {ℓ} {F : Type ℓ} where
  -- the loop of carry
  unfoldable pub carry_from : Map Status → List (Finding F) → Map Status
  unfolding put
  carry_from out [] = out
  carry_from out (f ∷ fs) =
      carry_from
        (if f.check == "audit/changes" then out else put (key f.check f.target) f.status out) fs

  unfoldable pub carry : List (Finding F) → Map Status
  unfolding carry_from
  carry = carry_from []

  -- len(m) == 0
  unfoldable pub usable_baseline : State F → Bool
  usable_baseline prev = eqb prev.version version && not (is_empty prev.findings)

module _ {ℓ} {F : Type ℓ} ⦃fl : Float F⦄ where
  unfoldable pub report_changes : String → Map Status → State F → Time → Finding F
  unfolding moves cleared_keys change_part sort_strings time_sub num
  report_changes name now_map prev now =
      let worse_keys = sort_strings (moves worse prev.findings now_map) in
      let new_keys = sort_strings (moves appeared prev.findings now_map) in
      let clear_keys = sort_strings (cleared_keys prev.findings now_map) in
      let better_keys = sort_strings (moves improved prev.findings now_map) in
      let interval = duration_string (round (time_sub now prev.at) second) in
      let parts =
        change_part "got worse" worse_keys
        ++ (change_part "appeared" new_keys
            ++ (change_part "cleared" clear_keys ++ change_part "improved" better_keys)) in
      if eqb (length parts) 0
      then measure "audit/changes" name ok
          ("nothing changed since the previous run (" <> interval <> " ago)") (num F 0) "changes" ""
      else measure "audit/changes" name ok
          ("since the previous run (" <> interval <> " ago) — " <> join parts "; ")
          (num F (length new_keys + length clear_keys + length worse_keys + length better_keys))
          "changes"
          "the transitions, not the verdicts: each of these is reported with its own severity elsewhere in this report, and \"got worse\" is where to start"

  unfoldable pub changes : String → List (Finding F) → Option (State F) → Time → List (Finding F)
  unfolding report_changes carry usable_baseline
  changes name current none now = []
  changes name current (some prev) now =
      if usable_baseline prev then report_changes name (carry current) prev now ∷ [] else []
