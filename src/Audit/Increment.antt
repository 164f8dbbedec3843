-- ===== src/Audit/Increment.antt =====
-- autoIncrement of internal/audit/audit.go.
pub mod Laws
use galera_doctor.Prelude.{
  ℕ, String, Bool, true, false, not, Option, none, some, List, [], ◌∷◌, ◌++◌, ltb, eqb,
  if◌then◌else◌, ◌<>◌, length, filter,
}
use galera_doctor.Go.Text.{fmt_ℕ, join, trim_space}
use galera_doctor.Go.Sort.{sort_strings}
use galera_doctor.Go.Float.{Float}
use galera_doctor.Finding.{Finding, ok, warn, bad}
use galera_doctor.Cluster.{Snapshot, get_bool, get_var, get_float}
use galera_doctor.Audit.Groups.{Groups, gather, statement, measure, num}

module _ {ℓ} {F : Type ℓ} where
  -- the nodes that report the control as on, and as off
  unfoldable pub control_is : Bool → Snapshot F → Bool
  unfolding get_bool
  control_is wanted s = elim (get_bool s "wsrep_auto_increment_control") [
    | none ↦ false
    | some on ↦ if wanted then on else not on
  ]

-- an offset that several nodes have
unfoldable pub shared_offset : String × List String → List String
unfolding sort_strings
shared_offset (off, nodes) =
    if ltb 1 (length nodes) then (off <> " (" <> join (sort_strings nodes) ", " <> ")") ∷ [] else []

unfoldable pub shared_from : Groups → List String
unfolding shared_offset
shared_from [] = []
shared_from (g ∷ gs) = shared_offset g ++ shared_from gs

unfoldable pub shared_offsets : Groups → List String
unfolding shared_from sort_strings
shared_offsets groups = sort_strings (shared_from groups)

increment_hint : String
increment_hint =
    "wsrep_auto_increment_control is ON by default and keeps the step and the offsets in line with the membership; with it OFF the values are whatever was typed, and the ids collide the moment a second node takes a write"

module _ {ℓ} {F : Type ℓ} ⦃fl : Float F⦄ where
  open fl use {parse_float, decimal, of_int, flt, trim_float}

  -- strconv.ParseFloat of a variable
  unfoldable pub var_float : String → Snapshot F → Option F
  var_float key s = elim (get_var s key) [ none ↦ none | some v ↦ parse_float (trim_space v) ]

  -- a status of that name goes before the variable
  unfoldable pub offset_of : Snapshot F → Option F
  unfolding get_float var_float
  offset_of s = elim (get_float s "auto_increment_offset") [
    | some off ↦ some off
    | none ↦ var_float "auto_increment_offset" s
  ]

  unfoldable pub offset_name : Snapshot F → String
  unfolding offset_of
  offset_name s = elim (offset_of s) [ none ↦ "" | some off ↦ trim_float off ]

  unfoldable pub has_offset : Snapshot F → Bool
  unfolding offset_of
  has_offset s = elim (offset_of s) [ none ↦ false | some off ↦ true ]

  -- offsets of the loop: the nodes by the text of their offset
  unfoldable pub offsets : List (Snapshot F) → Groups
  unfolding gather offset_name has_offset filter
  offsets uncontrolled = gather offset_name (λ s. s.node) [] (filter has_offset uncontrolled)

  -- `first` and `smallest` of the loop
  unfoldable pub smallest_step : Option F → List (Snapshot F) → Option F
  unfolding var_float
  smallest_step best [] = best
  smallest_step best (s ∷ ss) =
      smallest_step
        (elim (var_float "auto_increment_increment" s) [
          | none ↦ best
          | some f ↦ elim best [ none ↦ some f | some b ↦ if flt f b then some f else some b ]
        ])
        ss

  -- the step is smaller than the number of nodes
  unfoldable pub step_too_small : Option F → ℕ → Option F
  unfolding num
  step_too_small none n = none
  step_too_small (some f) n = if flt f (num F n) then some f else none

  unfoldable pub uncontrolled_increment : String → List (Snapshot F) → List (Snapshot F) → Finding F
  unfolding offsets shared_offsets smallest_step step_too_small increment_hint
  uncontrolled_increment name live uncontrolled =
      let shared = shared_offsets (offsets uncontrolled) in
      let step = smallest_step none uncontrolled in
      if ltb 0 (length shared)
      then statement "repl/auto-increment" name bad
          ("wsrep_auto_increment_control is off and nodes share an auto_increment_offset: "
            <> join shared "; ")
          increment_hint
      else elim (step_too_small step (length live)) [
        | some f ↦
            measure "repl/auto-increment" name warn
              ("wsrep_auto_increment_control is off and the step is "
                <> trim_float f
                <> " for "
                <> fmt_ℕ (length live)
                <> " node(s): the offsets run out")
              f "step" increment_hint
        | none ↦
            statement "repl/auto-increment" name ok
              ("auto-increment is set by hand on "
                <> fmt_ℕ (length uncontrolled)
                <> " node(s), with distinct offsets and a step of "
                <> trim_float (elim step [ none ↦ decimal 0 0 | some f ↦ f ]))
              ""
      ]

  unfoldable pub auto_increment : String → List (Snapshot F) → List (Finding F)
  unfolding control_is uncontrolled_increment filter
  auto_increment name live =
      let uncontrolled = filter (control_is false) live in
      let controlled = length (filter (control_is true) live) in
      if eqb (length uncontrolled) 0
      then (if eqb controlled 0
          then []
          else statement "repl/auto-increment" name ok
              ("Galera manages the auto-increment step and offset on all "
                <> fmt_ℕ controlled
                <> " node(s)")
              ""
            ∷ [])
      else uncontrolled_increment name live uncontrolled ∷ []
