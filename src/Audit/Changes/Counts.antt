-- ===== src/Audit/Changes/Counts.antt =====
-- What changes of internal/audit/audit.go counts, against a description by the statuses of two runs.
use galera_doctor.Prelude.{
  ℕ, ◌+◌, String, ◌≡◌, refl, ap, ◌∙◌, Bool, true, false, not, ◌&&◌, Option, none, some, List, [],
  ◌∷◌, ◌++◌, arith, length, length-append, map, ltb, leb, eqb, eq_iff, ◌==◌, Bool-cases,
  Option-cases, inl, inr, if◌then◌else◌,
}
use galera_doctor.Go.Map.{Map, get}
use galera_doctor.Go.Float.{Float}
use galera_doctor.Go.Sort.{sort_strings}
use galera_doctor.Go.Sort.Laws.{length-sort_by}
use galera_doctor.Go.Text.{str_lt}
use galera_doctor.Go.Time.{Time}
use galera_doctor.Finding.{Finding, Status, ok, severity}
use galera_doctor.State.{State}
use galera_doctor.Audit.Groups.{num}
use galera_doctor.Audit.Changes.{
  Move, appeared, worse, cleared, improved, classify, same_move, moves, gone, cleared_keys, carry,
  change_part, usable_baseline, report_changes, changes,
}

-- a status that is not OK, of a key that the previous run does not have
abbrev pub is_fresh : Option Status → Status → Bool
is_fresh none s = not (s == ok)
is_fresh (some b) s = false

-- a status that is more severe than it was
abbrev pub is_risen : Option Status → Status → Bool
is_risen none s = false
is_risen (some b) s = ltb (severity b) (severity s)

-- a status that is OK and was not
abbrev pub is_fixed : Option Status → Status → Bool
is_fixed none s = false
is_fixed (some b) s = (s == ok) && not (b == ok)

-- a status that is still not OK, and another one of no more severity
abbrev pub is_eased : Option Status → Status → Bool
is_eased none s = false
is_eased (some b) s = not (s == ok) && not (b == s) && leb (severity s) (severity b)

-- the keys of this run that pass a test of what they were and what they are
abbrev pub count : (Option Status → Status → Bool) → Map Status → Map Status → ℕ
count test prev [] = 0
count test prev ((k, s) ∷ now) =
    let rest = count test prev now in if test (get k prev) s then 1 + rest else rest

-- the keys of the previous run that were not OK and that this run does not have
abbrev pub count_gone : Map Status → Map Status → ℕ
count_gone now [] = 0
count_gone now ((k, b) ∷ prev) =
    let rest = count_gone now prev in
    elim (get k now) [ some s ↦ rest | none ↦ if b == ok then rest else 1 + rest ]

severity-ok : (s : Status) → s ≡ ok → severity s ≡ 0
unfolding severity
severity-ok s e = rw e refl

fresh_iff : (b : Option Status) (s : Status) → same_move appeared (classify b s) ≡ is_fresh b s
unfolding same_move classify
fresh_iff none s = ground (arith)
fresh_iff (some b) s = ground (arith)

risen_iff : (b : Option Status) (s : Status) → same_move worse (classify b s) ≡ is_risen b s
unfolding same_move classify
risen_iff none s = ground (arith)
risen_iff (some b) s = elim (Bool-cases (b == s)) [
  | inl e ↦ let q : severity b ≡ severity s = ap severity ((eq_iff b s).0 e) in ground (arith, e, q)
  | inr e ↦ ground (arith, e)
]

fixed_iff : (b : Option Status) (s : Status) → same_move cleared (classify b s) ≡ is_fixed b s
unfolding same_move classify
fixed_iff none s = ground (arith)
fixed_iff (some b) s = elim (Bool-cases (s == ok)) [
  | inl o ↦
      let so = (eq_iff s ok).0 o in
      let z = severity-ok s so in ground (arith, o, so, z, eq_iff b s, eq_iff b ok)
  | inr o ↦ ground (arith, o)
]

eased_iff : (b : Option Status) (s : Status) → same_move improved (classify b s) ≡ is_eased b s
unfolding same_move classify
eased_iff none s = ground (arith)
eased_iff (some b) s = ground (arith)

length-moves :
    (m : Move) (test : Option Status → Status → Bool) (prev now : Map Status)
    → ((b : Option Status) (s : Status) → same_move m (classify b s) ≡ test b s)
    → length (moves m prev now) ≡ count test prev now
unfolding moves
length-moves m test prev [] h = refl
length-moves m test prev ((k, s) ∷ now) h =
    let r = length-moves m test prev now h in
    elim (Bool-cases (test (get k prev) s)) [
      | inl e ↦ rw (h (get k prev) s, e) (omega (arith, r))
      | inr e ↦ rw (h (get k prev) s, e) r
    ]

length-gone : (now prev : Map Status) → length (gone now prev) ≡ count_gone now prev
unfolding gone
length-gone now [] = refl
length-gone now ((k, b) ∷ prev) =
    let r = length-gone now prev in
    elim (Option-cases (get k now)) [
      | inr (s, e) ↦ ground (arith, e, r)
      | inl e ↦ elim (Bool-cases (b == ok)) [
        | inl o ↦ ground (arith, e, o, r)
        | inr o ↦ ground (arith, e, o, r)
      ]
    ]

length-cleared_keys :
    (prev now : Map Status)
    → length (cleared_keys prev now) ≡ count is_fixed prev now + count_gone now prev
unfolding cleared_keys
length-cleared_keys prev now = omega (
  arith,
  length-append (moves cleared prev now) (gone now prev),
  length-moves cleared is_fixed prev now fixed_iff,
  length-gone now prev,
)

length-sort_strings : (xs : List String) → length (sort_strings xs) ≡ length xs
unfolding sort_strings
length-sort_strings xs = length-sort_by str_lt xs

-- an empty group is the one that the report leaves out
change_part-length :
    (label : String) (items : List String)
    → length (change_part label items) ≡ (if eqb (length items) 0 then 0 else 1)
unfolding change_part
change_part-length label items = ground (arith)

-- nothing is left out of an empty report
no_parts :
    (a b c d : List String)
    → eqb
        (length (
          change_part "got worse" a
          ++ (change_part "appeared" b ++ (change_part "cleared" c ++ change_part "improved" d))))
        0
      ≡ true
    → length b + length c + length a + length d ≡ 0
no_parts a b c d h =
    let x =
      length-append (change_part "got worse" a)
        (change_part "appeared" b ++ (change_part "cleared" c ++ change_part "improved" d)) in
    let y =
      length-append (change_part "appeared" b)
        (change_part "cleared" c ++ change_part "improved" d) in
    let z = length-append (change_part "cleared" c) (change_part "improved" d) in
    ground (
      arith,
      h,
      x,
      y,
      z,
      change_part-length "got worse" a,
      change_part-length "appeared" b,
      change_part-length "cleared" c,
      change_part-length "improved" d,
    )

module _ {ℓ} {F : Type ℓ} ⦃fl : Float F⦄ where
  if-value :
      (c : Bool) (f g : Finding F) (n m : ℕ)
      → f.value ≡ some (num F m)
      → g.value ≡ some (num F n)
      → (c ≡ true → n ≡ m)
      → (if c then f else g).value ≡ some (num F n)
  if-value true f g n m p q h = rw (h refl) p
  if-value false f g n m p q h = q

  report_changes-value :
      (name : String) (now_map : Map Status) (prev : State F) (now : Time)
      → (report_changes name now_map prev now).value
        ≡ some (
            num F (
              length (sort_strings (moves appeared prev.findings now_map))
              + length (sort_strings (cleared_keys prev.findings now_map))
              + length (sort_strings (moves worse prev.findings now_map))
              + length (sort_strings (moves improved prev.findings now_map))))
  unfolding report_changes
  report_changes-value name now_map prev now = if-value _ _ _ _ 0 refl refl (
      no_parts (sort_strings (moves worse prev.findings now_map))
        (sort_strings (moves appeared prev.findings now_map))
        (sort_strings (cleared_keys prev.findings now_map))
        (sort_strings (moves improved prev.findings now_map)))

  -- Of the keys of this run, those that got worse are as many as rose in severity, those that appeared as
  -- many as are not OK and were not there, those that improved as many as moved, without a rise, to
  -- another status than OK; those that cleared are as many as became OK, and the keys that were not OK
  -- and are gone. Where there is a baseline, changes gives the sum of the four.
  pub changes_counts :
      (name : String) (current : List (Finding F)) (prev : State F) (now : Time)
      → usable_baseline prev ≡ true
      → (length (moves worse prev.findings (carry current))
          ≡ count is_risen prev.findings (carry current))
        × (length (moves appeared prev.findings (carry current))
            ≡ count is_fresh prev.findings (carry current))
        × (length (moves improved prev.findings (carry current))
            ≡ count is_eased prev.findings (carry current))
        × (length (cleared_keys prev.findings (carry current))
            ≡ count is_fixed prev.findings (carry current)
              + count_gone (carry current) prev.findings)
        × (map (λ f. f.value) (changes name current (some prev) now)
            ≡ some (
                num F (
                  count is_fresh prev.findings (carry current)
                  + (count is_fixed prev.findings (carry current)
                      + count_gone (carry current) prev.findings)
                  + count is_risen prev.findings (carry current)
                  + count is_eased prev.findings (carry current)))
              ∷ [])
  unfolding changes
  changes_counts name current prev now u =
      let m = carry current in
      let w = length-moves worse is_risen prev.findings m risen_iff in
      let a = length-moves appeared is_fresh prev.findings m fresh_iff in
      let i = length-moves improved is_eased prev.findings m eased_iff in
      let c = length-cleared_keys prev.findings m in
      (
        w,
        a,
        i,
        c,
        rw (changes, u)
            (ap (λ v. v ∷ [])
              (report_changes-value name m prev now
                ∙ rw
                    (
                      length-sort_strings (moves appeared prev.findings m),
                      length-sort_strings (cleared_keys prev.findings m),
                      length-sort_strings (moves worse prev.findings m),
                      length-sort_strings (moves improved prev.findings m),
                      w,
                      a,
                      i,
                      c,
                    )
                    refl)),
      )
