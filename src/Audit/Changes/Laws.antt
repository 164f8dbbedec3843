-- ===== src/Audit/Changes/Laws.antt =====
-- What changes of internal/audit/audit.go says of two runs.
use galera_doctor.Prelude.{
  ◌≤◌, ◌<◌, String, ◌≡◌, refl, ap, ◌∙◌, ◌↔◌, Bool, true, false, Option, none, some, List, [], ◌∷◌,
  ◌++◌, arith, length, All, eq_iff, Bool-cases, inl, inr, ◌⊎◌, if◌then◌else◌,
}
use mathlib.Core.List.{append-nil}
use galera_doctor.Go.Map.{Map}
use galera_doctor.Go.Float.{Float}
use galera_doctor.Go.Time.{Time}
use galera_doctor.Finding.{Finding, Status, ok, severity}
use galera_doctor.State.{State}
use galera_doctor.Audit.Changes.{
  worse, classify, usable_baseline, carry_from, carry, report_changes, changes,
}

if_both {ℓ κ} :
    {A : Type ℓ} {B : Type κ} (g : A → B) (v : B) (c : Bool) (x y : A)
    → g x ≡ v
    → g y ≡ v
    → g (if c then x else y) ≡ v
if_both g v true x y p q = p
if_both g v false x y p q = q

-- Of a finding that both runs have, "got worse" is exactly a rise in severity, and nothing is said of it
-- exactly when its status is the same.
pub classify-severity :
    (b status : Status)
    → ((classify (some b) status ≡ some worse) ↔ (severity b < severity status))
      × ((classify (some b) status ≡ none) ↔ (b ≡ status))
unfolding classify
classify-severity b s = (
  ((λ h. ground (arith, h)), (λ h. ground (arith, h, eq_iff b s, ap severity))),
  ((λ h. ground (arith, h, eq_iff b s)), (λ h. ground (arith, h, eq_iff b s))),
)

module _ {ℓ} {F : Type ℓ} where
  carry_from-append :
      (fs gs : List (Finding F)) (out : Map Status)
      → carry_from out (fs ++ gs) ≡ carry_from (carry_from out fs) gs
  unfolding carry_from
  carry_from-append [] gs out = refl
  carry_from-append (f ∷ fs) gs out = carry_from-append fs gs _

  own :
      (f : Finding F) (out : Map Status) → f.check ≡ "audit/changes" → carry_from out (f ∷ []) ≡ out
  unfolding carry_from
  own f out c = ground (arith, eq_iff f.check "audit/changes", c)

module _ {ℓ} {F : Type ℓ} ⦃fl : Float F⦄ where
  report_changes-ok :
      (name : String) (now_map : Map Status) (prev : State F) (now : Time)
      → ((report_changes name now_map prev now).check ≡ "audit/changes")
        × ((report_changes name now_map prev now).status ≡ ok)
  unfolding report_changes
  report_changes-ok name now_map prev now = (
    if_both (λ (f : Finding F). f.check) "audit/changes" _ _ _ refl refl,
    if_both (λ (f : Finding F). f.status) ok _ _ _ refl refl,
  )

  changes-cases :
      (name : String) (current : List (Finding F)) (prev : Option (State F)) (now : Time)
      → (changes name current prev now ≡ [])
        ⊎ ((f : Finding F) × (changes name current prev now ≡ f ∷ [])
            × (f.check ≡ "audit/changes")
            × (f.status ≡ ok))
  unfolding changes
  changes-cases name current none now = inl refl
  changes-cases name current (some prev) now = elim (Bool-cases (usable_baseline prev)) [
    | inr e ↦ inl (rw (changes, e) refl)
    | inl e ↦ inr (
        rw (changes, e)
          (
            _,
            refl,
            (report_changes-ok name (carry current) prev now).0,
            (report_changes-ok name (carry current) prev now).1,
          ))
  ]

  -- The report of what changed is one finding at most, never worse than OK, and it does not enter what
  -- the next run compares with: the statuses carried are those of the other findings.
  pub changes-carry :
      (name : String) (current : List (Finding F)) (prev : Option (State F)) (now : Time)
      → All (λ f. f.status ≡ ok) (changes name current prev now)
        × (length (changes name current prev now) ≤ 1)
        × (carry (current ++ changes name current prev now) ≡ carry current)
  unfolding carry
  changes-carry name current prev now = elim (changes-cases name current prev now) [
    | inl e ↦ rw e (tt, omega arith, ap (carry_from []) (append-nil current))
    | inr (f, e, c, s) ↦ rw e (
      (s, tt),
      omega arith,
      carry_from-append current (f ∷ []) [] ∙ own f (carry_from [] current) c,
    )
  ]
