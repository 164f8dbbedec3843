-- ===== src/Audit/Changes/Same.antt =====
-- changes of internal/audit/audit.go against the findings that a run carried: nothing moved.
use galera_doctor.Prelude.{
  String, ◌≡◌, refl, false, none, some, List, [], ◌∷◌, arith, Memᴰ, All, eq_refl, ◌==◌, Bool-cases,
  inl, inr,
}
use galera_doctor.Go.Time.{Time}
use galera_doctor.Go.Float.{Float}
use galera_doctor.Go.Map.{get-Mem, Map, get, put, IsMap, put-IsMap}
use galera_doctor.Go.Sort.{sort_by, sort_strings}
use galera_doctor.Finding.{Finding, Status}
use galera_doctor.State.{State, key}
use galera_doctor.Audit.Groups.{num}
use galera_doctor.Audit.Changes.{
  Move, appeared, worse, cleared, improved, classify, moves, gone, carry, carry_from, changes,
  report_changes, usable_baseline, change_part, same_move,
}

-- the entries of `now` are those of `prev`
abbrev Within : Map Status → Map Status → Type 0
Within now prev = (k : String) (s : Status) → Memᴰ (k, s) now → get k prev ≡ some s

same_move-none : (m : Move) → same_move m none ≡ false
unfolding same_move
same_move-none appeared = refl
same_move-none worse = refl
same_move-none cleared = refl
same_move-none improved = refl

moves-same : (m : Move) (prev now : Map Status) → Within now prev → moves m prev now ≡ []
unfolding moves
moves-same m prev [] h = refl
moves-same m prev ((k, s) ∷ now) h = rw (h k s (Memᴰ.head refl)) (
    unfold classify in
    rw (eq_refl s, same_move-none m) (moves-same m prev now (λ j t n. h j t (Memᴰ.tail n))))

gone-same : (now prev : Map Status) → Within prev now → gone now prev ≡ []
unfolding gone
gone-same now [] h = refl
gone-same now ((k, s) ∷ prev) h =
    ground (arith, h k s (Memᴰ.head refl), gone-same now prev (λ j t n. h j t (Memᴰ.tail n)))

module _ {ℓ} {F : Type ℓ} where
  carry_from-IsMap :
      (out : Map Status) (fs : List (Finding F)) → IsMap out → IsMap (carry_from out fs)
  unfolding carry_from
  carry_from-IsMap out [] h = h
  carry_from-IsMap out (f ∷ fs) h = elim (Bool-cases (f.check == "audit/changes")) [
    | inl e ↦ rw e (carry_from-IsMap out fs h)
    | inr e ↦ rw e (
        carry_from-IsMap (put (key f.check f.target) f.status out) fs
          (put-IsMap (key f.check f.target) f.status out h))
  ]

  pub carry-IsMap : (fs : List (Finding F)) → IsMap (carry fs)
  unfolding carry
  carry-IsMap fs = carry_from-IsMap [] fs tt

module _ {ℓ} {F : Type ℓ} ⦃fl : Float F⦄ where
  report-same :
      (name : String) (m : Map Status) (prev : State F) (now : Time)
      → IsMap m
      → prev.findings ≡ m
      → (report_changes name m prev now).value ≡ some (num F 0)
  unfolding report_changes
  report-same name m prev now h e =
      let within : Within m m = λ k s n. get-Mem m k s h n in
      rw
        (
          e,
          moves-same worse m m within,
          moves-same appeared m m within,
          moves-same cleared m m within,
          moves-same improved m m within,
          gone-same m m within,
        )
        (unfold sort_strings sort_by change_part in refl)

  -- against the same statuses, there are no changes
  pub changes-same :
      (name : String) (current : List (Finding F)) (prev : State F) (now : Time)
      → prev.findings ≡ carry current
      → All (λ f. f.value ≡ some (num F 0)) (changes name current (some prev) now)
  unfolding changes
  changes-same name current prev now e = elim (Bool-cases (usable_baseline prev)) [
    | inl u ↦ rw u (report-same name (carry current) prev now (carry-IsMap current) e, tt)
    | inr u ↦ rw u tt
  ]
