-- ===== src/Output/Laws.antt =====
-- Watching: what Changed of internal/output/output.go prints against the statuses of a previous report.
use galera_doctor.Prelude.{
  ◌≤◌, String, ◌≡◌, refl, sym, ap, ◌∙◌, ◌≢◌, false, none, some, List, [], ◌∷◌, ◌++◌, Memᴰ, arith,
  length, ◌==◌, eq_iff, Bool-cases, Option-cases, ◌⊎◌, inl, inr, eq_refl,
}
use galera_doctor.Go.Map.{Map, get, put, get-put}
use galera_doctor.Go.Sort.{sort_by, sort_strings}
use galera_doctor.Go.Sort.Laws.{length-sort_by}
use galera_doctor.Finding.{Finding, Status}
use galera_doctor.Output.{
  Report, report_key, statuses_of, statuses_from, statuses, moved_one, moved_in, moved, gone,
  changed,
}

has_keys : (m : Map Status) (k : String) (s : Status) → Memᴰ (k, s) m → get k m ≢ none
unfolding get
has_keys [] k s m e = elim m [ ]
has_keys ((j, t) ∷ m) k s (Memᴰ.head p) e = ground (arith, eq_iff j k, ap (λ x. x.0) p)
has_keys ((j, t) ∷ m) k s (Memᴰ.tail h) e = has_keys m k s h (ground arith)

gone-nil :
    (here prev : Map Status)
    → ((k : String) (s : Status) → Memᴰ (k, s) prev → get k here ≢ none)
    → gone here prev ≡ []
unfolding gone
gone-nil here [] h = refl
gone-nil here ((k, s) ∷ prev) h =
    ground (arith, h k s (Memᴰ.head refl), gone-nil here prev (λ j t m. h j t (Memᴰ.tail m)))

append-left {ℓ} : {A : Type ℓ} (xs ys : List A) → xs ≢ [] → xs ++ ys ≢ []
append-left [] ys h e = h refl
append-left (x ∷ xs) ys h e = ground (arith, e)

append-right {ℓ} : {A : Type ℓ} (xs ys : List A) → ys ≢ [] → xs ++ ys ≢ []
append-right [] ys h e = h e
append-right (x ∷ xs) ys h e = ground (arith, e)

not_nil-length {κ} : {A : Type κ} (xs : List A) → xs ≢ [] → 1 ≤ length xs
not_nil-length [] h = absurd (h refl)
not_nil-length (x ∷ xs) h = omega arith

module _ {ℓ} {F : Type ℓ} where
  -- a finding that is not the report of the changes itself
  abbrev pub Counts : Finding F → Type 0
  Counts f = (f.check == "audit/changes") ≡ false

  -- every finding of the list under a key has one status
  abbrev Agree : String → String → Status → List (Finding F) → Type ℓ
  Agree c k s fs =
      (f : Finding F) → Memᴰ f fs → Counts f → report_key c f.check f.target ≡ k → f.status ≡ s

  keep-statuses_of :
      (c k : String) (s : Status) (out : Map Status) (fs : List (Finding F))
      → Agree c k s fs
      → get k out ≡ some s
      → get k (statuses_of c out fs) ≡ some s
  unfolding statuses_of
  keep-statuses_of c k s out [] a h = h
  keep-statuses_of c k s out (f ∷ fs) a h =
      let rest : Agree c k s fs = λ g m. a g (Memᴰ.tail m) in
      let j = report_key c f.check f.target in
      elim (Bool-cases (f.check == "audit/changes")) [
        | inl e ↦ rw e (keep-statuses_of c k s out fs rest h)
        | inr e ↦ rw e (
            keep-statuses_of c k s (put j f.status out) fs rest (
              get-put j k f.status out ∙ elim (Bool-cases (j == k)) [
                | inl p ↦ rw p (ap some (a f (Memᴰ.head refl) e ((eq_iff j k).0 p)))
                | inr p ↦ rw p h
              ]))
      ]

  first-statuses_of :
      (c k : String) (s : Status) (out : Map Status) (f : Finding F) (fs : List (Finding F))
      → Agree c k s (f ∷ fs)
      → Counts f
      → report_key c f.check f.target ≡ k
      → get k (statuses_of c out (f ∷ fs)) ≡ some s
  unfolding statuses_of
  first-statuses_of c k s out f fs a e q = rw e (
      keep-statuses_of c k s (put (report_key c f.check f.target) f.status out) fs
        (λ g m. a g (Memᴰ.tail m))
        (rw (q, get-put, eq_refl k) (ap some (a f (Memᴰ.head refl) e q))))

  hit-statuses_of :
      (c k : String) (s : Status) (fs : List (Finding F)) (out : Map Status) (f : Finding F)
      → Agree c k s fs
      → Memᴰ f fs
      → Counts f
      → report_key c f.check f.target ≡ k
      → get k (statuses_of c out fs) ≡ some s
  unfolding statuses_of
  hit-statuses_of c k s [] out g a m e q = elim m [ ]
  hit-statuses_of c k s (f ∷ fs) out g a (Memᴰ.head p) e q =
      first-statuses_of c k s out f fs a (rw (sym p) e) (rw (sym p) q)
  hit-statuses_of c k s (f ∷ fs) out g a (Memᴰ.tail m) e q =
      hit-statuses_of c k s fs _ g (λ h n. a h (Memᴰ.tail n)) m e q

  moved_in-some :
      (prev : Map Status) (c : String) (fs : List (Finding F)) (f : Finding F)
      → Memᴰ f fs
      → moved_one prev c f ≢ []
      → moved_in prev c fs ≢ []
  unfolding moved_in
  moved_in-some prev c [] f m h = elim m [ ]
  moved_in-some prev c (g ∷ fs) f (Memᴰ.head p) h =
      let h' : moved_one prev c g ≢ [] = rw (sym p) h in ground (arith, h')
  moved_in-some prev c (g ∷ fs) f (Memᴰ.tail m) h = ground (arith, moved_in-some prev c fs f m h)

  -- a finding that a report of the list has, and the key that it goes by
  abbrev pub Reported : Report F → Finding F → List (Report F) → Type ℓ
  Reported r f reps = Memᴰ r reps × Memᴰ f r.findings × Counts f

  abbrev pub key_of : Report F → Finding F → String
  key_of r f = report_key r.cluster f.check f.target

  AgreeAll : String → Status → List (Report F) → Type ℓ
  AgreeAll k s reps =
      (r : Report F) (f : Finding F) → Reported r f reps → key_of r f ≡ k → f.status ≡ s

  Agree-head :
      (k : String) (s : Status) (r : Report F) (rs : List (Report F))
      → AgreeAll k s (r ∷ rs)
      → Agree r.cluster k s r.findings
  unfolding AgreeAll
  Agree-head k s r rs a f m e q = a r f (Memᴰ.head refl, m, e) q

  Agree-tail :
      (k : String) (s : Status) (r : Report F) (rs : List (Report F))
      → AgreeAll k s (r ∷ rs)
      → AgreeAll k s rs
  unfolding AgreeAll
  Agree-tail k s r rs a q f (m, n, e) p = a q f (Memᴰ.tail m, n, e) p

  keep-statuses_from :
      (k : String) (s : Status) (out : Map Status) (reps : List (Report F))
      → AgreeAll k s reps
      → get k out ≡ some s
      → get k (statuses_from out reps) ≡ some s
  unfolding statuses_from
  keep-statuses_from k s out [] a h = h
  keep-statuses_from k s out (r ∷ rs) a h =
      keep-statuses_from k s (statuses_of r.cluster out r.findings) rs (Agree-tail k s r rs a)
        (keep-statuses_of r.cluster k s out r.findings (Agree-head k s r rs a) h)

  first-statuses_from :
      (k : String) (s : Status) (r : Report F) (rs : List (Report F)) (out : Map Status)
      (f : Finding F)
      → AgreeAll k s (r ∷ rs)
      → Memᴰ f r.findings
      → Counts f
      → key_of r f ≡ k
      → get k (statuses_from out (r ∷ rs)) ≡ some s
  unfolding statuses_from
  first-statuses_from k s r rs out f a m e q =
      keep-statuses_from k s (statuses_of r.cluster out r.findings) rs (Agree-tail k s r rs a)
        (hit-statuses_of r.cluster k s r.findings out f (Agree-head k s r rs a) m e q)

  hit-statuses_from :
      (k : String) (s : Status) (reps : List (Report F)) (out : Map Status) (r : Report F)
      (f : Finding F)
      → AgreeAll k s reps
      → Reported r f reps
      → key_of r f ≡ k
      → get k (statuses_from out reps) ≡ some s
  unfolding statuses_from
  hit-statuses_from k s [] out r f a (m, n, e) q = elim m [ ]
  hit-statuses_from k s (t ∷ rs) out r f a (Memᴰ.head p, n, e) q =
      first-statuses_from k s t rs out f a (rw (sym p) n) e (rw (sym p) q)
  hit-statuses_from k s (t ∷ rs) out r f a (Memᴰ.tail m, n, e) q =
      hit-statuses_from k s rs (statuses_of t.cluster out t.findings) r f (Agree-tail k s t rs a)
        (m, n, e) q

  moved-some :
      (prev : Map Status) (reps : List (Report F)) (r : Report F)
      → Memᴰ r reps
      → moved_in prev r.cluster r.findings ≢ []
      → moved prev reps ≢ []
  unfolding moved
  moved-some prev [] r m h = elim m [ ]
  moved-some prev (t ∷ rs) r (Memᴰ.head p) h =
      append-left (moved_in prev t.cluster t.findings) (moved prev rs) (rw (sym p) h)
  moved-some prev (t ∷ rs) r (Memᴰ.tail m) h =
      append-right (moved_in prev t.cluster t.findings) (moved prev rs) (moved-some prev rs r m h)

  moved_one-flaps :
      (prev : Map Status) (c : String) (f g : Finding F)
      → Counts f
      → Counts g
      → report_key c f.check f.target ≡ report_key c g.check g.target
      → f.status ≢ g.status
      → (moved_one prev c f ≢ []) ⊎ (moved_one prev c g ≢ [])
  unfolding moved_one
  moved_one-flaps prev c f g e e' q apart =
      elim (Option-cases (get (report_key c f.check f.target) prev)) [
        | inl n ↦ inl (rw (moved_one, n, e) (λ p. ground (arith, p)))
        | inr (s, n) ↦ elim (Bool-cases (s == f.status)) [
          | inr d ↦ inl (rw (moved_one, n, e, d) (λ p. ground (arith, p)))
          | inl d ↦
              let n' : get (report_key c g.check g.target) prev ≡ some s = rw (sym q) n in
              inr (
                rw (moved_one, n', e')
                  (λ p. ground (arith, p, apart, eq_iff s f.status, eq_iff s g.status)))
        ]
      ]

  count-moved :
      (reps : List (Report F)) (prev : Map Status)
      → moved prev reps ≢ []
      → 1 ≤ (changed reps prev).2
  unfolding changed
  count-moved reps prev h =
      omega (arith, length-sort_by _ (moved prev reps), not_nil-length (moved prev reps) h)

  -- Two findings of a report that share a check and a target and differ in their status are counted as
  -- a change whatever the previous statuses were, those of the same report included.
  pub changed-flaps :
      (reps : List (Report F)) (prev : Map Status) (r : Report F) (f g : Finding F)
      → Reported r f reps
      → Reported r g reps
      → key_of r f ≡ key_of r g
      → f.status ≢ g.status
      → 1 ≤ (changed reps prev).2
  changed-flaps reps prev r f g (m, n, e) (m', n', e') q apart = count-moved reps prev (
      moved-some prev reps r m (elim (moved_one-flaps prev r.cluster f g e e' q apart) [
        | inl h ↦ moved_in-some prev r.cluster r.findings f n h
        | inr h ↦ moved_in-some prev r.cluster r.findings g n' h
      ]))

  moved_one-nil :
      (prev : Map Status) (c : String) (f : Finding F)
      → (Counts f → get (report_key c f.check f.target) prev ≡ some f.status)
      → moved_one prev c f ≡ []
  unfolding moved_one
  moved_one-nil prev c f h = elim (Bool-cases (f.check == "audit/changes")) [
    | inl e ↦ elim (Option-cases (get (report_key c f.check f.target) prev)) [
      | inl n ↦ rw (moved_one, n, e) refl
      | inr (s, n) ↦ rw (moved_one, n, e) refl
    ]
    | inr e ↦ rw (moved_one, h e, e, eq_refl f.status) refl
  ]

  moved_in-nil :
      (prev : Map Status) (c : String) (fs : List (Finding F))
      → ((f : Finding F)
          → Memᴰ f fs
          → Counts f
          → get (report_key c f.check f.target) prev ≡ some f.status)
      → moved_in prev c fs ≡ []
  unfolding moved_in
  moved_in-nil prev c [] h = refl
  moved_in-nil prev c (f ∷ fs) h =
      rw
        (
          moved_one-nil prev c f (h f (Memᴰ.head refl)),
          moved_in-nil prev c fs (λ g m. h g (Memᴰ.tail m)),
        )
        refl

  moved-nil :
      (prev : Map Status) (reps : List (Report F))
      → ((r : Report F) (f : Finding F) → Reported r f reps → get (key_of r f) prev ≡ some f.status)
      → moved prev reps ≡ []
  unfolding moved
  moved-nil prev [] h = refl
  moved-nil prev (r ∷ rs) h =
      rw
        (
          moved_in-nil prev r.cluster r.findings (λ f m e. h r f (Memᴰ.head refl, m, e)),
          moved-nil prev rs (λ t f (m, n, e). h t f (Memᴰ.tail m, n, e)),
        )
        refl

  -- one status for every key
  abbrev pub IsConsistent : List (Report F) → Type ℓ
  IsConsistent reps =
      (r r' : Report F) (f f' : Finding F)
      → Reported r f reps
      → Reported r' f' reps
      → key_of r f ≡ key_of r' f'
      → f.status ≡ f'.status

  -- A run that repeats the previous one reports no change, where no two findings of one cluster, check
  -- and target have different statuses.
  pub changed-statuses :
      (reps : List (Report F)) → IsConsistent reps → changed reps (statuses reps) ≡ ([], [], 0)
  unfolding changed
  changed-statuses reps h =
      let m : moved (statuses reps) reps ≡ [] = moved-nil (statuses reps) reps (λ r f p.
        unfold statuses AgreeAll in
        hit-statuses_from (key_of r f) f.status reps [] r f (λ r' f' p' q. h r' r f' f p' p q) p
          refl) in
      let g : gone (statuses reps) (statuses reps) ≡ [] =
        gone-nil (statuses reps) (statuses reps) (has_keys (statuses reps)) in
      rw (m, g) (unfold sort_by sort_strings in refl)
