-- ===== src/Audit/Writers/Laws.antt =====
-- The writers of internal/audit/audit.go are graded over an interval only; and the window of gcache
-- where the product of seconds and nanoseconds leaves int64.
use galera_doctor.Go.Map.{get}
use galera_doctor.Go.Sort.{sort_by}
use galera_doctor.Prelude.{
  list-cases, List, [], ◌∷◌, Option, none, some, ◌⊎◌, inl, inr, All, length, Option-cases,
  Bool-cases, ℕ, ◌*◌, ◌^◌, ◌%◌, ◌≤◌, ◌<◌, String, ◌≡◌, refl, true, false, arith, ltb,
}
use galera_doctor.Prelude.Int.{ℤ, pos, ltb_ℤ, ◌*ℤ◌}
use galera_doctor.Go.Float.{Float}
use galera_doctor.Go.Time.{second, whole_duration, wrap64}
use galera_doctor.Finding.{ok, warn}
use galera_doctor.Cluster.{Snapshot}
use galera_doctor.State.{State, NodeState, Delta, since, per_second}
use galera_doctor.Audit.Groups.{Options}
use galera_doctor.Audit.Writers.{
  Share, Tally, tally_node, tally_from, add_share, grade_writers, writing, tally, writers, window,
  graded_gcache,
}

wraps : (n : ℕ) → 2 ^ 63 ≤ n → n < 2 ^ 64 → ltb_ℤ (wrap64 (pos n)) (pos 0) ≡ true
unfolding wrap64
wraps n h k =
    let e : n % 2 ^ 64 ≡ n = omega arith in
    let high : ltb n (2 ^ 63) ≡ false = ground arith in rw (e, high) (ground arith)

whole_duration-wraps :
    (q : ℕ)
    → 2 ^ 63 ≤ q * second
    → q * second < 2 ^ 64
    → ltb_ℤ (whole_duration (pos q)) (pos 0) ≡ true
unfolding whole_duration ◌*ℤ◌
whole_duration-wraps q h k =
    let e : pos q *ℤ pos second ≡ pos (q * second) = ground arith in
    rw (whole_duration, e) (wraps (q * second) h k)

module _ {ℓ} {F : Type ℓ} ⦃fl : Float F⦄ where
  open fl use {decimal, of_int, to_int, flt, feq, fdiv}

  -- Where a cache holds q seconds of writes, and q seconds in nanoseconds are from 2^63 up to 2^64, the
  -- window that the check grades is negative and the node is a WARN: it is told that a restart needs a
  -- full state transfer, however small the threshold.
  pub gcache_overflow :
      (opt : Options F) (s : Snapshot F) (raw : String) (size : ℤ) (d : Delta F) (q t : ℕ)
      → to_int (fdiv (of_int size) (per_second d)) ≡ pos q
      → 2 ^ 63 ≤ q * second
      → q * second < 2 ^ 64
      → opt.ist_warn ≡ pos t
      → (graded_gcache opt s raw (window size d) (per_second d)).status ≡ warn
  unfolding graded_gcache window
  gcache_overflow opt s raw size d q t e h k p =
      let w : ltb_ℤ (window size d) (pos 0) ≡ true = rw e (whole_duration-wraps q h k) in
      let short : ltb_ℤ (window size d) opt.ist_warn ≡ true = rw p (ground arith) in rw short refl

  -- the shares from the largest on
  abbrev pub sorted_shares : Option (State F) → State F → List (Snapshot F) → List (Share F)
  sorted_shares prev now live = sort_by (λ a b. flt b.count a.count) (tally prev now live).shares

  -- a node without a state in this run, or whose writesets have a movement between the two runs
  abbrev pub IsMeasured : Option (State F) → State F → Snapshot F → Type ℓ
  IsMeasured prev now s =
      (get s.node now.nodes ≡ none)
      ⊎ ((ns : NodeState F) × (d : Delta F) × (get s.node now.nodes ≡ some ns)
          × (since prev s.node "wsrep_replicated" ns ≡ some d))

  tally_node-graded :
      (prev : Option (State F)) (now : State F) (t : Tally F) (s : Snapshot F)
      → (tally_node prev now t s).graded ≡ true
      → (t.graded ≡ true) × IsMeasured prev now s
  unfolding tally_node add_share
  tally_node-graded prev now t s h = elim (Option-cases (get s.node now.nodes)) [
    | inl n ↦ (ground (arith, n, h), inl n)
    | inr (ns, n) ↦ elim (Option-cases (since prev s.node "wsrep_replicated" ns)) [
      | inr (d, e) ↦ (ground (arith, n, e, h), inr (ns, d, n, e))
      | inl e ↦ absurd (ground (arith, n, e, h))
    ]
  ]

  tally_from-graded :
      (prev : Option (State F)) (now : State F) (live : List (Snapshot F)) (t : Tally F)
      → (tally_from prev now t live).graded ≡ true
      → (t.graded ≡ true) × All (IsMeasured prev now) live
  unfolding tally_from
  tally_from-graded prev now [] t h = (h, tt)
  tally_from-graded prev now (s ∷ ss) t h =
      let (g, rest) = tally_from-graded prev now ss (tally_node prev now t s) h in
      let (g', m) = tally_node-graded prev now t s g in (g', (m, rest))

  grade_writers-cases :
      (name : String) (t : Tally F) (top : Share F) (sorted : List (Share F))
      → ((grade_writers name t top sorted).status ≡ ok)
        ⊎ ((t.graded ≡ true) × (2 ≤ length (writing t.total sorted)))
  unfolding grade_writers
  grade_writers-cases name t top sorted = elim (Bool-cases t.graded) [
    | inr e ↦ inl (rw e refl)
    | inl e ↦ elim (Bool-cases (feq t.total (decimal 0 0))) [
      | inl z ↦ inl (rw (e, z) refl)
      | inr z ↦ elim (Bool-cases (ltb (length (writing t.total sorted)) 2)) [
        | inl l ↦ inl (rw (e, z, l) refl)
        | inr l ↦ inr (e, ground (arith, l))
      ]
    ]
  ]

  -- Several writers are reported over an interval only: a finding of the check is OK, or every live node
  -- that this run has a state of has a movement between the two runs, and at least two of them have a
  -- share that is not a stray one.
  pub writers-graded :
      (name : String) (live : List (Snapshot F)) (prev : Option (State F)) (now : State F)
      → All
          (λ f.
            (f.status ≡ ok)
            ⊎ (All (IsMeasured prev now) live
                × (2 ≤ length (writing (tally prev now live).total (sorted_shares prev now live)))))
          (writers name live prev now)
  unfolding writers tally
  writers-graded name live prev now = elim (list-cases (sorted_shares prev now live)) [
    | inl e ↦ rw (writers, e) tt
    | inr (top, rest, e) ↦
        rw (writers, e)
          (
            elim (grade_writers-cases name (tally prev now live) top (top ∷ rest)) [
              | inl o ↦ inl o
              | inr (g, two) ↦ inr ((tally_from-graded prev now live _ (unfold tally in g)).1, two)
            ],
            tt,
          )
  ]
