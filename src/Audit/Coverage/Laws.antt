-- ===== src/Audit/Coverage/Laws.antt =====
-- What coverage of internal/audit/audit.go admits to not having audited.
use galera_doctor.Prelude.{
  list-cases, append-nil_iff, String, ◌≡◌, refl, ◌↔◌, Bool, true, false, not, ◌&&◌, Option, none,
  some, List, [], ◌∷◌, ◌++◌, map, arith, length, filter, All, eq_iff, Bool-cases, inl, inr, ◌⊎◌,
  eqb, ltb,
}
use galera_doctor.Go.Float.{Float}
use galera_doctor.Go.Time.{is_zero}
use galera_doctor.Finding.{ok, warn}
use galera_doctor.State.{State}
use galera_doctor.Cluster.{Snapshot, readable}
use galera_doctor.Audit.Drift.{is_empty}
use galera_doctor.Audit.Coverage.{
  is_nil, gap, unread_gap, nodes_where, access_gaps, baseline_gap, coverage,
}

gap-nil : (what : String) (nodes : List String) → (gap what nodes ≡ []) ↔ (nodes ≡ [])
unfolding gap
gap-nil what [] = ((λ h. refl), (λ h. refl))
gap-nil what (n ∷ ns) = ((λ h. ground (arith, h)), (λ h. ground (arith, h)))

unread_gap-nil : (nodes : List String) → (unread_gap nodes ≡ []) ↔ (nodes ≡ [])
unfolding unread_gap
unread_gap-nil [] = ((λ h. refl), (λ h. refl))
unread_gap-nil (n ∷ ns) = ((λ h. ground (arith, h)), (λ h. ground (arith, h)))

-- one gap, and those that follow it
gap-then :
    (what : String) (nodes rest : List String)
    → ((gap what nodes ++ rest) ≡ []) ↔ ((nodes ≡ []) × (rest ≡ []))
gap-then what nodes rest =
    let a = append-nil_iff (gap what nodes) rest in
    let g = gap-nil what nodes in
    ((λ h. let (p, q) = a.0 h in (g.0 p, q)), (λ (p, q). a.1 (g.1 p, q)))

-- a snapshot in which everything was read
module _ {ℓ} {F : Type ℓ} where
  pub record IsComplete (s : Snapshot F) : Type 0 where
    pub sys_tables : is_empty s.sys_tables ≡ false
    pub app_tables : is_nil s.app_tables ≡ false
    pub clock : is_zero s.clock ≡ false
    pub data_bytes : is_nil s.data_bytes ≡ false
    pub replication : (is_nil s.replicas && is_nil s.replica_hosts) ≡ false

  nodes_where-nil :
      (p : Snapshot F → Bool) (l : List (Snapshot F))
      → (nodes_where p l ≡ []) ↔ All (λ s. p s ≡ false) l
  unfolding nodes_where filter
  nodes_where-nil p [] = ((λ h. tt), (λ h. refl))
  nodes_where-nil p (s ∷ ss) = elim (Bool-cases (p s)) [
    | inl e ↦ ((λ h. ground (arith, e, h)), (λ (k, ks). ground (arith, e, k)))
    | inr e ↦ (
      (λ h. (e, (nodes_where-nil p ss).0 (ground (arith, e, h)))),
      (λ (k, ks). ground (arith, e, (nodes_where-nil p ss).1 ks)),
    )
  ]

  -- the tests of a snapshot, in the order of the gaps
  abbrev Tests : List (Snapshot F) → Type 0
  Tests live =
      All (λ s. is_empty s.sys_tables ≡ false) live
      × All (λ s. is_nil s.app_tables ≡ false) live
      × All (λ s. is_zero s.clock ≡ false) live
      × All (λ s. is_nil s.data_bytes ≡ false) live
      × All (λ s. (is_nil s.replicas && is_nil s.replica_hosts) ≡ false) live

  to_complete : (live : List (Snapshot F)) → Tests live → All IsComplete live
  to_complete [] h = tt
  to_complete (s ∷ ss) ((a, as'), (b, bs), (c, cs), (d, ds), (e, es)) = (
    record { sys_tables = a; app_tables = b; clock = c; data_bytes = d; replication = e },
    to_complete ss (as', bs, cs, ds, es),
  )

  of_complete : (live : List (Snapshot F)) → All IsComplete live → Tests live
  of_complete [] h = (tt, tt, tt, tt, tt)
  of_complete (s ∷ ss) (k, ks) =
      let (a, b, c, d, e) = of_complete ss ks in
      ((k.sys_tables, a), (k.app_tables, b), (k.clock, c), (k.data_bytes, d), (k.replication, e))

  not-readable :
      (l : List (Snapshot F))
      → All (λ s. not (readable s) ≡ false) l ↔ All (λ s. readable s ≡ true) l
  not-readable [] = ((λ h. tt), (λ h. tt))
  not-readable (s ∷ ss) = (
    (λ (k, ks). (ground (arith, k), (not-readable ss).0 ks)),
    (λ (k, ks). (ground (arith, k), (not-readable ss).1 ks)),
  )

  access_gaps_iff :
      (snaps live : List (Snapshot F))
      → (access_gaps snaps live ≡ []) ↔ (All (λ s. readable s ≡ true) snaps × All IsComplete live)
  unfolding access_gaps
  access_gaps_iff snaps live = (to, from)
    where
      to : access_gaps snaps live ≡ [] → All (λ s. readable s ≡ true) snaps × All IsComplete live
      to h =
          let (p, h1) = (append-nil_iff _ _).0 h in
          let (a, h2) = (gap-then _ _ _).0 h1 in
          let (b, h3) = (gap-then _ _ _).0 h2 in
          let (c, h4) = (gap-then _ _ _).0 h3 in
          let (d, h5) = (gap-then _ _ _).0 h4 in
          let e = (gap-nil _ _).0 h5 in
          (
            (not-readable snaps).0 ((nodes_where-nil _ snaps).0 ((unread_gap-nil _).0 p)),
            to_complete live (
              (nodes_where-nil _ live).0 a,
              (nodes_where-nil _ live).0 b,
              (nodes_where-nil _ live).0 c,
              (nodes_where-nil _ live).0 d,
              (nodes_where-nil _ live).0 e,
            ),
          )

      from : All (λ s. readable s ≡ true) snaps × All IsComplete live → access_gaps snaps live ≡ []
      from (r, h) =
          let (a, b, c, d, e) = of_complete live h in
          (append-nil_iff _ _).1 (
            (unread_gap-nil _).1 ((nodes_where-nil _ snaps).1 ((not-readable snaps).1 r)),
            (gap-then _ _ _).1 (
              (nodes_where-nil _ live).1 a,
              (gap-then _ _ _).1 (
                (nodes_where-nil _ live).1 b,
                (gap-then _ _ _).1 (
                  (nodes_where-nil _ live).1 c,
                  (gap-then _ _ _).1 (
                    (nodes_where-nil _ live).1 d,
                    (gap-nil _ _).1 ((nodes_where-nil _ live).1 e),
                  ),
                ),
              ),
            ),
          )

module _ {ℓ} {F : Type ℓ} ⦃fl : Float F⦄ where
  coverage-ok :
      (name : String) (snaps live : List (Snapshot F)) (prev : Option (State F))
      → access_gaps snaps live ≡ []
      → map (λ f. f.status) (coverage name snaps live prev) ≡ ok ∷ []
  unfolding coverage baseline_gap
  coverage-ok name snaps live none e = rw (coverage, e) refl
  coverage-ok name snaps live (some s) e = rw (coverage, e) refl

  coverage-warn :
      (name : String) (snaps live : List (Snapshot F)) (prev : Option (State F)) (g : String)
      (gs : List String)
      → access_gaps snaps live ≡ g ∷ gs
      → map (λ f. f.status) (coverage name snaps live prev) ≡ warn ∷ []
  unfolding coverage
  coverage-warn name snaps live prev g gs e =
      let access : ltb 0 (length (g ∷ gs)) ≡ true = ground arith in
      let some_gaps : eqb (length (g ∷ (gs ++ baseline_gap prev))) 0 ≡ false = ground arith in
      rw (coverage, e, some_gaps, access) refl

  -- The coverage check makes one statement. It is OK exactly when every node of the list was read and
  -- nothing was missing on a live one; where anything was, it is a WARN. A missing baseline alone is not
  -- a WARN.
  pub coverage_iff :
      (name : String) (snaps live : List (Snapshot F)) (prev : Option (State F))
      → ((map (λ f. f.status) (coverage name snaps live prev) ≡ ok ∷ [])
          ↔ (All (λ s. readable s ≡ true) snaps × All IsComplete live))
        × ((map (λ f. f.status) (coverage name snaps live prev) ≡ ok ∷ [])
            ⊎ (map (λ f. f.status) (coverage name snaps live prev) ≡ warn ∷ []))
  coverage_iff name snaps live prev = elim (list-cases (access_gaps snaps live)) [
    | inl e ↦ (
      ((λ h. (access_gaps_iff snaps live).0 e), (λ h. coverage-ok name snaps live prev e)),
      inl (coverage-ok name snaps live prev e),
    )
    | inr (g, gs, e) ↦
        let w = coverage-warn name snaps live prev g gs e in
        (
          (
            (λ h. absurd (ground (arith, h, w, eq_iff ok warn))),
            (λ h. absurd (ground (arith, e, (access_gaps_iff snaps live).1 h))),
          ),
          inr w,
        )
  ]
