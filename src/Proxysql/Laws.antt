-- ===== src/Proxysql/Laws.antt =====
-- When Audit of internal/proxysql/proxysql.go reports a node or a hostgroup.
use galera_doctor.Prelude.{
  list-cases, append-nil_iff, ◌≡◌, refl, sym, ap, ◌∙◌, ◌≢◌, ◌↔◌, ◌⊎◌, inl, inr, Bool, true, false,
  not, List, [], ◌∷◌, ◌++◌, arith, length, filter, All, Bool-cases, eqb,
}
use galera_doctor.Prelude.Int.{ℤ}
use galera_doctor.Go.Float.{Float}
use galera_doctor.Cluster
use galera_doctor.Cluster.{readable}
use galera_doctor.Proxysql.{
  Server, Snapshot, monitor_managed, serving, online, in_group, serves, synced, disagreement,
  disagreements, missing, node_findings, group_findings,
}

module _ {ℓ} {F : Type ℓ} where
  -- the proxy sends traffic to the node exactly when the node is synced
  abbrev pub Agrees : Cluster.Snapshot F → Server → Type 0
  Agrees node srv = online srv ≡ synced node

  disagreement_iff :
      (node : Cluster.Snapshot F) (srv : Server) → (disagreement node srv ≡ []) ↔ Agrees node srv
  unfolding disagreement
  disagreement_iff node srv = elim (Bool-cases (online srv)) [
    | inl e ↦ elim (Bool-cases (synced node)) [
      | inl k ↦ ((λ h. e ∙ sym k), (λ h. rw (disagreement, e, k) refl))
      | inr k ↦ ((λ h. absurd (ground (arith, e, k, h))), (λ h. absurd (ground (arith, e, k, h))))
    ]
    | inr e ↦ elim (Bool-cases (synced node)) [
      | inl k ↦ ((λ h. absurd (ground (arith, e, k, h))), (λ h. absurd (ground (arith, e, k, h))))
      | inr k ↦ ((λ h. e ∙ sym k), (λ h. rw (disagreement, e, k) refl))
    ]
  ]

  disagreements_iff :
      (node : Cluster.Snapshot F) (srvs : List Server)
      → (disagreements node srvs ≡ []) ↔ All (Agrees node) srvs
  unfolding disagreements
  disagreements_iff node [] = ((λ h. tt), (λ h. refl))
  disagreements_iff node (srv ∷ srvs) =
      let a = append-nil_iff (disagreement node srv) (disagreements node srvs) in
      let d = disagreement_iff node srv in
      let rest = disagreements_iff node srvs in
      ((λ h. let (p, q) = a.0 h in (d.0 p, rest.0 q)), (λ (p, q). a.1 (d.1 p, rest.1 q)))

  not_served :
      (servers : List Server) (node : Cluster.Snapshot F)
      → readable node ≡ true
      → filter (serves node) servers ≡ []
      → node_findings servers node ≡ missing node ∷ []
  unfolding node_findings
  not_served servers node e n = rw (node_findings, n, e) refl

  served :
      (servers : List Server) (node : Cluster.Snapshot F) (srv : Server) (srvs : List Server)
      → readable node ≡ true
      → filter (serves node) servers ≡ srv ∷ srvs
      → node_findings servers node ≡ disagreements node (srv ∷ srvs)
  unfolding node_findings
  served servers node srv srvs e n =
      let some_match : eqb (length (srv ∷ srvs)) 0 ≡ false = ground arith in
      rw (node_findings, n, e, some_match) refl

  unread :
      (servers : List Server) (node : Cluster.Snapshot F)
      → readable node ≡ false
      → node_findings servers node ≡ []
  unfolding node_findings
  unread servers node e = rw (node_findings, e) refl

  -- the findings of one node, for a list of servers
  pub node_findings_iff :
      (servers : List Server) (node : Cluster.Snapshot F)
      → (node_findings servers node ≡ []) ↔ (
          (readable node ≡ false)
          ⊎ ((filter (serves node) servers ≢ [])
              × All (Agrees node) (filter (serves node) servers)))
  node_findings_iff servers node = elim (Bool-cases (readable node)) [
    | inr e ↦ ((λ h. inl e), (λ h. unread servers node e))
    | inl e ↦ elim (list-cases (filter (serves node) servers)) [
      | inl n ↦ (
        (λ h. absurd (ground (arith, not_served servers node e n, h))),
        (λ h. absurd (ground (arith, e, n, h))),
      )
      | inr (srv, srvs, n) ↦ (
        (λ h. inr (
          (λ k. ground (arith, n, k)),
          rw n (
              (disagreements_iff node (srv ∷ srvs)).0 (sym (served servers node srv srvs e n) ∙ h)),
        )),
        (λ h.
            served servers node srv srvs e n
            ∙ (disagreements_iff node (srv ∷ srvs)).1 (agree (srv ∷ srvs) n e h)),
      )
    ]
  ]
    where
      agree :
          (l : List Server)
          → filter (serves node) servers ≡ l
          → readable node ≡ true
          → (readable node ≡ false)
            ⊎ ((filter (serves node) servers ≢ [])
                × All (Agrees node) (filter (serves node) servers))
          → All (Agrees node) l
      agree l n e (inl k) = absurd (ground (arith, e, k))
      agree l n e (inr (k, h)) = rw (sym n) h

filter-skip {ℓ} :
    {A : Type ℓ} (p : A → Bool) (x : A) (xs ys : List A)
    → p x ≡ false
    → filter p (xs ++ x ∷ ys) ≡ filter p (xs ++ ys)
unfolding filter
filter-skip p x [] ys h = rw h refl
filter-skip p x (z ∷ zs) ys h = ground (arith, filter-skip p x zs ys h)

-- A server in a hostgroup that the monitor parks nodes in is never graded: what the nodes are compared
-- with is the list of servers without it.
pub serving-parked :
    (snap : Snapshot) (srv : Server) (before after : List Server)
    → snap.servers ≡ before ++ srv ∷ after
    → monitor_managed snap srv.hostgroup ≡ true
    → serving snap ≡ serving (record snap { servers = before ++ after })
unfolding serving monitor_managed
serving-parked snap srv before after e h =
    let p : Server → Bool = λ srv. not (monitor_managed snap srv.hostgroup) in
    ap (filter p) e ∙ filter-skip p srv before after (ap not h)

module _ {ℓ} {F : Type ℓ} ⦃fl : Float F⦄ where
  -- the finding of one hostgroup that the loop visits
  pub group_findings_iff :
      (snap : Snapshot) (g : ℤ)
      → (group_findings {F = F} snap g ≢ [])
        ↔ ((monitor_managed snap g ≡ false) × (filter online (in_group g snap.servers) ≡ []))
  unfolding group_findings
  group_findings_iff snap g = elim (Bool-cases (monitor_managed snap g)) [
    | inl e ↦
        ((λ h. absurd (h (rw (group_findings, e) refl))), (λ h. absurd (ground (arith, e, h))))
    | inr e ↦ elim (list-cases (filter online (in_group g snap.servers))) [
      | inl n ↦ ((λ h. (e, n)), (λ h. rw (group_findings, e, n) (λ k. ground (arith, k))))
      | inr (s, ss, n) ↦ (
        (λ h. absurd (
            h (
              let z : eqb (length (s ∷ ss)) 0 ≡ false = ground arith in
              rw (group_findings, e, n, z) refl))),
        (λ h. absurd (ground (arith, n, h))),
      )
    ]
  ]
