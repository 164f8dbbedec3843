-- ===== src/Proxysql/Nodes.antt =====
-- When Audit of internal/proxysql/proxysql.go has nothing to say about its nodes.
use galera_doctor.Prelude.{
  ◌≡◌, refl, ap, ◌≢◌, ◌↔◌, ◌⊎◌, inl, inr, true, false, not, List, [], ◌∷◌, Memᴰ, arith, filter, All,
  All-Mem, Mem-All, any_iff, filter-some_iff, filter-Mem, Mem-filter, append-nil_iff, Bool-cases,
}
use galera_doctor.Prelude.Int.{ℤ, eqb_ℤ, eqb_ℤ_iff}
use galera_doctor.Cluster
use galera_doctor.Cluster.{readable}
use galera_doctor.Proxysql.{
  Server, HostgroupSet, Snapshot, monitor_managed, serving, serves, node_findings, nodes_findings,
}
use galera_doctor.Proxysql.Laws.{Agrees, node_findings_iff}

-- the monitor parks nodes in the hostgroup
abbrev pub IsParked : Snapshot → ℤ → Type 0
IsParked snap g = (h : HostgroupSet) × Memᴰ h snap.hostgroups × (h.offline ≡ g)

pub monitor_managed_iff :
    (snap : Snapshot) (g : ℤ) → (monitor_managed snap g ≡ true) ↔ IsParked snap g
unfolding monitor_managed
monitor_managed_iff snap g =
    let a = any_iff (λ (h : HostgroupSet). eqb_ℤ h.offline g) snap.hostgroups in
    (
      (λ e. let (h, m, q) = a.0 e in (h, m, (eqb_ℤ_iff h.offline g).0 q)),
      (λ (h, m, q). a.1 (h, m, (eqb_ℤ_iff h.offline g).1 q)),
    )

pub not_managed_iff :
    (snap : Snapshot) (g : ℤ) → (not (monitor_managed snap g) ≡ true) ↔ ¬ IsParked snap g
not_managed_iff snap g =
    let m = monitor_managed_iff snap g in
    (
      (λ e k. let t = m.1 k in ground (arith, e, t)),
      (λ h. elim (Bool-cases (monitor_managed snap g)) [
        | inl e ↦ absurd (h (m.0 e))
        | inr e ↦ rw e refl
      ]),
    )

module _ {ℓ} {F : Type ℓ} where
  -- a server of the node outside the offline hostgroups
  abbrev pub HasServer : Snapshot → Cluster.Snapshot F → Type 0
  HasServer snap node =
      (srv : Server) × Memᴰ srv snap.servers
      × (¬ IsParked snap srv.hostgroup)
      × (serves node srv ≡ true)

  -- a server is parked, or another node's, or ONLINE exactly if the node is synced
  abbrev pub IsFine : Snapshot → Cluster.Snapshot F → Server → Type 0
  IsFine snap node srv = IsParked snap srv.hostgroup ⊎ ((serves node srv ≡ false) ⊎ Agrees node srv)

  HasServer-iff :
      (snap : Snapshot) (node : Cluster.Snapshot F)
      → (filter (serves node) (serving snap) ≢ []) ↔ HasServer snap node
  unfolding serving
  HasServer-iff snap node = (to, from)
    where
      to : filter (serves node) (serving snap) ≢ [] → HasServer snap node
      to h =
          let (srv, m, e) = (filter-some_iff (serves node) (serving snap)).0 h in
          let (n, q) =
            filter-Mem (λ (s : Server). not (monitor_managed snap s.hostgroup)) srv snap.servers
              m in
          (srv, n, (not_managed_iff snap srv.hostgroup).0 q, e)

      from : HasServer snap node → filter (serves node) (serving snap) ≢ []
      from (srv, m, k, e) =
          let q = (not_managed_iff snap srv.hostgroup).1 k in
          let n =
            Mem-filter (λ (s : Server). not (monitor_managed snap s.hostgroup)) srv snap.servers m
              q in
          (filter-some_iff (serves node) (serving snap)).1 (srv, n, e)

  IsFine-iff :
      (snap : Snapshot) (node : Cluster.Snapshot F)
      → All (Agrees node) (filter (serves node) (serving snap))
        ↔ All (IsFine snap node) snap.servers
  unfolding serving
  IsFine-iff snap node = (to, from)
    where
      to :
          All (Agrees node) (filter (serves node) (serving snap))
          → All (IsFine snap node) snap.servers
      to a = Mem-All (IsFine snap node) snap.servers (λ srv m.
          elim (Bool-cases (monitor_managed snap srv.hostgroup)) [
            | inl e ↦ inl ((monitor_managed_iff snap srv.hostgroup).0 e)
            | inr e ↦ elim (Bool-cases (serves node srv)) [
              | inr f ↦ inr (inl f)
              | inl f ↦ inr (
                  inr (
                    All-Mem (Agrees node) srv (filter (serves node) (serving snap))
                      (Mem-filter (serves node) srv (serving snap)
                        (Mem-filter (λ (s : Server). not (monitor_managed snap s.hostgroup)) srv
                          snap.servers m (ap not e))
                        f)
                      a))
            ]
          ])

      from :
          All (IsFine snap node) snap.servers
          → All (Agrees node) (filter (serves node) (serving snap))
      from a = Mem-All (Agrees node) (filter (serves node) (serving snap)) (λ srv m.
          let (n, f) = filter-Mem (serves node) srv (serving snap) m in
          let (k, q) =
            filter-Mem (λ (s : Server). not (monitor_managed snap s.hostgroup)) srv snap.servers
              n in
          pick srv f ((not_managed_iff snap srv.hostgroup).0 q)
            (All-Mem (IsFine snap node) srv snap.servers k a))
        where
          pick :
              (srv : Server)
              → serves node srv ≡ true
              → ¬ IsParked snap srv.hostgroup
              → IsFine snap node srv
              → Agrees node srv
          pick srv f k (inl p) = absurd (k p)
          pick srv f k (inr (inl e)) = absurd (ground (arith, f, e))
          pick srv f k (inr (inr g)) = g

  -- the node was not read, or the proxy has a server of it and is right about each
  abbrev pub IsServed : Snapshot → Cluster.Snapshot F → Type 0
  IsServed snap node =
      (readable node ≡ false) ⊎ (HasServer snap node × All (IsFine snap node) snap.servers)

  IsServed-iff :
      (snap : Snapshot) (node : Cluster.Snapshot F)
      → (node_findings (serving snap) node ≡ []) ↔ IsServed snap node
  IsServed-iff snap node = (
    (λ h. there ((node_findings_iff (serving snap) node).0 h)),
    (λ h. (node_findings_iff (serving snap) node).1 (back h)),
  )
    where
      there :
          (readable node ≡ false)
            ⊎ ((filter (serves node) (serving snap) ≢ [])
                × All (Agrees node) (filter (serves node) (serving snap)))
          → IsServed snap node
      there (inl e) = inl e
      there (inr (p, q)) = inr ((HasServer-iff snap node).0 p, (IsFine-iff snap node).0 q)

      back :
          IsServed snap node
          → (readable node ≡ false)
            ⊎ ((filter (serves node) (serving snap) ≢ [])
                × All (Agrees node) (filter (serves node) (serving snap)))
      back (inl e) = inl e
      back (inr (p, q)) = inr ((HasServer-iff snap node).1 p, (IsFine-iff snap node).1 q)

  pub nodes_findings_iff :
      (snap : Snapshot) (nodes : List (Cluster.Snapshot F))
      → (nodes_findings (serving snap) nodes ≡ []) ↔ All (IsServed snap) nodes
  unfolding nodes_findings
  nodes_findings_iff snap [] = ((λ h. tt), (λ h. refl))
  nodes_findings_iff snap (node ∷ nodes) =
      let a =
        append-nil_iff (node_findings (serving snap) node) (nodes_findings (serving snap) nodes) in
      let d = IsServed-iff snap node in
      let rest = nodes_findings_iff snap nodes in
      ((λ h. let (p, q) = a.0 h in (d.0 p, rest.0 q)), (λ (p, q). a.1 (d.1 p, rest.1 q)))
