-- ===== src/Proxysql/Checks.antt =====
-- The check that each part of Audit of internal/proxysql/proxysql.go reports under.
use galera_doctor.Prelude.{
  String, ◌≡◌, Bool, true, false, Option, none, some, List, [], ◌∷◌, length, filter, eqb, All,
  All-append, Bool-cases, inl, inr,
}
use galera_doctor.Prelude.Int.{ℤ, pos, eqb_ℤ}
use galera_doctor.Go.Float.{Float}
use galera_doctor.Finding.{Finding}
use galera_doctor.Cluster
use galera_doctor.Cluster.{readable}
use galera_doctor.Proxysql.{
  Server, HostgroupSet, Snapshot, monitor_managed, online, in_group, serves, synced, disagreement,
  disagreements, missing, node_findings, nodes_findings, group_findings, groups_findings, mapping,
  monitor_off, inactive_sets, monitor_running,
}

-- what a test of the check says of every finding
module _ {ℓ} (F : Type ℓ) (p : String → Bool) (v : Bool) where
  abbrev pub Under : List (Finding F) → Type 0
  Under fs = All (λ f. p f.check ≡ v) fs

  monitor_off-Under : (on : Option Bool) → p "proxysql/monitor" ≡ v → Under (monitor_off on)
  unfolding monitor_off
  monitor_off-Under none e = tt
  monitor_off-Under (some true) e = tt
  monitor_off-Under (some false) e = (e, tt)

  inactive_sets-Under :
      (hs : List HostgroupSet) → p "proxysql/monitor" ≡ v → Under (inactive_sets hs)
  unfolding inactive_sets
  inactive_sets-Under [] e = tt
  inactive_sets-Under (h ∷ hs) e = elim (Bool-cases (eqb_ℤ h.active (pos 0))) [
    | inl a ↦ rw a (e, inactive_sets-Under hs e)
    | inr a ↦ rw a (inactive_sets-Under hs e)
  ]

  pub monitor_running-Under :
      (snap : Snapshot) → p "proxysql/monitor" ≡ v → Under (monitor_running snap)
  unfolding monitor_running
  monitor_running-Under snap e =
      All-append (λ (f : Finding F). p f.check ≡ v) _ _ (monitor_off-Under snap.monitor_enabled e)
        (inactive_sets-Under snap.hostgroups e)

  pub mapping-Under : (hs : List HostgroupSet) → p "proxysql/mapping" ≡ v → Under (mapping hs)
  unfolding mapping
  mapping-Under [] e = tt
  mapping-Under (h ∷ hs) e = (e, mapping-Under hs e)

  disagreement-Under :
      (node : Cluster.Snapshot F) (srv : Server)
      → p "proxysql/disagreement" ≡ v
      → Under (disagreement node srv)
  unfolding disagreement
  disagreement-Under node srv e = elim (Bool-cases (online srv)) [
    | inl a ↦ elim (Bool-cases (synced node)) [
      | inl b ↦ rw (disagreement, a, b) tt
      | inr b ↦ rw (disagreement, a, b) (e, tt)
    ]
    | inr a ↦ elim (Bool-cases (synced node)) [
      | inl b ↦ rw (disagreement, a, b) (e, tt)
      | inr b ↦ rw (disagreement, a, b) tt
    ]
  ]

  disagreements-Under :
      (node : Cluster.Snapshot F) (srvs : List Server)
      → p "proxysql/disagreement" ≡ v
      → Under (disagreements node srvs)
  unfolding disagreements
  disagreements-Under node [] e = tt
  disagreements-Under node (srv ∷ srvs) e =
      All-append (λ (f : Finding F). p f.check ≡ v) _ _ (disagreement-Under node srv e)
        (disagreements-Under node srvs e)

  node_findings-Under :
      (servers : List Server) (node : Cluster.Snapshot F)
      → p "proxysql/missing" ≡ v
      → p "proxysql/disagreement" ≡ v
      → Under (node_findings servers node)
  unfolding node_findings missing
  node_findings-Under servers node e d = elim (Bool-cases (readable node)) [
    | inr a ↦ rw (node_findings, a) tt
    | inl a ↦ elim (Bool-cases (eqb (length (filter (serves node) servers)) 0)) [
      | inl b ↦ rw (node_findings, a, b) (e, tt)
      | inr b ↦ rw (node_findings, a, b) (disagreements-Under node (filter (serves node) servers) d)
    ]
  ]

  pub nodes_findings-Under :
      (servers : List Server) (nodes : List (Cluster.Snapshot F))
      → p "proxysql/missing" ≡ v
      → p "proxysql/disagreement" ≡ v
      → Under (nodes_findings servers nodes)
  unfolding nodes_findings
  nodes_findings-Under servers [] e d = tt
  nodes_findings-Under servers (node ∷ nodes) e d =
      All-append (λ (f : Finding F). p f.check ≡ v) _ _ (node_findings-Under servers node e d)
        (nodes_findings-Under servers nodes e d)

  group_findings-Under :
      ⦃fl : Float F⦄ (snap : Snapshot) (g : ℤ)
      → p "proxysql/hostgroup" ≡ v
      → Under (group_findings snap g)
  unfolding group_findings
  group_findings-Under snap g e = elim (Bool-cases (monitor_managed snap g)) [
    | inl a ↦ rw (group_findings, a) tt
    | inr a ↦ elim (Bool-cases (eqb (length (filter online (in_group g snap.servers))) 0)) [
      | inl b ↦ rw (group_findings, a, b) (e, tt)
      | inr b ↦ rw (group_findings, a, b) tt
    ]
  ]

  pub groups_findings-Under :
      ⦃fl : Float F⦄ (snap : Snapshot) (gs : List ℤ)
      → p "proxysql/hostgroup" ≡ v
      → Under (groups_findings snap gs)
  unfolding groups_findings
  groups_findings-Under snap [] e = tt
  groups_findings-Under snap (g ∷ gs) e =
      All-append (λ (f : Finding F). p f.check ≡ v) _ _ (group_findings-Under snap g e)
        (groups_findings-Under snap gs e)
