-- ===== src/Proxysql/Hostgroups.antt =====
-- When the loop over the hostgroups of Audit of internal/proxysql/proxysql.go reports none.
use galera_doctor.Prelude.{
  ◌≡◌, refl, sym, ap, ◌∙◌, ◌↔◌, ◌⊎◌, inl, inr, true, false, List, [], ◌∷◌, Memᴰ, arith, length,
  filter, any, All, All-append, All-Mem, Mem-append, Mem-last, Mem-All, any_iff, filter-some_iff,
  filter-Mem, Mem-filter, append-nil_iff, Bool-cases, list-cases,
}
use galera_doctor.Prelude.Int.{ℤ, eqb_ℤ, ltb_ℤ, eqb_ℤ_iff}
use galera_doctor.Go.Float.{Float}
use galera_doctor.Go.Sort.{sort_by}
use galera_doctor.Go.Sort.Laws.{sort_by-Mem, All-sort_by}
use galera_doctor.Proxysql.{
  Server, Snapshot, monitor_managed, online, in_group, group_findings, groups_findings, add_group,
  groups_from, hostgroups_of,
}
use galera_doctor.Proxysql.Laws.{group_findings_iff}
use galera_doctor.Proxysql.Nodes.{IsParked, monitor_managed_iff}

in_group-Mem :
    (g : ℤ) (srv : Server) (srvs : List Server)
    → Memᴰ srv (in_group g srvs)
    → Memᴰ srv srvs × (srv.hostgroup ≡ g)
unfolding in_group
in_group-Mem g srv srvs m =
    let (n, e) = filter-Mem (λ (s : Server). eqb_ℤ s.hostgroup g) srv srvs m in
    (n, (eqb_ℤ_iff srv.hostgroup g).0 e)

Mem-in_group :
    (g : ℤ) (srv : Server) (srvs : List Server)
    → Memᴰ srv srvs
    → srv.hostgroup ≡ g
    → Memᴰ srv (in_group g srvs)
unfolding in_group
Mem-in_group g srv srvs m e =
    Mem-filter (λ (s : Server). eqb_ℤ s.hostgroup g) srv srvs m ((eqb_ℤ_iff srv.hostgroup g).1 e)

-- the hostgroup is parked, or has a server that is ONLINE
abbrev pub IsOpen : Snapshot → ℤ → Type 0
IsOpen snap g =
    IsParked snap g
    ⊎ ((srv : Server) × Memᴰ srv snap.servers × (srv.hostgroup ≡ g) × (online srv ≡ true))

add_group-Mem : (g : ℤ) (gs : List ℤ) → Memᴰ g (add_group g gs)
unfolding add_group
add_group-Mem g gs = elim (Bool-cases (any (eqb_ℤ g) gs)) [
  | inl e ↦
      let (h, m, q) = (any_iff (eqb_ℤ g) gs).0 e in
      let r : g ≡ h = (eqb_ℤ_iff g h).0 q in rw (add_group, e, r) m
  | inr e ↦ rw (add_group, e) (Mem-last g gs)
]

Mem-add_group : (x g : ℤ) (gs : List ℤ) → Memᴰ x gs → Memᴰ x (add_group g gs)
unfolding add_group
Mem-add_group x g gs m = elim (Bool-cases (any (eqb_ℤ g) gs)) [
  | inl e ↦ rw (add_group, e) m
  | inr e ↦ rw (add_group, e) (Mem-append x gs (g ∷ []) m)
]

All-add_group : (P : ℤ → Type 0) (g : ℤ) (gs : List ℤ) → P g → All P gs → All P (add_group g gs)
unfolding add_group
All-add_group P g gs p a = elim (Bool-cases (any (eqb_ℤ g) gs)) [
  | inl e ↦ rw (add_group, e) a
  | inr e ↦ rw (add_group, e) (All-append P gs (g ∷ []) a (p, tt))
]

All-groups_from :
    (P : ℤ → Type 0) (gs : List ℤ) (srvs : List Server)
    → All P gs
    → All (λ srv. P srv.hostgroup) srvs
    → All P (groups_from gs srvs)
unfolding groups_from
All-groups_from P gs [] a b = a
All-groups_from P gs (srv ∷ srvs) a (b, c) =
    All-groups_from P (add_group srv.hostgroup gs) srvs (All-add_group P srv.hostgroup gs b a) c

Mem-groups_from :
    (g : ℤ) (gs : List ℤ) (srvs : List Server) → Memᴰ g gs → Memᴰ g (groups_from gs srvs)
unfolding groups_from
Mem-groups_from g gs [] m = m
Mem-groups_from g gs (srv ∷ srvs) m =
    Mem-groups_from g (add_group srv.hostgroup gs) srvs (Mem-add_group g srv.hostgroup gs m)

groups_from-Mem :
    (srv : Server) (gs : List ℤ) (srvs : List Server)
    → Memᴰ srv srvs
    → Memᴰ srv.hostgroup (groups_from gs srvs)
unfolding groups_from
groups_from-Mem srv gs [] m = elim m [ ]
groups_from-Mem srv gs (s ∷ srvs) (Memᴰ.head q) =
    Mem-groups_from srv.hostgroup (add_group s.hostgroup gs) srvs
      (rw (ap (λ (t : Server). t.hostgroup) q) (add_group-Mem s.hostgroup gs))
groups_from-Mem srv gs (s ∷ srvs) (Memᴰ.tail m) =
    groups_from-Mem srv (add_group s.hostgroup gs) srvs m

-- what holds of the visited hostgroups is what holds of every server's
pub hostgroups_of_iff :
    (P : ℤ → Type 0) (srvs : List Server)
    → All P (hostgroups_of srvs) ↔ All (λ srv. P srv.hostgroup) srvs
unfolding hostgroups_of
hostgroups_of_iff P srvs = (
  (λ a.
      Mem-All (λ (srv : Server). P srv.hostgroup) srvs
        (λ srv m.
          All-Mem P srv.hostgroup (sort_by ltb_ℤ (groups_from [] srvs))
            (sort_by-Mem ltb_ℤ srv.hostgroup (groups_from [] srvs) (groups_from-Mem srv [] srvs m))
            a)),
  (λ a. All-sort_by ltb_ℤ P (groups_from [] srvs) (All-groups_from P [] srvs tt a)),
)

module _ {ℓ} {F : Type ℓ} ⦃fl : Float F⦄ where
  group_findings-IsOpen :
      (snap : Snapshot) (g : ℤ) → (group_findings {F = F} snap g ≡ []) ↔ IsOpen snap g
  group_findings-IsOpen snap g = (to, from)
    where
      to : group_findings {F = F} snap g ≡ [] → IsOpen snap g
      to h = elim (Bool-cases (monitor_managed snap g)) [
        | inl e ↦ inl ((monitor_managed_iff snap g).0 e)
        | inr e ↦ elim (list-cases (filter online (in_group g snap.servers))) [
          | inl n ↦ absurd ((group_findings_iff {F = F} snap g).1 (e, n) h)
          | inr (srv, srvs, n) ↦
              let (s, m, o) = (filter-some_iff online (in_group g snap.servers)).0 (λ z.
                let w : 0 ≡ length (srv ∷ srvs) = ap length (sym z ∙ n) in omega (arith, w)) in
              let (k, q) = in_group-Mem g s snap.servers m in inr (s, k, q, o)
        ]
      ]

      from : IsOpen snap g → group_findings {F = F} snap g ≡ []
      from o = elim (list-cases (group_findings {F = F} snap g)) [
        | inl z ↦ z
        | inr (f, fs, z) ↦ absurd (
            shut o (
              (group_findings_iff {F = F} snap g).0
                (λ n. let w : 0 ≡ length (f ∷ fs) = ap length (sym n ∙ z) in omega (arith, w))))
      ]
        where
          shut :
              IsOpen snap g
              → (monitor_managed snap g ≡ false) × (filter online (in_group g snap.servers) ≡ [])
              → ⊥
          shut (inl k) (e, n) = let t = (monitor_managed_iff snap g).1 k in ground (arith, e, t)
          shut (inr (s, m, q, o)) (e, n) =
              (filter-some_iff online (in_group g snap.servers)).1
                (s, Mem-in_group g s snap.servers m q, o) n

  pub groups_findings_iff :
      (snap : Snapshot) (gs : List ℤ)
      → (groups_findings {F = F} snap gs ≡ []) ↔ All (IsOpen snap) gs
  unfolding groups_findings
  groups_findings_iff snap [] = ((λ h. tt), (λ h. refl))
  groups_findings_iff snap (g ∷ gs) =
      let a = append-nil_iff (group_findings {F = F} snap g) (groups_findings {F = F} snap gs) in
      let d = group_findings-IsOpen snap g in
      let rest = groups_findings_iff snap gs in
      ((λ h. let (p, q) = a.0 h in (d.0 p, rest.0 q)), (λ (p, q). a.1 (d.1 p, rest.1 q)))
