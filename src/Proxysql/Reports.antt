-- ===== src/Proxysql/Reports.antt =====
-- What Audit of internal/proxysql/proxysql.go reports of the nodes and of the hostgroups, as a whole.
use galera_doctor.Prelude.{
  String, ◌≡◌, refl, sym, ap, ◌∙◌, ◌↔◌, Bool, true, false, ◌||◌, List, [], ◌++◌, filter, All,
  filter-keep, filter-drop, filter-append, ◌==◌,
}
use galera_doctor.Go.Float.{Float}
use galera_doctor.Finding.{Finding}
use galera_doctor.Cluster
use galera_doctor.Cluster.{readable}
use galera_doctor.Proxysql.{
  Snapshot, serving, nodes_findings, groups_findings, mapping, monitor_running, audit,
  hostgroups_of,
}
use galera_doctor.Proxysql.Checks.{
  monitor_running-Under, nodes_findings-Under, groups_findings-Under, mapping-Under,
}
use mathlib.Core.List.{append-nil}
use galera_doctor.Proxysql.Nodes.{IsServed, nodes_findings_iff}
use galera_doctor.Proxysql.Hostgroups.{IsOpen, hostgroups_of_iff, groups_findings_iff}

-- the checks that are about one node
abbrev pub about_node : String → Bool
about_node check = (check == "proxysql/missing") || (check == "proxysql/disagreement")

-- the check that is about one hostgroup
abbrev pub about_group : String → Bool
about_group check = check == "proxysql/hostgroup"

module _ {ℓ} {F : Type ℓ} ⦃fl : Float F⦄ where
  -- what the audit of a proxy that was read has under some checks: what each of its parts has
  filter-audit :
      (p : String → Bool) (snap : Snapshot) (nodes : List (Cluster.Snapshot F))
      → snap.err ≡ ""
      → filter (λ (f : Finding F). p f.check) (audit snap nodes)
        ≡ filter (λ (f : Finding F). p f.check) (monitor_running snap)
          ++ (filter (λ (f : Finding F). p f.check) (nodes_findings (serving snap) nodes)
              ++ (filter
                    (λ (f : Finding F). p f.check)
                    (groups_findings snap (hostgroups_of snap.servers))
                  ++ filter (λ (f : Finding F). p f.check) (mapping snap.hostgroups)))
  unfolding audit
  filter-audit p snap nodes e =
      let t : Finding F → Bool = λ f. p f.check in
      let a = filter-append t (monitor_running snap) (
        nodes_findings (serving snap) nodes
        ++ (groups_findings snap (hostgroups_of snap.servers) ++ mapping snap.hostgroups)) in
      let b =
        filter-append t (nodes_findings (serving snap) nodes)
          (groups_findings snap (hostgroups_of snap.servers) ++ mapping snap.hostgroups) in
      let c =
        filter-append t (groups_findings snap (hostgroups_of snap.servers))
          (mapping snap.hostgroups) in
      rw (audit, e)
        (a
          ∙ ap (λ x. filter t (monitor_running snap) ++ x)
              (b ∙ ap (λ x. filter t (nodes_findings (serving snap) nodes) ++ x) c))

  node_part :
      (snap : Snapshot) (nodes : List (Cluster.Snapshot F))
      → snap.err ≡ ""
      → filter (λ (f : Finding F). about_node f.check) (audit snap nodes)
        ≡ nodes_findings (serving snap) nodes
  node_part snap nodes e =
      let t : Finding F → Bool = λ f. about_node f.check in
      filter-audit about_node snap nodes e
      ∙ rw
          (
            filter-drop t (monitor_running snap)
                (monitor_running-Under F about_node false snap refl),
            filter-keep t (nodes_findings (serving snap) nodes)
                (nodes_findings-Under F about_node true (serving snap) nodes refl refl),
            filter-drop t (groups_findings snap (hostgroups_of snap.servers))
                (groups_findings-Under F about_node false snap (hostgroups_of snap.servers) refl),
            filter-drop t (mapping snap.hostgroups)
                (mapping-Under F about_node false snap.hostgroups refl),
          )
          (append-nil (nodes_findings (serving snap) nodes))

  -- The audit of a proxy that was read has no finding about a node exactly when each node was not read, or
  -- has a server outside the offline hostgroups while every such server of it is ONLINE exactly if the
  -- node is synced.
  pub audit-nodes_iff :
      (snap : Snapshot) (nodes : List (Cluster.Snapshot F))
      → snap.err ≡ ""
      → (filter (λ (f : Finding F). about_node f.check) (audit snap nodes) ≡ [])
        ↔ All (IsServed snap) nodes
  audit-nodes_iff snap nodes e =
      let n = node_part snap nodes e in
      let i = nodes_findings_iff snap nodes in ((λ h. i.0 (sym n ∙ h)), (λ h. n ∙ i.1 h))

  group_part :
      (snap : Snapshot) (nodes : List (Cluster.Snapshot F))
      → snap.err ≡ ""
      → filter (λ (f : Finding F). about_group f.check) (audit snap nodes)
        ≡ groups_findings snap (hostgroups_of snap.servers)
  group_part snap nodes e =
      let t : Finding F → Bool = λ f. about_group f.check in
      filter-audit about_group snap nodes e
      ∙ rw
          (
            filter-drop t (monitor_running snap)
                (monitor_running-Under F about_group false snap refl),
            filter-drop t (nodes_findings (serving snap) nodes)
                (nodes_findings-Under F about_group false (serving snap) nodes refl refl),
            filter-keep t (groups_findings snap (hostgroups_of snap.servers))
                (groups_findings-Under F about_group true snap (hostgroups_of snap.servers) refl),
            filter-drop t (mapping snap.hostgroups)
                (mapping-Under F about_group false snap.hostgroups refl),
          )
          (append-nil (groups_findings {F = F} snap (hostgroups_of snap.servers)))

  -- The audit of a proxy that was read reports no hostgroup exactly when every server is in one where the
  -- monitor parks nodes, or in one that has a server that is ONLINE.
  pub audit-groups_iff :
      (snap : Snapshot) (nodes : List (Cluster.Snapshot F))
      → snap.err ≡ ""
      → (filter (λ (f : Finding F). about_group f.check) (audit snap nodes) ≡ [])
        ↔ All (λ srv. IsOpen snap srv.hostgroup) snap.servers
  audit-groups_iff snap nodes e =
      let n = group_part snap nodes e in
      let i = groups_findings_iff snap (hostgroups_of snap.servers) in
      let k = hostgroups_of_iff (IsOpen snap) snap.servers in
      ((λ h. k.0 (i.0 (sym n ∙ h))), (λ h. n ∙ i.1 (k.1 h)))
