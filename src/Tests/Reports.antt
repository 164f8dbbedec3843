-- ===== src/Tests/Reports.antt =====
-- Drift, changes, coverage, the proxy and the watch on concrete inputs.
use mathlib.Core.Path.{subst}
use galera_doctor.Prelude.{
  ℕ, ◌+◌, ◌≤◌, String, ◌≡◌, refl, ap, sym, ◌∙◌, ◌↔◌, true, none, some, List, [], ◌∷◌, ◌++◌, filter,
  All, Memᴰ, ◌⊎◌, eq_iff, arith, map, length,
}
use galera_doctor.Prelude.Int.{ℤ, pos}
use galera_doctor.Go.Map.{Map}
use galera_doctor.Finding.{Finding, Status, ok, warn, bad, error}
use galera_doctor.Cluster
use galera_doctor.Cluster.{readable}
use galera_doctor.State.{State}
use galera_doctor.Audit.Drift.{Audited, app_drift, is_empty}
use galera_doctor.Audit.Drift.Laws.{AllOk, Drifts, app_drift_iff}
use galera_doctor.Audit.Changes.{
  appeared, worse, improved, moves, cleared_keys, carry, usable_baseline, changes,
}
use galera_doctor.Audit.Changes.Laws.{changes-carry}
use galera_doctor.Audit.Changes.Counts.{
  is_fresh, is_risen, is_fixed, is_eased, count, count_gone, changes_counts,
}
use galera_doctor.Audit.Groups.{num}
use galera_doctor.Audit.Coverage.{coverage}
use galera_doctor.Audit.Coverage.Laws.{IsComplete, coverage_iff}
use galera_doctor.Proxysql.{Server, Snapshot, audit}
use galera_doctor.Proxysql.Nodes.{IsServed}
use galera_doctor.Proxysql.Hostgroups.{IsOpen}
use galera_doctor.Proxysql.Reports.{about_node, about_group, audit-nodes_iff, audit-groups_iff}
use galera_doctor.Output.{Report, statuses, changed}
use galera_doctor.Output.Laws.{IsConsistent, Reported, changed-flaps, changed-statuses}
use galera_doctor.Tests.Data.{whole, said, node_with, unreadable, run}

-- a table that one node has with another definition, and one that only the other has
abbrev schemas : List Audited
schemas =
    record { node = "db1"; tables = ("shop.t", "a1") ∷ [] }
    ∷ record { node = "db2"; tables = ("shop.t", "b2") ∷ ("shop.u", "c3") ∷ [] }
    ∷ []

app_drift-iff_example : AllOk ℤ (app_drift "eu" schemas) ↔ ((t : String) → ¬ (Drifts schemas t))
app_drift-iff_example = app_drift_iff ℤ "eu" schemas

abbrev was : Map Status
was = ("node/clock@db1", warn) ∷ ("schema/drift@eu", ok) ∷ []

abbrev is : Map Status
is = ("node/clock@db1", bad) ∷ ("schema/drift@eu", ok) ∷ ("node/read@db2", error) ∷ []

abbrev found : List (Finding ℤ)
found = said "node/clock" "db1" bad ∷ said "node/read" "db2" error ∷ []

abbrev previous : State ℤ
previous = record (run 100 []) { findings = was }

previous_usable : usable_baseline previous ≡ true
unfolding usable_baseline is_empty
previous_usable = refl

changes_counts_example :
    (length (moves worse was (carry found)) ≡ count is_risen was (carry found))
    × (length (moves appeared was (carry found)) ≡ count is_fresh was (carry found))
    × (length (moves improved was (carry found)) ≡ count is_eased was (carry found))
    × (length (cleared_keys was (carry found))
        ≡ count is_fixed was (carry found) + count_gone (carry found) was)
    × (map (λ f. f.value) (changes "eu" found (some previous) (pos 160))
        ≡ some (
            num ℤ (
              count is_fresh was (carry found)
              + (count is_fixed was (carry found) + count_gone (carry found) was)
              + count is_risen was (carry found)
              + count is_eased was (carry found)))
          ∷ [])
changes_counts_example = changes_counts "eu" found previous (pos 160) previous_usable

changes-carry_example :
    All (λ f. f.status ≡ ok) (changes "eu" found (some previous) (pos 160))
    × (length (changes "eu" found (some previous) (pos 160)) ≤ 1)
    × (carry (found ++ changes "eu" found (some previous) (pos 160)) ≡ carry found)
changes-carry_example = changes-carry "eu" found (some previous) (pos 160)

abbrev half : List (Cluster.Snapshot ℤ)
half = node_with "db1" (("wsrep_local_state_comment", "Synced") ∷ []) [] ∷ []

coverage-iff_example :
    ((map (λ f. f.status) (coverage "eu" (unreadable "db2" ∷ half) half none) ≡ ok ∷ [])
      ↔ (All (λ s. readable s ≡ true) (unreadable "db2" ∷ half) × All IsComplete half))
    × ((map (λ f. f.status) (coverage "eu" (unreadable "db2" ∷ half) half none) ≡ ok ∷ [])
        ⊎ (map (λ f. f.status) (coverage "eu" (unreadable "db2" ∷ half) half none) ≡ warn ∷ []))
coverage-iff_example = coverage_iff "eu" (unreadable "db2" ∷ half) half none

abbrev server : ℕ → String → String → Server
server g host status = record {
  hostgroup = pos g;
  hostname = host;
  port = pos 3306;
  status = status;
  weight = pos 1;
  comment = "";
}

abbrev proxy : Snapshot
proxy = record {
  servers = server 10 "db1" "ONLINE" ∷ server 40 "db2" "SHUNNED" ∷ server 20 "db1" "SHUNNED" ∷ [];
  hostgroups =
      record {
        writer = pos 10;
        backup_writer = pos 11;
        reader = pos 20;
        offline = pos 40;
        active = pos 1;
      }
      ∷ [];
  at = pos 100;
  monitor_enabled = some true;
  err = "";
}

audit-nodes_iff_example :
    (filter (λ (f : Finding ℤ). about_node f.check) (audit proxy (node_with "db1" [] [] ∷ [])) ≡ [])
    ↔ All (IsServed proxy) (node_with "db1" [] [] ∷ [])
audit-nodes_iff_example = audit-nodes_iff proxy (node_with "db1" [] [] ∷ []) refl

audit-groups_iff_example :
    (filter (λ (f : Finding ℤ). about_group f.check) (audit proxy (node_with "db1" [] [] ∷ []))
      ≡ [])
    ↔ All (λ srv. IsOpen proxy srv.hostgroup) proxy.servers
audit-groups_iff_example = audit-groups_iff proxy (node_with "db1" [] [] ∷ []) refl

-- one check that says two things about one node
abbrev twice : Report ℤ
twice = record {
  cluster = "eu";
  nodes = "db1" ∷ [];
  findings = said "repl/async-in" "db1" bad ∷ said "repl/async-in" "db1" warn ∷ [];
}

changed-flaps_example : 1 ≤ (changed (twice ∷ []) (statuses (twice ∷ []))).2
changed-flaps_example =
    changed-flaps (twice ∷ []) (statuses (twice ∷ [])) twice (said "repl/async-in" "db1" bad)
      (said "repl/async-in" "db1" warn) (Memᴰ.head refl, Memᴰ.head refl, refl)
      (Memᴰ.head refl, Memᴰ.tail (Memᴰ.head refl), refl) refl
      (λ e. ground (arith, e, eq_iff bad warn))

abbrev once : Report ℤ
once = record twice { findings = said "repl/async-in" "db1" bad ∷ [] }

single {ℓ} : {A : Type ℓ} (x y : A) → Memᴰ x (y ∷ []) → x ≡ y
single x y (Memᴰ.head p) = p
single x y (Memᴰ.tail m) = elim m [ ]

once-bad : (r : Report ℤ) (f : Finding ℤ) → Reported r f (once ∷ []) → f.status ≡ bad
once-bad r f (m, n, e) =
    let n' : Memᴰ f once.findings =
      subst (λ (s : Report ℤ). Memᴰ f s.findings) (single r once m) n in
    ap (λ (g : Finding ℤ). g.status) (single f (said "repl/async-in" "db1" bad) n')

once-IsConsistent : IsConsistent (once ∷ [])
once-IsConsistent r r' f f' p p' q = once-bad r f p ∙ sym (once-bad r' f' p')

changed-statuses_example : changed (once ∷ []) (statuses (once ∷ [])) ≡ ([], [], 0)
changed-statuses_example = changed-statuses (once ∷ []) once-IsConsistent
