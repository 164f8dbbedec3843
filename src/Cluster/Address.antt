-- ===== src/Cluster/Address.antt =====
-- The names a node is known by: Addresses, HostOnly and dedupe of internal/cluster/cluster.go.
use galera_doctor.Prelude.{
  String, Option, none, some, List, [], ◌∷◌, ◌++◌, ◌||◌, if◌then◌else◌, ◌==◌,
}
use galera_doctor.Go.Text.{trim_space, cut}
use galera_doctor.Go.Sort.{sort_strings}
use galera_doctor.Go.Net.{split_host_port}
use galera_doctor.Cluster.{Snapshot, get_status, get_var}

-- a slash in first place cuts nothing
drop_cidr : String → String
drop_cidr v = elim (cut "/" v) [ none ↦ v | some (h, r) ↦ if h == "" then v else h ]

unfoldable pub host_only : String → String
unfolding drop_cidr
host_only v = let w = drop_cidr (trim_space v) in elim (split_host_port w) [ none ↦ w | some h ↦ h ]

-- `last` is the text that was kept last, empty at the start
dedupe_from : String → List String → List String
dedupe_from last [] = []
dedupe_from last (v ∷ vs) =
    let kept = v ∷ dedupe_from v vs in
    let skipped = dedupe_from last vs in if (v == "") || (v == last) then skipped else kept

unfoldable pub dedupe : List String → List String
unfolding dedupe_from
dedupe vs = dedupe_from "" vs

host_of : Option String → List String
unfolding host_only
host_of none = []
host_of (some v) = if v == "" then [] else host_only v ∷ []

module _ {ℓ} {F : Type ℓ} where
  known_as : Snapshot F → String → List String
  unfolding host_of
  known_as s key = host_of (get_var s key) ++ host_of (get_status s key)

  unfoldable pub addresses : Snapshot F → List String
  unfolding known_as dedupe sort_strings
  addresses s =
      dedupe
        (sort_strings (s.node ∷ (known_as s "wsrep_node_address" ++ known_as s "wsrep_node_name")))
