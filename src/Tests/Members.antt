-- ===== src/Tests/Members.antt =====
-- Nodes that share an identifier, and lists of peers, on concrete inputs.
use galera_doctor.Prelude.{◌≡◌, ◌≢◌, ◌↔◌, List, [], ◌∷◌, All, map, filter}
use galera_doctor.Prelude.Int.{ℤ}
use galera_doctor.Finding.{bad}
use galera_doctor.Cluster.{Snapshot}
use galera_doctor.Audit.Groups.{reporting_var, var_value}
use galera_doctor.Audit.Groups.Shared.{Shared}
use galera_doctor.Audit.Increment.{auto_increment, offset_name, has_offset}
use galera_doctor.Audit.Increment.Laws.{by_hand, auto_increment_iff}
use galera_doctor.Audit.Peers.{peer_list}
use galera_doctor.Audit.Peers.Laws.{IsQuiet, peer_list_iff}
use galera_doctor.Audit.Replication.{server_id}
use galera_doctor.Audit.Replication.Laws.{server_id_iff}
use galera_doctor.Tests.Data.{whole, node_with}

-- two nodes of one server id, with offsets that differ
abbrev typed : List (Snapshot ℤ)
typed =
    node_with "db1" [] (("server_id", "7") ∷ ("auto_increment_offset", "1") ∷ [])
    ∷ node_with "db2" [] (("server_id", "7") ∷ ("auto_increment_offset", "2") ∷ [])
    ∷ []

server_id_iff_example :
    (server_id "eu" typed ≢ [])
    ↔ Shared (var_value "server_id") (λ s. s.node) (reporting_var "server_id" typed)
server_id_iff_example = server_id_iff "eu" typed

-- the same, managed by hand on both, with one offset
abbrev clashing : List (Snapshot ℤ)
clashing =
    node_with "db1" []
      (("wsrep_auto_increment_control", "OFF") ∷ ("auto_increment_offset", "1") ∷ [])
    ∷ node_with "db2" []
        (("wsrep_auto_increment_control", "OFF") ∷ ("auto_increment_offset", "1") ∷ [])
    ∷ []

auto_increment_iff_example :
    (map (λ f. f.status) (auto_increment "eu" clashing) ≡ bad ∷ [])
    ↔ Shared offset_name (λ s. s.node) (filter has_offset (filter by_hand clashing))
auto_increment_iff_example = auto_increment_iff "eu" clashing

-- a list of peers, one of them with a port and in capitals
abbrev listing : List (Snapshot ℤ)
listing =
    node_with "db1" [] (("wsrep_cluster_address", "gcomm://DB1:4567,db2") ∷ [])
    ∷ node_with "db2" [] []
    ∷ []

peer_list_iff_example : (peer_list listing ≡ []) ↔ All (IsQuiet listing) listing
peer_list_iff_example = peer_list_iff listing
