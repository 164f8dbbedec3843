-- ===== src/Collect/Links.antt =====
-- The reads of internal/cluster/collect.go whose columns go by name: asynchronous replication, and the
-- membership view.
use galera_doctor.Prelude.{
  String, ◌&&◌, ◌||◌, Option, none, some, List, [], ◌∷◌, if◌then◌else◌, ◌==◌, ◌<>◌,
}
use galera_doctor.Go.Text.{to_lower, trim_space, equal_fold}
use galera_doctor.Go.Map.{Map, get, put}
use galera_doctor.Go.Float.{Float}
use galera_doctor.Cluster.{ReplicaLink, Member}
use galera_doctor.Collect.Session.{Cell, Server, Session, lift, then_ask, or_ask, query, check_end}
use galera_doctor.Collect.Tables.{null_string}

-- byName: the cells by their columns in small letters
unfoldable pub by_name : Map Cell → List String → List Cell → Map Cell
unfolding put to_lower
by_name out (c ∷ cs) (v ∷ vs) = by_name (put (to_lower c) v out) cs vs
by_name out _ _ = out

-- `get` of replicaLinks: the first of the names that has a value
unfoldable pub first_of : Map Cell → List String → String
unfolding get trim_space
first_of row [] = ""
first_of row (n ∷ ns) =
    let rest = first_of row ns in
    elim (get n row) [ none ↦ rest | some none ↦ rest | some (some v) ↦ trim_space v ]

module _ {ℓ} {F : Type ℓ} ⦃fl : Float F⦄ where
  open fl use {parse_float}

  -- the seconds behind, by the newer name where that column has a value
  unfoldable pub behind : Map Cell → Option F
  unfolding get
  behind row =
      let older : Option F = elim (get "seconds_behind_master" row) [
        | none ↦ none
        | some none ↦ none
        | some (some v) ↦ parse_float v
      ] in
      elim (get "seconds_behind_source" row) [
        | none ↦ older
        | some none ↦ older
        | some (some v) ↦ parse_float v
      ]

  replica_link : Map Cell → ReplicaLink F
  unfolding first_of behind equal_fold
  replica_link row = record {
    name = first_of row ("connection_name" ∷ []);
    source = first_of row ("source_host" ∷ "master_host" ∷ []);
    io_running = equal_fold (first_of row ("replica_io_running" ∷ "slave_io_running" ∷ [])) "Yes";
    sql_running =
        equal_fold (first_of row ("replica_sql_running" ∷ "slave_sql_running" ∷ [])) "Yes";
    behind = behind row;
    last_error = first_of row ("last_error" ∷ "last_io_error" ∷ "last_sql_error" ∷ []);
  }

  -- the loop of replicaLinks: a row without a source is passed over
  unfoldable pub link_rows : List String → List (List Cell) → List (ReplicaLink F)
  unfolding replica_link by_name
  link_rows columns [] = []
  link_rows columns (r ∷ rs) =
      let rest = link_rows columns rs in
      let link = replica_link (by_name [] columns r) in
      if link.source == "" then rest else link ∷ rest

  unfoldable pub replica_links : Server → Session (List (ReplicaLink F))
  unfolding link_rows check_end
  replica_links server =
      then_ask
        (or_ask (query server "SHOW REPLICA STATUS" []) (query server "SHOW SLAVE STATUS" []))
        (λ r. lift (check_end r.end (link_rows r.columns r.rows)))

-- the switch of replicaHosts over the columns, in their order
host_columns : String × String → List String → List Cell → String × String
unfolding to_lower null_string
host_columns (host, port) (c ∷ cs) (v ∷ vs) =
    let name = to_lower c in
    host_columns
      (if name == "host"
        then (null_string v, port)
        else if name == "port"
        then (host, null_string v)
        else if (name == "server_id") && (host == "")
        then ("server_id " <> null_string v, port)
        else (host, port))
      cs vs
host_columns hp _ _ = hp

unfoldable pub host_rows : List String → List (List Cell) → List String
unfolding host_columns
host_rows columns [] = []
host_rows columns (r ∷ rs) =
    let rest = host_rows columns rs in
    let (host, port) = host_columns ("", "") columns r in
    if host == "" then rest else (if port == "" then host else host <> ":" <> port) ∷ rest

unfoldable pub replica_hosts : Server → Session (List String)
unfolding host_rows check_end
replica_hosts server =
    then_ask (or_ask (query server "SHOW REPLICAS" []) (query server "SHOW SLAVE HOSTS" []))
      (λ r. lift (check_end r.end (host_rows r.columns r.rows)))

-- the switch of membershipView over the columns
member_column : Member → String → String → Member
member_column m name v =
    if name == "index"
    then record m { index = v }
    else if name == "uuid"
    then record m { uuid = v }
    else if name == "name"
    then record m { name = v }
    else if ((name == "address") || (name == "incoming_address")) && (m.addr == "")
    then record m { addr = v }
    else m

member_columns : Member → List String → List Cell → Member
unfolding member_column to_lower trim_space null_string
member_columns m (c ∷ cs) (v ∷ vs) =
    member_columns (member_column m (to_lower c) (trim_space (null_string v))) cs vs
member_columns m _ _ = m

unfoldable pub member_rows : List String → List (List Cell) → List Member
unfolding member_columns
member_rows columns [] = []
member_rows columns (r ∷ rs) =
    let rest = member_rows columns rs in
    let m = member_columns (record { index = ""; uuid = ""; name = ""; addr = "" }) columns r in
    if (m.name == "") && (m.uuid == "") then rest else m ∷ rest

unfoldable pub membership_view : Server → Session (List Member)
unfolding member_rows check_end
membership_view server =
    then_ask (query server "SELECT * FROM information_schema.WSREP_MEMBERSHIP" [])
      (λ r. lift (check_end r.end (member_rows r.columns r.rows)))
