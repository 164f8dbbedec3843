-- ===== src/Audit/Peers.antt =====
-- peerList and membershipView of internal/audit/audit.go: the members as the nodes' configuration and
-- as the group lists them.
pub mod Laws
use galera_doctor.Prelude.{
  String, Bool, true, false, not, none, some, List, [], ◌∷◌, ◌++◌, ltb, eqb, if◌then◌else◌, ◌==◌,
  ◌<>◌, length, map, filter, any,
}
use galera_doctor.Go.Text.{fmt_ℕ, join, to_lower, trim_space, cut, split}
use galera_doctor.Go.Sort.{sort_strings}
use galera_doctor.Go.Map.{Map, get, put}
use galera_doctor.Go.Float.{Float}
use galera_doctor.Finding.{Finding, warn, bad}
use galera_doctor.Cluster.{Snapshot, Member, get_var}
use galera_doctor.Cluster.Address.{addresses, host_only}
use galera_doctor.Audit.Groups.{reports, statement, measure, num}

-- known[k] of a map[string]bool
unfoldable pub is_member : String → List String → Bool
unfolding any
is_member k = any (λ j. j == k)

-- without what stands before "://", and from "?" on
unfoldable pub address_list : String → String
address_list raw =
    let t = trim_space raw in
    let list : String = elim (cut "://" t) [ none ↦ t | some (scheme, rest) ↦ rest ] in
    elim (cut "?" list) [ none ↦ list | some (hosts, params) ↦ hosts ]

unfoldable pub peers_of : String → List String
unfolding address_list filter
peers_of raw = filter (λ p. not (p == "")) (map trim_space (split (address_list raw) b','))

module _ {ℓ} {F : Type ℓ} where
  -- every spelling that a node answers to, in small letters
  unfoldable pub spellings : Snapshot F → List String
  spellings s = map to_lower (addresses s)

  unfoldable pub known_spellings : List (Snapshot F) → List String
  unfolding spellings
  known_spellings [] = []
  known_spellings (s ∷ ss) = spellings s ++ known_spellings ss

  -- the switch over one node's list
  unfoldable pub peer_finding : List String → Snapshot F → List String → List (Finding F)
  unfolding is_member filter
  peer_finding known s peers =
      let is_known = λ (p : String). is_member (to_lower (host_only p)) known in
      let present = filter is_known peers in
      let unknown = filter (λ p. not (is_known p)) peers in
      if eqb (length peers) 0
      then statement "cluster/peers" s.node bad
          "wsrep_cluster_address is empty (gcomm://): this node would bootstrap its own cluster"
          "the empty form is for bootstrapping a new cluster once — left in a running node's configuration it means the next restart forms a second Primary component instead of rejoining this one"
        ∷ []
      else if eqb (length present) 0
      then statement "cluster/peers" s.node bad
          ("wsrep_cluster_address names no current member: " <> join peers ", ")
          "this node cannot rejoin after a restart — it will contact servers that are not in the cluster and give up, and nothing says so until it tries"
        ∷ []
      else if ltb 0 (length unknown)
      then statement "cluster/peers" s.node warn
          ("wsrep_cluster_address names " <> join unknown ", " <> ", which is not in this cluster")
          "a restart still works — the remaining peers answer — but the list describes a cluster that no longer exists, and it is one decommission away from naming nobody"
        ∷ []
      else []

  unfoldable pub peer_node : List String → Snapshot F → List (Finding F)
  unfolding peer_finding peers_of reports
  peer_node known s = elim (get_var s "wsrep_cluster_address") [
    | none ↦ []
    | some raw ↦ if reports (some raw) then peer_finding known s (peers_of raw) else []
  ]

  unfoldable pub peers_from : List String → List (Snapshot F) → List (Finding F)
  unfolding peer_node
  peers_from known [] = []
  peers_from known (s ∷ ss) = peer_node known s ++ peers_from known ss

  unfoldable pub peer_list : List (Snapshot F) → List (Finding F)
  unfolding peers_from known_spellings
  peer_list live = peers_from (known_spellings live) live

-- the key of a member: its host, or its UUID
unfoldable pub member_key : Member → String
member_key m =
    let host = to_lower (host_only m.name) in if host == "" then to_lower m.uuid else host

unfoldable pub member_label : Member → String
member_label m = if m.name == "" then m.uuid else m.name

-- the first member of a key is kept
add_member : Map Member → Member → Map Member
unfolding member_key put get
add_member seen m =
    if member_key m == ""
    then seen
    else elim (get (member_key m) seen) [ some old ↦ seen | none ↦ put (member_key m) m seen ]

members_from : Map Member → List Member → Map Member
unfolding add_member
members_from seen [] = seen
members_from seen (m ∷ ms) = members_from (add_member seen m) ms

-- the members of the group that no audited node is
unlisted_labels : List String → Map Member → List String
unfolding is_member member_label
unlisted_labels audited [] = []
unlisted_labels audited ((k, m) ∷ seen) =
    let rest = unlisted_labels audited seen in
    if is_member k audited then rest else member_label m ∷ rest

unfoldable pub has_key : Map Member → String → Bool
unfolding get
has_key seen k = elim (get k seen) [ none ↦ false | some m ↦ true ]

module _ {ℓ} {F : Type ℓ} where
  unfoldable pub seen_members : Map Member → List (Snapshot F) → Map Member
  unfolding members_from
  seen_members seen [] = seen
  seen_members seen (s ∷ ss) = seen_members (members_from seen s.membership) ss

  -- the keys that an audited node answers to
  unfoldable pub audited_keys : Snapshot F → List String
  audited_keys s = map (λ a. to_lower (host_only a)) (addresses s)

  unfoldable pub all_audited_keys : List (Snapshot F) → List String
  unfolding audited_keys
  all_audited_keys [] = []
  all_audited_keys (s ∷ ss) = audited_keys s ++ all_audited_keys ss

  unfoldable pub listed : Map Member → Snapshot F → Bool
  unfolding audited_keys has_key any
  listed seen s = any (has_key seen) (audited_keys s)

  unfoldable pub not_listed : Map Member → List (Snapshot F) → List String
  unfolding listed filter sort_strings
  not_listed seen live = sort_strings (map (λ s. s.node) (filter (λ s. not (listed seen s)) live))

  unfoldable pub not_audited : Map Member → List (Snapshot F) → List String
  unfolding unlisted_labels all_audited_keys sort_strings
  not_audited seen live = sort_strings (unlisted_labels (all_audited_keys live) seen)

module _ {ℓ} {F : Type ℓ} ⦃fl : Float F⦄ where
  not_listed_finding : String → List String → List (Finding F)
  not_listed_finding name nodes =
      if ltb 0 (length nodes)
      then statement "cluster/membership-view" name bad
          ("the cluster does not list " <> join nodes ", " <> ", which reported itself as a member")
          "the node believes it is in the group and the group has not listed it — no single node can report this about itself, and writes it accepts are certified by a component it is not part of"
        ∷ []
      else []

  not_audited_finding : String → List String → List (Finding F)
  unfolding num
  not_audited_finding name labels =
      if ltb 0 (length labels)
      then measure "cluster/membership-view" name warn
          ("the cluster lists "
            <> fmt_ℕ (length labels)
            <> " member(s) this run did not audit: "
            <> join labels ", ")
          (num F (length labels)) "nodes"
          "every cluster-wide statement in this report was made without them: add them to the config, or find out what they are — a member nobody knows about is a member nobody is watching"
        ∷ []
      else []

  unfoldable pub membership_view : String → List (Snapshot F) → List (Finding F)
  unfolding seen_members not_listed not_audited not_listed_finding not_audited_finding
  membership_view name live =
      let seen = seen_members [] live in
      if eqb (length seen) 0
      then []
      else not_listed_finding name (not_listed seen live)
        ++ not_audited_finding name (not_audited seen live)
