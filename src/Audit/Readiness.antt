-- ===== src/Audit/Readiness.antt =====
-- Checks of internal/audit/audit.go on the next restart and the next partition: sstReadiness,
-- quorumSettings, gcacheRecover, osuMethod, evs, transferProgress.
use galera_doctor.Prelude.{
  String, Bool, true, false, not, ◌&&◌, ◌||◌, Option, none, some, List, [], ◌∷◌, ◌++◌, ltb, eqb,
  if◌then◌else◌, ◌==◌, ◌<>◌, filter, length, map, any,
}
use galera_doctor.Go.Text.{fmt_ℕ, join, trim_space, to_lower, equal_fold, split}
use galera_doctor.Go.Sort.{sort_strings}
use galera_doctor.Go.Map.{Map, get_or, put, keys}
use galera_doctor.Go.Float.{Float}
use galera_doctor.Finding.{Finding, Status, ok, warn, bad}
use galera_doctor.Cluster.{Snapshot, get_status, get_var, provider_option}
use galera_doctor.Cluster.Address.{addresses}
use galera_doctor.Audit.Groups.{
  truthy, describe_groups, group_by, reporting_var, var_value, statement, measure, num,
}

-- what stands behind the last comma
last_part : String → List String → String
last_part p [] = p
last_part p (q ∷ qs) = last_part q qs

unfoldable pub ends_open : List String → Bool
unfolding last_part
ends_open [] = false
ends_open (p ∷ ps) = trim_space (last_part p ps) == ""

unfoldable pub donor_status : List String → Status
donor_status parts = if ends_open parts then warn else bad

backup_sst_method : String → Bool
backup_sst_method m =
    (m == "mariabackup") || (m == "xtrabackup") || (m == "xtrabackup-v2") || (m == "mysqldump")

-- the names of a donor list that are not known
unfoldable pub unknown_donors : (String → Bool) → List String → List String
unknown_donors known [] = []
unknown_donors known (p ∷ ps) =
    let d = trim_space p in
    let rest = unknown_donors known ps in if (d == "") || known (to_lower d) then rest else d ∷ rest

module _ {ℓ} {F : Type ℓ} where
  -- a value without white space around it, in lower case
  unfoldable pub lower_value : String → Snapshot F → String
  lower_value key s = to_lower (var_value key s)

  sst_method_agreed : String → List (Snapshot F) → List (Finding F)
  sst_method_agreed name [] = []
  sst_method_agreed name (s ∷ ss) =
      statement "sst/method" name ok
        ("all "
          <> fmt_ℕ (length (s ∷ ss))
          <> " node(s) use "
          <> lower_value "wsrep_sst_method" s
          <> " for state transfer")
        ""
      ∷ []

  unfoldable pub sst_method : String → List (Snapshot F) → List (Finding F)
  unfolding sst_method_agreed
  sst_method name live =
      let reporting = reporting_var "wsrep_sst_method" live in
      let groups = group_by reporting (lower_value "wsrep_sst_method") in
      if ltb 1 (length groups)
      then statement "sst/method" name warn
          ("nodes disagree about the state transfer method: " <> describe_groups groups)
          "the joiner asks and the donor serves: a donor without the joiner's method installed cannot answer, so the node that restarts is the one that finds out"
        ∷ []
      else sst_method_agreed name reporting

  -- known[strings.ToLower(a)], for the addresses of every node
  unfoldable pub is_known : List (Snapshot F) → String → Bool
  unfolding any
  is_known live a = any (λ s. any (λ b. to_lower b == a) (addresses s)) live

  unfoldable pub sst_donor : (String → Bool) → Snapshot F → List (Finding F)
  unfolding unknown_donors donor_status ends_open
  sst_donor known s = elim (get_var s "wsrep_sst_donor") [
    | none ↦ []
    | some list ↦
        let parts = split list b',' in
        let unknown = unknown_donors known parts in
        if (trim_space list == "") || eqb (length unknown) 0
        then []
        else statement "sst/donor" s.node (donor_status parts)
            ("SST donor list names "
              <> join unknown ", "
              <> ", which is not in this cluster (wsrep_sst_donor="
              <> list
              <> ")")
            (if ends_open parts
              then "the trailing comma means it will fall back to any available donor, so the node still starts — but the list no longer says what somebody meant it to say"
              else "with no trailing comma this list is the only donor allowed: the node will refuse to start when that donor is unavailable — fix the name, or end the list with a comma to allow any donor")
          ∷ []
  ]

  unfoldable pub sst_auth : Snapshot F → List (Finding F)
  unfolding backup_sst_method
  sst_auth s = elim (get_var s "wsrep_sst_method") [
    | none ↦ []
    | some method ↦ elim (get_var s "wsrep_sst_auth") [
      | none ↦ []
      | some auth ↦
          if not (backup_sst_method (to_lower (trim_space method))) || not (trim_space auth == "")
          then []
          else statement "sst/auth" s.node warn
              ("wsrep_sst_auth is empty and the method is "
                <> to_lower (trim_space method)
                <> ", which authenticates against the donor")
              "credentials may be in the [sst] section of the config instead, which the server cannot see — confirm it there, because the alternative is an SST that fails at 03:00"
            ∷ []
    ]
  ]

  -- a check of each node, in order
  unfoldable pub each_node : (Snapshot F → List (Finding F)) → List (Snapshot F) → List (Finding F)
  each_node check [] = []
  each_node check (s ∷ ss) = check s ++ each_node check ss

  unfoldable pub sst_readiness : String → List (Snapshot F) → List (Finding F)
  unfolding sst_method is_known sst_donor sst_auth each_node
  sst_readiness name live =
      sst_method name live
      ++ (each_node (sst_donor (is_known live)) live ++ each_node sst_auth live)

  gcache_recover_node : Snapshot F → List (Finding F)
  gcache_recover_node s = elim (provider_option s "gcache.recover") [
    | none ↦ []
    | some v ↦
        if (trim_space v == "") || truthy v
        then []
        else statement "gcache/recover" s.node warn
            ("gcache.recover is "
              <> trim_space v
              <> ": a clean restart discards this node's write-set cache")
            "with it on the node rejoins by IST from its own cache after a restart; with it off even a two-minute maintenance window costs a full SST, and an SST takes a donor out of service too"
          ∷ []
  ]

  unfoldable pub gcache_recover : List (Snapshot F) → List (Finding F)
  unfolding gcache_recover_node each_node
  gcache_recover = each_node gcache_recover_node

  osu_node : Snapshot F → List (Finding F)
  osu_node s = elim (get_var s "wsrep_osu_method") [
    | none ↦ []
    | some v ↦
        if (trim_space v == "") || not (equal_fold (trim_space v) "RSU")
        then []
        else statement "repl/osu-method" s.node warn
            "wsrep_OSU_method is RSU: DDL run on this node is applied here and not replicated"
            "this is where a schema/drift finding comes from — RSU is a per-node operation to be turned on for one change and off again, not a default; TOI and NBO both replicate"
          ∷ []
  ]

  unfoldable pub osu_method : List (Snapshot F) → List (Finding F)
  unfolding osu_node each_node
  osu_method = each_node osu_node

  -- a finding about a status value that is not blank
  unless_blank : Snapshot F → String → String → Status → String → String → List (Finding F)
  unless_blank s key check status what hint = elim (get_status s key) [
    | none ↦ []
    | some v ↦
        if trim_space v == ""
        then []
        else statement check s.node status (what <> trim_space v) hint ∷ []
  ]

  evs_node : Snapshot F → List (Finding F)
  unfolding unless_blank
  evs_node s =
      unless_blank s "wsrep_evs_delayed" "evs/delayed" warn "this node reports delayed peers: "
        "the group communication layer keeps its own opinion about which members are flaky, and with evs.auto_evict set it removes them — this is the cluster warning about a node while every membership check still reads Primary and Synced"
      ++ unless_blank s "wsrep_evs_evict_list" "evs/evicted" bad
          "this node holds an eviction list: "
          "an evicted member cannot rejoin until the list is cleared on every node — the cluster is smaller than its configuration says, permanently, and nothing else in this report will say so"

  unfoldable pub evs : List (Snapshot F) → List (Finding F)
  unfolding evs_node each_node
  evs = each_node evs_node

  transfer_node : Snapshot F → List (Finding F)
  unfolding unless_blank
  transfer_node s =
      unless_blank s "wsrep_ist_receive_status" "sst/progress" ok "state transfer in progress: "
        "this is why the node is not Synced — the useful question is whether it is moving, and this is the number that answers it"

  unfoldable pub transfer_progress : List (Snapshot F) → List (Finding F)
  unfolding transfer_node each_node
  transfer_progress = each_node transfer_node

-- the votes of the nodes, and their sum
pub record Votes {ℓ} (F : Type ℓ) : Type ℓ where
  pub weights : Map F
  pub total : F

module _ {ℓ} {F : Type ℓ} ⦃fl : Float F⦄ where
  open fl use {parse_float, decimal, of_int, flt, feq, fadd, fmul, trim_float}

  -- a provider option that is set on a node
  unfoldable pub option_set : Snapshot F → String → Bool
  option_set s name = elim (provider_option s name) [ none ↦ false | some v ↦ truthy v ]

  unfoldable pub quorum_node : Snapshot F → List (Finding F)
  unfolding option_set
  quorum_node s =
      (if option_set s "pc.ignore_sb"
        then statement "quorum/ignore-sb" s.node bad
            "pc.ignore_sb is on: this node keeps accepting writes in a non-Primary component"
            "at the next partition both sides stay writable and diverge — this is normally left on after somebody recovered a cluster by hand, and it has to be turned off again"
          ∷ []
        else [])
      ++ (if option_set s "pc.bootstrap"
          then statement "quorum/bootstrap" s.node warn "pc.bootstrap is still set on this node"
              "the bootstrap trigger is a one-shot: left in the configuration it makes this node form its own Primary component the next time it starts alone"
            ∷ []
          else [])

  unfoldable pub weight_of : Snapshot F → Option F
  weight_of s = elim (provider_option s "pc.weight") [
    | none ↦ none
    | some v ↦ parse_float (trim_space v)
  ]

  -- the second loop: the votes
  unfoldable pub votes_from : Votes F → List (Snapshot F) → Votes F
  unfolding weight_of put
  votes_from v [] = v
  votes_from v (s ∷ ss) = elim (weight_of s) [
    | none ↦ votes_from v ss
    | some w ↦ votes_from (record { weights = put s.node w v.weights; total = fadd v.total w }) ss
  ]

  -- the second loop: the nodes without a vote
  unfoldable pub no_vote : Snapshot F → List (Finding F)
  unfolding weight_of num
  no_vote s = elim (weight_of s) [
    | none ↦ []
    | some w ↦
        if feq w (decimal 0 0)
        then measure "quorum/weight" s.node bad
            "pc.weight is 0: this node never counts towards quorum" (num F 0) "weight"
            "the cluster has one fewer vote than it has nodes — losing one of the others is losing quorum, and the node count says nothing about it"
          ∷ []
        else []
  ]

  -- every weight against the first one
  unfoldable pub all_equal : F → Map F → Bool
  all_equal first [] = true
  all_equal first ((n, w) ∷ ws) = feq w first && all_equal first ws

  -- the nodes with more than half of the votes
  unfoldable pub majority : Votes F → List String → List String
  unfolding filter get_or
  majority v = filter (λ n. flt v.total (fmul (get_or n (decimal 0 0) v.weights) (decimal 2 0)))

  unequal_weights : String → Votes F → Finding F
  unfolding majority keys sort_strings get_or
  unequal_weights name v =
      let nodes = sort_strings (keys v.weights) in
      let holders = majority v nodes in
      let msg =
        "quorum weights are not equal: "
        <> join (map (λ n. n <> "=" <> trim_float (get_or n (decimal 0 0) v.weights)) nodes) ", "
        <> " of "
        <> trim_float v.total
        <> " total" in
      if ltb 0 (length holders)
      then measure "quorum/weight" name warn
          (msg <> " — " <> join holders ", " <> " alone holds a majority") v.total "weight"
          "a single node holding a majority is a cluster that survives losing everything else, and dies when it loses that one: deliberate for a two-node-plus-arbitrator setup, an accident otherwise"
      else measure "quorum/weight" name warn msg v.total "weight"
          "the node count is not the vote count: check that this is the arithmetic somebody meant, because it decides which side of a partition survives"

  -- the switch on the weights, for at least two of them
  unfoldable pub compare_weights : String → Votes F → Map F → List (Finding F)
  unfolding all_equal unequal_weights
  compare_weights name v [] = []
  compare_weights name v ((n, first) ∷ ws) =
      let count = length ((n, first) ∷ ws) in
      if not (ltb 1 count)
      then []
      else if all_equal first ws
      then (if flt (decimal 0 0) first
          then measure "quorum/weight" name ok
              ("all "
                <> fmt_ℕ count
                <> " node(s) carry equal quorum weight ("
                <> trim_float first
                <> ")")
              v.total "weight" ""
            ∷ []
          else [])
      else unequal_weights name v ∷ []

  unfoldable pub quorum_settings : String → List (Snapshot F) → List (Finding F)
  unfolding quorum_node votes_from no_vote compare_weights each_node
  quorum_settings name live =
      let v = votes_from (record { weights = []; total = decimal 0 0 }) live in
      each_node quorum_node live ++ (each_node no_vote live ++ compare_weights name v v.weights)
