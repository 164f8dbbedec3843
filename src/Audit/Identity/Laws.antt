-- ===== src/Audit/Identity/Laws.antt =====
-- What the membership checks of internal/audit/audit.go report, and when.
use galera_doctor.Prelude.{
  ℕ, ◌≤◌, String, ◌≡◌, refl, ap, ◌≢◌, ◌↔◌, inl, inr, true, false, not, none, some, List, [], ◌∷◌,
  ◌++◌, map, Memᴰ, arith, length, filter, All, eq_iff, Bool-cases, Option-cases, if◌then◌else◌,
}
use mathlib.Core.List.{Perm, perm_middle}
use mathlib.Core.List.Perm
use galera_doctor.Prelude.Int.{ℤ, pos, eqb_ℤ}
use galera_doctor.Go.Text.{equal_fold}
use galera_doctor.Go.Float.{Float}
use galera_doctor.Finding.{Finding, ok, bad, error}
use galera_doctor.Cluster.{Snapshot, readable, get_status, get_float}
use galera_doctor.Audit.Groups.{Options}
use galera_doctor.Audit.Groups.Laws.{Disagree, group_by-Disagree}
use galera_doctor.Audit.Identity.{
  nodes_read, is_galera, split_galera, not_primary, state_uuid, conf_id, cluster_size, uuid_split,
  conf_split, first_size, membership,
}

module _ {ℓ} {F : Type ℓ} where
  -- nodesRead reports exactly the nodes that were not read, in order, each as an ERROR of its own.
  pub nodes_read-targets :
      (snaps : List (Snapshot F))
      → (map (λ f. f.target) (nodes_read snaps)
          ≡ map (λ s. s.node) (filter (λ s. not (readable s)) snaps))
        × All (λ f. f.status ≡ error) (nodes_read snaps)
  unfolding nodes_read filter
  nodes_read-targets [] = (refl, tt)
  nodes_read-targets (s ∷ ss) =
      let (targets, statuses) = nodes_read-targets ss in
      elim (Bool-cases (readable s)) [
        | inl e ↦ rw e (targets, statuses)
        | inr e ↦ rw e (ap (◌∷◌ s.node) targets, (refl, statuses))
      ]

  -- splitGalera keeps every node: the members of the cluster and the others are the nodes that were
  -- given, and each stands on its own side.
  pub split_galera-perm :
      (live : List (Snapshot F))
      → let (galera, foreign) = split_galera live in
        Perm (galera ++ foreign) live
        × All (λ s. is_galera s ≡ true) galera
        × All (λ s. is_galera s ≡ false) foreign
  unfolding split_galera
  split_galera-perm [] = (Perm.refl _, tt, tt)
  split_galera-perm (s ∷ ss) =
      let (galera, foreign) = split_galera ss in
      let (p, g, f) = split_galera-perm ss in
      elim (Bool-cases (is_galera s)) [
        | inl e ↦ rw e (Perm.cons s p, (e, g), f)
        | inr e ↦ rw e (Perm.trans (perm_middle galera foreign) (Perm.cons s p), g, (e, f))
      ]

  -- clusterIdentity reports a node exactly when it has a status other than Primary
  pub not_primary-targets :
      (live : List (Snapshot F))
      → map (λ f. f.target) (not_primary live)
        ≡ map
            (λ s. s.node)
            (filter
              (λ s. elim (get_status s "wsrep_cluster_status") [
                | none ↦ false
                | some v ↦ not (equal_fold v "Primary")
              ])
              live)
  unfolding not_primary filter
  not_primary-targets [] = refl
  not_primary-targets (s ∷ ss) = ground (arith, not_primary-targets ss)

module _ {ℓ} {F : Type ℓ} ⦃fl : Float F⦄ where
  open fl use {to_int}

  -- The split-brain check has a finding exactly when two nodes report different state UUIDs (a missing
  -- one counts as a UUID of its own).
  pub uuid_split_iff :
      (name : String) (live : List (Snapshot F))
      → (uuid_split name live ≢ []) ↔ Disagree state_uuid live
  unfolding uuid_split
  uuid_split_iff name live = (
    (λ h. (group_by-Disagree state_uuid live).0 (ground (arith, h))),
    (λ d e. ground (arith, (group_by-Disagree state_uuid live).1 d)),
  )

  -- Configuration ids are only compared while every node reports one state UUID: a finding means
  -- that no two nodes differ in it and that two nodes differ in the configuration id.
  pub conf_split-only :
      (name : String) (live : List (Snapshot F))
      → conf_split name live ≢ []
      → (¬ (Disagree state_uuid live)) × Disagree conf_id live
  unfolding conf_split
  conf_split-only name live h = (
    (λ d. h (ground (arith, (group_by-Disagree state_uuid live).1 d))),
    (group_by-Disagree conf_id live).0 (ground (arith, h)),
  )

  -- a node whose reported size is the expected one
  pub record HasSize (expect : ℤ) (live : List (Snapshot F)) : Type ℓ where
    pub node : Snapshot F
    pub size : F
    pub live_node : Memᴰ node live
    pub reported : get_float node "wsrep_cluster_size" ≡ some size
    pub expected : eqb_ℤ (to_int size) expect ≡ true

  later-HasSize :
      (expect : ℤ) (s : Snapshot F) (live : List (Snapshot F))
      → HasSize expect live
      → HasSize expect (s ∷ live)
  later-HasSize expect s live h = record {
    node = h.node;
    size = h.size;
    live_node = Memᴰ.tail h.live_node;
    reported = h.reported;
    expected = h.expected;
  }

  first_size-ok :
      (name : String) (expect : ℤ) (live : List (Snapshot F)) (f : Finding F)
      → first_size name expect live ≡ f ∷ []
      → f.status ≡ ok
      → HasSize expect live
  unfolding first_size
  first_size-ok name expect [] f h k = absurd (ground arith)
  first_size-ok name expect (s ∷ ss) f h k =
      elim (Option-cases (get_float s "wsrep_cluster_size")) [
        | inl e ↦ later-HasSize expect s ss (first_size-ok name expect ss f (ground arith) k)
        | inr (size, e) ↦ record {
          node = s;
          size = size;
          live_node = Memᴰ.head refl;
          reported = e;
          expected = ground (arith, eq_iff bad ok);
        }
      ]

  first_size-length :
      (name : String) (expect : ℤ) (live : List (Snapshot F))
      → length (first_size name expect live) ≤ 1
  unfolding first_size
  first_size-length name expect [] = omega arith
  first_size-length name expect (s ∷ ss) = ground (arith, first_size-length name expect ss)

  -- the size that membership expects: the option's, or as many as were configured
  abbrev pub expected_size : ℕ → Options F → ℤ
  expected_size configured opt =
      if eqb_ℤ opt.expect_nodes (pos 0) then pos configured else opt.expect_nodes

  -- The membership check makes at most one statement. It is OK only if no two nodes disagree about
  -- the size and a node reports the expected one; where two disagree it is BAD.
  pub membership_verdict :
      (name : String) (live : List (Snapshot F)) (configured : ℕ) (opt : Options F)
      → (length (membership name live configured opt) ≤ 1)
        × ((f : Finding F)
            → membership name live configured opt ≡ f ∷ []
            → f.status ≡ ok
            → (¬ (Disagree cluster_size live)) × HasSize (expected_size configured opt) live)
        × (Disagree cluster_size live
            → map (λ f. f.status) (membership name live configured opt) ≡ bad ∷ [])
  unfolding membership
  membership_verdict name live configured opt = (
    ground (arith, first_size-length name (expected_size configured opt) live),
    (λ f h k. (
      (λ d. ground (arith, (group_by-Disagree cluster_size live).1 d, eq_iff bad ok)),
      first_size-ok name (expected_size configured opt) live f (ground (arith, eq_iff bad ok)) k,
    )),
    (λ d. ground (arith, (group_by-Disagree cluster_size live).1 d)),
  )
