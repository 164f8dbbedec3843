-- ===== src/Audit/Peers/Laws.antt =====
-- When peerList of internal/audit/audit.go is silent about a node.
use galera_doctor.Prelude.{
  none, some, ◌⊎◌, false, String, ◌≡◌, refl, sym, ap, ◌∙◌, Memᴰ, map, any_iff, eq_iff, eq_refl,
  ◌++◌, ◌==◌, Mem-append, append-nil_iff, Option-cases, ◌≤◌, ◌≢◌, ◌↔◌, inl, inr, true, not, List,
  [], ◌∷◌, arith, length, filter, All, Bool-cases,
}
use galera_doctor.Go.Text.{to_lower}
use galera_doctor.Cluster.{Snapshot, get_var}
use galera_doctor.Cluster.Address.{host_only, addresses}
use galera_doctor.Audit.Groups.{reports}
use galera_doctor.Audit.Peers.{
  is_member, peer_finding, spellings, known_spellings, peer_node, peers_from, peers_of, peer_list,
}

-- one of some spellings
abbrev IsKnown : List String → String → Type 0
IsKnown known p = is_member (to_lower (host_only p)) known ≡ true

-- nothing that fails a test is left exactly where everything passes it
unknown-All :
    (known peers : List String)
    → length (filter (λ p. not (is_member (to_lower (host_only p)) known)) peers) ≡ 0
    → All (IsKnown known) peers
unfolding filter
unknown-All known [] h = tt
unknown-All known (p ∷ peers) h = elim (Bool-cases (is_member (to_lower (host_only p)) known)) [
  | inl e ↦ (e, unknown-All known peers (ground (arith, h, e)))
  | inr e ↦ absurd (ground (arith, h, e))
]

All-unknown :
    (known peers : List String)
    → All (IsKnown known) peers
    → length (filter (λ p. not (is_member (to_lower (host_only p)) known)) peers) ≡ 0
unfolding filter
All-unknown known [] a = refl
All-unknown known (p ∷ peers) (h, a) = ground (arith, h, All-unknown known peers a)

All-present :
    (known peers : List String)
    → peers ≢ []
    → All (IsKnown known) peers
    → 1 ≤ length (filter (λ p. is_member (to_lower (host_only p)) known) peers)
unfolding filter
All-present known [] h a = absurd (h refl)
All-present known (p ∷ peers) h (e, a) = ground (arith, e)

module _ {ℓ} {F : Type ℓ} where
  -- the finding of one list
  peer_finding_iff :
      (known : List String) (s : Snapshot F) (peers : List String)
      → (peer_finding known s peers ≡ []) ↔ ((peers ≢ []) × All (IsKnown known) peers)
  unfolding peer_finding
  peer_finding_iff known s peers = (to, from)
    where
      to : peer_finding known s peers ≡ [] → (peers ≢ []) × All (IsKnown known) peers
      to e = (
        (λ p. let z : length peers ≡ 0 = ap length p in ground (arith, e, z)),
        unknown-All known peers (ground (arith, e)),
      )

      from : (peers ≢ []) × All (IsKnown known) peers → peer_finding known s peers ≡ []
      from (h, a) =
          let u = All-unknown known peers a in
          let q = All-present known peers h a in
          let n : length peers ≢ 0 = some_length peers h in ground (arith, u, q, n)
        where
          some_length : (xs : List String) → xs ≢ [] → length xs ≢ 0
          some_length [] k z = k refl
          some_length (x ∷ xs) k z = omega (arith, z)

append-Mem_cases {ℓ} :
    {A : Type ℓ} (x : A) (xs ys : List A) → Memᴰ x (xs ++ ys) → Memᴰ x xs ⊎ Memᴰ x ys
append-Mem_cases x [] ys m = inr m
append-Mem_cases x (y ∷ xs) ys (Memᴰ.head q) = inl (Memᴰ.head q)
append-Mem_cases x (y ∷ xs) ys (Memᴰ.tail m) = elim (append-Mem_cases x xs ys m) [
  | inl n ↦ inl (Memᴰ.tail n)
  | inr n ↦ inr n
]

append-Mem {ℓ} : {A : Type ℓ} (x : A) (xs ys : List A) → Memᴰ x ys → Memᴰ x (xs ++ ys)
append-Mem x [] ys m = m
append-Mem x (y ∷ xs) ys m = Memᴰ.tail (append-Mem x xs ys m)

map-Mem : (f : String → String) (a : String) (l : List String) → Memᴰ a l → Memᴰ (f a) (map f l)
map-Mem f a [] m = elim m [ ]
map-Mem f a (b ∷ l) (Memᴰ.head q) = Memᴰ.head (ap f q)
map-Mem f a (b ∷ l) (Memᴰ.tail m) = Memᴰ.tail (map-Mem f a l m)

Mem-map :
    (f : String → String) (x : String) (l : List String)
    → Memᴰ x (map f l)
    → (a : String) × Memᴰ a l × (f a ≡ x)
Mem-map f x [] m = elim m [ ]
Mem-map f x (b ∷ l) (Memᴰ.head q) = (b, Memᴰ.head refl, sym q)
Mem-map f x (b ∷ l) (Memᴰ.tail m) = let (a, n, e) = Mem-map f x l m in (a, Memᴰ.tail n, e)

is_member_iff : (k : String) (l : List String) → (is_member k l ≡ true) ↔ Memᴰ k l
unfolding is_member
is_member_iff k l = (
  (λ h. let (j, m, e) = (any_iff (λ j. j == k) l).0 h in rw (sym ((eq_iff j k).0 e)) m),
  (λ m. (any_iff (λ j. j == k) l).1 (k, m, eq_refl k)),
)

module _ {ℓ} {F : Type ℓ} where
  -- the peer is an address of an audited node, whatever its case and port
  abbrev pub IsMember : List (Snapshot F) → String → Type ℓ
  IsMember live p =
      (s : Snapshot F) × Memᴰ s live
      × (a : String) × Memᴰ a (addresses s)
      × (to_lower a ≡ to_lower (host_only p))

  known-IsMember :
      (live : List (Snapshot F)) (p : String)
      → Memᴰ (to_lower (host_only p)) (known_spellings live)
      → IsMember live p
  unfolding known_spellings spellings
  known-IsMember [] p m = elim m [ ]
  known-IsMember (s ∷ ss) p m =
      elim (append-Mem_cases (to_lower (host_only p)) (spellings s) (known_spellings ss) m) [
        | inl n ↦
            let (a, k, e) = Mem-map to_lower (to_lower (host_only p)) (addresses s) n in
            (s, Memᴰ.head refl, a, k, e)
        | inr n ↦ let (t, k, a, l, e) = known-IsMember ss p n in (t, Memᴰ.tail k, a, l, e)
      ]

  IsMember-known :
      (live : List (Snapshot F)) (p : String) (s : Snapshot F) (a : String)
      → Memᴰ s live
      → Memᴰ a (addresses s)
      → to_lower a ≡ to_lower (host_only p)
      → Memᴰ (to_lower (host_only p)) (known_spellings live)
  unfolding known_spellings spellings
  IsMember-known [] p s a m n e = elim m [ ]
  IsMember-known (t ∷ ts) p s a (Memᴰ.head q) n e =
      Mem-append (to_lower (host_only p)) (spellings t) (known_spellings ts)
        (rw (sym e) (map-Mem to_lower a (addresses t) (rw (ap addresses q) at n)))
  IsMember-known (t ∷ ts) p s a (Memᴰ.tail m) n e =
      append-Mem (to_lower (host_only p)) (spellings t) (known_spellings ts)
        (IsMember-known ts p s a m n e)

  IsKnown-iff :
      (live : List (Snapshot F)) (p : String) → IsKnown (known_spellings live) p ↔ IsMember live p
  IsKnown-iff live p =
      let k = is_member_iff (to_lower (host_only p)) (known_spellings live) in
      (
        (λ h. known-IsMember live p (k.0 h)),
        (λ (s, m, a, n, e). k.1 (IsMember-known live p s a m n e)),
      )

  All-IsMember :
      (live : List (Snapshot F)) (peers : List String)
      → All (IsKnown (known_spellings live)) peers ↔ All (IsMember live) peers
  All-IsMember live [] = ((λ h. tt), (λ h. tt))
  All-IsMember live (p ∷ peers) =
      let a = IsKnown-iff live p in
      let rest = All-IsMember live peers in
      ((λ (h, k). (a.0 h, rest.0 k)), (λ (h, k). (a.1 h, rest.1 k)))

  -- a node reports no list, or one that names somebody and only members
  abbrev pub IsQuiet : List (Snapshot F) → Snapshot F → Type ℓ
  IsQuiet live s =
      (get_var s "wsrep_cluster_address" ≡ none)
      ⊎ ((raw : String) × (get_var s "wsrep_cluster_address" ≡ some raw)
          × ((reports (some raw) ≡ false)
              ⊎ ((peers_of raw ≢ []) × All (IsMember live) (peers_of raw))))

  peer_node_iff :
      (live : List (Snapshot F)) (s : Snapshot F)
      → (peer_node (known_spellings live) s ≡ []) ↔ IsQuiet live s
  unfolding peer_node
  peer_node_iff live s = elim (Option-cases (get_var s "wsrep_cluster_address")) [
    | inl e ↦ ((λ h. inl e), (λ h. rw (peer_node, e) refl))
    | inr (raw, e) ↦ elim (Bool-cases (reports (some raw))) [
      | inr r ↦ ((λ h. inr (raw, e, inl r)), (λ h. rw (peer_node, e, r) refl))
      | inl r ↦
          let q : peer_node (known_spellings live) s
              ≡ peer_finding (known_spellings live) s (peers_of raw) =
            rw (peer_node, e, r) refl in
          let f = peer_finding_iff (known_spellings live) s (peers_of raw) in
          let a = All-IsMember live (peers_of raw) in
          (
            (λ h. let (n, k) = f.0 (sym q ∙ h) in inr (raw, e, inr (n, a.0 k))),
            (λ h. q ∙ f.1 (listed raw e r h)),
          )
    ]
  ]
    where
      listed :
          (raw : String)
          → get_var s "wsrep_cluster_address" ≡ some raw
          → reports (some raw) ≡ true
          → IsQuiet live s
          → (peers_of raw ≢ []) × All (IsKnown (known_spellings live)) (peers_of raw)
      listed raw e r (inl n) = absurd (ground (arith, e, n))
      listed raw e r (inr (other, o, q)) = go other (ground (arith, e, o)) q
        where
          go :
              (other : String)
              → other ≡ raw
              → (reports (some other) ≡ false)
                ⊎ ((peers_of other ≢ []) × All (IsMember live) (peers_of other))
              → (peers_of raw ≢ []) × All (IsKnown (known_spellings live)) (peers_of raw)
          go other p (inl n) = absurd (ground (arith, r, p, n))
          go other p (inr (n, a)) =
              let n' : peers_of raw ≢ [] = rw (sym p) n in
              let a' : All (IsMember live) (peers_of raw) = rw (sym p) a in
              (n', (All-IsMember live (peers_of raw)).1 a')

  peers_from_iff :
      (live ss : List (Snapshot F))
      → (peers_from (known_spellings live) ss ≡ []) ↔ All (IsQuiet live) ss
  unfolding peers_from
  peers_from_iff live [] = ((λ h. tt), (λ h. refl))
  peers_from_iff live (s ∷ ss) =
      let a =
        append-nil_iff (peer_node (known_spellings live) s)
          (peers_from (known_spellings live) ss) in
      let d = peer_node_iff live s in
      let rest = peers_from_iff live ss in
      ((λ h. let (p, q) = a.0 h in (d.0 p, rest.0 q)), (λ (p, q). a.1 (d.1 p, rest.1 q)))

  -- peerList has no finding exactly when each list of peers that a node reports names somebody, and
  -- every peer on it is an address of an audited node.
  pub peer_list_iff : (live : List (Snapshot F)) → (peer_list live ≡ []) ↔ All (IsQuiet live) live
  unfolding peer_list
  peer_list_iff live = peers_from_iff live live
