-- ===== src/Audit/Groups/Laws.antt =====
-- What groupBy of internal/audit/audit.go collects, and when it finds more than one group.
use galera_doctor.Prelude.{
  ◌<◌, String, ◌≡◌, refl, sym, ◌∙◌, ◌≢◌, ◌↔◌, ◌⊎◌, inl, inr, none, List, [], ◌∷◌, ◌++◌, map, Memᴰ,
  arith, length, filter, All, ◌==◌, eq_iff, eq_refl, Bool-cases,
}
use mathlib.Core.List.{append-nil, append_assoc}
use galera_doctor.Go.Map.{get, get_or, put, get-put}
use galera_doctor.Cluster.{Snapshot}
use galera_doctor.Audit.Groups.{Groups, add_to_group, group_name, gather, group_by}

module _ {ℓ} {A : Type ℓ} (name_of node_of : A → String) where
  -- the nodes of a name, in their order
  abbrev pub nodes_named : String → List A → List String
  nodes_named v live = map node_of (filter (λ s. name_of s == v) live)

  -- two nodes of different names
  abbrev pub Differ : List A → Type ℓ
  Differ live = (s : A) × (t : A) × Memᴰ s live × Memᴰ t live × (name_of s ≢ name_of t)

  pub get_or-gather :
      (v : String) (out : Groups) (live : List A)
      → get_or v [] (gather name_of node_of out live) ≡ get_or v [] out ++ nodes_named v live
  unfolding gather filter get_or
  get_or-gather v out [] = sym (append-nil _)
  get_or-gather v out (s ∷ ss) =
      let name = name_of s in
      let out' = add_to_group name (node_of s) out in
      get_or-gather v out' ss
      ∙ (unfold add_to_group in
          ground (
            arith,
            get-put name v (get_or name [] out ++ node_of s ∷ []) out,
            eq_iff name v,
            append_assoc (get_or v [] out) (node_of s ∷ []) (nodes_named v ss),
          ))

  has_key-gather :
      (v : String) (out : Groups) (live : List A)
      → get v out ≢ none
      → get v (gather name_of node_of out live) ≢ none
  unfolding gather
  has_key-gather v out [] h = h
  has_key-gather v out (s ∷ ss) h =
      let name = name_of s in
      has_key-gather v (add_to_group name (node_of s) out) ss (λ e.
        (unfold add_to_group in
          ground (arith, get-put name v (get_or name [] out ++ node_of s ∷ []) out, h)))

  pub name-gather :
      (s : A) (out : Groups) (live : List A)
      → Memᴰ s live
      → get (name_of s) (gather name_of node_of out live) ≢ none
  unfolding gather
  name-gather s out [] m = elim m [ ]
  name-gather s out (t ∷ ts) (Memᴰ.head p) =
      has_key-gather (name_of s) (add_to_group (name_of t) (node_of t) out) ts (
        unfold add_to_group in
        rw (← p) (λ e. ground (
          arith,
          get-put (name_of s) (name_of s) (get_or (name_of s) [] out ++ node_of t ∷ []) out,
          eq_refl (name_of s),
        )))
  name-gather s out (t ∷ ts) (Memᴰ.tail m) =
      name-gather s (add_to_group (name_of t) (node_of t) out) ts m

  two_keys : (v w : String) (m : Groups) → v ≢ w → get v m ≢ none → get w m ≢ none → 1 < length m
  unfolding get
  two_keys v w [] apart h k = absurd (h refl)
  two_keys v w ((j, ns) ∷ []) apart h k = ground (arith, eq_iff j v, eq_iff j w)
  two_keys v w (a ∷ b ∷ m) apart h k = omega arith

  one_key :
      (v : String) (ns : List String) (live : List A)
      → All (λ s. name_of s ≡ v) live
      → length (gather name_of node_of ((v, ns) ∷ []) live) ≡ 1
  unfolding gather add_to_group put get_or get
  one_key v ns [] h = refl
  one_key v ns (s ∷ ss) (h, hs) =
      rw (h, eq_refl v) (one_key v (get_or v [] ((v, ns) ∷ []) ++ node_of s ∷ []) ss hs)

  agree-or_not :
      (v : String) (live : List A)
      → All (λ s. name_of s ≡ v) live ⊎ ((t : A) × Memᴰ t live × (name_of t ≢ v))
  agree-or_not v [] = inl tt
  agree-or_not v (s ∷ ss) = elim (agree-or_not v ss) [
    | inr (t, m, h) ↦ inr (t, Memᴰ.tail m, h)
    | inl all ↦ elim (Bool-cases (name_of s == v)) [
      | inl e ↦ inl ((eq_iff (name_of s) v).0 e, all)
      | inr e ↦ inr (s, Memᴰ.head refl, λ p. ground (arith, eq_iff (name_of s) v))
    ]
  ]

  -- a loop finds more than one group exactly when two elements have different names
  pub gather-Differ : (l : List A) → (1 < length (gather name_of node_of [] l)) ↔ Differ l
  gather-Differ l = (to l, from l)
    where
      to : (m : List A) → 1 < length (gather name_of node_of [] m) → Differ m
      to [] h = absurd (unfold gather in omega arith)
      to (s ∷ ss) h = elim (agree-or_not (name_of s) ss) [
        | inr (t, m, e) ↦ (s, t, Memᴰ.head refl, Memᴰ.tail m, λ p. e (sym p))
        | inl all ↦ absurd (
            unfold gather add_to_group put get_or get in
            omega (arith, one_key (name_of s) (node_of s ∷ []) ss all))
      ]

      from : (m : List A) → Differ m → 1 < length (gather name_of node_of [] m)
      from m (s, t, a, b, apart) =
          two_keys (name_of s) (name_of t) (gather name_of node_of [] m) apart
            (name-gather s [] m a) (name-gather t [] m b)

module _ {ℓ} {F : Type ℓ} (key : Snapshot F → String) where
  abbrev pub name_of : Snapshot F → String
  name_of s = group_name (key s)

  -- two nodes of different names
  abbrev pub Disagree : List (Snapshot F) → Type ℓ
  Disagree = Differ name_of (λ s. s.node)

  -- groupBy lists, under every name, the nodes that have it, in the order of the snapshots.
  pub get_or-group_by :
      (v : String) (live : List (Snapshot F))
      → get_or v [] (group_by live key) ≡ nodes_named name_of (λ s. s.node) v live
  unfolding group_by get_or get
  get_or-group_by v live = get_or-gather name_of (λ s. s.node) v [] live

  -- groupBy finds more than one group exactly when two nodes have different names.
  pub group_by-Disagree :
      (live : List (Snapshot F)) → (1 < length (group_by live key)) ↔ Disagree live
  unfolding group_by
  group_by-Disagree live = gather-Differ name_of (λ s. s.node) live
