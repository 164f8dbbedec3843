-- ===== src/Audit/Groups/Shared.antt =====
-- Names that several nodes have, among the groups of internal/audit/audit.go.
use galera_doctor.Prelude.{
  ◌<◌, String, ◌≡◌, sym, some, List, [], ◌∷◌, ◌++◌, Memᴰ, arith, length, Option-cases, inl, inr,
}
use galera_doctor.Go.Map.{get, get_or, put, IsMap, put-IsMap, get-Mem}
use galera_doctor.Audit.Groups.{Groups, add_to_group, gather}
use galera_doctor.Audit.Groups.Laws.{nodes_named, get_or-gather}

-- a list that is not empty belongs to an entry
pub some-get_or :
    (v : String) (g : Groups)
    → 1 < length (get_or v [] g)
    → (ns : List String) × (get v g ≡ some ns) × (1 < length ns)
unfolding get_or
some-get_or v g h = elim (Option-cases (get v g)) [
  | inl e ↦ absurd (ground (arith, e, h))
  | inr (ns, e) ↦ (ns, e, ground (arith, e, h))
]

module _ {ℓ} {A : Type ℓ} (name node : A → String) where
  -- a name that at least two of the elements have
  abbrev pub Shared : List A → Type 0
  Shared l = (v : String) × (1 < length (nodes_named name node v l))

  gather-IsMap : (out : Groups) (l : List A) → IsMap out → IsMap (gather name node out l)
  unfolding gather add_to_group
  gather-IsMap out [] h = h
  gather-IsMap out (a ∷ l) h =
      gather-IsMap (put (name a) (get_or (name a) [] out ++ node a ∷ []) out) l
        (put-IsMap (name a) (get_or (name a) [] out ++ node a ∷ []) out h)

  pub group-named :
      (v : String) (l : List A) → get_or v [] (gather name node [] l) ≡ nodes_named name node v l
  unfolding get_or get
  group-named v l = get_or-gather name node v [] l

  -- an entry of the groups, and what several elements have
  pub entry-Shared :
      (k : String) (ns : List String) (l : List A)
      → Memᴰ (k, ns) (gather name node [] l)
      → 1 < length ns
      → Shared l
  unfolding get_or
  entry-Shared k ns l m h =
      let e = get-Mem (gather name node [] l) k ns (gather-IsMap [] l tt) m in
      let p : ns ≡ nodes_named name node k l = ground (arith, e, group-named k l) in
      (k, rw (sym p) h)

  pub Shared-get :
      (v : String) (l : List A)
      → 1 < length (nodes_named name node v l)
      → (ns : List String) × (get v (gather name node [] l) ≡ some ns) × (1 < length ns)
  Shared-get v l h = some-get_or v (gather name node [] l) (rw (group-named v l) h)
