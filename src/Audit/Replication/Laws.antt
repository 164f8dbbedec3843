-- ===== src/Audit/Replication/Laws.antt =====
-- When serverIdentity of internal/audit/audit.go reports a server id.
use galera_doctor.Prelude.{
  ◌<◌, String, refl, sym, ◌≢◌, ◌↔◌, Bool-cases, inl, inr, List, [], ◌∷◌, Memᴰ, arith, length, ltb,
}
use galera_doctor.Go.Map.{get_or, keys, keys-Mem}
use galera_doctor.Go.Text.{str_lt}
use galera_doctor.Go.Sort.{sort_strings}
use galera_doctor.Go.Sort.Laws.{sort_by-Mem}
use galera_doctor.Cluster.{Snapshot}
use galera_doctor.Audit.Groups.{Groups, reporting_var, var_value}
use galera_doctor.Audit.Groups.Shared.{Shared, group-named, some-get_or}
use galera_doctor.Audit.Replication.{duplicate_from, duplicates, server_ids, server_id}

-- a key of the list whose group has several nodes
duplicate_from-some :
    (ids : Groups) (ks : List String)
    → duplicate_from ids ks ≢ []
    → (k : String) × (1 < length (get_or k [] ids))
unfolding duplicate_from
duplicate_from-some ids [] h = absurd (h refl)
duplicate_from-some ids (k ∷ ks) h = elim (Bool-cases (ltb (length (get_or k [] ids)) 2)) [
  | inl e ↦ duplicate_from-some ids ks (ground (arith, e, h))
  | inr e ↦ (k, ground (arith, e))
]

duplicate_from-Mem :
    (ids : Groups) (ks : List String) (k : String)
    → Memᴰ k ks
    → 1 < length (get_or k [] ids)
    → duplicate_from ids ks ≢ []
unfolding duplicate_from
duplicate_from-Mem ids [] k m h = elim m [ ]
duplicate_from-Mem ids (j ∷ ks) k (Memᴰ.head p) h =
    let h' : 1 < length (get_or j [] ids) = rw (sym p) h in λ e. ground (arith, e, h')
duplicate_from-Mem ids (j ∷ ks) k (Memᴰ.tail m) h =
    let r = duplicate_from-Mem ids ks k m h in λ e. ground (arith, e, r)

module _ {ℓ} {F : Type ℓ} where
  -- The server ids are reported exactly when two of the nodes that report one have the same.
  pub server_id_iff :
      (name : String) (live : List (Snapshot F))
      → (server_id name live ≢ [])
        ↔ Shared (var_value "server_id") (λ s. s.node) (reporting_var "server_id" live)
  unfolding server_id server_ids duplicates sort_strings
  server_id_iff name live = (to, from)
    where
      key : Snapshot F → String
      key = var_value "server_id"

      rep : List (Snapshot F)
      rep = reporting_var "server_id" live

      to : server_id name live ≢ [] → Shared key (λ s. s.node) rep
      to h =
          let (v, p) =
            duplicate_from-some (server_ids live) (sort_strings (keys (server_ids live)))
              (ground (arith, h)) in
          (v, rw (sym (group-named key (λ s. s.node) v rep)) p)

      from : Shared key (λ s. s.node) rep → server_id name live ≢ []
      from (v, p) =
          let q : 1 < length (get_or v [] (server_ids live)) =
            rw (group-named key (λ s. s.node) v rep) p in
          let (ns, e, r) = some-get_or v (server_ids live) q in
          let m =
            sort_by-Mem str_lt v (keys (server_ids live)) (keys-Mem v ns (server_ids live) e) in
          let d =
            duplicate_from-Mem (server_ids live) (sort_strings (keys (server_ids live))) v m q in
          ground (arith, d)
