-- ===== src/Audit/Settings/Laws.antt =====
-- When a setting of internal/audit/audit.go is reported as a disagreement, and what the limit of a
-- write-set says.
use text.Mathlib.TextLemmas.{append-nil}
use galera_doctor.Prelude.{
  String, ◌≡◌, refl, ap, sym, ◌∙◌, Memᴰ, ◌≤◌, ◌≢◌, ◌↔◌, none, some, List, [], ◌∷◌, ◌<>◌, arith, All,
  length, Option-cases, inl, inr,
}
use galera_doctor.Go.Map.{get}
use galera_doctor.Go.Float.{Float}
use galera_doctor.Cluster.{Snapshot, get_status, get_float}
use galera_doctor.Audit.Groups.{Groups, group_by, reporting_var, var_value, describe_groups}
use galera_doctor.Audit.Groups.Laws.{Disagree, name_of, name-gather, group_by-Disagree}
use galera_doctor.Audit.Settings.{
  Smallest, disagreement, none_kept, smallest_limit, ws_limit, sync_wait,
}

some_entry : (k : String) (m : Groups) → get k m ≢ none → 1 ≤ length m
unfolding get
some_entry k [] h = absurd (h refl)
some_entry k (e ∷ m) h = omega arith

single {ℓ} : {A : Type ℓ} (x y : A) → Memᴰ x (y ∷ []) → x ≡ y
single x y (Memᴰ.head p) = p
single x y (Memᴰ.tail m) = elim m [ ]

module _ {ℓ} {F : Type ℓ} ⦃fl : Float F⦄ where
  -- no status has the variable
  abbrev pub NoStatus : String → List (Snapshot F) → Type 0
  NoStatus key l = All (λ s. get_status s key ≡ none) l

  get_float-none :
      (s : Snapshot F) (key : String) → get_status s key ≡ none → get_float s key ≡ none
  unfolding get_float
  get_float-none s key h = rw (get_float, h) refl

  smallest_limit-none :
      (key : String) (best : Smallest F) (l : List (Snapshot F))
      → NoStatus key l
      → smallest_limit key best l ≡ best
  unfolding smallest_limit
  smallest_limit-none key best [] h = refl
  smallest_limit-none key best (s ∷ ss) (h, hs) =
      rw (smallest_limit, get_float-none s key h) (smallest_limit-none key best ss hs)

  some_group :
      (key : Snapshot F → String) (l : List (Snapshot F))
      → 1 ≤ length l
      → 1 ≤ length (group_by l key)
  unfolding group_by
  some_group key [] h = absurd (omega (arith, h))
  some_group key (s ∷ ss) h =
      some_entry (name_of key s) _
        (name-gather (name_of key) (λ t. t.node) s [] (s ∷ ss) (Memᴰ.head refl))

  two_nodes : (key : Snapshot F → String) (l : List (Snapshot F)) → Disagree key l → 2 ≤ length l
  two_nodes key [] (s, t, m, n, apart) = elim m [ ]
  two_nodes key (x ∷ []) (s, t, m, n, apart) =
      absurd (apart (ap (name_of key) (single s x m ∙ sym (single t x n))))
  two_nodes key (x ∷ y ∷ l) d = omega arith

  disagreement_iff :
      (reporting : List (Snapshot F)) (key : Snapshot F → String)
      → (disagreement reporting key ≢ none) ↔ Disagree key reporting
  unfolding disagreement
  disagreement_iff reporting key = (
    (λ h. (group_by-Disagree key reporting).0 (ground (arith, h, some_group key reporting))),
    (λ d e. ground (arith, e, two_nodes key reporting d, (group_by-Disagree key reporting).1 d)),
  )

  -- wsrep_sync_wait is reported exactly when two of the nodes that report it have different values.
  pub sync_wait_iff :
      (name : String) (live : List (Snapshot F))
      → (sync_wait name live ≢ [])
        ↔ Disagree (var_value "wsrep_sync_wait") (reporting_var "wsrep_sync_wait" live)
  unfolding sync_wait
  sync_wait_iff name live =
      let d =
        disagreement_iff (reporting_var "wsrep_sync_wait" live) (var_value "wsrep_sync_wait") in
      (
        (λ h. d.0 (λ e. h (rw (sync_wait, e) refl))),
        (λ k e.
            d.1 k
              (elim (Option-cases (
                disagreement (reporting_var "wsrep_sync_wait" live)
                  (var_value "wsrep_sync_wait"))) [
                    | inl n ↦ n
                    | inr (g, n) ↦ absurd (ground (arith, e, n))
                  ])),
      )

  disagreement-some :
      (reporting : List (Snapshot F)) (key : Snapshot F → String) (g : Groups)
      → disagreement reporting key ≡ some g
      → g ≡ group_by reporting key
  unfolding disagreement
  disagreement-some reporting key g e = ground (arith, e)

  -- Where no status of a node has the variable, which is a server variable and not a status, a
  -- disagreement about a write-set limit is reported without naming the limit that holds.
  pub ws_limit_unnamed :
      (name : String) (live : List (Snapshot F)) (key : String)
      → NoStatus key (reporting_var key live)
      → All
          (λ f.
            f.message
            ≡ "nodes disagree about "
              <> key
              <> ": "
              <> describe_groups (group_by (reporting_var key live) (var_value key)))
          (ws_limit name live key)
  unfolding ws_limit none_kept
  ws_limit_unnamed name live key h =
      elim (Option-cases (disagreement (reporting_var key live) (var_value key))) [
        | inl n ↦ rw (ws_limit, n) tt
        | inr (g, n) ↦
            rw
              (
                ws_limit,
                n,
                smallest_limit-none key none_kept (reporting_var key live) h,
                sym (disagreement-some (reporting_var key live) (var_value key) g n),
              )
              (
                ap (λ x. "nodes disagree about " <> key <> ": " <> x)
                    (append-nil (describe_groups g)),
                tt,
              )
      ]
