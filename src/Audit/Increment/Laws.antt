-- ===== src/Audit/Increment/Laws.antt =====
-- When autoIncrement of internal/audit/audit.go is BAD.
use galera_doctor.Prelude.{
  ◌<◌, String, Bool, ◌⊎◌, ◌∙◌, true, false, not, eqb, map, Option, if◌then◌else◌, ◌≡◌, refl, sym,
  ap, ◌≢◌, ◌↔◌, Bool-cases, inl, inr, none, some, List, [], ◌∷◌, Memᴰ, arith, length, ltb, filter,
}
use galera_doctor.Go.Map.{Mem-get}
use galera_doctor.Go.Float.{Float}
use galera_doctor.Go.Sort.{sort_strings}
use galera_doctor.Go.Text.{str_lt}
use galera_doctor.Go.Sort.Laws.{length-sort_by}
use galera_doctor.Finding.{Finding, ok, warn, bad, severity}
use galera_doctor.Cluster.{Snapshot, get_bool}
use galera_doctor.Audit.Groups.{Groups}
use galera_doctor.Audit.Groups.Shared.{Shared, entry-Shared, Shared-get}
use galera_doctor.Audit.Increment.{
  shared_offset, shared_from, shared_offsets, offset_name, has_offset, offsets,
  uncontrolled_increment, control_is, auto_increment, step_too_small, smallest_step,
}

-- an entry of several nodes
shared_from-entry :
    (gs : Groups)
    → shared_from gs ≢ []
    → (k : String) × (ns : List String) × Memᴰ (k, ns) gs × (1 < length ns)
unfolding shared_from shared_offset
shared_from-entry [] h = absurd (h refl)
shared_from-entry ((k, ns) ∷ gs) h = elim (Bool-cases (ltb 1 (length ns))) [
  | inl e ↦ (k, ns, Memᴰ.head refl, ground (arith, e))
  | inr e ↦
      let (j, ms, m, p) = shared_from-entry gs (ground (arith, e, h)) in (j, ms, Memᴰ.tail m, p)
]

shared_from-Mem :
    (gs : Groups) (k : String) (ns : List String)
    → Memᴰ (k, ns) gs
    → 1 < length ns
    → 0 < length (shared_from gs)
unfolding shared_from shared_offset
shared_from-Mem [] k ns m h = elim m [ ]
shared_from-Mem ((j, ms) ∷ gs) k ns (Memᴰ.head p) h =
    let q : ns ≡ ms = ap (λ x. x.1) p in let h' : 1 < length ms = rw (sym q) h in ground (arith, h')
shared_from-Mem ((j, ms) ∷ gs) k ns (Memᴰ.tail m) h =
    let r = shared_from-Mem gs k ns m h in ground (arith, r)

length-shared_offsets : (gs : Groups) → length (shared_offsets gs) ≡ length (shared_from gs)
unfolding shared_offsets sort_strings
length-shared_offsets gs = length-sort_by str_lt (shared_from gs)

abbrev first : List String → String
first [] = ""
first (x ∷ xs) = x

warn-bad : warn ≢ bad
unfolding severity
warn-bad z = let p : 1 ≡ 2 = ap severity z in absurd (omega (arith, p))

ok-bad : ok ≢ bad
unfolding severity
ok-bad z = let p : 0 ≡ 2 = ap severity z in absurd (omega (arith, p))

length-nonempty : (xs : List String) → 0 < length xs → xs ≢ []
length-nonempty xs h z = let w : length xs ≡ 0 = ap length z in ground (arith, h, w)

module _ {ℓ} {F : Type ℓ} ⦃fl : Float F⦄ where
  if-bad :
      (c : Bool) (f g : Finding F) → (if c then f else g).status ≡ bad → g.status ≢ bad → c ≡ true
  if-bad true f g e h = refl
  if-bad false f g e h = absurd (h e)

  elim-bad :
      (x : Option F) (f : F → Finding F) (g : Finding F)
      → ((y : F) → (f y).status ≢ bad)
      → g.status ≢ bad
      → (elim x as (λ z. Finding F) [ some y ↦ f y | none ↦ g ]).status ≢ bad
  elim-bad none f g h k = k
  elim-bad (some y) f g h k = h y

  -- the status is decided by the offsets in common first
  uncontrolled_increment-bad :
      (name : String) (live uncontrolled : List (Snapshot F))
      → (uncontrolled_increment name live uncontrolled).status ≡ bad
      → ltb 0 (length (shared_offsets (offsets uncontrolled))) ≡ true
  unfolding uncontrolled_increment
  uncontrolled_increment-bad name live uncontrolled e =
      if-bad (ltb 0 (length (shared_offsets (offsets uncontrolled)))) _ _ e (
        elim-bad (step_too_small (smallest_step none uncontrolled) (length live)) _ _
          (λ f. warn-bad) ok-bad)

  bad-uncontrolled_increment :
      (name : String) (live uncontrolled : List (Snapshot F))
      → 0 < length (shared_offsets (offsets uncontrolled))
      → (uncontrolled_increment name live uncontrolled).status ≡ bad
  unfolding uncontrolled_increment
  bad-uncontrolled_increment name live uncontrolled h = ground (arith, h)

  uncontrolled_increment_iff :
      (name : String) (live uncontrolled : List (Snapshot F))
      → ((uncontrolled_increment name live uncontrolled).status ≡ bad)
        ↔ Shared offset_name (λ s. s.node) (filter has_offset uncontrolled)
  unfolding offsets
  uncontrolled_increment_iff name live uncontrolled = (to, from)
    where
      to :
          (uncontrolled_increment name live uncontrolled).status ≡ bad
          → Shared offset_name (λ s. s.node) (filter has_offset uncontrolled)
      to e =
          let b = uncontrolled_increment-bad name live uncontrolled e in
          let h : 0 < length (shared_offsets (offsets uncontrolled)) = ground (arith, b) in
          let q : 0 < length (shared_from (offsets uncontrolled)) =
            rw (sym (length-shared_offsets (offsets uncontrolled))) h in
          let (k, ns, m, p) =
            shared_from-entry (offsets uncontrolled)
              (length-nonempty (shared_from (offsets uncontrolled)) q) in
          entry-Shared offset_name (λ s. s.node) k ns (filter has_offset uncontrolled) m p

      from :
          Shared offset_name (λ s. s.node) (filter has_offset uncontrolled)
          → (uncontrolled_increment name live uncontrolled).status ≡ bad
      from (v, p) =
          let (ns, e, r) =
            Shared-get offset_name (λ s. s.node) v (filter has_offset uncontrolled) p in
          let n =
            shared_from-Mem (offsets uncontrolled) v ns (Mem-get v ns (offsets uncontrolled) e) r in
          bad-uncontrolled_increment name live uncontrolled
            (rw (length-shared_offsets (offsets uncontrolled)) n)

  -- the node says that its step and offset are not managed
  abbrev pub by_hand : Snapshot F → Bool
  by_hand s = elim (get_bool s "wsrep_auto_increment_control") [ none ↦ false | some on ↦ not on ]

  control-by_hand : (s : Snapshot F) → control_is false s ≡ by_hand s
  unfolding control_is
  control-by_hand s = refl

  control_is-by_hand :
      (live : List (Snapshot F)) → filter (control_is false) live ≡ filter by_hand live
  unfolding filter
  control_is-by_hand [] = refl
  control_is-by_hand (s ∷ live) = rw (control-by_hand s, control_is-by_hand live) refl

  unshared :
      (l : List (Snapshot F))
      → length l ≡ 0
      → ¬ Shared offset_name (λ s. s.node) (filter has_offset l)
  unfolding filter
  unshared [] e (v, p) = omega (arith, p)
  unshared (s ∷ l) e p = omega (arith, e)

  none-auto_increment :
      (name : String) (live : List (Snapshot F))
      → eqb (length (filter (control_is false) live)) 0 ≡ true
      → (map (λ f. f.status) (auto_increment name live) ≡ [])
        ⊎ (map (λ f. f.status) (auto_increment name live) ≡ ok ∷ [])
  unfolding auto_increment
  none-auto_increment name live z =
      elim (Bool-cases (eqb (length (filter (control_is true) live)) 0)) [
        | inl c ↦ inl (rw (z, c) refl)
        | inr c ↦ inr (rw (z, c) refl)
      ]

  some-auto_increment :
      (name : String) (live : List (Snapshot F))
      → eqb (length (filter (control_is false) live)) 0 ≡ false
      → auto_increment name live
        ≡ uncontrolled_increment name live (filter (control_is false) live) ∷ []
  unfolding auto_increment
  some-auto_increment name live z = rw z refl

  auto_increment-control :
      (name : String) (live : List (Snapshot F))
      → (map (λ f. f.status) (auto_increment name live) ≡ bad ∷ [])
        ↔ Shared offset_name (λ s. s.node) (filter has_offset (filter (control_is false) live))
  auto_increment-control name live =
      elim (Bool-cases (eqb (length (filter (control_is false) live)) 0)) [
        | inl z ↦ (
          (λ h. absurd (no_bad (none-auto_increment name live z) h)),
          (λ p. absurd (unshared (filter (control_is false) live) (ground (arith, z)) p)),
        )
        | inr z ↦
            let u = uncontrolled_increment_iff name live (filter (control_is false) live) in
            let q = ap (map (λ (f : Finding F). f.status)) (some-auto_increment name live z) in
            ((λ h. u.0 (ap first (sym q ∙ h))), (λ p. q ∙ ap (λ (x : String). x ∷ []) (u.1 p)))
      ]
    where
      no_bad :
          (map (λ f. f.status) (auto_increment name live) ≡ [])
            ⊎ (map (λ f. f.status) (auto_increment name live) ≡ ok ∷ [])
          → map (λ f. f.status) (auto_increment name live) ≡ bad ∷ []
          → ⊥
      no_bad (inl e) h = let w : 0 ≡ 1 = ap length (sym e ∙ h) in omega (arith, w)
      no_bad (inr e) h = ok-bad (ap first (sym e ∙ h))

  -- The check is BAD exactly when two of the nodes whose control is off have the same offset.
  pub auto_increment_iff :
      (name : String) (live : List (Snapshot F))
      → (map (λ f. f.status) (auto_increment name live) ≡ bad ∷ [])
        ↔ Shared offset_name (λ s. s.node) (filter has_offset (filter by_hand live))
  auto_increment_iff name live = rw (control_is-by_hand live) at (auto_increment-control name live)
