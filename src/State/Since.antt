-- ===== src/State/Since.antt =====
-- When Since of internal/state/state.go has a baseline, and what it returns then.
use galera_doctor.Prelude.{
  String, ◌≡◌, refl, true, false, Bool-cases, Option, none, some, arith, Option-cases, inl, inr,
  ◌↔◌,
}
use galera_doctor.Prelude.Int.{pos, leb_ℤ}
use galera_doctor.Go.Map.{get}
use galera_doctor.Go.Time.{time_sub}
use galera_doctor.Go.Float.{Float}
use galera_doctor.State.{NodeState, State, Delta, uptime_fell, since_node, since}

module _ {ℓ} {F : Type ℓ} ⦃fl : Float F⦄ where
  open fl use {decimal, flt, fsub}

  -- both runs know the uptime, and it is shorter than it was
  abbrev pub Fell : F → F → Type 0
  Fell was is = (flt (decimal 0 0) was ≡ true) × (flt (decimal 0 0) is ≡ true) × (flt is was ≡ true)

  uptime_fell_iff : (was is : F) → (uptime_fell was is ≡ false) ↔ ¬ Fell was is
  unfolding uptime_fell
  uptime_fell_iff was is = ((λ h p. ground (arith, h, p)), (λ h. keep h))
    where
      keep : ¬ Fell was is → uptime_fell was is ≡ false
      keep h = elim (Bool-cases (flt (decimal 0 0) was)) [
        | inr e ↦ rw e refl
        | inl e ↦ elim (Bool-cases (flt (decimal 0 0) is)) [
          | inr e' ↦ rw (e, e') refl
          | inl e' ↦ elim (Bool-cases (flt is was)) [
            | inr e'' ↦ rw (e, e', e'') refl
            | inl e'' ↦ absurd (h (e, e', e''))
          ]
        ]
      ]

  -- the two values of the counter, and that none of the refusals applies
  pub record Comparable (prev now : NodeState F) (counter : String) (earlier later : F)
      : Type ℓ where
    pub was : get counter prev.counters ≡ some earlier
    pub is : get counter now.counters ≡ some later
    pub no_fall : flt later earlier ≡ false
    pub time_passed : leb_ℤ (time_sub now.at prev.at) (pos 0) ≡ false
    pub uptime_kept : ¬ Fell prev.uptime now.uptime

  since_node_sound :
      (prev : NodeState F) (counter : String) (now : NodeState F) (d : Delta F)
      → since_node prev counter now ≡ some d
      → (earlier : F) × (later : F) × Comparable prev now counter earlier later
        × (d ≡ record { value = fsub later earlier; elapsed = time_sub now.at prev.at })
  unfolding since_node
  since_node_sound prev counter now d h = elim (Option-cases (get counter prev.counters)) [
    | inl e ↦ absurd (ground arith)
    | inr (earlier, e) ↦ elim (Option-cases (get counter now.counters)) [
      | inl e' ↦ absurd (ground arith)
      | inr (later, e') ↦
          let t : uptime_fell prev.uptime now.uptime ≡ false = ground arith in
          (
            earlier,
            later,
            record {
              was = e;
              is = e';
              no_fall = ground arith;
              time_passed = ground arith;
              uptime_kept = (uptime_fell_iff prev.uptime now.uptime).0 t;
            },
            ground arith,
          )
    ]
  ]

  since_node_complete :
      (prev : NodeState F) (counter : String) (now : NodeState F) (earlier later : F)
      → Comparable prev now counter earlier later
      → since_node prev counter now
        ≡ some (record { value = fsub later earlier; elapsed = time_sub now.at prev.at })
  unfolding since_node
  since_node_complete prev counter now earlier later c = ground (
    arith,
    c.was,
    c.is,
    c.no_fall,
    c.time_passed,
    (uptime_fell_iff prev.uptime now.uptime).1 c.uptime_kept,
  )

  -- A previous run of this format that has the node, whose counter can be compared with this run's.
  pub record Baseline (prev : Option (State F)) (node counter : String) (now : NodeState F)
      (d : Delta F) : Type ℓ where
    pub state : State F
    pub node_state : NodeState F
    pub earlier : F
    pub later : F
    pub present : prev ≡ some state
    pub format : state.version ≡ 2
    pub known : get node state.nodes ≡ some node_state
    pub comparable : Comparable node_state now counter earlier later
    pub delta : d ≡ record { value = fsub later earlier; elapsed = time_sub now.at node_state.at }

  since_sound :
      (prev : Option (State F)) (node counter : String) (now : NodeState F) (d : Delta F)
      → since prev node counter now ≡ some d
      → Baseline prev node counter now d
  unfolding since
  since_sound none node counter now d h = absurd (ground arith)
  since_sound (some s) node counter now d h = elim (Option-cases (get node s.nodes)) [
    | inl e ↦ absurd (ground arith)
    | inr (p, e) ↦
        let stepped : since_node p counter now ≡ some d = ground arith in
        let (earlier, later, c, eq) = since_node_sound p counter now d stepped in
        record {
          state = s;
          node_state = p;
          earlier = earlier;
          later = later;
          present = refl;
          format = ground arith;
          known = e;
          comparable = c;
          delta = eq;
        }
  ]

  since_complete :
      (prev : Option (State F)) (node counter : String) (now : NodeState F) (d : Delta F)
      → Baseline prev node counter now d
      → since prev node counter now ≡ some d
  unfolding since
  since_complete none node counter now d b = absurd (cc (b.present))
  since_complete (some s) node counter now d b = ground (
    arith,
    since_node_complete b.node_state counter now b.earlier b.later b.comparable,
    b.present,
    b.format,
    b.known,
    b.delta,
  )

  -- Since returns a movement exactly when the previous run has this format and the node, the counter
  -- is there in both runs and did not fall, time passed, and the uptime did not fall where both are known; the movement
  -- is then the difference of the counter over the time between the reads.
  pub since_iff :
      (prev : Option (State F)) (node counter : String) (now : NodeState F) (d : Delta F)
      → (since prev node counter now ≡ some d) ↔ Baseline prev node counter now d
  since_iff prev node counter now d =
      (since_sound prev node counter now d, since_complete prev node counter now d)
