-- ===== src/Audit/Rates/Laws.antt =====
-- A total is not a rate: what internal/audit/audit.go grades rests on a movement between two runs.
use galera_doctor.Prelude.{
  String, ◌≡◌, refl, ◌≢◌, ◌↔◌, ◌⊎◌, inl, inr, true, Option, none, List, [], ◌∷◌, Memᴰ, arith, All,
  All-append, eq_iff, Option-cases,
}
use galera_doctor.Go.Float.{Float}
use galera_doctor.Finding.{Finding, Status, ok}
use galera_doctor.Cluster.{Snapshot, get_float}
use galera_doctor.State.{State, NodeState, Delta, since, node_state_of, fraction, uptime_fell}
use galera_doctor.State.Since.{Baseline, since_iff}
use galera_doctor.Audit.Groups.{Options}
use galera_doctor.Audit.Rates.{flow_lifetime, flow_status, flow_node, flow_control, restart_reason}

module _ {ℓ} {F : Type ℓ} ⦃fl : Float F⦄ (prev : Option (State F)) (now : State F) where
  -- A finding is about a live node, whose counter has a baseline that the status follows from.
  pub record Graded (counter : String) (grade : Delta F → Status) (live : List (Snapshot F))
      (f : Finding F) : Type ℓ where
    pub node : Snapshot F
    pub delta : Delta F
    pub live_node : Memᴰ node live
    pub about : f.target ≡ node.node
    pub baseline : Baseline prev node.node counter (node_state_of now node.node) delta
    pub status : f.status ≡ grade delta

  -- a finding that is OK, or graded
  abbrev pub OkOrGraded : String → (Delta F → Status) → List (Snapshot F) → Finding F → Type ℓ
  OkOrGraded counter grade live f = (f.status ≡ ok) ⊎ Graded counter grade live f

  later :
      (counter : String) (grade : Delta F → Status) (s : Snapshot F) (live : List (Snapshot F))
      (fs : List (Finding F))
      → All (OkOrGraded counter grade live) fs
      → All (OkOrGraded counter grade (s ∷ live)) fs
  later counter grade s live [] h = tt
  later counter grade s live (f ∷ fs) (h, hs) = (
    elim h [
      | inl e ↦ inl e
      | inr g ↦ inr (record {
        node = g.node;
        delta = g.delta;
        live_node = Memᴰ.tail g.live_node;
        about = g.about;
        baseline = g.baseline;
        status = g.status;
      })
    ],
    later counter grade s live fs hs,
  )

  abbrev flow_counter : String
  flow_counter = "wsrep_flow_control_paused_ns"

  module _ (opt : Options F) where
    abbrev pub flow_grade : Delta F → Status
    flow_grade d = flow_status opt (fraction d)

    -- the lifetime figure is reported as OK, or not at all
    flow_lifetime-ok :
        (s : Snapshot F) (live : List (Snapshot F))
        → since prev s.node flow_counter (node_state_of now s.node) ≡ none
        → All (OkOrGraded flow_counter flow_grade live) (flow_node prev now opt s)
    unfolding flow_node
    flow_lifetime-ok s live e = elim (Option-cases (get_float s "wsrep_flow_control_paused")) [
      | inl n ↦ rw (e, n, flow_node, flow_lifetime) tt
      | inr (v, n) ↦ rw (e, n, flow_node, flow_lifetime) (inl refl, tt)
    ]

    flow_node-graded :
        (s : Snapshot F) (live : List (Snapshot F))
        → All (OkOrGraded flow_counter flow_grade (s ∷ live)) (flow_node prev now opt s)
    unfolding flow_node
    flow_node-graded s live =
        elim (Option-cases (since prev s.node flow_counter (node_state_of now s.node))) [
          | inl e ↦ flow_lifetime-ok s (s ∷ live) e
          | inr (d, e) ↦
              rw (e, flow_node)
                (
                  inr (record {
                    node = s;
                    delta = d;
                    live_node = Memᴰ.head refl;
                    about = refl;
                    baseline =
                        (since_iff prev s.node flow_counter (node_state_of now s.node) d).0 e;
                    status = refl;
                  }),
                  tt,
                )
        ]

    -- Flow control is never graded as a total: a finding that is not OK is about a live node whose
    -- counter has a baseline in the previous run, and its status is the grade of the share of the
    -- interval between the two.
    pub flow_control-graded :
        (live : List (Snapshot F))
        → All
            (OkOrGraded "wsrep_flow_control_paused_ns" flow_grade live)
            (flow_control live prev now opt)
    unfolding flow_control
    flow_control-graded [] = tt
    flow_control-graded (s ∷ ss) =
        All-append (OkOrGraded flow_counter flow_grade (s ∷ ss)) (flow_node prev now opt s) _
          (flow_node-graded s ss) (later flow_counter flow_grade s ss _ (flow_control-graded ss))

-- `earlier` and `current` show a restart
module _ {ℓ} {F : Type ℓ} ⦃fl : Float F⦄ where
  -- A restart is reported exactly when both runs know a group communication UUID and the two differ,
  -- or the uptime fell.
  pub restart_reason_iff :
      (earlier current : NodeState F)
      → (restart_reason earlier current ≢ none) ↔ (
          ((earlier.gcomm_uuid ≢ "")
            × (current.gcomm_uuid ≢ "")
            × (earlier.gcomm_uuid ≢ current.gcomm_uuid))
          ⊎ (uptime_fell earlier.uptime current.uptime ≡ true))
  unfolding restart_reason
  restart_reason_iff earlier current = (
    (λ h. ground (
      arith,
      eq_iff earlier.gcomm_uuid "",
      eq_iff current.gcomm_uuid "",
      eq_iff earlier.gcomm_uuid current.gcomm_uuid,
    )),
    (λ h e. ground (
      arith,
      eq_iff earlier.gcomm_uuid "",
      eq_iff current.gcomm_uuid "",
      eq_iff earlier.gcomm_uuid current.gcomm_uuid,
    )),
  )
