-- ===== src/Command/Pass/Laws.antt =====
-- A pass of cmd/galera-doctor/main.go over several targets: what the next pass reads back for each.
use galera_doctor.Prelude.{
  String, ◌≡◌, refl, ap, ◌∙◌, ◌≢◌, false, Option, none, some, List, [], ◌∷◌, arith, Memᴰ, All,
  if◌then◌else◌, ◌==◌, Bool-cases, Option-cases, inl, inr, ◌⊎◌, eq_iff, All-Mem,
}
use galera_doctor.Go.Time.{Time}
use galera_doctor.Go.Float.{Float}
use galera_doctor.Go.Map.{keys-Mem, Map, get, keys}
use galera_doctor.Go.Text.{str_lt}
use galera_doctor.Go.Sort.{sort_strings}
use galera_doctor.Go.Sort.Laws.{sort_by-Mem, All-sort_by}
use galera_doctor.State.{NodeState, State, scope, merge}
use galera_doctor.State.Scope.{
  IsFile, NoSlash, or_else, node_in, finding_in, scope-merge, scope-merge_other, merge-IsFile,
}
use galera_doctor.Config.{ClusterConfig}
use galera_doctor.Audit.Run.{Report}
use galera_doctor.Audit.Run.Laws.{run-IsFile}
use galera_doctor.Command.Flags.{sorted_keys}
use galera_doctor.Command.Sorted.{sorted_keys-sort_strings}
use galera_doctor.Command.Pass.{
  World, Settings, target_options, with_proxy, empty_state, audit_target, audit_targets, run_once,
}

or_else-none {ℓ} : {V : Type ℓ} (o : Option V) → or_else o none ≡ o
or_else-none none = refl
or_else-none (some v) = refl

or_else_same {ℓ} : {V : Type ℓ} (o : Option V) → or_else o o ≡ o
or_else_same none = refl
or_else_same (some v) = refl

module _ {ℓ} {F : Type ℓ} where
  -- what a cluster's view of a state has of a name, as a node and as a finding
  abbrev pub Sees : State F → String → String → Option (NodeState F) → Option String → Type ℓ
  Sees s d n a b = (node_in (scope (some s) d) n ≡ a) × (finding_in (scope (some s) d) n ≡ b)

  -- that it is what another state has of it
  abbrev pub SeesOwn : State F → String → String → State F → Type ℓ
  SeesOwn s d n from = Sees s d n (get n from.nodes) (get n from.findings)

  Sees-merge :
      (s from : State F) (d n : String)
      → IsFile s
      → IsFile from
      → n ≢ ""
      → Sees s d n none none ⊎ SeesOwn s d n from
      → SeesOwn (merge s d from) d n from
  Sees-merge s from d n h h' e (inl (a, b)) =
      let p = scope-merge s from d n h h' e in
      (
        p.0 ∙ ap (or_else (get n from.nodes)) a ∙ or_else-none _,
        p.1 ∙ ap (or_else (get n from.findings)) b ∙ or_else-none _,
      )
  Sees-merge s from d n h h' e (inr (a, b)) =
      let p = scope-merge s from d n h h' e in
      (
        p.0 ∙ ap (or_else (get n from.nodes)) a ∙ or_else_same _,
        p.1 ∙ ap (or_else (get n from.findings)) b ∙ or_else_same _,
      )

  Sees-merge_other :
      (s from : State F) (c d n : String) (a : Option (NodeState F)) (b : Option String)
      → IsFile s
      → NoSlash c
      → NoSlash d
      → c ≢ d
      → n ≢ ""
      → Sees s d n a b
      → Sees (merge s c from) d n a b
  Sees-merge_other s from c d n a b h x y apart e (p, q) =
      let r = scope-merge_other s from c d n h x y apart e in (r.0 ∙ p, r.1 ∙ q)

module _ {ℓ} {F : Type ℓ} ⦃fl : Float F⦄ (rfc3339 : Time → String) (w : World F) (s : Settings F)
    (prev : Option (State F)) (targets : Map ClusterConfig) where
  abbrev rep_of : String → ClusterConfig → Report F
  rep_of = audit_target rfc3339 w s prev

  abbrev final_of : State F → List String → State F
  final_of merged names = (audit_targets rfc3339 w s prev targets merged names).1

  audit_target-IsFile : (name : String) (c : ClusterConfig) → IsFile ((rep_of name c).state)
  unfolding audit_target with_proxy
  audit_target-IsFile name c =
      let snaps = w.collect_all c.nodes in
      let dsn = if s.proxy_dsn == "" then c.proxysql_dsn else s.proxy_dsn in
      let file = run-IsFile rfc3339 w.clock snaps (scope prev name) (target_options w s name c) in
      elim (Bool-cases (dsn == "")) [ inl e ↦ rw e file | inr e ↦ rw e file ]

  final-none :
      (merged : State F) (x : String) (names : List String)
      → get x targets ≡ none
      → final_of merged (x ∷ names) ≡ final_of merged names
  unfolding audit_targets
  final-none merged x names e = rw (final_of, e) refl

  final-some :
      (merged : State F) (x : String) (c : ClusterConfig) (names : List String)
      → get x targets ≡ some c
      → final_of merged (x ∷ names) ≡ final_of (merge merged x (rep_of x c).state) names
  unfolding audit_targets
  final-some merged x c names e = rw (final_of, e) refl

  module _ (d n : String) (c : ClusterConfig) (found : get d targets ≡ some c) (slash : NoSlash d)
      (named : n ≢ "") where
    -- the round of the target itself
    step-own :
        (merged : State F) (x : String) (cx : ClusterConfig)
        → x ≡ d
        → get x targets ≡ some cx
        → IsFile merged
        → Sees merged d n none none ⊎ SeesOwn merged d n (rep_of d c).state
        → SeesOwn (merge merged x (rep_of x cx).state) d n (rep_of d c).state
    step-own merged x cx p e h v =
        let q : cx ≡ c = ground (arith, e, found, ap (λ k. get k targets) p) in
        rw (p, q) (Sees-merge merged (rep_of d c).state d n h (audit_target-IsFile d c) named v)

    -- the round of another one
    step-other :
        (merged : State F) (x : String) (cx : ClusterConfig) (a : Option (NodeState F))
        (b : Option String)
        → (x == d) ≡ false
        → NoSlash x
        → IsFile merged
        → Sees merged d n a b
        → Sees (merge merged x (rep_of x cx).state) d n a b
    step-other merged x cx a b q slash' h =
        Sees-merge_other merged (rep_of x cx).state x d n a b h slash' slash
          (λ p. ground (arith, eq_iff x d, p)) named

    -- once the target's own state is there, it stays
    final-keep :
        (names : List String) (merged : State F)
        → All NoSlash names
        → IsFile merged
        → SeesOwn merged d n (rep_of d c).state
        → SeesOwn (final_of merged names) d n (rep_of d c).state
    final-keep [] merged a h v = unfold audit_targets in v
    final-keep (x ∷ names) merged (a, rest) h v = elim (Option-cases (get x targets)) [
      | inl e ↦ rw (final-none merged x names e) (final-keep names merged rest h v)
      | inr (cx, e) ↦
          let from = (rep_of x cx).state in
          let file : IsFile (merge merged x from) = merge-IsFile merged x from h in
          rw (final-some merged x cx names e) (
            final-keep names (merge merged x from) rest file (elim (Bool-cases (x == d)) [
              | inl q ↦ step-own merged x cx ((eq_iff x d).0 q) e h (inr v)
              | inr q ↦ step-other merged x cx _ _ q a h v
            ]))
    ]

    -- and it comes there in the target's round
    final-hit :
        (names : List String) (merged : State F)
        → All NoSlash names
        → IsFile merged
        → Sees merged d n none none
        → Memᴰ d names
        → SeesOwn (final_of merged names) d n (rep_of d c).state
    final-hit [] merged a h v m = elim m [ ]
    final-hit (x ∷ names) merged (a, rest) h v m = elim (Option-cases (get x targets)) [
      | inl e ↦
          rw (final-none merged x names e) (final-hit names merged rest h v (later x names e m))
      | inr (cx, e) ↦
          let from = (rep_of x cx).state in
          let file : IsFile (merge merged x from) = merge-IsFile merged x from h in
          rw (final-some merged x cx names e) (elim (Bool-cases (x == d)) [
            | inl q ↦
                final-keep names (merge merged x from) rest file
                  (step-own merged x cx ((eq_iff x d).0 q) e h (inl v))
            | inr q ↦
                final-hit names (merge merged x from) rest file
                  (step-other merged x cx none none q a h v) (apart x names q m)
          ])
    ]
      where
        later :
            (x : String) (names : List String)
            → get x targets ≡ none
            → Memᴰ d (x ∷ names)
            → Memᴰ d names
        later x names e (Memᴰ.head p) = absurd (ground (arith, e, found, ap (λ k. get k targets) p))
        later x names e (Memᴰ.tail m) = m

        apart :
            (x : String) (names : List String)
            → (x == d) ≡ false
            → Memᴰ d (x ∷ names)
            → Memᴰ d names
        apart x names q (Memᴰ.head p) = absurd (ground (arith, q, p, eq_iff x d))
        apart x names q (Memᴰ.tail m) = m

  sorted_keys-All : All NoSlash (keys targets) → All NoSlash (sorted_keys targets)
  sorted_keys-All a =
      rw (sorted_keys-sort_strings targets)
        (unfold sort_strings in All-sort_by str_lt NoSlash (keys targets) a)

  pub sorted_keys-Mem : (d : String) → Memᴰ d (keys targets) → Memᴰ d (sorted_keys targets)
  sorted_keys-Mem d m =
      rw (sorted_keys-sort_strings targets)
        (unfold sort_strings in sort_by-Mem str_lt d (keys targets) m)

  -- What the next pass reads back for a target is the state that the target's own audit left, for every
  -- node and every finding with a name, where no target's name has a slash.
  pub run_once-scope :
      All NoSlash (keys targets)
      → (d n : String) (c : ClusterConfig) → get d targets ≡ some c
      → n ≢ ""
      → SeesOwn
          ((run_once rfc3339 w s targets prev).1)
          d
          n
          ((audit_target rfc3339 w s prev d c).state)
  unfolding run_once
  run_once-scope clean d n c found named =
      let m = keys-Mem d c targets found in
      final-hit d n c found (All-Mem NoSlash d (keys targets) m clean) named (sorted_keys targets)
        (empty_state w.clock) (sorted_keys-All clean) (unfold empty_state in (tt, tt))
        (unfold empty_state scope get in (refl, refl)) (sorted_keys-Mem d m)
