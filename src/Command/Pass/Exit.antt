-- ===== src/Command/Pass/Exit.antt =====
-- The exit code of cmd/galera-doctor/main.go: what `--exit-on` reports of a pass.
use mathlib.Core.List.Memᴰ
use galera_doctor.Prelude.{
  ◌≤◌, String, ◌≡◌, refl, sym, ap, ◌↔◌, ◌≢◌, Bool, true, false, Option, none, some, List, [], ◌∷◌,
  arith, Memᴰ, if◌then◌else◌, ◌==◌, Bool-cases, Option-cases, inl, inr, ◌⊎◌, eq_iff, any, map,
}
use galera_doctor.Go.Time.{Time}
use galera_doctor.Go.Float.{Float}
use galera_doctor.Go.Map.{keys-Mem, Map, get}
use galera_doctor.Go.Sort.Laws.{sort_by-Mem}
use galera_doctor.Finding.{
  Finding, Status, error, severity, at_least, worst, before, sort_worst_first,
}
use galera_doctor.Finding.Laws.{worst-IsGreatest}
use galera_doctor.Cluster.{Node, Snapshot, readable}
use galera_doctor.Collect.Nodes.{Connection, Switches, Library, collect}
use galera_doctor.Collect.Failures.{collect-unreachable}
use galera_doctor.State.{State, scope, merge}
use galera_doctor.Config.{ClusterConfig}
use galera_doctor.Audit.Run.{Report, run, report_worst}
use galera_doctor.Audit.Run.Laws.{unread, run-unread, worst-Mem}
use galera_doctor.Command.Flags.{sorted_keys}
use galera_doctor.Command.Pass.{
  World, Settings, target_options, with_proxy, collector_world, empty_state, exit_code,
  audit_target, audit_targets, run_once,
}
use galera_doctor.Command.Pass.Laws.{sorted_keys-Mem}

any-Mem {ℓ} :
    {A : Type ℓ} (p : A → Bool) (x : A) (xs : List A) → Memᴰ x xs → p x ≡ true → any p xs ≡ true
unfolding any
any-Mem p x [] m e = elim m [ ]
any-Mem p x (y ∷ ys) (Memᴰ.head q) e = ground (arith, e, ap p q)
any-Mem p x (y ∷ ys) (Memᴰ.tail m) e = ground (arith, any-Mem p x ys m e)

any-some {ℓ} :
    {A : Type ℓ} (p : A → Bool) (xs : List A) → any p xs ≡ true → (x : A) × Memᴰ x xs × (p x ≡ true)
unfolding any
any-some p [] e = absurd (ground arith)
any-some p (y ∷ ys) e = elim (Bool-cases (p y)) [
  | inl q ↦ (y, Memᴰ.head refl, q)
  | inr q ↦ let (x, m, r) = any-some p ys (ground arith) in (x, Memᴰ.tail m, r)
]

severity-error : (s : Status) → severity s ≤ severity error
unfolding severity
severity-error s = ground arith

module _ {ℓ} {F : Type ℓ} where
  exit_code-any :
      (exit_on : Status) (reps : List (Report F))
      → exit_on ≢ ""
      → any (λ r. at_least (report_worst r) exit_on) reps ≡ true
      → exit_code exit_on reps ≡ 1
  unfolding exit_code
  exit_code-any exit_on reps h e = ground (arith, eq_iff exit_on "")

  -- A finding of a report is at least as severe as the status.
  abbrev pub Reaches : Status → List (Report F) → Type ℓ
  Reaches s reps =
      (r : Report F) × (f : Finding F) × Memᴰ r reps
      × Memᴰ f r.findings
      × (at_least f.status s ≡ true)

  reached :
      (s : Status) (r : Report F)
      → 1 ≤ severity s
      → at_least (report_worst r) s ≡ true
      → (f : Finding F) × Memᴰ f r.findings × (at_least f.status s ≡ true)
  unfolding report_worst at_least
  reached s r h q = elim (worst-IsGreatest r.findings).1 [
    | inl (p, w) ↦ absurd (
        let z : severity (worst r.findings) ≡ 0 = rw w (unfold severity in refl) in
        ground (arith, z, q, h))
    | inr (f, m, w) ↦ (f, m, rw w q)
  ]

  -- For a status that is worse than OK, the exit code is 1 exactly when some finding of some report
  -- reaches it.
  pub exit_code_iff :
      (exit_on : Status) (reps : List (Report F))
      → 1 ≤ severity exit_on
      → (exit_code exit_on reps ≡ 1) ↔ Reaches exit_on reps
  exit_code_iff exit_on reps h = (to, from)
    where
      named : exit_on ≢ ""
      named p = let z : severity exit_on ≡ 0 = rw p (unfold severity in refl) in omega (arith, h, z)

      to : exit_code exit_on reps ≡ 1 → Reaches exit_on reps
      to e =
          let (r, m, q) =
            any-some (λ r. at_least (report_worst r) exit_on) reps
              (unfold exit_code in ground arith) in
          let (f, n, w) = reached exit_on r h q in (r, f, m, n, w)

      from : Reaches exit_on reps → exit_code exit_on reps ≡ 1
      from (r, f, m, n, e) =
          let top = worst-Mem f r.findings n in
          exit_code-any exit_on reps named (
            any-Mem (λ r. at_least (report_worst r) exit_on) r reps m
              (unfold report_worst at_least in ground (arith, top, e)))

module _ {ℓ} {F : Type ℓ} ⦃fl : Float F⦄ (rfc3339 : Time → String) (w : World F) (s : Settings F)
    (prev : Option (State F)) (targets : Map ClusterConfig) where
  abbrev rep_of : String → ClusterConfig → Report F
  rep_of = audit_target rfc3339 w s prev

  abbrev reps_of : State F → List String → List (Report F)
  reps_of merged names = (audit_targets rfc3339 w s prev targets merged names).0

  reps-none :
      (merged : State F) (x : String) (names : List String)
      → get x targets ≡ none
      → reps_of merged (x ∷ names) ≡ reps_of merged names
  unfolding audit_targets
  reps-none merged x names e = rw (reps_of, e) refl

  reps-some :
      (merged : State F) (x : String) (c : ClusterConfig) (names : List String)
      → get x targets ≡ some c
      → reps_of merged (x ∷ names) ≡ rep_of x c ∷ reps_of (merge merged x (rep_of x c).state) names
  unfolding audit_targets
  reps-some merged x c names e = rw (reps_of, e) refl

  audit_targets-Mem :
      (d : String) (c : ClusterConfig) (names : List String) (merged : State F)
      → get d targets ≡ some c
      → Memᴰ d names
      → Memᴰ (rep_of d c) (reps_of merged names)
  audit_targets-Mem d c [] merged e m = elim m [ ]
  audit_targets-Mem d c (x ∷ names) merged e (Memᴰ.head p) =
      let e' : get x targets ≡ some c = rw (sym p) e in
      rw (reps-some merged x c names e') (Memᴰ.head (ap (λ k. rep_of k c) p))
  audit_targets-Mem d c (x ∷ names) merged e (Memᴰ.tail m) = elim (Option-cases (get x targets)) [
    | inl q ↦ rw (reps-none merged x names q) (audit_targets-Mem d c names merged e m)
    | inr (cx, q) ↦
        rw (reps-some merged x cx names q)
          (Memᴰ.tail (audit_targets-Mem d c names (merge merged x (rep_of x cx).state) e m))
  ]

  with_proxy-Mem :
      (dsn : String) (snaps : List (Snapshot F)) (rep : Report F) (f : Finding F)
      → Memᴰ f rep.findings
      → Memᴰ f ((with_proxy rfc3339 w dsn snaps rep).findings)
  unfolding with_proxy sort_worst_first
  with_proxy-Mem dsn snaps rep f m = elim (Bool-cases (dsn == "")) [
    | inl e ↦ rw e m
    | inr e ↦ rw e (sort_by-Mem before f _ (Memᴰ.append_left _ m))
  ]

  audit_target-unread :
      (d : String) (c : ClusterConfig) (n : Snapshot F)
      → Memᴰ n (w.collect_all c.nodes)
      → readable n ≡ false
      → Memᴰ (unread n) ((audit_target rfc3339 w s prev d c).findings)
  unfolding audit_target
  audit_target-unread d c n m e =
      let o = target_options w s d c in
      let snaps = w.collect_all c.nodes in
      with_proxy-Mem (if s.proxy_dsn == "" then c.proxysql_dsn else s.proxy_dsn) snaps
        (run rfc3339 w.clock snaps (scope prev d) o) (unread n)
        (run-unread rfc3339 w.clock snaps (scope prev d) o n m e).0

  -- A node of a target that could not be read makes a run with `--exit-on` exit with 1, whatever the
  -- status that was asked for and whatever else the pass found.
  pub run_once-unread :
      (exit_on : Status) (d : String) (c : ClusterConfig) (n : Snapshot F)
      → exit_on ≢ ""
      → get d targets ≡ some c
      → Memᴰ n (w.collect_all c.nodes)
      → readable n ≡ false
      → exit_code exit_on ((run_once rfc3339 w s targets prev).0) ≡ 1
  unfolding run_once
  run_once-unread exit_on d c n h found m e =
      let rep = audit_target rfc3339 w s prev d c in
      let reps =
        (audit_targets rfc3339 w s prev targets (empty_state w.clock) (sorted_keys targets)).0 in
      let there : Memᴰ rep reps =
        audit_targets-Mem d c (sorted_keys targets) (empty_state w.clock) found
          (sorted_keys-Mem rfc3339 w s prev targets d (keys-Mem d c targets found)) in
      let top = worst-Mem (unread n) rep.findings (audit_target-unread d c n m e) in
      exit_code-any exit_on reps h (
        any-Mem (λ r. at_least (report_worst r) exit_on) rep reps there
          (unfold report_worst at_least in ground (arith, top, severity-error exit_on)))

map-Mem {ℓ κ} :
    {A : Type ℓ} {B : Type κ} (g : A → B) (x : A) (xs : List A) → Memᴰ x xs → Memᴰ (g x) (map g xs)
map-Mem g x [] m = elim m [ ]
map-Mem g x (y ∷ ys) (Memᴰ.head p) = Memᴰ.head (ap g p)
map-Mem g x (y ∷ ys) (Memᴰ.tail m) = Memᴰ.tail (map-Mem g x ys m)

module _ {ℓ} {F : Type ℓ} ⦃fl : Float F⦄ (rfc3339 : Time → String) (lib : Library) (sw : Switches)
    (connect : Node → Connection) (dial : String → Connection) (clock : Time) (s : Settings F)
    (prev : Option (State F)) (targets : Map ClusterConfig) where
  -- A node of a target that cannot be reached makes a run with `--exit-on` exit with 1, from the failed
  -- connection through the collector, the audit and the worst status to the exit code.
  pub run_once-unreachable :
      (exit_on : Status) (d : String) (c : ClusterConfig) (n : Node)
      → exit_on ≢ ""
      → get d targets ≡ some c
      → Memᴰ n c.nodes
      → ((connect n).open_error ≢ "") ⊎ ((connect n).ping_error ≢ "")
      → exit_code exit_on
          ((run_once rfc3339 (collector_world lib sw connect dial clock) s targets prev).0)
        ≡ 1
  unfolding collector_world
  run_once-unreachable exit_on d c n h found m e =
      let read : Node → Snapshot F = λ k. (collect lib sw (connect k) k).1 in
      run_once-unread rfc3339 (collector_world lib sw connect dial clock) s prev targets exit_on d c
        (read n) h found (map-Mem read n c.nodes m) (collect-unreachable F lib sw (connect n) n e).0
