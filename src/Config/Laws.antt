-- ===== src/Config/Laws.antt =====
-- What loading of internal/config/config.go lets through.
use mathlib.Core.Path.{subst}
use galera_doctor.Prelude.{
  ℕ, suc, String, ◌≡◌, ap, ◌∙◌, ◌≢◌, true, false, not, ◌&&◌, Option, none, some, List, [], ◌∷◌,
  arith, All, ◌==◌, eq_iff, length,
}
use galera_doctor.Prelude.Int.{pos, ltb_ℤ, leb_ℤ}
use galera_doctor.Go.Text.{trim_space, equal_fold, contains}
use galera_doctor.Go.Words.{fields, trim_suffix}
use galera_doctor.Go.Time.{Duration}
use galera_doctor.Go.Map.{Map, keys}
use galera_doctor.Cluster.{Node}
use galera_doctor.Collect.Gate.{read_only}
use galera_doctor.Config.{
  Backup, ClusterConfig, File, first_field, check_query, warn_threshold, bad_threshold, graded,
  validate, was_seen, load_node, load_nodes, load_backup, load_proxy, has_nodes, load_cluster,
  load_clusters, has_clusters, load,
}
use galera_doctor.Config.Expand.{done, expand}
use galera_doctor.Config.Chains.{bind-done, guard-done, guard-true, done-eq}

-- the query is one statement that the gate passes, and it starts with SELECT
pub record IsSelect (query : String) : Type 0 where
  pub not_empty : trim_space query ≢ ""
  pub passes : read_only (trim_space query) ≡ true
  pub selects : equal_fold (first_field (fields (trim_space query))) "SELECT" ≡ true
  pub single : contains (trim_suffix (trim_space query) ";") ";" ≡ false

-- a backup that can be graded
pub record IsGradable (b : Backup) : Type 0 where
  pub query : IsSelect b.query
  pub warn_positive : ltb_ℤ (pos 0) b.warn ≡ true
  pub bad_positive : ltb_ℤ (pos 0) b.bad ≡ true
  pub ordered : leb_ℤ b.warn b.bad ≡ true

check_query-done : (q : String) → check_query q ≡ done tt → IsSelect q
unfolding check_query
check_query-done q e =
    let s = trim_space q in
    let (a, e1) = guard-done (not (s == "")) _ _ tt e in
    let (b, e2) =
      guard-done (read_only s && equal_fold (first_field (fields s)) "SELECT") _ _ tt e1 in
    record {
      not_empty = λ p. ground (arith, a, eq_iff s "", p);
      passes = ground (arith, b);
      selects = ground (arith, b);
      single = ground (arith, guard-true (not (contains (trim_suffix s ";") ";")) _ e2);
    }

graded-IsGradable :
    (b b' : Backup) (warn bad : Duration)
    → IsSelect b.query
    → graded b warn bad ≡ done b'
    → IsGradable b'
unfolding graded
graded-IsGradable b b' warn bad q e =
    let (p, e1) = guard-done (ltb_ℤ (pos 0) warn && ltb_ℤ (pos 0) bad) _ _ b' e in
    let (o, e2) = guard-done (leb_ℤ warn bad) _ _ b' e1 in
    let g : IsGradable (record b { warn = warn; bad = bad }) = record {
      query = q;
      warn_positive = ground (arith, p);
      bad_positive = ground (arith, p);
      ordered = o;
    } in
    subst IsGradable (done-eq (record b { warn = warn; bad = bad }) b' e2) g

-- a backup that loads can be graded
validate-IsGradable :
    (parse : String → Option Duration) (b b' : Backup) → validate parse b ≡ done b' → IsGradable b'
unfolding validate
validate-IsGradable parse b b' e =
    let (u, q, e1) = bind-done (check_query b.query) _ b' e in
    let (warn, w, e2) = bind-done (warn_threshold parse b.warn_text) _ b' e1 in
    let (bad, v, e3) = bind-done (bad_threshold parse b.warn_text b.bad_text warn) _ b' e2 in
    graded-IsGradable b b' warn bad (check_query-done b.query q) e3

-- the names of nodes are given, and none stands twice, nor among those that were seen
abbrev pub Fresh : List String → List Node → Type 0
Fresh seen [] = Unit
Fresh seen (m ∷ ms) = (m.name ≢ "") × (was_seen m.name seen ≡ false) × Fresh (m.name ∷ seen) ms

-- a cluster that can be audited
pub record IsAuditable (c : ClusterConfig) : Type 0 where
  pub has_node : c.nodes ≢ []
  pub fresh : Fresh [] c.nodes
  pub backup : (b : Backup) → c.backup ≡ some b → IsGradable b

module _ (lookup : String → Option String) (parse : String → Option Duration) where
  load_node-Fresh :
      (cluster : String) (seen : List String) (i : ℕ) (n m : Node)
      → load_node lookup parse cluster seen i n ≡ done m
      → (n.name ≡ m.name) × (n.name ≢ "") × (was_seen n.name seen ≡ false)
  unfolding load_node
  load_node-Fresh cluster seen i n m e =
      let (a, e1) = guard-done (not (n.name == "")) _ _ m e in
      let (b, e2) = guard-done (not (was_seen n.name seen)) _ _ m e1 in
      let (c, e3) = guard-done (not (n.dsn == "")) _ _ m e2 in
      let (dsn, x, e4) = bind-done (expand lookup n.dsn) _ m e3 in
      (
        ap (λ (k : Node). k.name) (done-eq (record n { dsn = dsn }) m e4),
        (λ p. ground (arith, a, eq_iff n.name "", p)),
        ground (arith, b),
      )

  load_nodes-Fresh :
      (cluster : String) (seen : List String) (i : ℕ) (ns ms : List Node)
      → load_nodes lookup parse cluster seen i ns ≡ done ms
      → Fresh seen ms × (length ns ≡ length ms)
  unfolding load_nodes
  load_nodes-Fresh cluster seen i [] ms e =
      let p : [] ≡ ms = done-eq [] ms e in (subst (Fresh seen) p tt, ap length p)
  load_nodes-Fresh cluster seen i (n ∷ ns) ms e =
      let (m, x, e1) = bind-done (load_node lookup parse cluster seen i n) _ ms e in
      let (rest, y, e2) =
        bind-done (load_nodes lookup parse cluster (n.name ∷ seen) (suc i) ns) _ ms e1 in
      let p : m ∷ rest ≡ ms = done-eq (m ∷ rest) ms e2 in
      let (q, named, unseen) = load_node-Fresh cluster seen i n m x in
      let (fresh, count) = load_nodes-Fresh cluster (n.name ∷ seen) (suc i) ns rest y in
      let head : Fresh seen (m ∷ rest) = (
        subst (λ k. k ≢ "") q named,
        subst (λ k. was_seen k seen ≡ false) q unseen,
        subst (λ k. Fresh (k ∷ seen) rest) q fresh,
      ) in
      (subst (Fresh seen) p head, ap suc count ∙ ap length p)

  load_backup-IsGradable :
      (o : Option Backup) (o' : Option Backup)
      → load_backup lookup parse o ≡ done o'
      → (b : Backup) → o' ≡ some b
      → IsGradable b
  unfolding load_backup
  load_backup-IsGradable none o' e b p = absurd (ground (arith, done-eq none o' e, p))
  load_backup-IsGradable (some b0) o' e b p =
      let (b1, x, e1) = bind-done (validate parse b0) _ o' e in
      let q : b1 ≡ b = ground (arith, done-eq (some b1) o' e1, p) in
      subst IsGradable q (validate-IsGradable parse b0 b1 x)

  load_cluster-IsAuditable :
      (name : String) (c c' : ClusterConfig)
      → load_cluster lookup parse name c ≡ done c'
      → IsAuditable c'
  unfolding load_cluster
  load_cluster-IsAuditable name c c' e =
      let (a, e1) = guard-done (has_nodes c.nodes) _ _ c' e in
      let (nodes, x, e2) = bind-done (load_nodes lookup parse name [] 0 c.nodes) _ c' e1 in
      let (backup, y, e3) = bind-done (load_backup lookup parse c.backup) _ c' e2 in
      let (proxy, z, e4) = bind-done (load_proxy lookup parse c.proxysql_dsn) _ c' e3 in
      let loaded : ClusterConfig = record c {
        nodes = nodes;
        backup = backup;
        proxysql_dsn = proxy;
      } in
      let (fresh, count) = load_nodes-Fresh name [] 0 c.nodes nodes x in
      let g : IsAuditable loaded = record {
        has_node = λ p. not_empty c.nodes nodes a count p;
        fresh = fresh;
        backup = load_backup-IsGradable c.backup backup y;
      } in
      subst IsAuditable (done-eq loaded c' e4) g
    where
      not_empty : (ns ms : List Node) → has_nodes ns ≡ true → length ns ≡ length ms → ms ≢ []
      not_empty [] ms h q p = absurd (ground (arith, h))
      not_empty (n ∷ ns) ms h q p =
          let z : length ms ≡ 0 = ap length p in absurd (omega (arith, q, z))

  load_clusters-IsAuditable :
      (cs cs' : Map ClusterConfig)
      → load_clusters lookup parse cs ≡ done cs'
      → All (λ p. IsAuditable p.1) cs' × (keys cs ≡ keys cs')
  unfolding load_clusters keys
  load_clusters-IsAuditable [] cs' e =
      let p : [] ≡ cs' = done-eq [] cs' e in
      (subst (All (λ (q : String × ClusterConfig). IsAuditable q.1)) p tt, ap keys p)
  load_clusters-IsAuditable ((name, c) ∷ cs) cs' e =
      let (c', x, e1) = bind-done (load_cluster lookup parse name c) _ cs' e in
      let (rest, y, e2) = bind-done (load_clusters lookup parse cs) _ cs' e1 in
      let p : (name, c') ∷ rest ≡ cs' = done-eq ((name, c') ∷ rest) cs' e2 in
      let (a, k) = load_clusters-IsAuditable cs rest y in
      (
        subst (All (λ (q : String × ClusterConfig). IsAuditable q.1)) p
            (load_cluster-IsAuditable name c c' x, a),
        ap (◌∷◌ name) k ∙ ap keys p,
      )

  -- A configuration that loads has the clusters of the file, at least one, and each can be audited: it has
  -- nodes, all named and no two alike, and its backup is one SELECT with thresholds that are positive and
  -- in order.
  pub load-IsAuditable :
      (f g : File)
      → load lookup parse f ≡ done g
      → (g.clusters ≢ [])
        × All (λ p. IsAuditable p.1) g.clusters
        × (keys f.clusters ≡ keys g.clusters)
  unfolding load keys
  load-IsAuditable f g e =
      let (a, e1) = guard-done (has_clusters f.clusters) _ _ g e in
      let (cs, x, e2) = bind-done (load_clusters lookup parse f.clusters) _ g e1 in
      let p : cs ≡ g.clusters =
        ap (λ (h : File). h.clusters) (done-eq (record { clusters = cs }) g e2) in
      let (q, k) = load_clusters-IsAuditable f.clusters cs x in
      (
        (λ z. some_keys f.clusters a (k ∙ ap keys (p ∙ z))),
        subst (All (λ (q : String × ClusterConfig). IsAuditable q.1)) p q,
        k ∙ ap keys p,
      )
    where
      some_keys : (cs : Map ClusterConfig) → has_clusters cs ≡ true → keys cs ≢ []
      some_keys [] h q = absurd (ground (arith, h))
      some_keys ((k, c) ∷ cs) h q = absurd (ground (arith, q))
