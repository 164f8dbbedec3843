-- ===== src/Config.antt =====
-- internal/config/config.go: what a configuration file has to be. The file arrives decoded; reading it
-- and the JSON are not modelled.
pub mod Expand
pub mod Chains
pub mod Laws
use galera_doctor.Prelude.{
  ℕ, suc, ◌+◌, String, Bool, true, false, not, ◌&&◌, ◌||◌, Option, none, some, List, [], ◌∷◌,
  if◌then◌else◌, ◌==◌, ◌<>◌, ltb, any,
}
use galera_doctor.Prelude.Int.{ℤ, pos, ltb_ℤ, leb_ℤ, ◌*ℤ◌}
use galera_doctor.Go.Text.{fmt_ℕ, trim_space, equal_fold, contains}
use galera_doctor.Go.Words.{fields, first_words, trim_suffix}
use galera_doctor.Go.Sort.{sort_strings}
use galera_doctor.Go.Map.{Map, keys}
use galera_doctor.Go.Time.{Duration, wrap64, hour, duration_string}
use galera_doctor.Cluster.{Node}
use galera_doctor.Collect.Gate.{read_only}
use galera_doctor.Config.Expand.{Result, done, fail, ◌>>=◌, ◌>>◌, guard, expand}

-- `warn_after` and `bad_after` as written, and as parsed
pub record Backup : Type 0 where
  pub query : String
  pub warn_text : String
  pub bad_text : String
  pub warn : Duration
  pub bad : Duration

pub record ClusterConfig : Type 0 where
  pub nodes : List Node
  pub proxysql_dsn : String
  pub expect_nodes : ℤ
  pub backup : Option Backup

-- The clusters of a file by their names.
pub record File : Type 0 where
  pub clusters : Map ClusterConfig

abbrev pub default_backup_warn : Duration
default_backup_warn = pos 93600000000000

abbrev pub default_backup_bad : Duration
default_backup_bad = pos 180000000000000

-- strings.Fields(q)[0]; a text without fields does not come here
unfoldable pub first_field : List String → String
first_field [] = ""
first_field (f ∷ fs) = f

-- the query has to be one SELECT
unfoldable pub check_query : String → Result (Unit {0})
unfolding first_field
check_query query = do
  guard (not (trim_space query == ""))
      "no query: give the SELECT that returns when the last backup finished"
  let q = trim_space query
  guard (read_only q && equal_fold (first_field (fields q)) "SELECT") (
      "the query has to be a SELECT that returns when the last backup finished, got "
      <> first_words q 4)
  guard (not (contains (trim_suffix q ";") ";"))
      "the query has to be a single statement, with no \";\" in it"

-- the checks of the two thresholds
unfoldable pub graded : Backup → Duration → Duration → Result Backup
graded b warn bad = do
  guard (ltb_ℤ (pos 0) warn && ltb_ℤ (pos 0) bad) (
      "thresholds have to be positive, got warn_after "
      <> duration_string warn
      <> " and bad_after "
      <> duration_string bad)
  guard (leb_ℤ warn bad) (
      "bad_after ("
      <> duration_string bad
      <> ") is shorter than warn_after ("
      <> duration_string warn
      <> "): nothing would ever be graded WARN")
  done (record b { warn = warn; bad = bad })

-- `parse_duration` is time.ParseDuration.
module _ (parse_duration : String → Option Duration) where
  unfoldable pub warn_threshold : String → Result Duration
  warn_threshold text =
      if text == ""
      then done default_backup_warn
      else elim (parse_duration text) [ none ↦ fail ("warn_after " <> text) | some d ↦ done d ]

  -- where it was not given, it follows a warning that is later than the default
  unfoldable pub bad_threshold : String → String → Duration → Result Duration
  unfolding wrap64 ◌*ℤ◌
  bad_threshold warn_text text warn =
      if text == ""
      then done (
          if not (warn_text == "") && ltb_ℤ default_backup_bad warn
          then wrap64 (pos 2 *ℤ warn)
          else default_backup_bad)
      else elim (parse_duration text) [ none ↦ fail ("bad_after " <> text) | some d ↦ done d ]

  -- b.validate(): the backup with its thresholds, or why it is refused
  unfoldable pub validate : Backup → Result Backup
  unfolding check_query warn_threshold bad_threshold graded
  validate b = do
    check_query b.query
    warn ← warn_threshold b.warn_text
    bad ← bad_threshold b.warn_text b.bad_text warn
    graded b warn bad

-- the names that were seen, among the nodes of one cluster
unfoldable pub was_seen : String → List String → Bool
unfolding any
was_seen name seen = any (λ j. j == name) seen

-- len(c.Nodes) > 0, len(f.Clusters) > 0
has_nodes : List Node → Bool
has_nodes [] = false
has_nodes (n ∷ ns) = true

has_clusters : Map ClusterConfig → Bool
has_clusters [] = false
has_clusters (c ∷ cs) = true

-- `lookup` is os.LookupEnv.
module _ (lookup : String → Option String) (parse_duration : String → Option Duration) where
  -- one round of the loop over the nodes: its DSN, expanded
  unfoldable pub load_node : String → List String → ℕ → Node → Result Node
  unfolding was_seen expand
  load_node cluster seen i n = do
    guard (not (n.name == ""))
        ("cluster " <> cluster <> " node " <> fmt_ℕ (i + 1) <> " has no name")
    guard (not (was_seen n.name seen)) ("cluster " <> cluster <> " has two nodes called " <> n.name)
    guard (not (n.dsn == "")) ("node " <> n.name <> " has no dsn")
    expanded ← expand lookup n.dsn
    done (record n { dsn = expanded })

  unfoldable pub load_nodes : String → List String → ℕ → List Node → Result (List Node)
  unfolding load_node
  load_nodes cluster seen i [] = done []
  load_nodes cluster seen i (n ∷ ns) = do
    m ← load_node cluster seen i n
    ms ← load_nodes cluster (n.name ∷ seen) (suc i) ns
    done (m ∷ ms)

  unfoldable pub load_backup : Option Backup → Result (Option Backup)
  unfolding validate
  load_backup none = done none
  load_backup (some b) = do b' ← validate parse_duration b; done (some b')

  unfoldable pub load_proxy : String → Result String
  load_proxy dsn = if dsn == "" then done "" else expand lookup dsn

  -- one round of the loop over the clusters
  unfoldable pub load_cluster : String → ClusterConfig → Result ClusterConfig
  unfolding has_nodes load_nodes load_backup load_proxy
  load_cluster name c = do
    guard (has_nodes c.nodes) ("cluster " <> name <> " has no node")
    nodes ← load_nodes name [] 0 c.nodes
    backup ← load_backup c.backup
    proxy ← load_proxy c.proxysql_dsn
    done (record c { nodes = nodes; backup = backup; proxysql_dsn = proxy })

  load_clusters : Map ClusterConfig → Result (Map ClusterConfig)
  unfolding load_cluster
  load_clusters [] = done []
  load_clusters ((name, c) ∷ cs) = do
    c' ← load_cluster name c
    rest ← load_clusters cs
    done ((name, c') ∷ rest)

  -- Load, from the decoded file on
  unfoldable pub load : File → Result File
  unfolding has_clusters load_clusters
  load f = do
    guard (has_clusters f.clusters) "no cluster defined"
    clusters ← load_clusters f.clusters
    done (record { clusters = clusters })

-- f.Names()
unfoldable pub names : File → List String
unfolding keys sort_strings
names f = sort_strings (keys f.clusters)
