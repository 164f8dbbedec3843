-- ===== src/Command/Flags.antt =====
-- The arguments of the audit command: nodeFlag.Set, validStatus, validWatch, sortedKeys and the targets.
use galera_doctor.Prelude.{
  ℕ, zero, suc, String, ◌≡◌, refl, Bool, not, ◌&&◌, ◌||◌, Option, none, some, List, [], ◌∷◌, ◌++◌,
  eqb, if◌then◌else◌, ◌==◌, ◌<>◌, length,
}
use galera_doctor.Prelude.Int.{ℤ, pos, ltb_ℤ}
use galera_doctor.Go.Text.{cut, str_lt}
use galera_doctor.Go.Map.{Map, get, put, keys}
use galera_doctor.Go.Time.{Duration, second, duration_string}
use galera_doctor.Finding.{Status, ok, warn, bad, error}
use galera_doctor.Cluster.{Node}
use galera_doctor.Config.{ClusterConfig, File}
use galera_doctor.Config
use galera_doctor.Config.Expand.{Result, done, fail, ◌>>=◌, ◌>>◌, guard}

-- n.Set(v); the error's text has v unquoted
unfoldable pub set_node : List Node → String → Result (List Node)
unfolding cut
set_node nodes v = elim (cut "=" v) [
  | none ↦ fail ("want name=DSN, got " <> v)
  | some (name, dsn) ↦
      if (name == "") || (dsn == "")
      then fail ("want name=DSN, got " <> v)
      else done (nodes ++ record { name = name; dsn = dsn } ∷ [])
]

-- validStatus; the error's text has s unquoted
unfoldable pub valid_status : Status → Result (Unit {0})
valid_status s =
    if (s == "") || (s == ok) || (s == warn) || (s == bad) || (s == error)
    then done tt
    else fail ("bad status " <> s <> ": want OK, WARN, BAD or ERROR")

-- validWatch
unfoldable pub valid_watch : Duration → Bool → Bool → Result (Unit {0})
valid_watch every as_json as_findings = do
  guard (not (ltb_ℤ every (pos second)))
      ("--watch " <> duration_string every <> " is too short: give it at least a second")
  guard (not (as_json || as_findings))
      "--watch prints transitions for a person to read; --json and --findings emit one document per run, and a stream of them is not a document"

-- the inner loop of sortedKeys: out[i] against the elements after it, and what is left of these
unfoldable pub exchange : String → List String → String × List String
unfolding str_lt
exchange x [] = (x, [])
exchange x (y ∷ ys) =
    let swap = str_lt y x in
    let (least, rest) = exchange (if swap then y else x) ys in
    (least, (if swap then x else y) ∷ rest)

-- the outer loop, over as many places as there are elements
unfoldable pub exchange_sort : ℕ → List String → List String
unfolding exchange
exchange_sort zero out = out
exchange_sort (suc n) [] = []
exchange_sort (suc n) (x ∷ xs) = let (least, rest) = exchange x xs in least ∷ exchange_sort n rest

unfoldable pub sorted_keys : Map ClusterConfig → List String
unfolding exchange_sort keys
sorted_keys m = exchange_sort (length m) (keys m)

-- the loop over f.Names(): all the clusters, or the one that was asked for
select_clusters : Map ClusterConfig → String → Map ClusterConfig → List String → Map ClusterConfig
unfolding get put
select_clusters clusters wanted targets [] = targets
select_clusters clusters wanted targets (name ∷ names) =
    select_clusters clusters wanted
      (if not (wanted == "") && not (name == wanted)
        then targets
        else elim (get name clusters) [ none ↦ targets | some c ↦ put name c targets ])
      names

-- the targets of the configuration file, where one was given and loaded
unfoldable pub config_targets : Option (Result File) → String → Result (Map ClusterConfig)
unfolding select_clusters Config.names
config_targets none wanted = done []
config_targets (some loaded) wanted = do
  f ← loaded
  let targets = select_clusters f.clusters wanted [] (Config.names f)
  guard (not (eqb (length targets) 0)) ("no cluster called " <> wanted)
  done targets

-- and those of the --node flags
unfoldable pub targets_of :
    Option (Result File) → List Node → String → String → ℤ → Result (Map ClusterConfig)
unfolding config_targets put
targets_of config nodes wanted proxy_dsn expect = do
  configured ← config_targets config wanted
  let name = if wanted == "" then "cluster" else wanted
  let typed : ClusterConfig = record {
    nodes = nodes;
    proxysql_dsn = proxy_dsn;
    expect_nodes = expect;
    backup = none;
  }
  let targets = if eqb (length nodes) 0 then configured else put name typed configured
  guard (not (eqb (length targets) 0)) "no node to audit — give --config or --node name=DSN"
  done targets

flags_run :
    (set_node [] "a=u@tcp(h)/?x=1" ≡ done (record { name = "a"; dsn = "u@tcp(h)/?x=1" } ∷ []))
    × (exchange_sort 4 ("c" ∷ "a" ∷ "d" ∷ "b" ∷ []) ≡ "a" ∷ "b" ∷ "c" ∷ "d" ∷ [])
unfolding set_node exchange_sort
flags_run = (refl, refl)
