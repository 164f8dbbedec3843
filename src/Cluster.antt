-- ===== src/Cluster.antt =====
-- internal/cluster/cluster.go: one read of a node as plain data, and the readers of its values.
pub mod Address
use Prim.Native.Char.{code}
use galera_doctor.Prelude.{
  ℕ, zero, suc, ◌+◌, ◌^◌, String, ◌≡◌, refl, Bool, true, false, not, ◌&&◌, ◌||◌, Option, none, some,
  List, [], ◌∷◌, map, eqb, if◌then◌else◌, ◌==◌,
}
use galera_doctor.Prelude.Int.{ℤ, pos}
use galera_doctor.Go.Text.{to_lower, to_upper, equal_fold, trim_space, split, cut}
use galera_doctor.Go.Map.{Map, get}
use galera_doctor.Go.Time.{Time, Duration, second}
use galera_doctor.Go.Float.{Float}

pub record Node : Type 0 where
  pub name : String
  pub dsn : String

pub record Transaction : Type 0 where
  pub id : String
  pub started : Time
  pub state : String
  pub rows : ℤ
  pub query : String

pub record Member : Type 0 where
  pub index : String
  pub uuid : String
  pub name : String
  pub addr : String

-- `F` is the type of float64 values.
pub record ReplicaLink {ℓ} (F : Type ℓ) : Type ℓ where
  pub name : String
  pub source : String
  pub io_running : Bool
  pub sql_running : Bool
  pub behind : Option F
  pub last_error : String

-- An `Option` is a value that may be nil where the program tells nil from empty.
pub record Snapshot {ℓ} (F : Type ℓ) : Type ℓ where
  pub node : String
  pub at : Time
  pub clock : Time
  pub status : Map String
  pub vars : Map String
  pub sys_tables : Map String
  pub app_tables : Option (Map String)
  pub tables_no_pk : List String
  pub transactions : List Transaction
  pub cascades : List String
  pub membership : List Member
  pub replicas : Option (List (ReplicaLink F))
  pub replica_hosts : Option (List String)
  pub data_bytes : Option ℤ
  pub tables_non_innodb : List String
  pub err : String

-- strings.ToUpper and a switch over the spellings of a Boolean
unfoldable pub parse_bool : String → Option Bool
parse_bool v =
    let u = to_upper (trim_space v) in
    if (u == "ON") || (u == "1") || (u == "YES") || (u == "TRUE")
    then some true
    else if (u == "OFF") || (u == "0") || (u == "NO") || (u == "FALSE")
    then some false
    else none

-- the loop of ProviderOption over the parts of the text
unfoldable pub find_option : String → List String → Option String
find_option name [] = none
find_option name (part ∷ parts) =
    let rest = find_option name parts in
    elim (cut "=" part) [
      | none ↦ rest
      | some (k, v) ↦ if equal_fold (trim_space k) name then some (trim_space v) else rest
    ]

module _ {ℓ} {F : Type ℓ} where
  unfoldable pub running : ReplicaLink F → Bool
  running r = r.io_running && r.sql_running

  -- s.OK()
  unfoldable pub readable : Snapshot F → Bool
  readable s = s.err == ""

  -- s.Get(key)
  unfoldable pub get_status : Snapshot F → String → Option String
  get_status s key = get (to_lower key) s.status

  -- s.Var(key)
  unfoldable pub get_var : Snapshot F → String → Option String
  get_var s key = get (to_lower key) s.vars

  -- s.Bool(key)
  unfoldable pub get_bool : Snapshot F → String → Option Bool
  unfolding get_status get_var parse_bool
  get_bool s key = elim (get_status s key) [
    | some v ↦ parse_bool v
    | none ↦ elim (get_var s key) [ some v ↦ parse_bool v | none ↦ none ]
  ]

  unfoldable pub provider_option : Snapshot F → String → Option String
  unfolding get_var find_option
  provider_option s name = elim (get_var s "wsrep_provider_options") [
    | none ↦ none
    | some blob ↦ find_option name (split blob b';')
  ]

  unfoldable pub segment : Snapshot F → String
  unfolding provider_option
  segment s = elim (provider_option s "gmcast.segment") [ none ↦ "" | some v ↦ trim_space v ]

  unfoldable pub names : List (Snapshot F) → List String
  names = map (λ s. s.node)

-- the last character of a text, and the text before it
cut_last : String → Option (String × ℕ)
cut_last String.[] = none
cut_last (String.◌∷◌ c s) = elim (cut_last s) [
  | none ↦ some ("", code c)
  | some (before, l) ↦ some (String.◌∷◌ c before, l)
]

-- the factor that a suffix stands for
multiplier : ℕ → Option ℕ
multiplier c =
    if eqb c b'k' || eqb c b'K'
    then some (2 ^ 10)
    else if eqb c b'm' || eqb c b'M'
    then some (2 ^ 20)
    else if eqb c b'g' || eqb c b'G'
    then some (2 ^ 30)
    else if eqb c b't' || eqb c b'T'
    then some (2 ^ 40)
    else none

module _ {ℓ} (F : Type ℓ) ⦃fl : Float F⦄ where
  open fl use {parse_float, decimal, of_int, to_int, flt, fle, fmul}

  -- `seconds(i)` of ReplLatency: a negative number is refused
  latency_seconds : String → Option Duration
  latency_seconds part = elim (parse_float (trim_space part)) [
    | none ↦ none
    | some f ↦ if flt f (decimal 0 0) then none else some (to_int (fmul f (of_int (pos second))))
  ]

  latency_parts : List String → Option (Duration × Duration)
  unfolding latency_seconds
  latency_parts (p0 ∷ p1 ∷ p2 ∷ p3 ∷ p4 ∷ ps) = elim (parse_float (trim_space p4)) [
    | none ↦ none
    | some samples ↦ if fle samples (decimal 0 0) then none else elim (latency_seconds p1) [
      | none ↦ none
      | some a ↦ elim (latency_seconds p2) [ none ↦ none | some m ↦ some (a, m) ]
    ]
  ]
  latency_parts _ = none

  -- Bytes
  unfoldable pub bytes : String → Option ℤ
  unfolding cut_last multiplier
  bytes s =
      let t = trim_space s in
      let parsed = λ (u : String) (mult : ℕ).
        (let r : Option ℤ = elim (parse_float (trim_space u)) [
          | none ↦ none
          | some f ↦ some (to_int (fmul f (of_int (pos mult))))
        ] in
          r) in
      elim (cut_last t) [
        | none ↦ none
        | some (before, l) ↦ elim (multiplier l) [
          | some mult ↦ parsed before mult
          | none ↦ parsed t 1
        ]
      ]

module _ {ℓ} {F : Type ℓ} ⦃fl : Float F⦄ where
  open fl use {parse_float}

  -- s.Float(key)
  unfoldable pub get_float : Snapshot F → String → Option F
  unfolding get_status
  get_float s key = elim (get_status s key) [ none ↦ none | some v ↦ parse_float (trim_space v) ]

  -- avg and max
  unfoldable pub repl_latency : Snapshot F → Option (Duration × Duration)
  unfolding get_status latency_parts
  repl_latency s = elim (get_status s "wsrep_evs_repl_latency") [
    | none ↦ none
    | some v ↦ latency_parts F (split (trim_space v) b'/')
  ]
