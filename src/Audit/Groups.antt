-- ===== src/Audit/Groups.antt =====
-- The helpers of internal/audit/audit.go: thresholds, grouping of nodes by a value, and findings.
pub mod Laws
pub mod Shared
use Prim.Native.String.{len, slice}
use galera_doctor.Prelude.{
  ℕ, String, ◌≡◌, refl, Bool, true, false, not, ◌&&◌, ◌||◌, Option, none, some, List, [], ◌∷◌, ◌++◌,
  map, ltb, if◌then◌else◌, ◌==◌, ◌<>◌, filter, length,
}
use galera_doctor.Prelude.Int.{ℤ, pos}
use galera_doctor.Go.Text.{trim_space, join, to_lower, contains, to_upper}
use galera_doctor.Go.Sort.{sort_strings}
use galera_doctor.Go.Map.{Map, get_or, put, keys}
use galera_doctor.Go.Time.{Time, Duration}
use galera_doctor.Go.Float.{Float}
use galera_doctor.Finding.{Finding, Status}
use galera_doctor.Cluster.{Snapshot, get_var, provider_option}

pub record BackupResult : Type 0 where
  pub configured : Bool
  pub node : String
  pub at : Option Time
  pub now : Time
  pub err : String
  pub warn : Duration
  pub bad : Duration

pub record Options {ℓ} (F : Type ℓ) : Type ℓ where
  pub cluster : String
  pub expect_nodes : ℤ
  pub flow_warn : F
  pub flow_bad : F
  pub recv_queue_warn : F
  pub ist_warn : Duration
  pub transaction_warn : Duration
  pub latency_floor : Duration
  pub clock_warn : Duration
  pub clock_bad : Duration
  pub backup : Option BackupResult
  pub now : Time

-- node lists by value
abbrev pub Groups : Type 0
Groups = Map (List String)

-- `v, ok := ...; ok && strings.TrimSpace(v) != ""`
unfoldable pub reports : Option String → Bool
reports none = false
reports (some v) = not (trim_space v == "")

-- `v, _ := ...`: the empty text for a missing value
unfoldable pub text_of : Option String → String
text_of none = ""
text_of (some v) = v

-- strings.TrimSpace of such a value
unfoldable pub trimmed : Option String → String
unfolding text_of
trimmed v = trim_space (text_of v)

unfoldable pub short : String → String
short v = if ltb 12 (len v) then slice v 0 12 <> "…" else v

unfoldable pub truthy : String → Bool
truthy v =
    let w = to_lower (trim_space v) in (w == "true") || (w == "yes") || (w == "on") || (w == "1")

unfoldable pub contains_fold : String → String → Bool
contains_fold haystack needle = contains (to_upper haystack) (to_upper needle)

describe_group : Groups → String → String
unfolding short
describe_group groups k = short k <> " (" <> join (sort_strings (get_or k [] groups)) ", " <> ")"

unfoldable pub describe_groups : Groups → String
unfolding describe_group sort_strings
describe_groups groups = join (map (describe_group groups) (sort_strings (keys groups))) " vs "

-- out[v] = append(out[v], node)
unfoldable pub add_to_group : String → String → Groups → Groups
unfolding get_or put
add_to_group v node out = put v (get_or v [] out ++ node ∷ []) out

-- an empty value is grouped as "unknown"
unfoldable pub group_name : String → String
group_name v = if v == "" then "unknown" else v

module _ {ℓ} {A : Type ℓ} (name node : A → String) where
  -- a loop that lists nodes by a name
  unfoldable pub gather : Groups → List A → Groups
  unfolding add_to_group
  gather out [] = out
  gather out (a ∷ l) = gather (add_to_group (name a) (node a) out) l

module _ {ℓ} {F : Type ℓ} where
  unfoldable pub group_by : List (Snapshot F) → (Snapshot F → String) → Groups
  unfolding gather group_name
  group_by live key = gather (λ s. group_name (key s)) (λ s. s.node) [] live

  -- the nodes that report a variable, and what they report without white space around it
  unfoldable pub reporting_var : String → List (Snapshot F) → List (Snapshot F)
  unfolding filter reports
  reporting_var key = filter (λ s. reports (get_var s key))

  unfoldable pub reporting_option : String → List (Snapshot F) → List (Snapshot F)
  unfolding filter reports
  reporting_option opt = filter (λ s. reports (provider_option s opt))

  unfoldable pub var_value : String → Snapshot F → String
  unfolding trimmed
  var_value key s = trimmed (get_var s key)

  unfoldable pub option_value : String → Snapshot F → String
  unfolding trimmed
  option_value opt s = trimmed (provider_option s opt)

  -- a finding without a number
  abbrev pub statement : String → String → Status → String → String → Finding F
  statement check target status message hint = record {
    check = check;
    target = target;
    status = status;
    message = message;
    value = none;
    unit = "";
    hint = hint;
  }

  -- a finding with a number
  abbrev pub measure : String → String → Status → String → F → String → String → Finding F
  measure check target status message value unit hint = record {
    check = check;
    target = target;
    status = status;
    message = message;
    value = some value;
    unit = unit;
    hint = hint;
  }

module _ {ℓ} (F : Type ℓ) ⦃fl : Float F⦄ where
  open fl use {of_int}

  -- finding.Num(float64(n))
  unfoldable pub num : ℕ → F
  num n = of_int (pos n)
