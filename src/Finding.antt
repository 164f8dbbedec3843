-- ===== src/Finding.antt =====
-- internal/finding/finding.go: a finding, the order of severities, and the worst-first sort.
pub mod Laws
use galera_doctor.Prelude.{
  ℕ, zero, suc, String, Bool, Option, none, some, List, [], ◌∷◌, ltb, leb, eqb, not, if◌then◌else◌,
  ◌==◌,
}
use galera_doctor.Go.Text.{str_lt}
use galera_doctor.Go.Sort.{sort_by}
use galera_doctor.Go.Map.{Map, get_or, put}

-- `type Status string`; the four constants are not its only values.
abbrev pub Status : Type 0
Status = String

abbrev pub ok : Status
ok = "OK"

abbrev pub warn : Status
warn = "WARN"

abbrev pub bad : Status
bad = "BAD"

abbrev pub error : Status
error = "ERROR"

-- a missing key of the map is 0
unfoldable pub severity : Status → ℕ
severity s =
    if s == ok
    then 0
    else if s == warn
    then 1
    else if s == bad
    then 2
    else if s == error
    then 3
    else 0

unfoldable pub at_least : Status → Status → Bool
at_least s threshold = leb (severity threshold) (severity s)

-- `F` is the type of float64 values. `nil` is `none`.
pub record Finding {ℓ} (F : Type ℓ) : Type ℓ where
  pub check : String
  pub target : String
  pub status : Status
  pub message : String
  pub value : Option F
  pub unit : String
  pub hint : String

module _ {ℓ} {F : Type ℓ} where
  -- the `range` loop of Summarize
  summarize_from : Map ℕ → List (Finding F) → Map ℕ
  unfolding get_or put
  summarize_from out [] = out
  summarize_from out (f ∷ fs) = summarize_from (put f.status (suc (get_or f.status 0 out)) out) fs

  unfoldable pub summarize : List (Finding F) → Map ℕ
  unfolding summarize_from
  summarize fs = summarize_from ((ok, 0) ∷ (warn, 0) ∷ (bad, 0) ∷ (error, 0) ∷ []) fs

  worst_from : Status → List (Finding F) → Status
  unfolding at_least severity
  worst_from w [] = w
  worst_from w (f ∷ fs) = worst_from (if at_least f.status w then f.status else w) fs

  unfoldable pub worst : List (Finding F) → Status
  unfolding worst_from
  worst fs = worst_from ok fs

  -- the `less` of SortWorstFirst
  unfoldable pub before : Finding F → Finding F → Bool
  unfolding str_lt severity
  before a b =
      if not (eqb (severity a.status) (severity b.status))
      then ltb (severity b.status) (severity a.status)
      else if not (a.check == b.check)
      then str_lt a.check b.check
      else str_lt a.target b.target

  unfoldable pub sort_worst_first : List (Finding F) → List (Finding F)
  unfolding sort_by before
  sort_worst_first = sort_by before
