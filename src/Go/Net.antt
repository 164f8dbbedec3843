-- ===== src/Go/Net.antt =====
-- net.SplitHostPort.
use Prim.Native.Char.{code}
use galera_doctor.Prelude.{String, ◌≡◌, refl, ◌||◌, Option, none, some, eqb, if◌then◌else◌, ◌==◌}
use galera_doctor.Go.Text.{cut, contains}

-- what stands before and after the last colon
cut_last_colon : String → Option (String × String)
cut_last_colon String.[] = none
cut_last_colon (String.◌∷◌ c s) = elim (cut_last_colon s) [
  | some (a, b) ↦ some (String.◌∷◌ c a, b)
  | none ↦ if eqb (code c) b':' then some ("", s) else none
]

-- a host without brackets: too many colons, or a stray bracket, is an error
plain_host : String → String → Option String
unfolding contains
plain_host host port =
    if contains host ":"
      || contains host "["
      || contains host "]"
      || contains port "["
      || contains port "]"
    then none
    else some host

-- a host in brackets must be followed by the last colon; `rest` starts behind the first bracket
bracket_host : String → Option String
unfolding cut cut_last_colon contains
bracket_host rest = elim (cut "]" rest) [
  | none ↦ none
  | some (host, tail) ↦ elim (cut_last_colon tail) [
    | none ↦ none
    | some (before, port) ↦
        if before == ""
        then (if contains host "[" || contains port "[" || contains port "]"
            then none
            else some host)
        else none
  ]
]

open_bracket : String → Option String
open_bracket String.[] = none
open_bracket (String.◌∷◌ c s) = if eqb (code c) b'[' then some s else none

-- The host, or `none` for an error. (The port is dropped by the one caller.)
unfoldable pub split_host_port : String → Option String
unfolding cut_last_colon plain_host bracket_host open_bracket
split_host_port v = elim (cut_last_colon v) [
  | none ↦ none
  | some (host, port) ↦ elim (open_bracket v) [
    | some rest ↦ bracket_host rest
    | none ↦ plain_host host port
  ]
]

hosts_run :
    (split_host_port "10.0.0.1:4567" ≡ some "10.0.0.1")
    × (split_host_port "[::1]:80" ≡ some "::1")
    × (split_host_port "::1" ≡ none)
    × (split_host_port "db1" ≡ none)
unfolding split_host_port
hosts_run = (refl, refl, refl, refl)
