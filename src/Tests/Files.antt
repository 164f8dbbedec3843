-- ===== src/Tests/Files.antt =====
-- A state that is saved and loaded, on concrete inputs.
use galera_doctor.Prelude.{String, ◌≡◌, refl, ◌≢◌, ◌⊎◌, none, some, [], ◌∷◌, All, arith, eq_iff}
use galera_doctor.Prelude.Int.{ℤ, pos}
use galera_doctor.Config.Expand.{Result, done}
use galera_doctor.State.{State}
use galera_doctor.State.File.{Disk, Calls, save, load}
use galera_doctor.State.File.Laws.{load-save_interrupted}

abbrev saved : State ℤ
saved = record { version = 2; at = pos 60; nodes = []; findings = [] }

-- an encoding of that one state
abbrev encode : State ℤ → Result String
encode st = done "{\"version\": 2}"

abbrev decode : String → Result (State ℤ)
decode b = done saved

-- half of the text is written before the rest
abbrev calls : Calls
calls = record { dir_error = ""; partial = "" ∷ "{\"ver" ∷ []; write_error = ""; rename_error = "" }

abbrev fresh : Disk
fresh path = none

abbrev file_name : String
file_name = "state.json"

path_given : file_name ≢ ""
path_given e = ground (arith, eq_iff file_name "", e)

load-save_interrupted_example :
    All
      (λ (d : Disk).
        (load decode "" file_name d ≡ load decode "" file_name fresh)
        ⊎ (load decode "" file_name d ≡ done (some saved)))
      ((save encode calls file_name saved fresh).0)
load-save_interrupted_example =
    load-save_interrupted encode decode file_name saved calls fresh (λ b e. refl) refl path_given
