-- ===== src/State/File.antt =====
-- Load and Save of internal/state/state.go. A disk is the contents by path. What is outside the program
-- (JSON, and how each call of the operating system goes) is a parameter; an interruption leaves one of
-- the disks that Save goes through.
pub mod Laws
use galera_doctor.Prelude.{
  String, Bool, not, Option, none, some, List, [], ◌∷◌, ◌++◌, eqb, if◌then◌else◌, ◌==◌, ◌<>◌, map,
}
use galera_doctor.Config.Expand.{Result, done, fail}
use galera_doctor.State.{State, version}

abbrev pub Disk : Type 0
Disk = String → Option String

unfoldable pub set : String → Option String → Disk → Disk
set path content disk p = if p == path then content else disk p

unfoldable pub rename : String → String → Disk → Disk
unfolding set
rename from to disk = set to (disk from) (set from none disk)

-- how the calls of Save go, "" for no error: MkdirAll, WriteFile with what the file holds on the way to
-- its contents, and Rename
pub record Calls : Type 0 where
  pub dir_error : String
  pub partial : List String
  pub write_error : String
  pub rename_error : String

-- Save once the state is encoded: the disks it goes through, and its error
unfoldable pub write_file : Calls → String → String → Disk → List Disk × String
unfolding set rename
write_file calls path content disk =
    let tmp = path <> ".tmp" in
    let begun = map (λ c. set tmp (some c) disk) calls.partial in
    let full = set tmp (some content) disk in
    if not (calls.dir_error == "")
    then ([], calls.dir_error)
    else if not (calls.write_error == "")
    then (begun, calls.write_error)
    else if not (calls.rename_error == "")
    then (begun ++ full ∷ [], calls.rename_error)
    else (begun ++ full ∷ rename tmp path full ∷ [], "")

-- the disk after the last step
unfoldable pub last_disk : Disk → List Disk → Disk
last_disk d [] = d
last_disk d (e ∷ es) = last_disk e es

module _ {ℓ} {F : Type ℓ} where
  unfoldable pub save :
      (State F → Result String) → Calls → String → State F → Disk → List Disk × String
  unfolding write_file
  save encode calls path st disk =
      if path == ""
      then ([], "")
      else elim (encode st) [ fail e ↦ ([], e) | done b ↦ write_file calls path (b <> "\n") disk ]

  -- `read_error` is an error other than that the file does not exist
  unfoldable pub load :
      (String → Result (State F)) → String → String → Disk → Result (Option (State F))
  load decode read_error path disk =
      if path == ""
      then done none
      else if not (read_error == "")
      then fail read_error
      else elim (disk path) [
        | none ↦ done none
        | some b ↦ elim (decode b) [
          | fail e ↦ fail (path <> ": " <> e)
          | done st ↦ if eqb st.version version then done (some st) else done none
        ]
      ]
