-- ===== src/Collect/Backups.antt =====
-- AskBackup of internal/cluster/collect.go: the operator's query for the time of the last backup.
use galera_doctor.Prelude.{
  String, not, Option, none, some, List, [], ◌∷◌, ◌++◌, if◌then◌else◌, ◌==◌, ◌<>◌,
}
use galera_doctor.Prelude.Int.{pos}
use galera_doctor.Go.Text.{trim_space}
use galera_doctor.Go.Words.{first_words}
use galera_doctor.Go.Time.{Time}
use galera_doctor.Go.Float.{Float}
use galera_doctor.Cluster.{Node}
use galera_doctor.Config.Expand.{Result, done, fail}
use galera_doctor.Collect.Session.{Cell, Rows, or_default, query}
use galera_doctor.Collect.Times.{redact, server_clock, parse_when}
use galera_doctor.Collect.Nodes.{Connection, Library, Logged, then_log}

-- the answer to a backup query
pub record BackupAnswer : Type 0 where
  pub node : String
  pub at : Option Time
  pub now : Time
  pub err : String

module _ (lib : Library) where
  scan_backup : List Cell → Result Cell
  scan_backup (v ∷ []) = done v
  scan_backup _ = fail lib.scan_error

module _ {ℓ} (F : Type ℓ) ⦃fl : Float F⦄ (lib : Library) where
  -- the value of the first row
  backup_time : String → BackupAnswer → Cell → BackupAnswer
  unfolding trim_space parse_when first_words
  backup_time dsn out none = out
  backup_time dsn out (some v) =
      if trim_space v == ""
      then out
      else elim (parse_when F lib.scan_error lib.parse_time (trim_space v)) [
        | none ↦ record out {
          err = "the backup query returned " <> first_words v 4 <> ", which is not a time";
        }
        | some at ↦ record out { at = some at }
      ]

  backup_rows : String → BackupAnswer → Rows → BackupAnswer
  unfolding redact scan_backup backup_time
  backup_rows dsn out r = elim r.rows [
    | [] ↦ record out { err = redact r.end dsn }
    | row ∷ rest ↦ elim (scan_backup lib row) [
      | fail e ↦ record out { err = redact e dsn }
      | done v ↦ backup_time dsn out v
    ]
  ]

  backup_result : String → BackupAnswer → Result Rows → BackupAnswer
  unfolding redact backup_rows
  backup_result dsn out (fail e) = record out { err = redact e dsn }
  backup_result dsn out (done r) = backup_rows dsn out r

  -- c.askBackup(n, query), the value of a text that is not a time unquoted
  unfoldable pub ask_node : Connection → Node → String → Logged BackupAnswer
  unfolding redact backup_result
  ask_node c n q =
      let out : BackupAnswer = record { node = n.name; at = none; now = pos 0; err = "" } in
      if not (c.open_error == "")
      then ([], record out { err = redact c.open_error n.dsn })
      else then_log (or_default c.started (server_clock F lib.scan_error lib.parse_time c.server))
          (λ now.
            let (sent, r) = query c.server q [] in
            (sent, backup_result n.dsn (record out { now = now }) r))

  -- the loop of AskBackup: the first answer without an error, or the last one
  unfoldable pub ask_from :
      (Node → Connection) → String → BackupAnswer → List Node → Logged BackupAnswer
  ask_from connect q last [] = ([], last)
  ask_from connect q last (n ∷ ns) =
      let (sent, b) = ask_node (connect n) n q in
      let (more, answer) = ask_from connect q b ns in
      if b.err == "" then (sent, b) else (sent ++ more, answer)

  -- c.AskBackup(nodes, query)
  unfoldable pub ask_backup : (Node → Connection) → List Node → String → Logged BackupAnswer
  ask_backup connect nodes q =
      ask_from connect q (record { node = ""; at = none; now = pos 0; err = "" }) nodes
