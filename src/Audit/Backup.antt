-- ===== src/Audit/Backup.antt =====
-- backupFreshness of internal/audit/audit.go: the answer of the declared backup query, graded.
pub mod Laws
use galera_doctor.Prelude.{
  ℕ, String, Bool, not, ◌||◌, Option, none, some, List, [], ◌∷◌, if◌then◌else◌, ◌==◌, ◌<>◌,
}
use galera_doctor.Prelude.Int.{ℤ, pos, ◌-ℤ◌, ltb_ℤ, leb_ℤ}
use galera_doctor.Go.Time.{Time, Duration, is_zero, time_sub, minute, hour, round, duration_string}
use galera_doctor.Go.Float.{Float, seconds}
use galera_doctor.Finding.{Finding, Status, ok, warn, bad, error}
use galera_doctor.Audit.Groups.{BackupResult, Options, statement, measure}

backup_place : BackupResult → String
backup_place b = if b.node == "" then "the backup query" else "the backup query on " <> b.node

-- the age against the two thresholds
unfoldable pub age_status : BackupResult → Duration → Status
age_status b age = if leb_ℤ b.bad age then bad else if leb_ℤ b.warn age then warn else ok

-- the server's clock, or the audit's where it was not read
unfoldable pub backup_clock : BackupResult → Time → Time
backup_clock b now = if is_zero b.now then now else b.now

-- `rfc3339` is Go's At.Format(time.RFC3339), a calendar date.
module _ {ℓ} {F : Type ℓ} ⦃fl : Float F⦄ (rfc3339 : Time → String) where
  future_backup : String → BackupResult → Time → Duration → Finding F
  unfolding backup_place ◌-ℤ◌ seconds
  future_backup name b at age =
      measure "backup/freshness" name warn
        ("the last backup is dated "
          <> duration_string (round (pos 0 -ℤ age) minute)
          <> " ago in the future, at "
          <> rfc3339 at
          <> " ("
          <> backup_place b
          <> ")")
        (seconds F age) "seconds"
        "the recorded time is ahead of the server's own clock: check node/clock in this report, and what writes that column"

  past_backup : String → BackupResult → Time → Duration → Finding F
  unfolding backup_place age_status seconds
  past_backup name b at age =
      measure "backup/freshness" name (age_status b age)
        ("the last backup finished "
          <> duration_string (round age minute)
          <> " ago, at "
          <> rfc3339 at
          <> " ("
          <> backup_place b
          <> ")")
        (seconds F age) "seconds"
        (if age_status b age == ok
          then ""
          else "older than the "
            <> duration_string b.warn
            <> " this cluster declared: whatever is being restored from, it is at least "
            <> duration_string (round age hour)
            <> " behind the data — and a backup nobody noticed stopping is the one that matters")

  -- a backup in the future replaces the grade, the message and the hint
  unfoldable pub dated_backup : String → BackupResult → Time → Time → Finding F
  unfolding future_backup past_backup time_sub backup_clock
  dated_backup name b now at =
      let age = time_sub (backup_clock b now) at in
      if ltb_ℤ age (pos 0) then future_backup name b at age else past_backup name b at age

  unfoldable pub backup_result : String → BackupResult → Time → Finding F
  unfolding dated_backup backup_place
  backup_result name b now =
      if not (b.err == "")
      then statement "backup/freshness" name error (backup_place b <> " could not run: " <> b.err)
          "nothing was learned about the backups — the rest of this report still stands, but this part of it was not audited"
      else elim b.at [
        | none ↦
            statement "backup/freshness" name bad
              (backup_place b <> " returned no row: nothing has been recorded")
              "either no backup has ever completed, or it is not writing where the query looks — both are worth finding out before a restore is needed"
        | some at ↦ dated_backup name b now at
      ]

  unfoldable pub backup_freshness : String → Options F → List (Finding F)
  unfolding backup_result
  backup_freshness name opt = elim opt.backup [
    | none ↦ []
    | some b ↦ if not b.configured then [] else backup_result name b opt.now ∷ []
  ]
