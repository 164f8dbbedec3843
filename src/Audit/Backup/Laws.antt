-- ===== src/Audit/Backup/Laws.antt =====
-- How backupFreshness of internal/audit/audit.go grades.
use galera_doctor.Prelude.{
  ◌≤◌, String, ◌≡◌, refl, ◌↔◌, true, false, some, arith, ◌==◌, eq_iff, Option-cases, Bool-cases,
  ◌⊎◌, inl, inr,
}
use galera_doctor.Prelude.Int.{pos, leb_ℤ, ltb_ℤ, ◌≤ℤ◌}
use galera_doctor.Go.Time.{Time, Duration, time_sub}
use galera_doctor.Go.Float.{Float}
use galera_doctor.Finding.{ok, warn, bad, error, severity}
use galera_doctor.Audit.Groups.{BackupResult}
use galera_doctor.Audit.Backup.{
  age_status, backup_clock, future_backup, past_backup, dated_backup, backup_result,
}

age_status-severity :
    (b : BackupResult) (age : Duration)
    → (leb_ℤ b.bad age ≡ true) × (severity (age_status b age) ≡ 2)
      ⊎ (leb_ℤ b.bad age ≡ false) × (leb_ℤ b.warn age ≡ true) × (severity (age_status b age) ≡ 1)
      ⊎ (leb_ℤ b.bad age ≡ false) × (leb_ℤ b.warn age ≡ false) × (severity (age_status b age) ≡ 0)
unfolding age_status
age_status-severity b age = elim (Bool-cases (leb_ℤ b.bad age)) [
  | inl e ↦ rw e (inl (refl, unfold severity in refl))
  | inr e ↦ rw e (elim (Bool-cases (leb_ℤ b.warn age)) [
    | inl k ↦ rw k (inr (inl (refl, refl, unfold severity in refl)))
    | inr k ↦ rw k (inr (inr (refl, refl, unfold severity in refl)))
  ])
]

-- An older backup is never graded better.
pub age_status_mono :
    (b : BackupResult) (age older : Duration)
    → age ≤ℤ older
    → severity (age_status b age) ≤ severity (age_status b older)
age_status_mono b age older h =
    let p = age_status-severity b age in let q = age_status-severity b older in ground arith

-- the query ran, and found a backup that is neither in the future nor past a threshold
pub record IsFresh (b : BackupResult) (now : Time) : Type 0 where
  pub at : Time
  pub ran : b.err ≡ ""
  pub found : b.at ≡ some at
  pub not_future : ltb_ℤ (time_sub (backup_clock b now) at) (pos 0) ≡ false
  pub before_warn : leb_ℤ b.warn (time_sub (backup_clock b now) at) ≡ false
  pub before_bad : leb_ℤ b.bad (time_sub (backup_clock b now) at) ≡ false

age_status-ok :
    (b : BackupResult) (age : Duration)
    → age_status b age ≡ ok
    → (leb_ℤ b.warn age ≡ false) × (leb_ℤ b.bad age ≡ false)
age_status-ok b age h =
    let e : severity (age_status b age) ≡ 0 = rw h (unfold severity in refl) in
    let p = age_status-severity b age in ground arith

module _ {ℓ} (F : Type ℓ) ⦃fl : Float F⦄ (rfc3339 : Time → String) where
  dated_backup-ok :
      (name : String) (b : BackupResult) (now at : Time)
      → b.err ≡ ""
      → b.at ≡ some at
      → (dated_backup {F = F} rfc3339 name b now at).status ≡ ok
      → IsFresh b now
  unfolding dated_backup future_backup past_backup
  dated_backup-ok name b now at e f h =
      elim (Bool-cases (ltb_ℤ (time_sub (backup_clock b now) at) (pos 0))) [
        | inl k ↦ absurd (ground (arith, eq_iff warn ok))
        | inr k ↦
            let g : age_status b (time_sub (backup_clock b now) at) ≡ ok = ground arith in
            let r = age_status-ok b (time_sub (backup_clock b now) at) g in
            record {
              at = at;
              ran = e;
              found = f;
              not_future = k;
              before_warn = r.0;
              before_bad = r.1;
            }
      ]

  age_status-IsFresh :
      (b : BackupResult) (age : Duration)
      → leb_ℤ b.warn age ≡ false
      → leb_ℤ b.bad age ≡ false
      → age_status b age ≡ ok
  unfolding age_status
  age_status-IsFresh b age h k = ground arith

  -- A backup is graded OK exactly when the query ran and found one that is not in the future and past
  -- neither threshold: no error, no missing row and no clock ahead is ever an OK.
  pub backup_result-ok :
      (name : String) (b : BackupResult) (now : Time)
      → ((backup_result {F = F} rfc3339 name b now).status ≡ ok) ↔ IsFresh b now
  unfolding backup_result
  backup_result-ok name b now = (to, from)
    where
      to : (backup_result {F = F} rfc3339 name b now).status ≡ ok → IsFresh b now
      to h = elim (Bool-cases (b.err == "")) [
        | inr e ↦ absurd (ground (arith, eq_iff error ok))
        | inl e ↦ elim (Option-cases b.at) [
          | inl n ↦ absurd (ground (arith, eq_iff bad ok))
          | inr (at, n) ↦ dated_backup-ok name b now at ((eq_iff b.err "").0 e) n (ground arith)
        ]
      ]

      from : IsFresh b now → (backup_result {F = F} rfc3339 name b now).status ≡ ok
      from g =
          unfold dated_backup future_backup past_backup in
          rw (g.ran, g.found, g.not_future)
            (age_status-IsFresh b (time_sub (backup_clock b now) g.at) g.before_warn g.before_bad)
