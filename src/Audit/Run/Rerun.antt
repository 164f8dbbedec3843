-- ===== src/Audit/Run/Rerun.antt =====
-- Two runs of internal/audit/audit.go in a row: what the second says of what changed.
use galera_doctor.Prelude.{String, ◌≡◌, Option, some, List, ◌++◌, All}
use galera_doctor.Go.Time.{Time}
use galera_doctor.Go.Float.{Float}
use galera_doctor.Finding.{Finding}
use galera_doctor.State.{State}
use galera_doctor.Audit.Groups.{Options, num}
use galera_doctor.Audit.Backup.{backup_freshness}
use galera_doctor.Audit.Changes.{changes}
use galera_doctor.Audit.Changes.Same.{changes-same}
use galera_doctor.Audit.Changes.Laws.{changes-carry}
use galera_doctor.Audit.Run.{Report, finish}

module _ {ℓ} {F : Type ℓ} ⦃fl : Float F⦄ (rfc3339 : Time → String) where
  -- A run that finds what the run before it found counts no change: what it says of the changes, if it
  -- says anything, has the value 0.
  pub finish-rerun :
      (rep : Report F) (found : List (Finding F)) (prev : Option (State F)) (opt : Options F)
      (now : Time)
      → All
          (λ f. f.value ≡ some (num F 0))
          (changes rep.cluster
            (found ++ backup_freshness rfc3339 rep.cluster opt)
            (some ((finish rfc3339 rep found prev opt).state))
            now)
  unfolding finish
  finish-rerun rep found prev opt now =
      let audited = found ++ backup_freshness rfc3339 rep.cluster opt in
      changes-same rep.cluster audited _ now (changes-carry rep.cluster audited prev opt.now).2
