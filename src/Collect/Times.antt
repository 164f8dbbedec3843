-- ===== src/Collect/Times.antt =====
-- The reads of internal/cluster/collect.go that bring a time: the server's clock, the open transactions and
-- the backup query; and redact, which keeps a DSN out of what is reported.
use galera_doctor.Prelude.{String, Option, none, some, List, [], ◌∷◌, if◌then◌else◌, ◌==◌}
use galera_doctor.Prelude.Int.{ℤ, pos, ◌+ℤ◌, ◌*ℤ◌}
use galera_doctor.Go.Text.{trim_space, cut}
use galera_doctor.Go.Words.{replace_all, before_last}
use galera_doctor.Go.Time.{Time, second}
use galera_doctor.Go.Float.{Float}
use galera_doctor.Cluster.{Transaction}
use galera_doctor.Config.Expand.{Result, done, fail}
use galera_doctor.Collect.Session.{Cell, Server, Session, lift, then_ask, query, read_rows}
use galera_doctor.Collect.Tables.{first_row}

-- redact
unfoldable pub redact_credentials : String → Option String → String
unfolding replace_all cut
redact_credentials msg none = msg
redact_credentials msg (some creds) =
    if creds == ""
    then msg
    else let hidden = replace_all msg creds "<credentials>" in
      elim (cut ":" creds) [
        | none ↦ hidden
        | some (user, pass) ↦ if pass == "" then hidden else replace_all hidden pass "<password>"
      ]

unfoldable pub redact : String → String → String
unfolding redact_credentials replace_all before_last
redact msg dsn =
    if dsn == ""
    then msg
    else redact_credentials (replace_all msg dsn "<dsn>") (before_last b'@' dsn)

module _ {ℓ} (F : Type ℓ) ⦃fl : Float F⦄ where
  open fl use {decimal, of_int, to_int, flt, fsub, fmul}

  -- time.Unix of a number of seconds, from its whole part and its fraction
  unfoldable pub unix_time : F → Time
  unfolding ◌+ℤ◌ ◌*ℤ◌
  unix_time epoch =
      let sec = to_int epoch in
      let frac = fsub epoch (of_int sec) in
      ((sec +ℤ pos 62135596800) *ℤ pos second) +ℤ to_int (fmul frac (of_int (pos second)))

-- `parse_time` is time.Parse at a layout.
module _ {ℓ} (F : Type ℓ) ⦃fl : Float F⦄ (scan_error : String)
    (parse_time : String → String → Option Time) where
  open fl use {parse_float, decimal, flt}

  scan_epoch : List Cell → Result Time
  unfolding unix_time
  scan_epoch (some v ∷ []) = elim (parse_float v) [
    | none ↦ fail scan_error
    | some f ↦ done (unix_time F f)
  ]
  scan_epoch _ = fail scan_error

  unfoldable pub server_clock : Server → Session Time
  unfolding first_row scan_epoch
  server_clock server =
      then_ask (query server "SELECT UNIX_TIMESTAMP(NOW(6))" [])
        (λ r. lift (first_row "no row from UNIX_TIMESTAMP(NOW(6))" scan_epoch r))

  -- the layouts, in the order in which they are tried
  parse_layouts : String → List String → Option Time
  parse_layouts v [] = none
  parse_layouts v (layout ∷ layouts) =
      let rest = parse_layouts v layouts in
      elim (parse_time layout v) [ some t ↦ some t | none ↦ rest ]

  -- parseWhen
  unfoldable pub parse_when : String → Option Time
  unfolding parse_layouts unix_time
  parse_when v =
      elim (parse_layouts v (
        "2006-01-02 15:04:05.999999" ∷ "2006-01-02 15:04:05" ∷ "2006-01-02T15:04:05.999999999Z07:00"
        ∷ "2006-01-02T15:04:05Z07:00" ∷ "2006-01-02" ∷ [])) [
          | some t ↦ some t
          | none ↦ elim (parse_float v) [
            | none ↦ none
            | some f ↦ if flt (decimal 0 0) f then some (unix_time F f) else none
          ]
        ]

  started_at : Cell → Time
  unfolding parse_when trim_space
  started_at none = pos 0
  started_at (some v) = elim (parse_when (trim_space v)) [ none ↦ pos 0 | some at ↦ at ]

  module _ (parse_int : String → Option ℤ) where
    scan_transaction : List Cell → Result Transaction
    unfolding started_at
    scan_transaction (some id ∷ started ∷ some state ∷ some rows ∷ some q ∷ []) =
        elim (parse_int rows) [
          | none ↦ fail scan_error
          | some n ↦
              done (record {
                id = id;
                started = started_at started;
                state = state;
                rows = n;
                query = q;
              })
        ]
    scan_transaction _ = fail scan_error

    unfoldable pub open_transactions : Server → Session (List Transaction)
    unfolding read_rows scan_transaction
    open_transactions server =
        then_ask
          (query server
            "\n\t\tSELECT trx_id, trx_started, trx_state, trx_rows_modified, IFNULL(trx_query, '')\n\t\t  FROM information_schema.INNODB_TRX\n\t\t ORDER BY trx_started"
            [])
          (λ r. lift (read_rows scan_transaction r))
