-- ===== src/Go/Float.antt =====
-- float64 and what the program does with it: a type with these operations, an instance argument of
-- the definitions that use them.
use galera_doctor.Prelude.{ℕ, ◌+◌, ◌/◌, ◌%◌, String, Bool, Option}
use galera_doctor.Prelude.Int.{ℤ, pos, negsuc, sub_ℕ}
use galera_doctor.Go.Time.{Duration, second}

pub record Float {ℓ} (F : Type ℓ) : Type ℓ where
  -- strconv.ParseFloat(s, 64); `none` is its error
  pub parse_float : String → Option F
  -- the constant m / 10 ^ k
  pub decimal : ℕ → ℕ → F
  -- float64(n), and int64(f) with f's fraction dropped
  pub of_int : ℤ → F
  pub to_int : F → ℤ
  -- a < b, a <= b, a == b: all false on a NaN
  pub flt : F → F → Bool
  pub fle : F → F → Bool
  pub feq : F → F → Bool
  pub fadd : F → F → F
  pub fsub : F → F → F
  pub fmul : F → F → F
  pub fdiv : F → F → F
  -- %.nf, and strconv.FormatFloat(f, 'f', -1, 64)
  pub fmt_float : ℕ → F → String
  pub trim_float : F → String

module _ {ℓ} (F : Type ℓ) ⦃fl : Float F⦄ where
  open fl use {of_int, fadd, fdiv}

  -- d.Seconds(): the whole seconds, and the nanoseconds over 1e9
  unfoldable pub seconds : Duration → F
  seconds (pos n) =
      fadd (of_int (pos (n / second))) (fdiv (of_int (pos (n % second))) (of_int (pos second)))
  seconds (negsuc n) =
      fadd (of_int (sub_ℕ 0 ((n + 1) / second)))
        (fdiv (of_int (sub_ℕ 0 ((n + 1) % second))) (of_int (pos second)))
