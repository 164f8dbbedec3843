-- ===== src/Go/Time.antt =====
-- Go's `time`. A time.Time is a number of nanoseconds since Go's zero time, so that the zero value is
-- 0; a time.Duration is a signed number of nanoseconds.
use galera_doctor.Prelude.{
  ℕ, zero, suc, ◌+◌, ◌-◌, ◌*◌, ◌/◌, ◌%◌, ◌^◌, String, ◌≡◌, refl, Bool, false, not, ◌||◌, ltb, eqb,
  if◌then◌else◌, ◌<>◌,
}
use galera_doctor.Prelude.Int.{ℤ, pos, negsuc, pos_part, neg_part, ◌-ℤ◌, ◌*ℤ◌, ltb_ℤ}
use galera_doctor.Go.Text.{fmt_ℕ}

abbrev pub Time : Type 0
Time = ℤ

abbrev pub Duration : Type 0
Duration = ℤ

-- t.IsZero()
abbrev pub is_zero : Time → Bool
is_zero t = eqb (pos_part t) (neg_part t)

abbrev pub max_duration : ℤ
max_duration = pos (2 ^ 63 - 1)

abbrev pub min_duration : ℤ
min_duration = negsuc (2 ^ 63 - 1)

-- t.Sub(u): the difference, held inside int64
unfoldable pub time_sub : Time → Time → Duration
unfolding ◌-ℤ◌
time_sub t u =
    let d = t -ℤ u in
    if ltb_ℤ max_duration d then max_duration else if ltb_ℤ d min_duration then min_duration else d

abbrev pub microsecond : ℕ
microsecond = 1000

abbrev pub millisecond : ℕ
millisecond = 1000000

abbrev pub second : ℕ
second = 1000000000

abbrev pub minute : ℕ
minute = 60000000000

abbrev pub hour : ℕ
hour = 3600000000000

-- an int64 that a product left
signed64 : ℕ → ℤ
signed64 r = if ltb r (2 ^ 63) then pos r else negsuc (2 ^ 64 - r - 1)

unfoldable pub wrap64 : ℤ → ℤ
unfolding signed64
wrap64 (pos n) = signed64 (n % 2 ^ 64)
wrap64 (negsuc n) = signed64 (2 ^ 64 - 1 - n % 2 ^ 64)

-- time.Duration(n) * time.Second, which may pass the ends of int64
unfoldable pub whole_duration : ℤ → Duration
unfolding wrap64 ◌*ℤ◌
whole_duration n = wrap64 (n *ℤ pos second)

-- d.Round(m), for a positive m: to the nearest multiple, halves away from zero. (Go's saturation
-- within m of the ends of int64 is left out.)
unfoldable pub round : Duration → ℕ → Duration
round (pos n) m = pos ((n + m / 2) / m * m)
round (negsuc n) m = negate ((n + 1 + m / 2) / m * m)
  where
    negate : ℕ → ℤ
    negate k = if eqb k 0 then pos 0 else negsuc (k - 1)

-- the last `prec` digits of v behind a point, without trailing zeros, and v without them
fmt_frac : ℕ → ℕ → Bool → String → String × ℕ
unfolding fmt_ℕ
fmt_frac zero v print out = ((if print then "." <> out else out), v)
fmt_frac (suc prec) v print out =
    let print' = print || not (eqb (v % 10) 0) in
    fmt_frac prec (v / 10) print' (if print' then fmt_ℕ (v % 10) <> out else out)

whole_and_frac : ℕ → ℕ → String → String
unfolding fmt_frac
whole_and_frac prec u unit = let (f, v) = fmt_frac prec u false unit in fmt_ℕ v <> f

-- d.String() of a duration that is not negative
duration_ℕ : ℕ → String
unfolding whole_and_frac
duration_ℕ u =
    if eqb u 0
    then "0s"
    else if ltb u microsecond
    then whole_and_frac 0 u "ns"
    else if ltb u millisecond
    then whole_and_frac 3 u "µs"
    else if ltb u second
    then whole_and_frac 6 u "ms"
    else let (f, secs) = fmt_frac 9 u false "s" in
      let low = fmt_ℕ (secs % 60) <> f in
      if ltb secs 60
      then low
      else let mins = fmt_ℕ (secs / 60 % 60) <> "m" <> low in
        if ltb secs 3600 then mins else fmt_ℕ (secs / 3600) <> "h" <> mins

-- d.String()
unfoldable pub duration_string : Duration → String
unfolding duration_ℕ
duration_string (pos n) = duration_ℕ n
duration_string (negsuc n) = "-" <> duration_ℕ (n + 1)

durations_run :
    (duration_string (pos (600 * second)) ≡ "10m0s")
    × (duration_string (pos 1500000) ≡ "1.5ms")
    × (duration_string (negsuc (90000000000 - 1)) ≡ "-1m30s")
    × (duration_string (round (pos 3661400000000) second) ≡ "1h1m1s")
unfolding duration_string round
durations_run = (refl, refl, refl, refl)
