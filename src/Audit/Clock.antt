-- ===== src/Audit/Clock.antt =====
-- clockSkew of internal/audit/audit.go.
use galera_doctor.Prelude.{
  String, not, ◌&&◌, List, [], ◌∷◌, if◌then◌else◌, ◌==◌, ◌<>◌, length, filter,
}
use galera_doctor.Prelude.Int.{pos, ◌-ℤ◌, ltb_ℤ, leb_ℤ, eqb_ℤ}
use galera_doctor.Go.Text.{fmt_ℕ}
use galera_doctor.Go.Map.{Map, get_or, put}
use galera_doctor.Go.Time.{Duration, is_zero, time_sub, wrap64, millisecond, round, duration_string}
use galera_doctor.Go.Float.{Float, seconds}
use galera_doctor.Finding.{Finding, Status, ok, warn, bad}
use galera_doctor.Cluster.{Snapshot}
use galera_doctor.Audit.Groups.{Options, measure}

-- what the first loop of clockSkew collects
pub record Spread : Type 0 where
  pub offsets : Map Duration
  pub lo : Duration
  pub hi : Duration

widen : Spread → String → Duration → Spread
unfolding put
widen t node d = record {
  offsets = put node d t.offsets;
  lo = if ltb_ℤ d t.lo then d else t.lo;
  hi = if ltb_ℤ t.hi d then d else t.hi;
}

module _ {ℓ} {F : Type ℓ} where
  -- a node's clock less the time of its snapshot
  unfoldable pub offset : Options F → Snapshot F → Duration
  unfolding time_sub
  offset opt s = time_sub s.clock (if is_zero s.at then opt.now else s.at)

  spread_from : Options F → Spread → List (Snapshot F) → Spread
  unfolding widen offset
  spread_from opt t [] = t
  spread_from opt t (s ∷ ss) = spread_from opt (widen t s.node (offset opt s)) ss

  -- the loop over the nodes that were read, the first of which starts it
  unfoldable pub spread_of : Options F → Snapshot F → List (Snapshot F) → Spread
  unfolding spread_from offset put
  spread_of opt s ss =
      spread_from opt
        (record { offsets = put s.node (offset opt s) []; lo = offset opt s; hi = offset opt s }) ss

  -- the first node whose offset is a given one; its name if it is not empty
  unfoldable pub first_at : Map Duration → Duration → List (Snapshot F) → String
  unfolding get_or
  first_at offsets d [] = ""
  first_at offsets d (s ∷ ss) =
      let rest = first_at offsets d ss in
      if eqb_ℤ (get_or s.node (pos 0) offsets) d && not (s.node == "") then s.node else rest

  unfoldable pub clock_status : Options F → Duration → Status
  clock_status opt spread =
      if leb_ℤ opt.clock_bad spread then bad else if leb_ℤ opt.clock_warn spread then warn else ok

  unfoldable pub clock_read : List (Snapshot F) → List (Snapshot F)
  unfolding filter
  clock_read live = filter (λ s. not (is_zero s.clock)) live

module _ {ℓ} {F : Type ℓ} ⦃fl : Float F⦄ where
  unfoldable pub clock_finding : String → Options F → Spread → List (Snapshot F) → Finding F
  unfolding clock_status first_at wrap64 ◌-ℤ◌ seconds
  clock_finding name opt t read =
      let spread = wrap64 (t.hi -ℤ t.lo) in
      let slowest = first_at t.offsets t.lo read in
      let fastest = first_at t.offsets t.hi read in
      if clock_status opt spread == ok
      then measure "node/clock" name ok
          ("node clocks agree to within "
            <> duration_string (round spread millisecond)
            <> " across "
            <> fmt_ℕ (length read)
            <> " node(s)")
          (seconds F spread) "seconds" ""
      else measure "node/clock" name (clock_status opt spread)
          ("node clocks differ by "
            <> duration_string (round spread millisecond)
            <> ": "
            <> fastest
            <> " is ahead of "
            <> slowest)
          (seconds F spread) "seconds"
          ("Galera orders writes by sequence number, so replication is unaffected — but two error logs cannot be read side by side, and a timestamp in a monitoring system stops meaning anything. Check NTP on "
            <> fastest <> " and " <> slowest)

  clock_of : String → Options F → List (Snapshot F) → List (Finding F)
  unfolding spread_of clock_finding
  clock_of name opt [] = []
  clock_of name opt (s ∷ []) = []
  clock_of name opt (s ∷ t ∷ ss) =
      clock_finding name opt (spread_of opt s (t ∷ ss)) (s ∷ t ∷ ss) ∷ []

  unfoldable pub clock_skew : String → List (Snapshot F) → Options F → List (Finding F)
  unfolding clock_of clock_read
  clock_skew name live opt = clock_of name opt (clock_read live)
