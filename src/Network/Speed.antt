-- ===== src/Network/Speed.antt =====
-- monitoring/unit/net.go: the totals and the speed that the report gives. Times are in nanoseconds.
use mango_agent.Base.{
  ℕ, ◌-◌, Bool, true, false, Option, none, some, List, [], ◌∷◌, Text, Dict, if◌then◌else◌, leb,
  add64, ◌==◌,
}
use mango_agent.Netstatic.Data.{TrafficData}
use mango_agent.Network.Interfaces.{NicCounters, parse_nics, should_include, collect_network_totals}

-- `networkSpeedState` once there is a sample.
pub record SpeedSample : Type 0 where
  pub total_up : ℕ
  pub total_down : ℕ
  pub sampled_at : ℕ

unfoldable pub safe_counter_delta : ℕ → ℕ → ℕ
safe_counter_delta current previous = if leb previous current then current - previous else 0

-- What the result of `NetworkSpeed` holds, and whether it comes with an error.
pub record Speed : Type 0 where
  pub total_up : ℕ
  pub total_down : ℕ
  pub up_speed : ℕ
  pub down_speed : ℕ
  pub failed : Bool

-- `rate` is the division of a difference by the time that passed, in floating point.
module _ (glob : Text → Text → Bool) (rate : ℕ → ℕ → ℕ) where
  abbrev sample_at : ℕ → ℕ → ℕ → SpeedSample
  sample_at up down now = record { total_up = up; total_down = down; sampled_at = now }

  unfoldable pub update_network_speed_sample :
      ℕ → ℕ → ℕ → Option SpeedSample → Option SpeedSample × ℕ × ℕ
  update_network_speed_sample up down now none = (some (sample_at up down now), 0, 0)
  update_network_speed_sample up down now (some s) =
      if leb now s.sampled_at then (some s, 0, 0) else (
        some (sample_at up down now),
        rate (safe_counter_delta up s.total_up) (now - s.sampled_at),
        rate (safe_counter_delta down s.total_down) (now - s.sampled_at),
      )

  abbrev pub with_totals : Option (ℕ × ℕ) → ℕ → Option SpeedSample → Option SpeedSample × Speed
  with_totals none now s =
      (s, record { total_up = 0; total_down = 0; up_speed = 0; down_speed = 0; failed = true })
  with_totals (some (up, down)) now s =
      let (s', up_speed, down_speed) = update_network_speed_sample up down now s in
      (
        s',
        record {
          total_up = up;
          total_down = down;
          up_speed = up_speed;
          down_speed = down_speed;
          failed = false;
        },
      )

  unfoldable pub get_network_speed_fallback :
      List Text
      → List Text
      → Option (List NicCounters)
      → ℕ
      → Option SpeedSample
      → Option SpeedSample × Speed
  get_network_speed_fallback include exclude counters now s =
      with_totals (collect_network_totals glob include exclude counters) now s

  unfoldable pub sum_statics : List Text → List Text → Dict TrafficData → ℕ × ℕ → ℕ × ℕ
  sum_statics include exclude [] sum = sum
  sum_statics include exclude ((name, stats) ∷ m) (up, down) = sum_statics include exclude m (
      if should_include glob name include exclude
      then (add64 up stats.tx, add64 down stats.rx)
      else (up, down))

  -- With the monthly totals, or with the error of `GetTotalTrafficBetween`.
  abbrev pub monthly :
      List Text
      → List Text
      → Option (Dict TrafficData)
      → Option SpeedSample × Speed
      → Option SpeedSample × Speed
  monthly include exclude none (s, speed) = (s, record speed { failed = true })
  monthly include exclude (some statics) (s, speed) =
      let (up, down) = sum_statics include exclude statics (0, 0) in
      (s, record speed { total_up = up; total_down = down })

  -- `NetworkSpeed` with `flags.IncludeNics`, `flags.ExcludeNics` and `flags.MonthRotate`; `statics`
  -- is the answer of `netstatic.GetTotalTrafficBetween`, `counters` that of `net.IOCounters`.
  unfoldable pub network_speed :
      Text
      → Text
      → ℕ
      → Option (Dict TrafficData)
      → Option (List NicCounters)
      → ℕ
      → Option SpeedSample
      → Option SpeedSample × Speed
  network_speed include_nics exclude_nics month_rotate statics counters now s =
      let include = parse_nics include_nics in
      let exclude = parse_nics exclude_nics in
      let fallback = get_network_speed_fallback include exclude counters now s in
      if month_rotate == 0 then fallback else monthly include exclude statics fallback
