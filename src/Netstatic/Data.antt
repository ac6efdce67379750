-- ===== src/Netstatic/Data.antt =====
-- monitoring/netstatic/static.go: the types, the package's variables, and the configuration.
-- Floating-point numbers are the parameter `Floats`; a duration is a signed number of nanoseconds.
use mango_agent.Base.{
  ℤ, pos, negsuc, ℕ, ◌+◌, ◌-◌, ◌/◌, ◌*◌, Bool, true, false, Option, none, some, List, [], ◌∷◌, Text,
  Dict, text_eq, leb, if◌then◌else◌, u64, insert, ◌≡◌, suc,
}

-- A signed number of nanoseconds.
abbrev pub Duration : Type 0
Duration = ℤ

-- The `float64` operations that the package uses.
pub record Floats : Type 1 where
  pub F : Type 0
  pub of_ℕ : ℕ → F
  pub is_zero : F → Bool
  pub mul : F → F → F
  pub to_duration : F → Duration
  pub is_zero-of_ℕ : (n : ℕ) → is_zero (of_ℕ (suc n)) ≡ false

pub record TrafficData : Type 0 where
  pub timestamp : ℕ
  pub tx : ℕ
  pub rx : ℕ

-- The anonymous struct of `lastCounters`.
pub record Counters : Type 0 where
  pub tx : ℕ
  pub rx : ℕ

-- What gopsutil's `net.IOCounters(true)` returns for one interface.
pub record IoCounters : Type 0 where
  pub name : Text
  pub bytes_sent : ℕ
  pub bytes_recv : ℕ

-- A Go map that may be nil. Reading a nil map finds nothing; a write into it panics.
abbrev pub GoMap : Type 0 → Type 0
GoMap V = Option (Dict V)

abbrev pub entries : {V : Type 0} → GoMap V → Dict V
entries none = []
entries (some m) = m

abbrev pub put : {V : Type 0} → Text → V → GoMap V → Option (GoMap V)
put k v none = none
put k v (some m) = some (some (insert k v m))

abbrev pub History : Type 0
History = Dict (List TrafficData)

-- `nics` is a slice: `none` is nil.
pub record NetStaticConfig (F : Type 0) : Type 0 where
  pub data_preserve_day : F
  pub detect_interval : F
  pub save_interval : F
  pub nics : Option (List Text)

pub record NetStatic (F : Type 0) : Type 0 where
  pub interfaces : GoMap (List TrafficData)
  pub config : NetStaticConfig F

-- The periods of the two tickers, while they run.
pub record Tickers : Type 0 where
  pub detect : Duration
  pub save : Duration

-- What stands at `SaveFilePath`. `saved` is a file that `json.Unmarshal` reads.
pub data SaveFile (F : Type 0) : Type 0 where
  missing unreadable empty corrupt : SaveFile F
  saved : NetStatic F → SaveFile F

pub record State (F : Type 0) : Type 0 where
  pub static_cache : GoMap (List TrafficData)
  pub config : NetStaticConfig F
  pub running : Bool
  pub tickers : Option Tickers
  pub store : NetStatic F
  pub last_counters : Dict Counters
  pub file : SaveFile F

abbrev pub nic_list : Option (List Text) → List Text
nic_list none = []
nic_list (some l) = l

unfoldable pub listed : Text → List Text → Bool
listed name [] = false
listed name (n ∷ l) = if text_eq n name then true else listed name l

-- The length test of `isNicAllowed`, and its loop.
unfoldable pub allowed_by : List Text → Text → Bool
allowed_by [] name = true
allowed_by (n ∷ l) name = listed name (n ∷ l)

unfoldable pub is_nic_allowed : {F : Type 0} → NetStaticConfig F → Text → Bool
unfolding listed allowed_by
is_nic_allowed c name = allowed_by (nic_list c.nics) name

abbrev pub second : ℕ
second = 1000000000

-- `uint64(time.Now().Add(-ttl).Unix())`, where `now` counts nanoseconds from 1970. A cutoff before
-- 1970 is a negative number of seconds, rounded down, and the conversion wraps it.
unfoldable pub cutoff_of : ℕ → Duration → ℕ
cutoff_of now (pos t) =
    if leb t now then (now - t) / second else u64 - (t - now + second - 1) / second
cutoff_of now (negsuc t) = (now + t + 1) / second

module _ (fl : Floats) where
  open fl use {F, of_ℕ, is_zero, mul, to_duration}

  unfoldable pub config_or_default : NetStaticConfig F → NetStaticConfig F
  config_or_default c = record {
    data_preserve_day = if is_zero c.data_preserve_day then of_ℕ 31 else c.data_preserve_day;
    detect_interval = if is_zero c.detect_interval then of_ℕ 2 else c.detect_interval;
    save_interval = if is_zero c.save_interval then of_ℕ 600 else c.save_interval;
    nics = c.nics;
  }

  -- `time.Duration(config.DataPreserveDay * 24 * float64(time.Hour))`
  unfoldable pub ttl_of : NetStaticConfig F → Duration
  ttl_of c = to_duration (mul (mul c.data_preserve_day (of_ℕ 24)) (of_ℕ (3600 * second)))

  -- `time.Duration(x * float64(time.Second))`
  unfoldable pub period_of : F → Duration
  period_of x = to_duration (mul x (of_ℕ second))
