-- ===== src/Miner/Status.antt =====
-- monitoring/unit/miner.go: what the agent reads from the status of the miner. An `int64` is given
-- by its 64 bits.
use mango_agent.Base.{
  ℕ, Bool, ◌&&◌, Option, none, some, List, [], ◌∷◌, Text, codes, Dict, lookup, if◌then◌else◌, add64,
  ◌>>=◌,
}
use mango_agent.Strings.{is_nil, trim_space}

-- Floating point, and JSON: a number, or an object of numbers.
pub record MinerFloats : Type 1 where
  pub F : Type 0
  pub zero_f : F
  pub is_zero : F → Bool
  pub is_positive : F → Bool
  pub parse_number : Text → Option F
  pub parse_object : Text → Option (Dict F)

module _ (floats : MinerFloats) where
  pub record Gpu : Type 0 where
    pub temperature : floats.F
    pub asic_power : floats.F
    pub fan_speed_percent : floats.F

  pub record Algorithm : Type 0 where
    pub name : Text
    pub pool : Text
    pub wallet : Text
    pub latency : ℕ
    pub total : ℕ
    pub accepted : ℕ
    pub rejected : ℕ
    pub one_min : Text
    pub one_hr : Text
    pub gpu_compute_errors : Dict ℕ

  -- `srbStatus`
  pub record SrbStatus : Type 0 where
    pub gpu_devices : List Gpu
    pub algorithms : List Algorithm

  -- `MinerStat`
  pub record MinerStat : Type 0 where
    pub algorithm : Text
    pub pool : Text
    pub wallet : Text
    pub hashrate_one_min : floats.F
    pub hashrate_one_hr : floats.F
    pub power_w : floats.F
    pub temperature : floats.F
    pub fan_percent : floats.F
    pub shares_total : ℕ
    pub shares_valid : ℕ
    pub shares_invalid : ℕ
    pub hw_errors : ℕ
    pub pool_latency : ℕ

  unfoldable pub first_positive : Dict floats.F → floats.F
  first_positive [] = floats.zero_f
  first_positive ((k, v) ∷ m) =
      let rest = first_positive m in if floats.is_positive v then v else rest

  abbrev pub hash_of : Dict floats.F → Option floats.F → floats.F
  hash_of m none = first_positive m
  hash_of m (some v) = if floats.is_positive v then v else first_positive m

  unfoldable pub raw_message_hash : Text → floats.F
  raw_message_hash raw = if is_nil raw then floats.zero_f else elim (floats.parse_number raw) [
    | some num ↦ num
    | none ↦ elim (floats.parse_object raw) [
      | none ↦ floats.zero_f
      | some m ↦ hash_of m (lookup (codes "total") m)
    ]
  ]

  unfoldable pub sum_errors : Dict ℕ → ℕ → ℕ
  sum_errors [] sum = sum
  sum_errors ((k, v) ∷ m) sum = sum_errors m (add64 sum v)

  abbrev no_gpu : Gpu
  no_gpu = record {
    temperature = floats.zero_f;
    asic_power = floats.zero_f;
    fan_speed_percent = floats.zero_f;
  }

  abbrev first_gpu : List Gpu → Gpu
  first_gpu [] = no_gpu
  first_gpu (g ∷ gs) = g

  abbrev stat_of : Algorithm → Gpu → MinerStat
  stat_of alg gpu = record {
    algorithm = alg.name;
    pool = alg.pool;
    wallet = alg.wallet;
    hashrate_one_min = raw_message_hash alg.one_min;
    hashrate_one_hr = raw_message_hash alg.one_hr;
    power_w = gpu.asic_power;
    temperature = gpu.temperature;
    fan_percent = gpu.fan_speed_percent;
    shares_total = alg.total;
    shares_valid = alg.accepted;
    shares_invalid = alg.rejected;
    hw_errors = sum_errors alg.gpu_compute_errors 0;
    pool_latency = alg.latency;
  }

  abbrev with_algorithms : List Gpu → List Algorithm → Option MinerStat
  with_algorithms gpus [] = none
  with_algorithms gpus (alg ∷ algs) =
      if floats.is_zero (raw_message_hash alg.one_min)
        && floats.is_zero (raw_message_hash alg.one_hr)
      then none
      else some (stat_of alg (first_gpu gpus))

  -- `normalizeSrbStatus`; `none` is an error.
  unfoldable pub normalize_srb_status : SrbStatus → Option MinerStat
  normalize_srb_status s = with_algorithms s.gpu_devices s.algorithms

  -- `fetchMinerStat`, where `get` is the answer of the miner to a request that succeeded with
  -- status 200 and a body that decodes.
  unfoldable pub fetch_miner_stat : (Text → Option SrbStatus) → Text → Option MinerStat
  fetch_miner_stat get raw_url =
      if is_nil (trim_space raw_url)
      then none
      else (do s ← get (trim_space raw_url); normalize_srb_status s)
