-- ===== src/Tests/Statistics.antt =====
-- monitoring/netstatic/static.go on small inputs. Whole numbers stand for the floating-point ones.
use mango_agent.Base.{
  ℕ, ◌+◌, ◌*◌, ◌%◌, ◌==◌, pos, true, none, some, List, [], ◌∷◌, Text, codes, lookup, keep_if, leb,
  u64, All, ◌≡◌, refl, arith,
}
use mango_agent.Netstatic.Data.{
  Floats, NetStaticConfig, TrafficData, Counters, NetStatic, State, missing, saved, entries,
  period_of, config_or_default, is_nic_allowed, listed, cutoff_of, ttl_of,
}
use mango_agent.Netstatic.Ops.{
  flush_cache_locked, purge_expired_locked, sum_records, safe_delta, ensure_init_locked,
  purge_entries,
}
use mango_agent.Netstatic.Control.{
  written, failed, set_new_config, save_to_file_locked, merge_config, reconfigure, drop_unlisted,
}
use mango_agent.Netstatic.Query.{get_total_traffic_between, get_net_static_between}
use mango_agent.Netstatic.Sums.{sum_for, recorded, total_of, total_at, get_total_traffic_lem}
use mango_agent.Netstatic.Flush.{IsReady, Flushed, flush_cache_locked-Flushed}
use mango_agent.Netstatic.Sampling.{Tick, detect_ticks, detect_ticks_telescope}
use mango_agent.Netstatic.Between.{total_between-records_between}
use mango_agent.Netstatic.Expiry.{
  records_for, IsKept, purge_expired_locked_keeps, purge_expired_locked_wraps,
}
use mango_agent.Netstatic.Config.{
  InForce, IsListed, set_new_config-InForce, set_new_config-IsListed,
}
use mango_agent.Netstatic.Ready.{
  Event, detect, save, cleared, stopped, replaced, replaced_nil, handle_all, handle_all-IsReady,
  replaced_nil_panics,
}

abbrev whole : Floats
whole = record {
  F = ℕ;
  of_ℕ = λ n. n;
  is_zero = λ n. n == 0;
  mul = λ a b. a * b;
  to_duration = λ n. pos n;
  is_zero-of_ℕ = λ n. ground arith;
}

abbrev month : NetStaticConfig ℕ
month = record { data_preserve_day = 31; detect_interval = 2; save_interval = 600; nics = none }

abbrev century : NetStaticConfig ℕ
century = record month { data_preserve_day = 36500 }

abbrev eth0 : Text
eth0 = codes "eth0"

abbrev at : ℕ → ℕ → ℕ → TrafficData
at ts tx rx = record { timestamp = ts; tx = tx; rx = rx }

abbrev some_store : NetStaticConfig ℕ → NetStatic ℕ
some_store c = record { interfaces = some ((eth0, at 40 100 50 ∷ []) ∷ []); config = c }

abbrev collecting : State ℕ
collecting = record {
  static_cache = some ((eth0, at 50 5 7 ∷ at 52 1 1 ∷ []) ∷ []);
  config = month;
  running = true;
  tickers = none;
  store = some_store month;
  last_counters = (eth0, record { tx = 1000; rx = 2000 }) ∷ [];
  file = missing;
}

collecting-IsReady : IsReady collecting
collecting-IsReady = record {
  store_made = ((eth0, at 40 100 50 ∷ []) ∷ [], refl);
  cache_made = ((eth0, at 50 5 7 ∷ at 52 1 1 ∷ []) ∷ [], refl);
}

abbrev two_ticks : List Tick
two_ticks =
    (54, some (record { name = eth0; bytes_sent = 1500; bytes_recv = 2000 } ∷ []))
    ∷ (56, none)
    ∷ (58, some (record { name = eth0; bytes_sent = 1700; bytes_recv = 2600 } ∷ []))
    ∷ []

falls_to_zero : safe_delta 3 5 ≡ 0
unfolding safe_delta
falls_to_zero = refl

flush_cache_locked-Flushed_example :
    (s' : State ℕ) × (flush_cache_locked 60 collecting ≡ some s') × Flushed whole collecting s'
flush_cache_locked-Flushed_example =
    flush_cache_locked-Flushed whole 60 collecting collecting-IsReady

detect_ticks_telescope_example :
    (s' : State ℕ) × (detect_ticks two_ticks collecting ≡ some s')
    × (lookup eth0 s'.last_counters ≡ some (record { tx = 1700; rx = 2600 }))
    × (recorded (λ td. td.tx) eth0 s' + 1000 ≡ 106 + 1700)
    × (recorded (λ td. td.rx) eth0 s' + 2000 ≡ 58 + 2600)
unfolding lookup is_nic_allowed
detect_ticks_telescope_example =
    detect_ticks_telescope collecting two_ticks eth0 (record { tx = 1000; rx = 2000 })
      collecting-IsReady refl refl (omega arith, omega arith, (omega arith, omega arith, tt))

total_between-records_between_example :
    ((total_at eth0 (get_total_traffic_between whole 40 51 collecting).1).tx
      ≡ sum_for
          (λ td. td.tx)
          eth0
          (entries (get_net_static_between whole 40 51 collecting).1.interfaces)
        % u64)
    × ((total_at eth0 (get_total_traffic_between whole 40 51 collecting).1).rx
        ≡ sum_for
            (λ td. td.rx)
            eth0
            (entries (get_net_static_between whole 40 51 collecting).1.interfaces)
          % u64)
total_between-records_between_example =
    total_between-records_between whole 40 51 collecting eth0 (tt, tt)

get_total_traffic_lem_example :
    ((total_of whole eth0 collecting).tx ≡ 106) × ((total_of whole eth0 collecting).rx ≡ 58)
get_total_traffic_lem_example = get_total_traffic_lem whole collecting eth0

purge_expired_locked_keeps_example :
    (records_for eth0
        (entries (purge_expired_locked whole 2678445000000000 collecting).store.interfaces)
      ≡ keep_if
          (λ td. leb (cutoff_of 2678445000000000 (ttl_of whole month)) td.timestamp)
          (records_for eth0 ((eth0, at 40 100 50 ∷ []) ∷ [])))
    × All IsKept (entries (purge_expired_locked whole 2678445000000000 collecting).store.interfaces)
purge_expired_locked_keeps_example =
    purge_expired_locked_keeps whole 2678445000000000 collecting eth0

abbrev long_kept : State ℕ
long_kept = record collecting { config = century; store = some_store century }

purge_expired_locked_wraps_example :
    records_for eth0
      (entries (purge_expired_locked whole 1790000000000000000 long_kept).store.interfaces)
    ≡ []
unfolding ttl_of records_for
purge_expired_locked_wraps_example =
    purge_expired_locked_wraps whole 1790000000000000000 3153600000000000000 long_kept eth0 refl
      (omega arith) (omega arith) (omega arith, tt)

abbrev only_wlan0 : NetStaticConfig ℕ
only_wlan0 = record {
  data_preserve_day = 0;
  detect_interval = 5;
  save_interval = 0;
  nics = some (codes "wlan0" ∷ []);
}

abbrev wlan0_config : NetStaticConfig ℕ
wlan0_config = record {
  data_preserve_day = 31;
  detect_interval = 5;
  save_interval = 600;
  nics = some (codes "wlan0" ∷ []);
}

abbrev reconfigured : State ℕ
reconfigured = record {
  static_cache = some [];
  config = wlan0_config;
  running = true;
  tickers = some (record { detect = pos 5000000000; save = pos 600000000000 });
  store = some_store wlan0_config;
  last_counters = [];
  file = saved (some_store wlan0_config);
}

reconfigured_run :
    set_new_config whole 2678430000000000 written only_wlan0 collecting ≡ some reconfigured
unfolding set_new_config reconfigure ensure_init_locked period_of config_or_default merge_config
    purge_expired_locked drop_unlisted ttl_of cutoff_of purge_entries save_to_file_locked listed
reconfigured_run = refl

set_new_config-InForce_example : InForce whole only_wlan0 month reconfigured
set_new_config-InForce_example =
    set_new_config-InForce whole 2678430000000000 written only_wlan0 collecting reconfigured_run

set_new_config-IsListed_example :
    All (IsListed {V = Counters} (codes "wlan0" ∷ [])) reconfigured.last_counters
set_new_config-IsListed_example =
    set_new_config-IsListed whole 2678430000000000 written only_wlan0 collecting reconfigured_run
      refl

abbrev busy_day : List (Event ℕ)
busy_day =
    detect 61 none
    ∷ save 62 2678430000000000 failed
    ∷ replaced 2678430000000000 []
    ∷ cleared
    ∷ stopped 63 2678430000000000 written
    ∷ []

handle_all-IsReady_example :
    (s' : State ℕ) × (handle_all whole busy_day collecting ≡ some s') × IsReady s'
handle_all-IsReady_example =
    handle_all-IsReady whole busy_day collecting collecting-IsReady (tt, (tt, (tt, (tt, (tt, tt)))))

replaced_nil_panics_example :
    handle_all whole (replaced_nil 70 ∷ save 71 2678430000000000 written ∷ []) collecting ≡ none
unfolding sum_records
replaced_nil_panics_example =
    replaced_nil_panics whole 70 71 2678430000000000 written collecting eth0
      (at 50 5 7 ∷ at 52 1 1 ∷ []) [] refl refl
