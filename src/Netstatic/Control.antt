-- ===== src/Netstatic/Control.antt =====
-- monitoring/netstatic/static.go: the save file, the life cycle and the configuration. An
-- operation returns the new state and its error; `none` around both is a panic.
use mango_agent.Base.{
  pos, negsuc, ℕ, zero, suc, Bool, true, false, Option, none, some, List, [], ◌∷◌, Text, Dict,
  if◌then◌else◌, ◌>>=◌,
}
use mango_agent.Netstatic.Data.{
  Floats, Duration, IoCounters, TrafficData, GoMap, NetStaticConfig, NetStatic, SaveFile, missing,
  unreadable, empty, corrupt, saved, State, nic_list, listed, config_or_default, period_of,
}
use mango_agent.Netstatic.Ops.{
  ensure_init_locked, purge_expired_locked, sample_once_locked, flush_cache_locked, map_entries,
}

pub data Error : Type 0 where
  read_error write_error : Error

-- How the calls of `saveToFileLocked` go: all succeed, one before the rename took effect fails, or
-- the directory could not be made. The new text goes to a temporary file and is renamed, so a failure
-- leaves the file as it was.
pub data Write : Type 0 where
  written failed no_directory : Write

-- `time.NewTicker` panics unless its period is positive.
unfoldable pub new_ticker : Duration → Option Duration
new_ticker (pos zero) = none
new_ticker (pos (suc n)) = some (pos (suc n))
new_ticker (negsuc n) = none

abbrev pub keep_keys : {V : Type 0} → (Text → Bool) → Dict V → Dict V
keep_keys p [] = []
keep_keys p ((k, v) ∷ m) = if p k then (k, v) ∷ keep_keys p m else keep_keys p m

abbrev pub nics_or : Option (List Text) → Option (List Text) → Option (List Text)
nics_or none old = old
nics_or (some l) old = some l

-- One tick of `detectTicker`.
unfoldable pub detect_tick :
    {F : Type 0} → ℕ → Option (List IoCounters) → State F → Option (State F)
detect_tick ts ios s = sample_once_locked ts ios s

module _ (fl : Floats) where
  open fl use {F, is_zero}

  abbrev pub with_stored_config : State F → State F
  with_stored_config s = record s {
    store = record (s.store) { config = config_or_default fl s.config };
  }

  unfoldable pub save_to_file_locked : Write → State F → State F × Option Error
  save_to_file_locked no_directory s = (s, some write_error)
  save_to_file_locked failed s = (with_stored_config s, some write_error)
  save_to_file_locked written s =
      (record (with_stored_config s) { file = saved (with_stored_config s).store }, none)

  -- The defaults with which `loadFromFileLocked` goes on where there is no usable file.
  unfoldable pub load_default : State F → State F
  load_default s =
      let s' = ensure_init_locked fl s in
      record s' { store = record (s'.store) { config = config_or_default fl s'.config } }

  unfoldable pub load_saved : ℕ → NetStatic F → State F → State F
  load_saved now ns s =
      purge_expired_locked fl now
        (ensure_init_locked fl (record s { store = ns; config = config_or_default fl ns.config }))

  unfoldable pub load_from : ℕ → SaveFile F → State F → State F × Option Error
  load_from now missing s = (load_default s, none)
  load_from now unreadable s = (s, some read_error)
  load_from now empty s = (load_default s, none)
  -- The bad file is renamed to `.bak` first.
  load_from now corrupt s = (load_default (record s { file = missing }), none)
  load_from now (saved ns) s = (load_saved now ns s, none)

  abbrev pub load_from_file_locked : ℕ → State F → State F × Option Error
  load_from_file_locked now s = load_from now s.file s

  unfoldable pub start_tickers : NetStaticConfig F → State F → Option (State F)
  unfolding new_ticker
  start_tickers c s = do
    detect ← new_ticker (period_of fl c.detect_interval)
    save ← new_ticker (period_of fl c.save_interval)
    some (record s { tickers = some (record { detect = detect; save = save }); running = true })

  unfoldable pub start_loaded : State F × Option Error → Option (State F × Option Error)
  start_loaded (s, some e) = some (s, some e)
  start_loaded (s, none) = do s' ← start_tickers s.config s; some (s', none)

  unfoldable pub start_or_continue : ℕ → State F → Option (State F × Option Error)
  start_or_continue now s =
      if s.running
      then some (s, none)
      else start_loaded (load_from_file_locked now (ensure_init_locked fl s))

  -- What a tick of `saveTicker` and `Stop` do; `ts` is the tick's time in seconds.
  unfoldable pub flush_and_save : ℕ → ℕ → Write → State F → Option (State F × Option Error)
  flush_and_save ts now w s = do
    s' ← flush_cache_locked ts s
    some (save_to_file_locked w (purge_expired_locked fl now s'))

  unfoldable pub save_tick : ℕ → ℕ → Write → State F → Option (State F)
  save_tick ts now w s = do r ← flush_and_save ts now w s; some r.0

  unfoldable pub clear : State F → State F
  clear s =
      let s' = ensure_init_locked fl s in
      record s' {
        store = record (s'.store) { interfaces = some [] };
        static_cache = some [];
        last_counters = [];
      }

  unfoldable pub stop : ℕ → ℕ → Write → State F → Option (State F × Option Error)
  stop ts now w s =
      if s.running
      then flush_and_save ts now w (record s { running = false; tickers = none })
      else some (s, none)

  -- A field that is zero, or a nil slice, leaves the old value.
  unfoldable pub merge_config : NetStaticConfig F → NetStaticConfig F → NetStaticConfig F
  merge_config new old = record {
    data_preserve_day =
        if is_zero new.data_preserve_day then old.data_preserve_day else new.data_preserve_day;
    detect_interval =
        if is_zero new.detect_interval then old.detect_interval else new.detect_interval;
    save_interval = if is_zero new.save_interval then old.save_interval else new.save_interval;
    nics = nics_or new.nics old.nics;
  }

  -- The cache and the counters of interfaces that are not on a whitelist are dropped.
  unfoldable pub drop_unlisted : List Text → State F → State F
  drop_unlisted [] s = s
  drop_unlisted (n ∷ l) s = record s {
    last_counters = keep_keys (λ name. listed name (n ∷ l)) s.last_counters;
    static_cache = map_entries (keep_keys (λ name. listed name (n ∷ l))) s.static_cache;
  }

  unfoldable pub reconfigure : NetStaticConfig F → State F → Option (State F)
  unfolding start_tickers
  reconfigure cfg s =
      if s.running
      then (do s' ← start_tickers cfg s; some (drop_unlisted (nic_list cfg.nics) s'))
      else some s

  unfoldable pub set_new_config : ℕ → Write → NetStaticConfig F → State F → Option (State F)
  set_new_config now w new s =
      let s' = ensure_init_locked fl s in
      let cfg = config_or_default fl (merge_config new s'.store.config) in
      (do
        s'' ←
            reconfigure cfg (record s' { store = record (s'.store) { config = cfg }; config = cfg })
        some (purge_expired_locked fl now (save_to_file_locked w s'').0))

  unfoldable pub force_replace_record : ℕ → GoMap (List TrafficData) → State F → State F
  force_replace_record now rec s =
      let s' = ensure_init_locked fl s in
      purge_expired_locked fl now (record s' { store = record (s'.store) { interfaces = rec } })
