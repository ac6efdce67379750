-- ===== src/Netstatic/Ops.antt =====
-- monitoring/netstatic/static.go: initialisation, expiry, sampling and flushing. The clock (`now`,
-- `ts`) and what gopsutil reports are arguments.
use mango_agent.Base.{
  ℕ, Bool, ◌||◌, Option, none, some, List, [], ◌∷◌, ◌++◌, Text, Dict, lookup, insert, get_or, leb,
  ltb, if◌then◌else◌, add64, keep_if, ◌-◌, ◌>>=◌,
}
use mango_agent.Netstatic.Data.{
  Floats, TrafficData, Counters, IoCounters, GoMap, entries, put, History, State, is_nic_allowed,
  cutoff_of, config_or_default, ttl_of,
}

-- `make(map[...]...)` where the map is nil.
abbrev pub made : {V : Type 0} → GoMap V → GoMap V
made none = some []
made (some m) = some m

module _ (fl : Floats) where
  open fl use {F}

  unfoldable pub ensure_init_locked : State F → State F
  ensure_init_locked s = record s {
    store = record (s.store) { interfaces = made s.store.interfaces };
    static_cache = made s.static_cache;
    config = config_or_default fl s.config;
  }

-- An interface with nothing left is deleted from the map.
abbrev pub keep_entry : Text → List TrafficData → History → History
keep_entry name [] rest = rest
keep_entry name (td ∷ kept) rest = (name, td ∷ kept) ∷ rest

unfoldable pub purge_entries : ℕ → History → History
purge_entries cutoff [] = []
purge_entries cutoff ((name, arr) ∷ m) =
    keep_entry name (keep_if (λ td. leb cutoff td.timestamp) arr) (purge_entries cutoff m)

abbrev pub map_entries : {V : Type 0} → (Dict V → Dict V) → GoMap V → GoMap V
map_entries f none = none
map_entries f (some m) = some (f m)

module _ (fl : Floats) where
  open fl use {F}

  unfoldable pub purge_expired_locked : ℕ → State F → State F
  purge_expired_locked now s =
      let cutoff = cutoff_of now (ttl_of fl s.config) in
      record s {
        store = record (s.store) {
          interfaces = map_entries (purge_entries cutoff) s.store.interfaces;
        };
      }

unfoldable pub safe_delta : ℕ → ℕ → ℕ
safe_delta cur prev = if leb prev cur then cur - prev else 0

-- `m[name] = append(m[name], td)`
abbrev pub append_at :
    Text → TrafficData → GoMap (List TrafficData) → Option (GoMap (List TrafficData))
append_at name td m = put name (get_or [] (lookup name (entries m)) ++ td ∷ []) m

-- The record of one interface whose previous counters are known.
unfoldable pub record_delta : {F : Type 0} → ℕ → IoCounters → Counters → State F → Option (State F)
record_delta ts io prev s =
    let dtx = safe_delta io.bytes_sent prev.tx in
    let drx = safe_delta io.bytes_recv prev.rx in
    if ltb 0 dtx || ltb 0 drx
    then (do
      cache ← append_at io.name (record { timestamp = ts; tx = dtx; rx = drx }) s.static_cache
      some (record s { static_cache = cache }))
    else some s

unfoldable pub record_known :
    {F : Type 0} → ℕ → IoCounters → Option Counters → State F → Option (State F)
record_known ts io none s = some s
record_known ts io (some prev) s = record_delta ts io prev s

-- One round of the loop in `sampleOnceLocked`.
unfoldable pub sample_io : {F : Type 0} → ℕ → IoCounters → State F → Option (State F)
sample_io ts io s =
    if is_nic_allowed s.config io.name
    then (do
      s' ← record_known ts io (lookup io.name s.last_counters) s
      some (record s' {
        last_counters =
            insert io.name (record { tx = io.bytes_sent; rx = io.bytes_recv }) s'.last_counters;
      }))
    else some s

unfoldable pub sample_ios : {F : Type 0} → ℕ → List IoCounters → State F → Option (State F)
sample_ios ts [] s = some s
sample_ios ts (io ∷ ios) s = do s' ← sample_io ts io s; sample_ios ts ios s'

-- `none` for the counters is an error of gopsutil.
unfoldable pub sample_once_locked :
    {F : Type 0} → ℕ → Option (List IoCounters) → State F → Option (State F)
sample_once_locked ts none s = some s
sample_once_locked ts (some ios) s = sample_ios ts ios s

-- `for _, td := range arr { tx += td.Tx; rx += td.Rx }`
unfoldable pub sum_records : Counters → List TrafficData → Counters
sum_records acc [] = acc
sum_records acc (td ∷ arr) =
    sum_records (record { tx = add64 acc.tx td.tx; rx = add64 acc.rx td.rx }) arr

abbrev pub zero_counters : Counters
zero_counters = record { tx = 0; rx = 0 }

abbrev pub nonzero : Counters → Bool
nonzero c = ltb 0 c.tx || ltb 0 c.rx

unfoldable pub flush_entry :
    ℕ → Text → Counters → GoMap (List TrafficData) → Option (GoMap (List TrafficData))
flush_entry ts name sum store =
    if nonzero sum
    then append_at name (record { timestamp = ts; tx = sum.tx; rx = sum.rx }) store
    else some store

-- The loop of `flushCacheLocked` over the cache.
unfoldable pub flush_entries :
    ℕ → History → GoMap (List TrafficData) → Option (GoMap (List TrafficData))
flush_entries ts [] store = some store
flush_entries ts ((name, arr) ∷ cache) store = do
  store' ← flush_entry ts name (sum_records zero_counters arr) store
  flush_entries ts cache store'

unfoldable pub flush_made : {F : Type 0} → ℕ → History → State F → Option (State F)
flush_made ts [] s = some s
flush_made ts (e ∷ cache) s = do
  interfaces ← flush_entries ts (e ∷ cache) s.store.interfaces
  some (record s { store = record (s.store) { interfaces = interfaces }; static_cache = some [] })

unfoldable pub flush_cache_locked : {F : Type 0} → ℕ → State F → Option (State F)
flush_cache_locked ts s = flush_made ts (entries s.static_cache) s
