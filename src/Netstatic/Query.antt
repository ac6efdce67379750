-- ===== src/Netstatic/Query.antt =====
-- monitoring/netstatic/static.go: the functions that report the statistics. They call
-- `ensureInitLocked` first, so each returns the state it leaves with its result.
use mango_agent.Base.{
  ℕ, Bool, ◌&&◌, ◌||◌, some, List, [], ◌∷◌, ◌++◌, Text, Dict, lookup, insert, get_or, leb, ◌==◌,
  if◌then◌else◌, add64, keep_if,
}
use mango_agent.Netstatic.Data.{
  Floats, TrafficData, Counters, entries, History, NetStatic, State, config_or_default,
}
use mango_agent.Netstatic.Ops.{ensure_init_locked, sum_records, zero_counters, nonzero}

unfoldable pub in_range : ℕ → ℕ → ℕ → Bool
in_range start end ts = (start == 0 || leb start ts) && (end == 0 || leb ts end)

-- `res[name] = append(res[name], arr...)` for each entry; a fresh map is never nil.
unfoldable pub append_entries : History → History → History
append_entries res [] = res
append_entries res ((name, arr) ∷ m) =
    append_entries (insert name (get_or [] (lookup name res) ++ arr) res) m

-- `for name, arr := range m { res[name] = cp }`
unfoldable pub copy_entries : History → History → History
copy_entries res [] = res
copy_entries res ((name, arr) ∷ m) = copy_entries (insert name arr res) m

abbrev pub set_nonempty : Text → List TrafficData → History → History
set_nonempty name [] res = res
set_nonempty name (td ∷ arr) res = insert name (td ∷ arr) res

-- The loop over the store in `GetNetStaticBetween`.
unfoldable pub filter_entries : (ℕ → Bool) → History → History → History
filter_entries inside res [] = res
filter_entries inside res ((name, arr) ∷ m) =
    filter_entries inside (set_nonempty name (keep_if (λ td. inside td.timestamp) arr) res) m

-- The inner loop over the cache there: each record in range is appended by itself.
unfoldable pub append_in_range : (ℕ → Bool) → Text → History → List TrafficData → History
append_in_range inside name res [] = res
append_in_range inside name res (td ∷ arr) =
    append_in_range inside name
      (if inside td.timestamp
        then insert name (get_or [] (lookup name res) ++ td ∷ []) res
        else res)
      arr

unfoldable pub merge_in_range : (ℕ → Bool) → History → History → History
merge_in_range inside res [] = res
merge_in_range inside res ((name, arr) ∷ m) =
    merge_in_range inside (append_in_range inside name res arr) m

-- The closure `add`.
unfoldable pub add_total : Dict TrafficData → Text → Counters → Dict TrafficData
add_total res name c =
    let cur = get_or (record { timestamp = 0; tx = 0; rx = 0 }) (lookup name res) in
    insert name (record cur { tx = add64 cur.tx c.tx; rx = add64 cur.rx c.rx }) res

unfoldable pub total_entries : Dict TrafficData → History → Dict TrafficData
total_entries res [] = res
total_entries res ((name, arr) ∷ m) =
    total_entries (add_total res name (sum_records zero_counters arr)) m

unfoldable pub total_in_range : (ℕ → Bool) → Dict TrafficData → History → Dict TrafficData
total_in_range inside res [] = res
total_in_range inside res ((name, arr) ∷ m) =
    let sum = sum_records zero_counters (keep_if (λ td. inside td.timestamp) arr) in
    total_in_range inside (if nonzero sum then add_total res name sum else res) m

module _ (fl : Floats) where
  open fl use {F}

  unfoldable pub get_net_static : State F → State F × NetStatic F
  get_net_static s =
      let s' = ensure_init_locked fl s in
      let merged = copy_entries [] (entries s'.store.interfaces) in
      (
        s',
        record {
          interfaces = some (append_entries merged (entries s'.static_cache));
          config = config_or_default fl s'.config;
        },
      )

  unfoldable pub get_net_static_between : ℕ → ℕ → State F → State F × NetStatic F
  get_net_static_between start end s =
      let s' = ensure_init_locked fl s in
      let res = filter_entries (in_range start end) [] (entries s'.store.interfaces) in
      (
        s',
        record {
          interfaces = some (merge_in_range (in_range start end) res (entries s'.static_cache));
          config = config_or_default fl s'.config;
        },
      )

  unfoldable pub get_total_traffic : State F → State F × Dict TrafficData
  get_total_traffic s =
      let s' = ensure_init_locked fl s in
      let res = total_entries [] (entries s'.store.interfaces) in
      (s', total_entries res (entries s'.static_cache))

  unfoldable pub get_total_traffic_between : ℕ → ℕ → State F → State F × Dict TrafficData
  get_total_traffic_between start end s =
      let s' = ensure_init_locked fl s in
      let res = total_in_range (in_range start end) [] (entries s'.store.interfaces) in
      (s', total_in_range (in_range start end) res (entries s'.static_cache))
