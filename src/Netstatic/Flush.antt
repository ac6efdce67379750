-- ===== src/Netstatic/Flush.antt =====
-- monitoring/netstatic/static.go: the totals of store and cache around a flush.
use mango_agent.Base.{
  ℕ, ◌+◌, ◌%◌, Bool-cases, some, List, [], ◌∷◌, ◌++◌, Text, lookup, insert, get_or, text_eq,
  text_eq_iff, if◌then◌else◌, u64, ◌≡◌, refl, inl, inr, arith,
}
use mango_agent.Netstatic.Data.{Floats, TrafficData, History, State}
use mango_agent.Netstatic.Ops.{
  sum_records, zero_counters, nonzero, append_at, flush_entry, flush_entries, flush_made,
  flush_cache_locked,
}
use mango_agent.Netstatic.Sums.{
  sum_of, sum_for, sum_of-append, sum_records_zero, total_of, get_total_traffic_lem,
}

pub sum_for-append :
    (f : TrafficData → ℕ) (k name : Text) (td : TrafficData) (m : History)
    → sum_for f name (insert k (get_or [] (lookup k m) ++ td ∷ []) m)
      ≡ sum_for f name m + (if text_eq k name then f td else 0)
unfolding lookup insert
sum_for-append f k name td [] = ground (arith, text_eq_iff k name)
sum_for-append f k name td ((j, arr) ∷ m) = ground (
  arith,
  text_eq_iff j k,
  text_eq_iff k name,
  text_eq_iff j name,
  sum_of-append f arr (td ∷ []),
  sum_for-append f k name td m,
)

-- A write into a map that is made always succeeds.
pub append_at_made :
    (k : Text) (td : TrafficData) (m : History)
    → append_at k td (some m) ≡ some (some (insert k (get_or [] (lookup k m) ++ td ∷ []) m))
append_at_made k td m = refl

-- What one round of the loop may leave in the store, up to the wrapping of the sums.
record Adds (k : Text) (arr : List TrafficData) (store out : History) : Type 0 where
  tx_adds :
      (name : Text)
      → sum_for (λ td. td.tx) name out % u64
        ≡ (sum_for (λ td. td.tx) name store
            + (if text_eq k name then sum_of (λ td. td.tx) arr else 0))
          % u64
  rx_adds :
      (name : Text)
      → sum_for (λ td. td.rx) name out % u64
        ≡ (sum_for (λ td. td.rx) name store
            + (if text_eq k name then sum_of (λ td. td.rx) arr else 0))
          % u64

abbrev merged : ℕ → List TrafficData → TrafficData
merged ts arr = record {
  timestamp = ts;
  tx = sum_of (λ td. td.tx) arr % u64;
  rx = sum_of (λ td. td.rx) arr % u64;
}

flush_entry_made :
    (ts : ℕ) (k : Text) (arr : List TrafficData) (store : History)
    → (out : History) × (flush_entry ts k (sum_records zero_counters arr) (some store)
        ≡ some (some out))
      × Adds k arr store out
unfolding flush_entry
flush_entry_made ts k arr store =
    rw sum_records_zero
      (elim (Bool-cases (
        nonzero
          (record { tx = sum_of (λ td. td.tx) arr % u64; rx = sum_of (λ td. td.rx) arr % u64 }))) [
            | inl some_bytes ↦ (
              insert k (get_or [] (lookup k store) ++ merged ts arr ∷ []) store,
              rw some_bytes,
              record {
                tx_adds = λ name.
                    ground (arith, sum_for-append (λ td. td.tx) k name (merged ts arr) store);
                rx_adds = λ name.
                    ground (arith, sum_for-append (λ td. td.rx) k name (merged ts arr) store);
              },
            )
            | inr no_bytes ↦ (
              store,
              rw no_bytes,
              record { tx_adds = λ name. ground arith; rx_adds = λ name. ground arith },
            )
          ])

flush_entries_made :
    (ts : ℕ) (cache store : History)
    → (out : History) × (flush_entries ts cache (some store) ≡ some (some out))
      × ((name : Text)
          → sum_for (λ td. td.tx) name out % u64
            ≡ (sum_for (λ td. td.tx) name store + sum_for (λ td. td.tx) name cache) % u64)
      × ((name : Text)
          → sum_for (λ td. td.rx) name out % u64
            ≡ (sum_for (λ td. td.rx) name store + sum_for (λ td. td.rx) name cache) % u64)
unfolding flush_entries
flush_entries_made ts [] store = (store, refl, λ name. omega arith, λ name. omega arith)
flush_entries_made ts ((k, arr) ∷ cache) store =
    let (mid, e, adds) = flush_entry_made ts k arr store in
    let (out, e', tx, rx) = flush_entries_made ts cache mid in
    (
      out,
      rw (e, e'),
      λ name. omega (arith, adds.tx_adds name, tx name),
      λ name. omega (arith, adds.rx_adds name, rx name),
    )

-- Both maps that the ticks write to are made. `ensureInitLocked` establishes this.
pub record IsReady {F : Type 0} (s : State F) : Type 0 where
  pub store_made : (m : History) × (s.store.interfaces ≡ some m)
  pub cache_made : (m : History) × (s.static_cache ≡ some m)

module _ (fl : Floats) where
  open fl use {F}

  -- What a flush leaves: an empty cache, everything but the maps as it was, and the same totals.
  pub record Flushed (s s' : State F) : Type 0 where
    pub ready : IsReady s'
    pub cache_empty : s'.static_cache ≡ some []
    pub config_same : s'.config ≡ s.config
    pub counters_same : s'.last_counters ≡ s.last_counters
    pub tx_same : (name : Text) → (total_of fl name s').tx ≡ (total_of fl name s).tx
    pub rx_same : (name : Text) → (total_of fl name s').rx ≡ (total_of fl name s).rx

  flush_made_lem :
      (ts : ℕ) (cache store : History) (s : State F)
      → s.static_cache ≡ some cache
      → s.store.interfaces ≡ some store
      → (s' : State F) × (flush_made ts cache s ≡ some s') × Flushed s s'
  unfolding flush_made
  flush_made_lem ts [] store s c m = (
    s,
    refl,
    record {
      ready = record { store_made = (store, m); cache_made = ([], c) };
      cache_empty = c;
      config_same = refl;
      counters_same = refl;
      tx_same = λ name. refl;
      rx_same = λ name. refl;
    },
  )
  flush_made_lem ts (e ∷ cache) store s c m =
      let (out, eq, tx, rx) = flush_entries_made ts (e ∷ cache) store in
      let s' : State F = record s {
        store = record (s.store) { interfaces = some out };
        static_cache = some [];
      } in
      (
        s',
        rw (m, eq),
        record {
          ready = record { store_made = (out, refl); cache_made = ([], refl) };
          cache_empty = refl;
          config_same = refl;
          counters_same = refl;
          tx_same = λ name.
              rw ((get_total_traffic_lem fl s name).0, (get_total_traffic_lem fl s' name).0, c, m)
                (omega (arith, tx name));
          rx_same = λ name.
              rw ((get_total_traffic_lem fl s name).1, (get_total_traffic_lem fl s' name).1, c, m)
                (omega (arith, rx name));
        },
      )

  -- On a ready state a flush does not panic, empties the cache, and changes no total that
  -- `GetTotalTraffic` reports for any interface.
  pub flush_cache_locked-Flushed :
      (ts : ℕ) (s : State F)
      → IsReady s
      → (s' : State F) × (flush_cache_locked ts s ≡ some s') × Flushed s s'
  unfolding flush_cache_locked
  flush_cache_locked-Flushed ts s r =
      let (cache, c) = r.cache_made in
      let (store, m) = r.store_made in simp c (flush_made_lem ts cache store s c m)
