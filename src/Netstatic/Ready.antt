-- ===== src/Netstatic/Ready.antt =====
-- monitoring/netstatic/static.go: which operations can meet a nil map.
use mango_agent.Base.{
  ℕ, true, false, Bool-cases, Option, none, some, List, [], ◌∷◌, Text, Dict, lookup, ◌≡◌, refl, sym,
  inl, inr, ◌>>=◌, insert,
}
use mathlib.Core.Path.{subst}
use mango_agent.Netstatic.Data.{
  Floats, IoCounters, State, GoMap, TrafficData, History, is_nic_allowed,
}
use mango_agent.Netstatic.Ops.{
  made, ensure_init_locked, purge_expired_locked, map_entries, sample_io, sample_ios,
  sample_once_locked, record_known, flush_cache_locked, flush_made, flush_entries, flush_entry,
  nonzero, sum_records, zero_counters,
}
use mango_agent.Netstatic.Control.{
  Error, Write, written, failed, no_directory, save_to_file_locked, clear, stop, save_tick,
  detect_tick, flush_and_save, force_replace_record,
}
use mango_agent.Netstatic.Flush.{IsReady, flush_cache_locked-Flushed}
use mango_agent.Netstatic.Sampling.{sampled, record_known_lem}

-- What may happen to the package: ticks of its two tickers, and calls from outside.
pub data Event (F : Type 0) : Type 0 where
  detect : ℕ → Option (List IoCounters) → Event F
  save : ℕ → ℕ → Write → Event F
  cleared : Event F
  stopped : ℕ → ℕ → Write → Event F
  replaced : ℕ → History → Event F
  replaced_nil : ℕ → Event F

made-IsMade : {V : Type 0} (m : GoMap V) → (h : Dict V) × (made m ≡ some h)
made-IsMade none = ([], refl)
made-IsMade (some m) = (m, refl)

map_entries_made :
    {V : Type 0} (f : Dict V → Dict V) (m : GoMap V)
    → (h : Dict V) × (m ≡ some h)
    → (h : Dict V) × (map_entries f m ≡ some h)
map_entries_made f m (h, e) = (f h, rw e)

sample_io-IsReady :
    {F : Type 0} (ts : ℕ) (io : IoCounters) (s : State F)
    → IsReady s
    → (s' : State F) × (sample_io ts io s ≡ some s') × IsReady s'
unfolding sample_io
sample_io-IsReady {F} ts io s r = elim (Bool-cases (is_nic_allowed s.config io.name)) [
  | inl watched ↦
      let (cache, c) = r.cache_made in
      let known = lookup io.name s.last_counters in
      let (out, e, _, _) = record_known_lem s ts io known cache s.last_counters in
      let same : s ≡ sampled s cache s.last_counters = λ i. record s { static_cache = c i } in
      let e' : record_known ts io known s ≡ some (sampled s out s.last_counters) =
        subst (λ t. record_known ts io known t ≡ some (sampled s out s.last_counters)) (sym same)
          e in
      (
        sampled s out
            (insert io.name (record { tx = io.bytes_sent; rx = io.bytes_recv }) s.last_counters),
        rw (watched, e'),
        record { store_made = r.store_made; cache_made = (out, refl) },
      )
  | inr other ↦ (s, rw other, r)
]

sample_ios-IsReady :
    {F : Type 0} (ts : ℕ) (ios : List IoCounters) (s : State F)
    → IsReady s
    → (s' : State F) × (sample_ios ts ios s ≡ some s') × IsReady s'
unfolding sample_ios
sample_ios-IsReady ts [] s r = (s, refl, r)
sample_ios-IsReady ts (io ∷ ios) s r =
    let (t, e, r') = sample_io-IsReady ts io s r in
    let (s', e', r'') = sample_ios-IsReady ts ios t r' in (s', rw (e, e'), r'')

detect_tick-IsReady :
    {F : Type 0} (ts : ℕ) (ios : Option (List IoCounters)) (s : State F)
    → IsReady s
    → (s' : State F) × (detect_tick ts ios s ≡ some s') × IsReady s'
unfolding detect_tick sample_once_locked
detect_tick-IsReady ts none s r = (s, refl, r)
detect_tick-IsReady ts (some ios) s r = sample_ios-IsReady ts ios s r

module _ (fl : Floats) where
  open fl use {F}

  pub handle : Event F → State F → Option (State F)
  handle (detect ts ios) s = detect_tick ts ios s
  handle (save ts now w) s = save_tick fl ts now w s
  handle cleared s = some (clear fl s)
  handle (stopped ts now w) s = (do r ← stop fl ts now w s; some r.0)
  handle (replaced now rec) s = some (force_replace_record fl now (some rec) s)
  handle (replaced_nil now) s = some (force_replace_record fl now none s)

  ensure_init_locked-IsReady : (s : State F) → IsReady (ensure_init_locked fl s)
  unfolding ensure_init_locked
  ensure_init_locked-IsReady s = record {
    store_made = made-IsMade s.store.interfaces;
    cache_made = made-IsMade s.static_cache;
  }

  purge-IsReady : (now : ℕ) (s : State F) → IsReady s → IsReady (purge_expired_locked fl now s)
  unfolding purge_expired_locked
  purge-IsReady now s r = record {
    store_made = map_entries_made _ _ r.store_made;
    cache_made = r.cache_made;
  }

  save-IsReady : (w : Write) (s : State F) → IsReady s → IsReady (save_to_file_locked fl w s).0
  unfolding save_to_file_locked
  save-IsReady written s r = record { store_made = r.store_made; cache_made = r.cache_made }
  save-IsReady failed s r = record { store_made = r.store_made; cache_made = r.cache_made }
  save-IsReady no_directory s r = r

  flush_and_save-IsReady :
      (ts now : ℕ) (w : Write) (s : State F)
      → IsReady s
      → (r : State F × Option Error) × (flush_and_save fl ts now w s ≡ some r) × IsReady r.0
  unfolding flush_and_save
  flush_and_save-IsReady ts now w s r =
      let (t, e, f) = flush_cache_locked-Flushed fl ts s r in
      (
        save_to_file_locked fl w (purge_expired_locked fl now t),
        rw e,
        save-IsReady w _ (purge-IsReady now t f.ready),
      )

  stop-IsReady :
      (ts now : ℕ) (w : Write) (s : State F)
      → IsReady s
      → (r : State F × Option Error) × (stop fl ts now w s ≡ some r) × IsReady r.0
  unfolding stop
  stop-IsReady ts now w s r = elim (Bool-cases s.running) [
    | inl on ↦
        let (q, e, r') =
          flush_and_save-IsReady ts now w (record s { running = false; tickers = none })
            (record { store_made = r.store_made; cache_made = r.cache_made }) in
        (q, simp on e, r')
    | inr off ↦ ((s, none), simp off, r)
  ]

  clear-IsReady : (s : State F) → IsReady (clear fl s)
  unfolding clear
  clear-IsReady s = record { store_made = ([], refl); cache_made = ([], refl) }

  replace-IsReady :
      (now : ℕ) (rec : History) (s : State F) → IsReady (force_replace_record fl now (some rec) s)
  unfolding force_replace_record
  replace-IsReady now rec s =
      purge-IsReady now _ (record {
        store_made = (rec, refl);
        cache_made = (ensure_init_locked-IsReady s).cache_made;
      })

  -- The events after which the maps are made.
  abbrev pub IsHarmless : Event F → Type 0
  IsHarmless (replaced_nil now) = ⊥
  IsHarmless _ = Unit

  -- From a state whose maps are made, each tick and call returns, but for a replacement of the
  -- records by a nil map, and leaves the maps made: no write meets a nil map.
  pub handle-IsReady :
      (e : Event F) (s : State F)
      → IsReady s
      → IsHarmless e
      → (s' : State F) × (handle e s ≡ some s') × IsReady s'
  unfolding handle save_tick
  handle-IsReady (detect ts ios) s r h = detect_tick-IsReady ts ios s r
  handle-IsReady (save ts now w) s r h =
      let (q, e, r') = flush_and_save-IsReady ts now w s r in (q.0, rw e, r')
  handle-IsReady cleared s r h = (clear fl s, refl, clear-IsReady s)
  handle-IsReady (stopped ts now w) s r h =
      let (q, e, r') = stop-IsReady ts now w s r in (q.0, rw e, r')
  handle-IsReady (replaced now rec) s r h = (_, refl, replace-IsReady now rec s)
  handle-IsReady (replaced_nil now) s r h = absurd h

  pub handle_all : List (Event F) → State F → Option (State F)
  handle_all [] s = some s
  handle_all (e ∷ es) s = do s' ← handle e s; handle_all es s'

  abbrev pub AreHarmless : List (Event F) → Type 0
  AreHarmless [] = Unit
  AreHarmless (e ∷ es) = IsHarmless e × AreHarmless es

  -- Where the maps of the store and of the cache are made, no sequence of detect and save ticks,
  -- `Clear`, `Stop` and `ForceReplaceRecord` with a map that is not nil panics, and they are made
  -- after it.
  pub handle_all-IsReady :
      (es : List (Event F)) (s : State F)
      → IsReady s
      → AreHarmless es
      → (s' : State F) × (handle_all es s ≡ some s') × IsReady s'
  unfolding handle_all
  handle_all-IsReady [] s r h = (s, refl, r)
  handle_all-IsReady (e ∷ es) s r h =
      let (t, q, r') = handle-IsReady e s r h.0 in
      let (s', q', r'') = handle_all-IsReady es t r' h.1 in (s', rw (q, q'), r'')

  -- Where the first interface of the cache has bytes whose 64-bit sums are not both zero, a save tick
  -- right after `ForceReplaceRecord(nil)` panics.
  pub replaced_nil_panics :
      (now ts now' : ℕ) (w : Write) (s : State F) (name : Text) (arr : List TrafficData)
      (cache : History)
      → s.static_cache ≡ some ((name, arr) ∷ cache)
      → nonzero (sum_records zero_counters arr) ≡ true
      → handle_all (replaced_nil now ∷ save ts now' w ∷ []) s ≡ none
  unfolding handle_all handle force_replace_record purge_expired_locked ensure_init_locked save_tick
      flush_and_save flush_cache_locked flush_made flush_entries flush_entry
  replaced_nil_panics now ts now' w s name arr cache c nz = simp (c, nz)
