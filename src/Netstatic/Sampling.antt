-- ===== src/Netstatic/Sampling.antt =====
-- monitoring/netstatic/static.go: the bytes that detect ticks record, against the counters.
use mango_agent.Base.{
  ℕ, ◌+◌, ◌≤◌, true, Bool-cases, Option, none, some, List, [], ◌∷◌, ◌++◌, Text, Dict, lookup,
  insert, lookup-insert, get_or, text_eq, text_eq_iff, if◌then◌else◌, ◌≡◌, refl, sym, inl, inr,
  arith, ◌>>=◌,
}
use mango_agent.Netstatic.Data.{TrafficData, Counters, IoCounters, History, State, is_nic_allowed}
use mango_agent.Netstatic.Ops.{
  nonzero, safe_delta, record_delta, record_known, sample_io, sample_ios, sample_once_locked,
}
use mango_agent.Netstatic.Sums.{sum_for, recorded}
use mathlib.Core.Path.{subst}
use mango_agent.Netstatic.Control.{detect_tick}
use mango_agent.Netstatic.Flush.{sum_for-append, IsReady}

abbrev pub counters_of : IoCounters → Counters
counters_of io = record { tx = io.bytes_sent; rx = io.bytes_recv }

-- The counters of interface `name` after a reading, which may be of another interface.
abbrev pub next_reading : Text → Counters → IoCounters → Counters
next_reading name prev io = if text_eq io.name name then counters_of io else prev

abbrev pub last_reading : Text → Counters → List IoCounters → Counters
last_reading name prev [] = prev
last_reading name prev (io ∷ ios) = last_reading name (next_reading name prev io) ios

-- No reading of `name` is below the one before it.
abbrev pub Rising : Text → Counters → List IoCounters → Type 0
Rising name prev [] = Unit
Rising name prev (io ∷ ios) =
    (prev.tx ≤ (next_reading name prev io).tx)
    × (prev.rx ≤ (next_reading name prev io).rx)
    × Rising name (next_reading name prev io) ios

module _ {F : Type 0} (s : State F) where
  -- The state that sampling reaches: only the cache and the counters change.
  abbrev pub sampled : History → Dict Counters → State F
  sampled cache last = record s { static_cache = some cache; last_counters = last }

  pub delta_tx : IoCounters → Option Counters → ℕ
  delta_tx io none = 0
  delta_tx io (some p) = safe_delta io.bytes_sent p.tx

  pub delta_rx : IoCounters → Option Counters → ℕ
  delta_rx io none = 0
  delta_rx io (some p) = safe_delta io.bytes_recv p.rx

  -- What `record_known` does to the cache, for every interface.
  pub record_known_lem :
      (ts : ℕ) (io : IoCounters) (known : Option Counters) (cache : History) (last : Dict Counters)
      → (out : History) × (record_known ts io known (sampled cache last) ≡ some (sampled out last))
        × ((name : Text)
            → sum_for (λ td. td.tx) name out
              ≡ sum_for (λ td. td.tx) name cache
                + (if text_eq io.name name then delta_tx io known else 0))
        × ((name : Text)
            → sum_for (λ td. td.rx) name out
              ≡ sum_for (λ td. td.rx) name cache
                + (if text_eq io.name name then delta_rx io known else 0))
  unfolding record_known record_delta delta_tx delta_rx
  record_known_lem ts io none cache last = (cache, refl, λ name. ground arith, λ name. ground arith)
  record_known_lem ts io (some p) cache last =
      let td : TrafficData = record {
        timestamp = ts;
        tx = safe_delta io.bytes_sent p.tx;
        rx = safe_delta io.bytes_recv p.rx;
      } in
      elim (Bool-cases (nonzero (record { tx = td.tx; rx = td.rx }))) [
        | inl some_bytes ↦ (
          insert io.name (get_or [] (lookup io.name cache) ++ td ∷ []) cache,
          rw some_bytes,
          λ name. sum_for-append (λ td. td.tx) io.name name td cache,
          λ name. sum_for-append (λ td. td.rx) io.name name td cache,
        )
        | inr no_bytes ↦ (cache, rw no_bytes, λ name. ground arith, λ name. ground arith)
      ]

  -- One reading, seen from an interface that is watched and has been read before.
  record Follows (name : Text) (prev next : Counters) (cache out : History) (last' : Dict Counters)
      : Type 0 where
    known : lookup name last' ≡ some next
    tx_follows :
        sum_for (λ td. td.tx) name out + prev.tx ≡ sum_for (λ td. td.tx) name cache + next.tx
    rx_follows :
        sum_for (λ td. td.rx) name out + prev.rx ≡ sum_for (λ td. td.rx) name cache + next.rx

  sample_io_lem :
      (ts : ℕ) (io : IoCounters) (cache : History) (last : Dict Counters) (name : Text)
      (prev : Counters)
      → is_nic_allowed s.config name ≡ true
      → lookup name last ≡ some prev
      → prev.tx ≤ (next_reading name prev io).tx
      → prev.rx ≤ (next_reading name prev io).rx
      → (out : History) × (last' : Dict Counters) × (sample_io ts io (sampled cache last)
          ≡ some (sampled out last'))
        × Follows name prev (next_reading name prev io) cache out last'
  unfolding sample_io delta_tx delta_rx safe_delta
  sample_io_lem ts io cache last name prev ok h tx_le rx_le =
      elim (Bool-cases (is_nic_allowed s.config io.name)) [
        | inl watched ↦
            let (out, e, tx, rx) = record_known_lem ts io (lookup io.name last) cache last in
            let last' = insert io.name (counters_of io) last in
            (
              out,
              last',
              rw (watched, e),
              record {
                known = ground (arith, lookup-insert io.name name (counters_of io) last);
                tx_follows = ground (arith, text_eq_iff io.name name, tx name);
                rx_follows = ground (arith, text_eq_iff io.name name, rx name);
              },
            )
        | inr other ↦ (
          cache,
          last,
          rw other,
          record {
            known = ground (arith, text_eq_iff io.name name);
            tx_follows = ground (arith, text_eq_iff io.name name);
            rx_follows = ground (arith, text_eq_iff io.name name);
          },
        )
      ]

  sample_ios_lem :
      (ts : ℕ) (ios : List IoCounters) (cache : History) (last : Dict Counters) (name : Text)
      (prev : Counters)
      → is_nic_allowed s.config name ≡ true
      → lookup name last ≡ some prev
      → Rising name prev ios
      → (out : History) × (last' : Dict Counters) × (sample_ios ts ios (sampled cache last)
          ≡ some (sampled out last'))
        × Follows name prev (last_reading name prev ios) cache out last'
  unfolding sample_ios
  sample_ios_lem ts [] cache last name prev ok h rising =
      (cache, last, refl, record { known = h; tx_follows = refl; rx_follows = refl })
  sample_ios_lem ts (io ∷ ios) cache last name prev ok h rising =
      let (mid, last', e, f) = sample_io_lem ts io cache last name prev ok h rising.0 rising.1 in
      let (out, last'', e', g) = sample_ios_lem ts ios mid last' name _ ok f.known rising.2 in
      (
        out,
        last'',
        rw (e, e'),
        record {
          known = g.known;
          tx_follows = omega (arith, f.tx_follows, g.tx_follows);
          rx_follows = omega (arith, f.rx_follows, g.rx_follows);
        },
      )

-- The detect ticks of a while: each has its time and what gopsutil reported, or an error.
abbrev pub Tick : Type 0
Tick = ℕ × Option (List IoCounters)

pub detect_ticks : {F : Type 0} → List Tick → State F → Option (State F)
detect_ticks [] s = some s
detect_ticks ((ts, ios) ∷ ticks) s = do s' ← detect_tick ts ios s; detect_ticks ticks s'

abbrev pub reported : Option (List IoCounters) → List IoCounters
reported none = []
reported (some ios) = ios

abbrev pub readings : List Tick → List IoCounters
readings [] = []
readings ((ts, ios) ∷ ticks) = reported ios ++ readings ticks

last_reading-append :
    (name : Text) (prev : Counters) (xs ys : List IoCounters)
    → last_reading name prev (xs ++ ys) ≡ last_reading name (last_reading name prev xs) ys
last_reading-append name prev [] ys = refl
last_reading-append name prev (x ∷ xs) ys =
    last_reading-append name (next_reading name prev x) xs ys

Rising-append :
    (name : Text) (prev : Counters) (xs ys : List IoCounters)
    → Rising name prev (xs ++ ys)
    → Rising name prev xs × Rising name (last_reading name prev xs) ys
Rising-append name prev [] ys h = (tt, h)
Rising-append name prev (x ∷ xs) ys h =
    let (front, back) = Rising-append name (next_reading name prev x) xs ys h.2 in
    ((h.0, h.1, front), back)

detect_ticks_lem :
    {F : Type 0} (s : State F) (ticks : List Tick) (cache : History) (last : Dict Counters)
    (name : Text) (prev : Counters)
    → is_nic_allowed s.config name ≡ true
    → lookup name last ≡ some prev
    → Rising name prev (readings ticks)
    → (out : History) × (last' : Dict Counters) × (detect_ticks ticks (sampled s cache last)
        ≡ some (sampled s out last'))
      × Follows s name prev (last_reading name prev (readings ticks)) cache out last'
unfolding detect_ticks detect_tick sample_once_locked
detect_ticks_lem s [] cache last name prev ok h rising =
    (cache, last, refl, record { known = h; tx_follows = refl; rx_follows = refl })
detect_ticks_lem s ((ts, none) ∷ ticks) cache last name prev ok h rising =
    detect_ticks_lem s ticks cache last name prev ok h rising
detect_ticks_lem s ((ts, some ios) ∷ ticks) cache last name prev ok h rising =
    let (now, later) = Rising-append name prev ios (readings ticks) rising in
    let (mid, last', e, f) = sample_ios_lem s ts ios cache last name prev ok h now in
    let (out, last'', e', g) = detect_ticks_lem s ticks mid last' name _ ok f.known later in
    (
      out,
      last'',
      rw (e, e'),
      rw last_reading-append (record {
        known = g.known;
        tx_follows = omega (arith, f.tx_follows, g.tx_follows);
        rx_follows = omega (arith, f.rx_follows, g.rx_follows);
      }),
    )

-- Over any detect ticks during which the counters of a watched interface do not fall, the bytes
-- recorded for it grow by exactly what its counters grew by, from the reading known before to the
-- last one reported; no tick panics, and the last reading is what is remembered.
pub detect_ticks_telescope :
    {F : Type 0} (s : State F) (ticks : List Tick) (name : Text) (prev : Counters)
    → IsReady s
    → is_nic_allowed s.config name ≡ true
    → lookup name s.last_counters ≡ some prev
    → Rising name prev (readings ticks)
    → (s' : State F) × (detect_ticks ticks s ≡ some s')
      × (lookup name s'.last_counters ≡ some (last_reading name prev (readings ticks)))
      × (recorded (λ td. td.tx) name s' + prev.tx
          ≡ recorded (λ td. td.tx) name s + (last_reading name prev (readings ticks)).tx)
      × (recorded (λ td. td.rx) name s' + prev.rx
          ≡ recorded (λ td. td.rx) name s + (last_reading name prev (readings ticks)).rx)
detect_ticks_telescope s ticks name prev r ok h rising =
    let (cache, c) = r.cache_made in
    let (out, last', e, f) = detect_ticks_lem s ticks cache s.last_counters name prev ok h rising in
    let same : s ≡ sampled s cache s.last_counters = λ i. record s { static_cache = c i } in
    (
      sampled s out last',
      subst (λ t. detect_ticks ticks t ≡ some (sampled s out last')) (sym same) e,
      f.known,
      simp c (omega (arith, f.tx_follows)),
      simp c (omega (arith, f.rx_follows)),
    )
