-- ===== src/Netstatic/Sums.antt =====
-- monitoring/netstatic/static.go: the wrapping sums of the loops, against plain sums, and what
-- `GetTotalTraffic` returns.
use mango_agent.Base.{
  ℕ, ◌+◌, ◌%◌, ◌<◌, Bool-cases, none, some, List, [], ◌∷◌, ◌++◌, Text, Dict, lookup, get_or,
  lookup-insert, text_eq, text_eq_iff, if◌then◌else◌, u64, add64, ◌≡◌, refl, inl, inr, arith,
}
use mango_agent.Netstatic.Data.{Floats, TrafficData, Counters, GoMap, entries, History, State}
use mango_agent.Netstatic.Ops.{made, ensure_init_locked, sum_records, zero_counters}
use mango_agent.Netstatic.Query.{add_total, total_entries, get_total_traffic}

-- The sum of one field over the records of a list, with no wrapping.
abbrev pub sum_of : (TrafficData → ℕ) → List TrafficData → ℕ
sum_of f [] = 0
sum_of f (td ∷ arr) = f td + sum_of f arr

-- The sum over every entry of a map with the given key.
abbrev pub sum_for : (TrafficData → ℕ) → Text → History → ℕ
sum_for f name [] = 0
sum_for f name ((k, arr) ∷ m) = (if text_eq k name then sum_of f arr else 0) + sum_for f name m

pub sum_of-append :
    (f : TrafficData → ℕ) (xs ys : List TrafficData)
    → sum_of f (xs ++ ys) ≡ sum_of f xs + sum_of f ys
sum_of-append f [] ys = omega arith
sum_of-append f (x ∷ xs) ys = omega (arith, sum_of-append f xs ys)

pub sum_records_lem :
    (arr : List TrafficData) (acc : Counters)
    → acc.tx < u64
    → acc.rx < u64
    → sum_records acc arr ≡ record {
      tx = (acc.tx + sum_of (λ td. td.tx) arr) % u64;
      rx = (acc.rx + sum_of (λ td. td.rx) arr) % u64;
    }
unfolding sum_records
sum_records_lem [] acc h k = ground arith
sum_records_lem (td ∷ arr) acc h k = ground (
  arith,
  sum_records_lem arr (record { tx = add64 acc.tx td.tx; rx = add64 acc.rx td.rx }) (omega arith)
      (omega arith),
)

pub sum_records_zero :
    (arr : List TrafficData)
    → sum_records zero_counters arr
      ≡ record { tx = sum_of (λ td. td.tx) arr % u64; rx = sum_of (λ td. td.rx) arr % u64 }
sum_records_zero arr = ground (arith, sum_records_lem arr zero_counters (omega arith) (omega arith))

-- The entry of a result of `GetTotalTraffic`; a missing key reads as zero.
abbrev pub total_at : Text → Dict TrafficData → TrafficData
total_at name res = get_or (record { timestamp = 0; tx = 0; rx = 0 }) (lookup name res)

abbrev pub IsWord : TrafficData → Type 0
IsWord td = (td.tx < u64) × (td.rx < u64)

pub total_at-add_total :
    (res : Dict TrafficData) (k name : Text) (c : Counters)
    → total_at name (add_total res k c) ≡ (
        if text_eq k name
        then record {
          timestamp = (total_at name res).timestamp;
          tx = add64 (total_at name res).tx c.tx;
          rx = add64 (total_at name res).rx c.rx;
        }
        else total_at name res)
unfolding add_total
total_at-add_total res k name c = ground (
  arith,
  lookup-insert k name
      (record (total_at k res) {
        tx = add64 (total_at k res).tx c.tx;
        rx = add64 (total_at k res).rx c.rx;
      })
      res,
  text_eq_iff k name,
)

-- One round of the loop over a map, in plain sums.
pub add_total_step :
    (res : Dict TrafficData) (k name : Text) (arr : List TrafficData)
    → IsWord (total_at name res)
    → IsWord (total_at name (add_total res k (sum_records zero_counters arr)))
      × ((total_at name (add_total res k (sum_records zero_counters arr))).tx
          ≡ ((total_at name res).tx + (if text_eq k name then sum_of (λ td. td.tx) arr else 0))
            % u64)
      × ((total_at name (add_total res k (sum_records zero_counters arr))).rx
          ≡ ((total_at name res).rx + (if text_eq k name then sum_of (λ td. td.rx) arr else 0))
            % u64)
add_total_step res k name arr h = elim (Bool-cases (text_eq k name)) [
  | inl e ↦
      rw (total_at-add_total, sum_records_zero, e)
        ((omega arith, omega arith), omega arith, omega arith)
  | inr e ↦ rw (total_at-add_total, e) (h, omega arith, omega arith)
]

pub total_entries_lem :
    (m : History) (res : Dict TrafficData) (name : Text)
    → IsWord (total_at name res)
    → ((total_at name (total_entries res m)).tx
        ≡ ((total_at name res).tx + sum_for (λ td. td.tx) name m) % u64)
      × ((total_at name (total_entries res m)).rx
          ≡ ((total_at name res).rx + sum_for (λ td. td.rx) name m) % u64)
unfolding total_entries
total_entries_lem [] res name h = (omega arith, omega arith)
total_entries_lem ((k, arr) ∷ m) res name h =
    let (w, tx, rx) = add_total_step res k name arr h in
    let ih = total_entries_lem m (add_total res k (sum_records zero_counters arr)) name w in
    (omega (arith, ih.0, tx), omega (arith, ih.1, rx))

pub entries-made : {V : Type 0} (m : GoMap V) → entries (made m) ≡ entries m
entries-made none = refl
entries-made (some m) = refl

-- The two loops of `GetTotalTraffic`, one after the other.
total_entries_twice :
    (store cache : History) (name : Text)
    → ((total_at name (total_entries (total_entries [] store) cache)).tx
        ≡ (sum_for (λ td. td.tx) name store + sum_for (λ td. td.tx) name cache) % u64)
      × ((total_at name (total_entries (total_entries [] store) cache)).rx
          ≡ (sum_for (λ td. td.rx) name store + sum_for (λ td. td.rx) name cache) % u64)
unfolding lookup
total_entries_twice store cache name =
    let first = total_entries_lem store [] name (omega arith, omega arith) in
    let second =
      total_entries_lem cache (total_entries [] store) name
        (omega (arith, first.0), omega (arith, first.1)) in
    (omega (arith, first.0, second.0), omega (arith, first.1, second.1))

-- The bytes that the records of an interface sum up to, stored and cached, with no wrapping.
abbrev pub recorded : {F : Type 0} → (TrafficData → ℕ) → Text → State F → ℕ
recorded f name s =
    sum_for f name (entries s.store.interfaces) + sum_for f name (entries s.static_cache)

module _ (fl : Floats) where
  open fl use {F}

  abbrev pub total_of : Text → State F → TrafficData
  total_of name s = total_at name (get_total_traffic fl s).1

  -- `GetTotalTraffic` reports for each interface the sum of its records in the store and in the
  -- cache, as 64-bit words; an interface with no record reads as zero.
  pub get_total_traffic_lem :
      (s : State F) (name : Text)
      → ((total_of name s).tx ≡ recorded (λ td. td.tx) name s % u64)
        × ((total_of name s).rx ≡ recorded (λ td. td.rx) name s % u64)
  unfolding get_total_traffic ensure_init_locked
  get_total_traffic_lem s name =
      simp entries-made
        (total_entries_twice (entries s.store.interfaces) (entries s.static_cache) name)
