-- ===== src/Netstatic/Between.antt =====
-- monitoring/netstatic/static.go: the two reports over a time range, side by side.
use mango_agent.Base.{
  ℕ, ◌+◌, ◌%◌, Bool, false, Bool-cases, none, List, [], ◌∷◌, ◌++◌, Text, Dict, lookup, insert,
  lookup-insert, get_or, text_eq, if◌then◌else◌, u64, ◌≡◌, refl, inl, inr, arith, keep_if, All,
}
use mango_agent.Netstatic.Data.{Floats, TrafficData, entries, History, State}
use mango_agent.Netstatic.Ops.{sum_records, zero_counters, nonzero, ensure_init_locked}
use mango_agent.Netstatic.Query.{
  in_range, add_total, total_in_range, set_nonempty, filter_entries, append_in_range,
  merge_in_range, get_net_static_between, get_total_traffic_between,
}
use mango_agent.Netstatic.Sums.{
  sum_of, sum_for, sum_records_zero, total_at, IsWord, add_total_step, entries-made,
}
use mango_agent.Netstatic.Flush.{sum_for-append}

-- The records of an interface that lie in a range, summed up.
abbrev pub sum_inside : (TrafficData → ℕ) → (ℕ → Bool) → Text → History → ℕ
sum_inside f inside name [] = 0
sum_inside f inside name ((k, arr) ∷ m) =
    (if text_eq k name then sum_of f (keep_if (λ td. inside td.timestamp) arr) else 0)
    + sum_inside f inside name m

module _ (inside : ℕ → Bool) where
  abbrev kept : List TrafficData → List TrafficData
  kept arr = keep_if (λ td. inside td.timestamp) arr

  -- One round of the loops of `GetTotalTrafficBetween`, where a zero sum is not added.
  total_round :
      (res : Dict TrafficData) (k name : Text) (arr : List TrafficData)
      → IsWord (total_at name res)
      → let out =
          (if nonzero (sum_records zero_counters arr)
            then add_total res k (sum_records zero_counters arr)
            else res) in
        IsWord (total_at name out)
        × ((total_at name out).tx
            ≡ ((total_at name res).tx + (if text_eq k name then sum_of (λ td. td.tx) arr else 0))
              % u64)
        × ((total_at name out).rx
            ≡ ((total_at name res).rx + (if text_eq k name then sum_of (λ td. td.rx) arr else 0))
              % u64)
  total_round res k name arr h = elim (Bool-cases (nonzero (sum_records zero_counters arr))) [
    | inl some_bytes ↦ rw some_bytes (add_total_step res k name arr h)
    | inr no_bytes ↦
        rw no_bytes (h, ground (arith, sum_records_zero arr), ground (arith, sum_records_zero arr))
  ]

  total_in_range_lem :
      (m : History) (res : Dict TrafficData) (name : Text)
      → IsWord (total_at name res)
      → ((total_at name (total_in_range inside res m)).tx
          ≡ ((total_at name res).tx + sum_inside (λ td. td.tx) inside name m) % u64)
        × ((total_at name (total_in_range inside res m)).rx
            ≡ ((total_at name res).rx + sum_inside (λ td. td.rx) inside name m) % u64)
  unfolding total_in_range
  total_in_range_lem [] res name h = (omega arith, omega arith)
  total_in_range_lem ((k, arr) ∷ m) res name h =
      let (w, tx, rx) = total_round res k name (kept arr) h in
      let ih = total_in_range_lem m _ name w in (omega (arith, ih.0, tx), omega (arith, ih.1, rx))

  append_in_range_lem :
      (f : TrafficData → ℕ) (k name : Text) (arr : List TrafficData) (res : History)
      → sum_for f name (append_in_range inside k res arr)
        ≡ sum_for f name res + (if text_eq k name then sum_of f (kept arr) else 0)
  unfolding append_in_range
  append_in_range_lem f k name [] res = ground arith
  append_in_range_lem f k name (td ∷ arr) res = ground (
    arith,
    sum_for-append f k name td res,
    append_in_range_lem f k name arr res,
    append_in_range_lem f k name arr (insert k (get_or [] (lookup k res) ++ td ∷ []) res),
  )

  merge_in_range_lem :
      (f : TrafficData → ℕ) (name : Text) (m res : History)
      → sum_for f name (merge_in_range inside res m)
        ≡ sum_for f name res + sum_inside f inside name m
  unfolding merge_in_range
  merge_in_range_lem f name [] res = omega arith
  merge_in_range_lem f name ((k, arr) ∷ m) res = omega (
    arith,
    append_in_range_lem f k name arr res,
    merge_in_range_lem f name m (append_in_range inside k res arr),
  )

-- A Go map has each key once.
abbrev pub Distinct : History → Type 0
Distinct [] = Unit
Distinct ((k, arr) ∷ m) = All (λ e. text_eq k e.0 ≡ false) m × Distinct m

-- None of the entries' keys is in `res` yet.
abbrev Fresh : History → History → Type 0
Fresh res m = All (λ e. lookup e.0 res ≡ none) m

sum_for-insert_fresh :
    (f : TrafficData → ℕ) (k name : Text) (arr : List TrafficData) (m : History)
    → lookup k m ≡ none
    → sum_for f name (insert k arr m)
      ≡ sum_for f name m + (if text_eq k name then sum_of f arr else 0)
unfolding lookup insert
sum_for-insert_fresh f k name arr [] h = omega arith
sum_for-insert_fresh f k name arr ((j, v) ∷ m) h =
    ground (arith, sum_for-insert_fresh f k name arr m)

Fresh-insert :
    (k : Text) (arr : List TrafficData) (res m : History)
    → All (λ e. text_eq k e.0 ≡ false) m
    → Fresh res m
    → Fresh (insert k arr res) m
Fresh-insert k arr res [] d h = tt
Fresh-insert k arr res ((j, v) ∷ m) d h =
    (ground (arith, lookup-insert k j arr res), Fresh-insert k arr res m d.1 h.1)

Fresh-set :
    (k : Text) (arr : List TrafficData) (res m : History)
    → All (λ e. text_eq k e.0 ≡ false) m
    → Fresh res m
    → Fresh (set_nonempty k arr res) m
Fresh-set k [] res m d h = h
Fresh-set k (td ∷ arr) res m d h = Fresh-insert k (td ∷ arr) res m d h

sum_for-set :
    (f : TrafficData → ℕ) (k name : Text) (arr : List TrafficData) (m : History)
    → lookup k m ≡ none
    → sum_for f name (set_nonempty k arr m)
      ≡ sum_for f name m + (if text_eq k name then sum_of f arr else 0)
sum_for-set f k name [] m h = ground arith
sum_for-set f k name (td ∷ arr) m h = sum_for-insert_fresh f k name (td ∷ arr) m h

filter_entries_lem :
    (inside : ℕ → Bool) (f : TrafficData → ℕ) (name : Text) (m res : History)
    → Distinct m
    → Fresh res m
    → sum_for f name (filter_entries inside res m) ≡ sum_for f name res + sum_inside f inside name m
unfolding filter_entries
filter_entries_lem inside f name [] res d h = omega arith
filter_entries_lem inside f name ((k, arr) ∷ m) res d h = omega (
  arith,
  sum_for-set f k name (kept inside arr) res h.0,
  filter_entries_lem inside f name m (set_nonempty k (kept inside arr) res) d.1
      (Fresh-set k (kept inside arr) res m d.0 h.1),
)

Fresh-nil : (m : History) → Fresh [] m
unfolding lookup
Fresh-nil [] = tt
Fresh-nil (e ∷ m) = (refl, Fresh-nil m)

total_in_range_twice :
    (inside : ℕ → Bool) (store cache : History) (name : Text)
    → ((total_at name (total_in_range inside (total_in_range inside [] store) cache)).tx
        ≡ (sum_inside (λ td. td.tx) inside name store + sum_inside (λ td. td.tx) inside name cache)
          % u64)
      × ((total_at name (total_in_range inside (total_in_range inside [] store) cache)).rx
          ≡ (sum_inside (λ td. td.rx) inside name store
              + sum_inside (λ td. td.rx) inside name cache)
            % u64)
unfolding lookup
total_in_range_twice inside store cache name =
    let first = total_in_range_lem inside store [] name (omega arith, omega arith) in
    let second =
      total_in_range_lem inside cache (total_in_range inside [] store) name
        (omega (arith, first.0), omega (arith, first.1)) in
    (omega (arith, first.0, second.0), omega (arith, first.1, second.1))

module _ (fl : Floats) where
  open fl use {F}

  -- For every time range and interface, `GetTotalTrafficBetween` reports the 64-bit sums of
  -- exactly the records that `GetNetStaticBetween` returns for the same range, provided that the
  -- store has each interface once.
  pub total_between-records_between :
      (start end : ℕ) (s : State F) (name : Text)
      → Distinct (entries s.store.interfaces)
      → ((total_at name (get_total_traffic_between fl start end s).1).tx
          ≡ sum_for
              (λ td. td.tx)
              name
              (entries (get_net_static_between fl start end s).1.interfaces)
            % u64)
        × ((total_at name (get_total_traffic_between fl start end s).1).rx
            ≡ sum_for
                (λ td. td.rx)
                name
                (entries (get_net_static_between fl start end s).1.interfaces)
              % u64)
  unfolding get_total_traffic_between get_net_static_between ensure_init_locked
  total_between-records_between start end s name d =
      let inside = in_range start end in
      let store = entries s.store.interfaces in
      let cache = entries s.static_cache in
      let totals = total_in_range_twice inside store cache name in
      let merge = λ (f : TrafficData → ℕ).
        merge_in_range_lem inside f name cache (filter_entries inside [] store) in
      let filtered =
        λ (f : TrafficData → ℕ). filter_entries_lem inside f name store [] d (Fresh-nil store) in
      simp entries-made (
        omega (arith, totals.0, merge (λ td. td.tx), filtered (λ td. td.tx)),
        omega (arith, totals.1, merge (λ td. td.rx), filtered (λ td. td.rx)),
      )
