-- ===== src/Miner/Snapshot.antt =====
-- monitoring/unit/miner.go: the snapshot that the collector keeps. Times are in nanoseconds.
use mango_agent.Base.{ℕ, ◌+◌, ◌||◌, Option, none, some, List, [], ◌∷◌, if◌then◌else◌, ltb}

-- `minerStaleAfter` and `minerMaxFails`.
abbrev pub miner_stale_after : ℕ
miner_stale_after = 60000000000

abbrev pub miner_max_fails : ℕ
miner_max_fails = 5

-- `lastMinerStat` with `lastMinerFetch`, and `minerFetchFails`.
pub record Snapshot (S : Type 0) : Type 0 where
  pub last : Option (S × ℕ)
  pub fails : ℕ

-- A poll of the collector: the time at its end, and what `fetchMinerStat` gave.
abbrev pub Poll : Type 0 → Type 0
Poll S = ℕ × Option S

module _ {S : Type 0} where
  unfoldable pub collect_miner_once : Poll S → Snapshot S → Snapshot S
  collect_miner_once (now, none) s = record { last = s.last; fails = s.fails + 1 }
  collect_miner_once (now, some stat) s = record { last = some (stat, now); fails = 0 }

  abbrev pub unless_stale : ℕ → ℕ → Option (S × ℕ) → Option S
  unless_stale now fails none = none
  unless_stale now fails (some (stat, at)) =
      if ltb (at + miner_stale_after) now || ltb miner_max_fails fails then none else some stat

  -- `Miner`
  unfoldable pub miner : ℕ → Snapshot S → Option S
  miner now s = unless_stale now s.fails s.last

  -- The polls of `StartMinerCollector`, one after another.
  unfoldable pub collect_all : List (Poll S) → Snapshot S → Snapshot S
  collect_all [] s = s
  collect_all (p ∷ ps) s = collect_all ps (collect_miner_once p s)
