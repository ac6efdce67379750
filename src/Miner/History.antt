-- ===== src/Miner/History.antt =====
-- monitoring/unit/miner.go: what the collector's polls leave for a report.
use mango_agent.Base.{
  ℕ, ◌+◌, ◌||◌, none, some, List, [], ◌∷◌, ◌++◌, length, if◌then◌else◌, ltb, All, ◌≡◌, refl, ap,
  ◌∙◌, arith,
}
use mango_agent.Miner.Snapshot.{
  Snapshot, Poll, collect_miner_once, collect_all, miner, miner_stale_after, miner_max_fails,
}

module _ {S : Type 0} where
  -- Polls that all failed.
  abbrev pub AllFailed : List (Poll S) → Type 0
  AllFailed ps = All (λ p. p.1 ≡ none) ps

  collect_all-append :
      (ps qs : List (Poll S)) (s : Snapshot S)
      → collect_all (ps ++ qs) s ≡ collect_all qs (collect_all ps s)
  unfolding collect_all
  collect_all-append [] qs s = refl
  collect_all-append (p ∷ ps) qs s = collect_all-append ps qs (collect_miner_once p s)

  failures_lem :
      (ps : List (Poll S)) (s : Snapshot S)
      → AllFailed ps
      → collect_all ps s ≡ record { last = s.last; fails = s.fails + length ps }
  unfolding collect_all collect_miner_once
  failures_lem [] s h = ap (λ n. record { last = s.last; fails = n }) (omega arith)
  failures_lem ((now, some stat) ∷ ps) s h = cc
  failures_lem ((now, none) ∷ ps) s h =
      failures_lem ps (record { last = s.last; fails = s.fails + 1 }) h.1
      ∙ ap (λ n. record { last = s.last; fails = n }) (omega arith)

  success :
      (failures : List (Poll S)) (stat : S) (at : ℕ) (s : Snapshot S)
      → AllFailed failures
      → collect_all ((at, some stat) ∷ failures) s
        ≡ record { last = some (stat, at); fails = length failures }
  unfolding collect_all collect_miner_once
  success failures stat at s h =
      failures_lem failures (record { last = some (stat, at); fails = 0 }) h
      ∙ ap (λ n. record { last = some (stat, at); fails = n }) (omega arith)

  -- Whatever came before, after a poll that fetched `stat` at `at` and then only polls that failed,
  -- a report has `stat` up to a minute after `at` if at most five polls failed, and no miner
  -- otherwise; and it has none if no poll ever succeeded.
  pub miner-collect_all :
      (before failures : List (Poll S)) (stat : S) (at now : ℕ) (s : Snapshot S)
      → AllFailed failures
      → (miner now (collect_all (before ++ (at, some stat) ∷ failures) s) ≡ (
          if ltb (at + miner_stale_after) now || ltb miner_max_fails (length failures)
          then none
          else some stat))
        × (s.last ≡ none → miner now (collect_all failures s) ≡ none)
  unfolding miner
  miner-collect_all before failures stat at now s h = (
    rw
        (
          collect_all-append before ((at, some stat) ∷ failures) s,
          success failures stat at (collect_all before s) h,
        )
        refl,
    λ e. rw (failures_lem failures s h, e) refl,
  )
