-- ===== src/Server/Spacing.antt =====
-- server/websocket.go: what every round of the connection loop keeps.
use mango_agent.Base.{
  ℕ, ◌+◌, ◌≤◌, ◌<◌, Bool, true, false, ◌&&◌, Bool-cases, Option, none, some, if◌then◌else◌, List,
  [], ◌∷◌, ◌++◌, ltb, ◌≡◌, refl, inl, inr, arith, All,
}
use mango_agent.Server.Recovery.{connect_total}
use mango_agent.Server.Loop.{
  Link, LoopFlags, LoopEvent, data_event, heartbeat_event, read_done, connect, report_tick,
  connected, data_tick, heartbeat, with_report, loop_round, loop_rounds,
}

-- The first of the times is at least `from`, and each is `gap` or more after the one before it.
abbrev pub Spaced : ℕ → ℕ → List ℕ → Type 0
Spaced gap from [] = Unit
Spaced gap from (t ∷ ts) = from ≤ t × Spaced gap (t + gap) ts

Spaced-weaken : (gap a b : ℕ) (ts : List ℕ) → a ≤ b → Spaced gap b ts → Spaced gap a ts
Spaced-weaken gap a b [] le s = tt
Spaced-weaken gap a b (t ∷ ts) le s = (omega (arith, le, s.0), s.1)

-- A reader runs exactly while there is a connection, and the next report is not due before `from`.
record Kept (flags : LoopFlags) (from : ℕ) (l : Link) : Type 0 where
  reading : l.reading ≡ l.conn
  due : from ≤ l.next_report_at

-- What a step did: it kept the link, and wrote reports at `times`.
record Did (flags : LoopFlags) (from : ℕ) (r : Link × List ℕ) : Type 0 where
  next : ℕ
  kept : Kept flags next r.0
  times :
      (ts : List ℕ)
      → Spaced flags.report_interval next ts
      → Spaced flags.report_interval from (r.1 ++ ts)

module _ (flags : LoopFlags) where
  -- In a data tick the clock does not go back, and some dial succeeds, with no more ticks of the
  -- fallback needed than `fuel`.
  abbrev pub Goes : ℕ → LoopEvent → Type 0
  Goes fuel (data_event dial now begin written) =
      (now ≤ begin) × ((k : ℕ) × (dial k ≡ true) × (k < flags.attempts + fuel))
  Goes fuel (heartbeat_event written) = Unit
  Goes fuel read_done = Unit

  quiet : (from : ℕ) (l : Link) → Kept flags from l → Did flags from (l, [])
  quiet from l k = record { next = from; kept = k; times = λ ts s. s }

  quiet_some :
      (from : ℕ) (l : Link) (r : Link × List ℕ)
      → Kept flags from l
      → ◌≡◌ {A = Option (Link × List ℕ)} (some (l, [])) (some r)
      → Did flags from r
  quiet_some from l r k h = let e : (l, []) ≡ r = cc in rw⁻¹ e (quiet from l k)

  report-Did :
      (from now begin : ℕ) (written : Bool) (l : Link) (r : Link × List ℕ)
      → now ≤ begin
      → Kept flags from l
      → with_report begin (some (report_tick flags now begin written l)) ≡ some r
      → Did flags from r
  unfolding report_tick
  report-Did from now begin written l r clock k h = elim (Bool-cases (ltb now l.next_report_at)) [
    | inl early ↦ quiet_some from l r k (simp early at h)
    | inr due ↦ elim (Bool-cases written) [
      | inl sent ↦
          let l' : Link = record l { next_report_at = begin + flags.report_interval } in
          let e0 : ◌≡◌ {A = Option (Link × List ℕ)} (some (l', begin ∷ [])) (some r) =
            simp (due, sent) at h in
          let e : (l', begin ∷ []) ≡ r = cc in
          let le : from ≤ begin = ground (arith, due, k.due, clock) in
          rw⁻¹ e (record {
            next = begin + flags.report_interval;
            kept = record { reading = k.reading; due = omega arith };
            times = λ ts s. (le, s);
          })
      | inr lost ↦
          let le : from ≤ begin + flags.report_interval = ground (arith, due, k.due, clock) in
          quiet_some from _ r (record { reading = refl; due = le }) (simp (due, lost) at h)
    ]
  ]

  connected-Did :
      (from now begin : ℕ) (written : Bool) (l : Link) (o : Option ℕ) (r : Link × List ℕ)
      → now ≤ begin
      → Kept flags from l
      → with_report begin (connected flags now begin written l o) ≡ some r
      → Did flags from r
  connected-Did from now begin written l none r clock k h = cc
  connected-Did from now begin written l (some i) r clock k h =
      report-Did from now begin written (record l { conn = true; reading = true }) r clock
        (record { reading = refl; due = k.due }) h

  round-Did :
      (fuel from : ℕ) (e : LoopEvent) (l : Link) (r : Link × List ℕ)
      → Goes fuel e
      → Kept flags from l
      → loop_round flags fuel e l ≡ some r
      → Did flags from r
  unfolding loop_round data_tick heartbeat
  round-Did fuel from (data_event dial now begin written) l r goes k h = elim (Bool-cases l.conn) [
    | inl up ↦ report-Did from now begin written l r goes.0 k (simp up at h)
    | inr down ↦
        connected-Did from now begin written l (connect flags dial fuel) r goes.0 k (simp down at h)
  ]
  round-Did fuel from (heartbeat_event written) l r goes k h =
      elim (Bool-cases (l.conn && (if written then false else true))) [
        | inl lost ↦ quiet_some from _ r (record { reading = refl; due = k.due }) (simp lost at h)
        | inr fine ↦ quiet_some from l r k (simp fine at h)
      ]
  round-Did fuel from read_done l r goes k h = elim (Bool-cases l.reading) [
    | inl was ↦ quiet_some from _ r (record { reading = refl; due = k.due }) (simp was at h)
    | inr idle ↦ quiet_some from l r k (simp idle at h)
  ]

  with_report_total :
      (begin : ℕ) (o : Link × Bool) → (r : Link × List ℕ) × (with_report begin (some o) ≡ some r)
  with_report_total begin (l, true) = ((l, begin ∷ []), refl)
  with_report_total begin (l, false) = ((l, []), refl)

  round_total :
      (fuel : ℕ) (e : LoopEvent) (l : Link)
      → Goes fuel e
      → (r : Link × List ℕ) × (loop_round flags fuel e l ≡ some r)
  unfolding loop_round data_tick
  round_total fuel (data_event dial now begin written) l goes = elim (Bool-cases l.conn) [
    | inl up ↦
        let (r, e) = with_report_total begin (report_tick flags now begin written l) in
        (r, simp up e)
    | inr down ↦
        let (clock, (k, reached, lt)) = goes in
        let (i, found) = connect_total dial flags fuel k reached lt in
        let l' : Link = record l { conn = true; reading = true } in
        let (r, e) = with_report_total begin (report_tick flags now begin written l') in
        (r, simp (down, found) e)
  ]
  round_total fuel (heartbeat_event written) l goes = ((heartbeat written l, []), refl)
  round_total fuel read_done l goes = (_, refl)

  rounds-Did :
      (fuel from : ℕ) (es : List LoopEvent) (l : Link)
      → All (Goes fuel) es
      → Kept flags from l
      → (r : Link × List ℕ) × (loop_rounds flags fuel es l ≡ some r)
        × (r.0.reading ≡ r.0.conn)
        × Spaced flags.report_interval from r.1
  unfolding loop_rounds
  rounds-Did fuel from [] l goes k = ((l, []), refl, k.reading, tt)
  rounds-Did fuel from (e ∷ es) l goes k =
      let ((l', times), went) = round_total fuel e l goes.0 in
      let did = round-Did fuel from e l (l', times) goes.0 k went in
      let ((l2, more), rest, reading, spaced) = rounds-Did fuel did.next es l' goes.1 did.kept in
      ((l2, times ++ more), simp (went, rest), reading, did.times more spaced)

  -- Where in each data tick of some rounds a dial succeeds, with no more ticks of the fallback needed
  -- than `fuel`, and the clock does not go back within it: the rounds come to an end, a reader then
  -- runs exactly while there is a connection, when that holds to begin with, and the reports that are
  -- written are begun at least the report interval apart, none before the first is due.
  pub rounds-Spaced :
      (fuel : ℕ) (es : List LoopEvent) (l : Link)
      → l.reading ≡ l.conn
      → All (Goes fuel) es
      → (r : Link × List ℕ) × (loop_rounds flags fuel es l ≡ some r)
        × (r.0.reading ≡ r.0.conn)
        × Spaced flags.report_interval l.next_report_at r.1
  rounds-Spaced fuel es l reading goes =
      rounds-Did fuel l.next_report_at es l goes (record { reading = reading; due = omega arith })
