-- ===== src/Server/Recovery.antt =====
-- server/websocket.go: how a lost connection comes back, and how often a report is written.
use mango_agent.Base.{
  ℕ, zero, suc, ◌+◌, ◌≤◌, ◌<◌, Bool, true, false, Bool-cases, none, some, ltb, ◌==◌, ==_iff, ◌≡◌,
  refl, ap, sym, ◌∙◌, inl, inr, arith,
}
use mango_agent.Server.Loop.{
  Link, LoopFlags, retry_dial, run_post_fallback, connect, report_tick, data_tick,
}

-- The dial `i` is the first to succeed of those from `start` on.
record IsFirst (dial : ℕ → Bool) (start i : ℕ) : Type 0 where
  later : start ≤ i
  succeeds : dial i ≡ true
  others : (j : ℕ) → start ≤ j → j < i → dial j ≡ false

module _ (dial : ℕ → Bool) where
  retry_dial-finds :
      (left start i : ℕ)
      → IsFirst dial start i
      → i < start + left
      → retry_dial dial left start ≡ some i
  unfolding retry_dial
  retry_dial-finds zero start i f lt = absurd (omega (arith, lt, f.later))
  retry_dial-finds (suc left) start i f lt = elim (Bool-cases (i == start)) [
    | inl same ↦
        let e = (==_iff i start).0 same in
        let d : dial start ≡ true = rw⁻¹ e f.succeeds in simp d (ap some (sym e))
    | inr other ↦
        let d = f.others start (omega arith) (ground (arith, other, f.later)) in
        simp d (
          retry_dial-finds left (start + 1) i
            (record {
              later = ground (arith, other, f.later);
              succeeds = f.succeeds;
              others = λ j lo hi. f.others j (omega (arith, lo)) hi;
            })
            (omega (arith, lt)))
  ]

  retry_dial-none :
      (left start : ℕ)
      → ((j : ℕ) → start ≤ j → j < start + left → dial j ≡ false)
      → retry_dial dial left start ≡ none
  unfolding retry_dial
  retry_dial-none zero start h = refl
  retry_dial-none (suc left) start h =
      simp (h start (omega arith) (omega arith))
        (retry_dial-none left (start + 1) (λ j lo hi. h j (omega (arith, lo)) (omega (arith, hi))))

  fallback-retry : (n start : ℕ) → run_post_fallback dial n start ≡ retry_dial dial n start
  unfolding run_post_fallback retry_dial
  fallback-retry zero start = refl
  fallback-retry (suc n) start = rw (fallback-retry n (start + 1)) refl

  connect-finds :
      (flags : LoopFlags) (fuel i : ℕ)
      → IsFirst dial 0 i
      → i < flags.attempts + fuel
      → connect flags dial fuel ≡ some i
  unfolding connect
  connect-finds flags fuel i f lt = elim (Bool-cases (ltb i flags.attempts)) [
    | inl retried ↦ simp (retry_dial-finds flags.attempts 0 i f (ground (arith, retried)))
    | inr posted ↦
        let all : (j : ℕ) → 0 ≤ j → j < 0 + flags.attempts → dial j ≡ false =
          λ j lo hi. f.others j lo (ground (arith, posted, hi)) in
        simp (retry_dial-none flags.attempts 0 all) (
          fallback-retry fuel flags.attempts
          ∙ retry_dial-finds fuel flags.attempts i
              (record {
                later = ground (arith, posted);
                succeeds = f.succeeds;
                others = λ j lo hi. f.others j (omega arith) hi;
              })
              lt)
  ]

  IsFirst-start : (start : ℕ) → dial start ≡ true → IsFirst dial start start
  IsFirst-start start h = record {
    later = omega arith;
    succeeds = h;
    others = λ j lo hi. absurd (omega (arith, lo, hi));
  }

  IsFirst-next :
      (start i : ℕ) → dial start ≡ false → IsFirst dial (start + 1) i → IsFirst dial start i
  IsFirst-next start i missed f = record {
    later = omega (arith, f.later);
    succeeds = f.succeeds;
    others = λ j lo hi. elim (Bool-cases (j == start)) [
      | inl same ↦ let k = (==_iff j start).0 same in rw k missed
      | inr other ↦ f.others j (ground (arith, other, lo)) hi
    ];
  }

  IsFirst-success :
      (n start k : ℕ) → k ≡ start + n → dial k ≡ true → (i : ℕ) × (i ≤ k) × IsFirst dial start i
  IsFirst-success zero start k e h =
      let e' : k ≡ start = omega (arith, e) in
      (start, omega (arith, e), IsFirst-start start (rw⁻¹ e' h))
  IsFirst-success (suc n) start k e h = elim (Bool-cases (dial start)) [
    | inl here ↦ (start, omega (arith, e), IsFirst-start start here)
    | inr missed ↦
        let (i, le, f) = IsFirst-success n (start + 1) k (omega (arith, e)) h in
        (i, le, IsFirst-next start i missed f)
  ]

  -- The dials come to an end once one succeeds.
  pub connect_total :
      (flags : LoopFlags) (fuel k : ℕ)
      → dial k ≡ true
      → k < flags.attempts + fuel
      → (i : ℕ) × (connect flags dial fuel ≡ some i)
  connect_total flags fuel k reached lt =
      let (i, le, f) = IsFirst-success k 0 k (omega arith) reached in
      (i, connect-finds flags fuel i f (omega (arith, le, lt)))

  report_tick-up :
      (flags : LoopFlags) (now begin : ℕ) (l : Link)
      → l.conn ≡ true
      → l.reading ≡ true
      → ((report_tick flags now begin true l).0.conn ≡ true)
        × ((report_tick flags now begin true l).0.reading ≡ true)
  unfolding report_tick
  report_tick-up flags now begin l c r = elim (Bool-cases (ltb now l.next_report_at)) [
    | inl early ↦ rw early (c, r)
    | inr due ↦ rw due (c, r)
  ]

  -- When some dial `k` of a data tick succeeds, with no more ticks of the fallback needed than
  -- `fuel`, the tick comes to an end, and an agent that was without a connection has one after it,
  -- with a reader, if writing a report that is then due succeeds.
  pub data_tick-recovers :
      (flags : LoopFlags) (fuel k now begin : ℕ) (l : Link)
      → l.conn ≡ false
      → dial k ≡ true
      → k < flags.attempts + fuel
      → (l' : Link) × (sent : Bool) × (data_tick flags dial fuel now begin true l ≡ some (l', sent))
        × (l'.conn ≡ true)
        × (l'.reading ≡ true)
  unfolding data_tick
  data_tick-recovers flags fuel k now begin l lost reached lt =
      let (i, le, f) = IsFirst-success k 0 k (omega arith) reached in
      let found = connect-finds flags fuel i f (omega (arith, le, lt)) in
      let l1 : Link = record l { conn = true; reading = true } in
      let (c, r) = report_tick-up flags now begin l1 refl refl in
      let out = report_tick flags now begin true l1 in (out.0, out.1, simp (lost, found), c, r)
