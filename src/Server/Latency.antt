-- ===== src/Server/Latency.antt =====
-- server/task.go: which measurement a ping task reports.
use mango_agent.Base.{
  ℕ, zero, suc, ◌+◌, ◌≤◌, ◌<◌, ℤ, pos, negsuc, Bool, true, false, ◌&&◌, Bool-cases, Option, none,
  some, ◌≡◌, ◌⊎◌, ◌↔◌, refl, ap, inl, inr, arith, ==_iff, ◌==◌,
}
use mango_agent.Server.Ping.{is_high, is_drop, judge, retry, first_judged, find_latency}

-- A latency over 1000 ms, and one that is not.
abbrev pub IsHigh : ℤ → Type 0
IsHigh (pos n) = 1000 < n
IsHigh (negsuc n) = ⊥

abbrev pub IsLow : ℤ → Type 0
IsLow (pos n) = n ≤ 1000
IsLow (negsuc n) = Unit

-- The first is over 800 ms more than the second.
abbrev pub IsDrop : ℤ → ℤ → Type 0
IsDrop (pos a) (pos b) = b + 800 < a
IsDrop (pos a) (negsuc b) = 800 < a + b + 1
IsDrop (negsuc a) (pos b) = ⊥
IsDrop (negsuc a) (negsuc b) = a + 800 < b

abbrev pub IsSteady : Bool → ℤ → ℤ → Type 0
IsSteady tcp first l = tcp ≡ true → ¬ IsDrop first l

is_high-IsHigh : (l : ℤ) → is_high l ≡ true → IsHigh l
is_high-IsHigh (pos n) h = ground (arith, h)
is_high-IsHigh (negsuc n) h = cc

IsHigh-is_high : (l : ℤ) → IsHigh l → is_high l ≡ true
IsHigh-is_high (pos n) h = ground (arith, h)
IsHigh-is_high (negsuc n) h = absurd h

is_high-IsLow : (l : ℤ) → is_high l ≡ false → IsLow l
is_high-IsLow (pos n) h = ground (arith, h)
is_high-IsLow (negsuc n) h = tt

IsLow-is_high : (l : ℤ) → IsLow l → is_high l ≡ false
IsLow-is_high (pos n) h = ground (arith, h)
IsLow-is_high (negsuc n) h = refl

IsDrop-is_drop : (a b : ℤ) → IsDrop a b → is_drop a b ≡ true
IsDrop-is_drop (pos a) (pos b) h = ground (arith, h)
IsDrop-is_drop (pos a) (negsuc b) h = ground (arith, h)
IsDrop-is_drop (negsuc a) (pos b) h = absurd h
IsDrop-is_drop (negsuc a) (negsuc b) h = ground (arith, h)

is_drop-IsDrop : (a b : ℤ) → is_drop a b ≡ true → IsDrop a b
is_drop-IsDrop (pos a) (pos b) h = ground (arith, h)
is_drop-IsDrop (pos a) (negsuc b) h = ground (arith, h)
is_drop-IsDrop (negsuc a) (pos b) h = cc
is_drop-IsDrop (negsuc a) (negsuc b) h = ground (arith, h)

is_drop-IsSteady : (tcp : Bool) (a b : ℤ) → (tcp && is_drop a b) ≡ false → IsSteady tcp a b
is_drop-IsSteady tcp a b h t d = let k = IsDrop-is_drop a b d in ground (arith, h, t, k)

IsSteady-is_drop : (tcp : Bool) (a b : ℤ) → IsSteady tcp a b → (tcp && is_drop a b) ≡ false
IsSteady-is_drop false a b h = refl
IsSteady-is_drop true a b h = elim (Bool-cases (is_drop a b)) [
  | inl drops ↦ absurd (h refl (is_drop-IsDrop a b drops))
  | inr stays ↦ stays
]

-- The measurement `k`, counted from `i`, is the one to report: it is not high, nor suspicious, and
-- those before it succeeded and were high.
pub record IsReported (tcp : Bool) (first : ℤ) (measured : ℕ → Option ℤ) (i k : ℕ) (l : ℤ)
    : Type 0 where
  pub measured_as : measured k ≡ some l
  pub low : IsLow l
  pub steady : IsSteady tcp first l
  pub before : (j : ℕ) → i ≤ j → j < k → (h : ℤ) × (measured j ≡ some h) × IsHigh h

module _ (tcp : Bool) (first : ℤ) (measured : ℕ → Option ℤ) where
  later :
      (i k : ℕ) (second l : ℤ)
      → measured i ≡ some second
      → IsHigh second
      → IsReported tcp first measured (i + 1) k l
      → IsReported tcp first measured i k l
  later i k second l m h r = record {
    measured_as = r.measured_as;
    low = r.low;
    steady = r.steady;
    before = λ j lo hi. elim (Bool-cases (j == i)) [
      | inl same ↦ let e = (==_iff j i).0 same in rw e (second, m, h)
      | inr other ↦ r.before j (ground (arith, other, lo)) hi
    ];
  }

  judged :
      (rest m : Option ℤ) (l : ℤ)
      → judge tcp first rest m ≡ some l
      → ((second : ℤ) × (m ≡ some second) × (is_high second ≡ true) × (rest ≡ some l))
        ⊎ ((m ≡ some l) × (is_high l ≡ false) × ((tcp && is_drop first l) ≡ false))
  judged rest none l h = cc
  judged rest (some second) l h = elim (Bool-cases (is_high second)) [
    | inl high ↦ inl (second, refl, high, simp high at h)
    | inr low ↦ elim (Bool-cases (tcp && is_drop first second)) [
      | inl drops ↦ cc (simp (low, drops) at h)
      | inr stays ↦
          let e : some second ≡ some l = simp (low, stays) at h in
          let e' : second ≡ l = cc in inr (e, rw⁻¹ e' low, rw⁻¹ e' stays)
    ]
  ]

  here :
      (left i : ℕ) (l : ℤ)
      → (measured i ≡ some l) × (is_high l ≡ false) × ((tcp && is_drop first l) ≡ false)
      → (k : ℕ) × (i ≤ k) × (k ≤ i + left) × IsReported tcp first measured i k l
  here left i l r = (
    i,
    omega arith,
    omega arith,
    record {
      measured_as = r.0;
      low = is_high-IsLow l r.1;
      steady = is_drop-IsSteady tcp first l r.2;
      before = λ j lo hi. absurd (omega (arith, lo, hi));
    },
  )

  -- What the loop finds is such a measurement.
  retry_sound :
      (left i : ℕ) (l : ℤ)
      → retry tcp first measured left i ≡ some l
      → (k : ℕ) × (i ≤ k) × (k ≤ i + left) × IsReported tcp first measured i k l
  unfolding retry
  retry_sound zero i l h = elim (judged none (measured i) l h) [
    | inl (second, e, high, n) ↦ cc
    | inr r ↦ here 0 i l r
  ]
  retry_sound (suc left) i l h = elim (judged _ (measured i) l h) [
    | inl (second, e, high, n) ↦
        let (k, lo, hi, r) = retry_sound left (i + 1) l n in
        (
          k,
          omega (arith, lo),
          omega (arith, hi),
          later i k second l e (is_high-IsHigh second high) r,
        )
    | inr r ↦ here (suc left) i l r
  ]

  at_once :
      (left i : ℕ) (l : ℤ)
      → IsReported tcp first measured i i l
      → retry tcp first measured left i ≡ some l
  unfolding retry
  at_once zero i l r =
      simp (r.measured_as, IsLow-is_high l r.low, IsSteady-is_drop tcp first l r.steady)
  at_once (suc left) i l r =
      simp (r.measured_as, IsLow-is_high l r.low, IsSteady-is_drop tcp first l r.steady)

  -- A measurement to report is found when there are retries enough to get there.
  retry_complete :
      (left i k : ℕ) (l : ℤ)
      → i ≤ k
      → k ≤ i + left
      → IsReported tcp first measured i k l
      → retry tcp first measured left i ≡ some l
  unfolding retry
  retry_complete zero i k l lo hi r =
      let e : k ≡ i = omega (arith, lo, hi) in at_once zero i l (simp e at r)
  retry_complete (suc left) i k l lo hi r = elim (Bool-cases (k == i)) [
    | inl same ↦ let e = (==_iff k i).0 same in at_once (suc left) i l (simp e at r)
    | inr other ↦
        let (h, m, high) = r.before i (omega arith) (ground (arith, other, lo)) in
        simp (m, IsHigh-is_high h high)
          (retry_complete left (i + 1) k l (ground (arith, other, lo)) (omega (arith, hi)) (record {
            measured_as = r.measured_as;
            low = r.low;
            steady = r.steady;
            before = λ j lo' hi'. r.before j (omega (arith, lo')) hi';
          }))
  ]

  pub retry_iff :
      (l : ℤ)
      → (retry tcp first measured 2 1 ≡ some l)
        ↔ ((k : ℕ) × (1 ≤ k) × (k ≤ 3) × IsReported tcp first measured 1 k l)
  retry_iff l = (retry_sound 2 1 l, λ (k, lo, hi, r). retry_complete 2 1 k l lo hi r)

module _ (tcp : Bool) (measured : ℕ → Option ℤ) (l : ℤ) where
  abbrev pub FirstOrRetry : ℤ → Type 0
  FirstOrRetry first =
      (IsLow first × (first ≡ l))
      ⊎ (IsHigh first × ((k : ℕ) × (1 ≤ k) × (k ≤ 3) × IsReported tcp first measured 1 k l))

  found :
      (first : ℤ) (b : Bool)
      → is_high first ≡ b
      → first_judged tcp measured (some first) ≡ some l
      → FirstOrRetry first
  found first true e h =
      inr (is_high-IsHigh first e, (retry_iff tcp first measured l).0 (simp e at h))
  found first false e h =
      let k : some first ≡ some l = simp e at h in inl (is_high-IsLow first e, cc)

  reported : (first : ℤ) → FirstOrRetry first → first_judged tcp measured (some first) ≡ some l
  reported first (inl (e, k)) = simp (IsLow-is_high first e) (ap some k)
  reported first (inr (e, k)) = simp (IsHigh-is_high first e) ((retry_iff tcp first measured l).1 k)

  first_found :
      (m : Option ℤ)
      → first_judged tcp measured m ≡ some l
      → (first : ℤ) × (m ≡ some first) × FirstOrRetry first
  first_found none h = cc
  first_found (some first) h = (first, refl, found first (is_high first) refl h)

  -- A ping task finds a latency exactly if the first measurement succeeded and either is not high,
  -- and the latency then, or is high (over 1000 ms), and the latency is the first of the next three
  -- that is not high, all before it succeeded, and, for TCP, it is not over 800 ms less than the
  -- first.
  pub find_latency_iff :
      (find_latency tcp measured ≡ some l)
      ↔ ((first : ℤ) × (measured 0 ≡ some first) × FirstOrRetry first)
  unfolding find_latency
  find_latency_iff = (first_found (measured 0), λ (first, e, r). rw e (reported first r))
