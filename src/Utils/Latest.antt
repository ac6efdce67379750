-- ===== src/Utils/Latest.antt =====
-- utils/utils.go: the reset before a date.
use mango_agent.Base.{
  ℕ, ◌+◌, ◌-◌, ◌*◌, ◌≤◌, ◌<◌, false, ◌||◌, Bool-cases, ltb, leb, ◌==◌, ◌≡◌, ◌⊎◌, refl, inl, inr,
  arith, ltb→lt, leb→le, ==_iff,
}
use mango_agent.Utils.Reset.{Date, is_before, get_actual_reset_date, get_last_reset_date}

-- The place of a month in time, and of a date.
abbrev pub month_of : Date → ℕ
month_of d = 12 * d.year + d.month

abbrev pub rank : Date → ℕ
rank d = 32 * month_of d + d.day

-- A date of the calendar, as far as the order of dates needs it.
pub record IsDate (d : Date) : Type 0 where
  pub first_month : 1 ≤ d.month
  pub last_month : d.month ≤ 12
  pub first_day : 1 ≤ d.day
  pub last_of_month : d.day ≤ 31

is_before-rank : (a b : Date) → IsDate a → IsDate b → is_before a b ≡ ltb (rank a) (rank b)
unfolding is_before
is_before-rank a b ha hb = ground (
  arith, ha.first_month, ha.last_month, ha.first_day, ha.last_of_month, hb.first_month,
  hb.last_month, hb.first_day, hb.last_of_month,
)

module _ (last_day : ℕ → ℕ → ℕ)
    (bounds : (year month : ℕ) → 28 ≤ last_day year month × last_day year month ≤ 31)
    (reset_day : ℕ) (lo : 1 ≤ reset_day) (hi : reset_day ≤ 31) where
  abbrev actual : ℕ → ℕ → Date
  actual year month = get_actual_reset_date last_day year month reset_day

  actual-IsDate : (year month : ℕ) → 1 ≤ month → month ≤ 12 → IsDate (actual year month)
  unfolding get_actual_reset_date
  actual-IsDate year month m n =
      let k = bounds year month in
      elim (Bool-cases (leb reset_day (last_day year month))) [
        | inl fits ↦
            simp fits
              (record { first_month = m; last_month = n; first_day = lo; last_of_month = hi })
        | inr over ↦ elim (Bool-cases (ltb 12 (month + 1))) [
          | inl december ↦
              simp (over, december)
                (record {
                  first_month = omega arith;
                  last_month = omega arith;
                  first_day = omega arith;
                  last_of_month = omega arith;
                })
          | inr other ↦
              simp (over, other)
                (record {
                  first_month = omega arith;
                  last_month = ground (arith, other);
                  first_day = omega arith;
                  last_of_month = omega arith;
                })
        ]
      ]

  -- The reset of a month is in it from the first of its days, or on the first of the next.
  actual-rank :
      (year month : ℕ)
      → 1 ≤ month
      → month ≤ 12
      → (rank (actual year month) ≡ 32 * (12 * year + month) + reset_day)
        ⊎ ((29 ≤ reset_day) × (rank (actual year month) ≡ 32 * (12 * year + month) + 33))
  unfolding get_actual_reset_date
  actual-rank year month m n =
      let k = (bounds year month).0 in
      elim (Bool-cases (leb reset_day (last_day year month))) [
        | inl fits ↦ inl (simp fits)
        | inr over ↦ inr (
          ground (arith, over, k),
          elim (Bool-cases (ltb 12 (month + 1))) [
            | inl december ↦ simp (over, december) (ground (arith, december, n))
            | inr other ↦ simp (over, other) (omega arith)
          ],
        )
      ]

  -- An earlier month has an earlier reset.
  actual-increases :
      (y m y' m' : ℕ)
      → 1 ≤ m
      → m ≤ 12
      → 1 ≤ m'
      → m' ≤ 12
      → 12 * y + m < 12 * y' + m'
      → rank (actual y m) < rank (actual y' m')
  actual-increases y m y' m' a b a' b' lt = elim (actual-rank y m a b) [
    | inl e ↦ elim (actual-rank y' m' a' b') [
      | inl e' ↦ omega (arith, e, e', lt)
      | inr (d', e') ↦ omega (arith, e, e', lt, hi)
    ]
    | inr (d, e) ↦ elim (actual-rank y' m' a' b') [
      | inl e' ↦ omega (arith, e, e', lt, d)
      | inr (d', e') ↦ omega (arith, e, e', lt)
    ]
  ]

  actual-ascends :
      (y m y' m' : ℕ)
      → 1 ≤ m
      → m ≤ 12
      → 1 ≤ m'
      → m' ≤ 12
      → 12 * y + m ≤ 12 * y' + m'
      → rank (actual y m) ≤ rank (actual y' m')
  actual-ascends y m y' m' a b a' b' le = elim (Bool-cases (ltb (12 * y + m) (12 * y' + m'))) [
    | inl lt ↦
        let k = actual-increases y m y' m' a b a' b' (ltb→lt (12 * y + m) (12 * y' + m') lt) in
        omega (arith, k)
    | inr eq ↦
        let same : 12 * y + m ≡ 12 * y' + m' = ground (arith, eq, le) in
        let e : y ≡ y' = omega (arith, same, a, b, a', b') in
        let e' : m ≡ m' = omega (arith, same, a, b, a', b') in rw (e, e') (omega arith)
  ]

  -- The latest reset up to a date: it is the reset of some month, not after the date, and no month
  -- has a reset after it that is not after the date.
  pub record IsLastReset (current r : Date) : Type 0 where
    pub year : ℕ
    pub month : ℕ
    pub is_reset : r ≡ get_actual_reset_date last_day year month reset_day
    pub past : rank r ≤ rank current
    pub latest :
        (y m : ℕ)
        → 1 ≤ m
        → m ≤ 12
        → rank (get_actual_reset_date last_day y m reset_day) ≤ rank current
        → rank (get_actual_reset_date last_day y m reset_day) ≤ rank r

  -- A month whose reset is past, while that of the next month is not, has the last reset.
  last_lem :
      (current : Date) (y m y' m' : ℕ)
      → 1 ≤ m
      → m ≤ 12
      → 1 ≤ m'
      → m' ≤ 12
      → 12 * y' + m' ≡ 12 * y + m + 1
      → rank (actual y m) ≤ rank current
      → rank current < rank (actual y' m')
      → IsLastReset current (actual y m)
  last_lem current y m y' m' a b a' b' next past future = record {
    year = y;
    month = m;
    is_reset = refl;
    past = past;
    latest = λ y0 m0 a0 b0 le. elim (Bool-cases (leb (12 * y0 + m0) (12 * y + m))) [
      | inl before ↦ actual-ascends y0 m0 y m a0 b0 a b (leb→le (12 * y0 + m0) (12 * y + m) before)
      | inr after ↦
          let later : 12 * y' + m' ≤ 12 * y0 + m0 = ground (arith, after, next) in
          let k = actual-ascends y' m' y0 m0 a' b' a0 b0 later in
          absurd (omega (arith, k, le, future))
    ];
  }

  this_month :
      (current : Date)
      → IsDate current
      → rank (actual current.year current.month) ≤ rank current
      → IsLastReset current (actual current.year current.month)
  this_month current d past = elim (Bool-cases (current.month == 12)) [
    | inl december ↦
        let e = (==_iff current.month 12).0 december in
        last_lem current current.year current.month (current.year + 1) 1 d.first_month d.last_month
          (omega arith) (omega arith) (omega (arith, e)) past
          (after_it (current.year + 1) 1 (omega arith) (omega arith) (omega (arith, e)))
    | inr other ↦
        last_lem current current.year current.month current.year (current.month + 1) d.first_month
          d.last_month (omega arith) (ground (arith, other, d.last_month)) (omega arith) past
          (after_it current.year (current.month + 1) (omega arith)
            (ground (arith, other, d.last_month)) (omega arith))
  ]
    where
      after_it :
          (y m : ℕ)
          → 1 ≤ m
          → m ≤ 12
          → 12 * y + m ≡ 12 * current.year + current.month + 1
          → rank current < rank (actual y m)
      after_it y m a b e = elim (actual-rank y m a b) [
        | inl k ↦ omega (arith, k, e, lo, d.last_of_month)
        | inr (n, k) ↦ omega (arith, k, e, lo, d.last_of_month)
      ]

  month_before :
      (current : Date) (y m : ℕ)
      → IsDate current
      → rank current < rank (actual current.year current.month)
      → 1 ≤ m
      → m ≤ 12
      → 12 * current.year + current.month ≡ 12 * y + m + 1
      → IsLastReset current (actual y m)
  month_before current y m d future a b e =
      last_lem current y m current.year current.month a b d.first_month d.last_month e
        (elim (actual-rank y m a b) [
          | inl k ↦ omega (arith, k, e, hi, d.first_day)
          | inr (n, k) ↦ omega (arith, k, e, d.first_day)
        ])
        future

  -- With months of 28 to 31 days and a reset day from 1 to 31, the date that `GetLastResetDate`
  -- gives for a date from the year 1 on is the latest reset that is not after it, where a month
  -- without that day is reset on the first of the next.
  pub get_last_reset_date-IsLastReset :
      (current : Date)
      → IsDate current
      → 1 ≤ current.year
      → IsLastReset current (get_last_reset_date last_day reset_day current)
  unfolding get_last_reset_date
  get_last_reset_date-IsLastReset current d year =
      let in_range : (ltb reset_day 1 || ltb 31 reset_day) ≡ false = ground (arith, lo, hi) in
      let this = actual-IsDate current.year current.month d.first_month d.last_month in
      let k = is_before-rank current (actual current.year current.month) d this in
      elim (Bool-cases (is_before current (actual current.year current.month))) [
        | inr past ↦ simp (in_range, past) (this_month current d (ground (arith, k, past)))
        | inl future ↦
            let future' : rank current < rank (actual current.year current.month) =
              ground (arith, k, future) in
            elim (Bool-cases (ltb (current.month - 1) 1)) [
              | inl january ↦
                  let e : current.month ≡ 1 = ground (arith, january, d.first_month) in
                  simp (in_range, future, january)
                    (month_before current (current.year - 1) 12 d future' (omega arith)
                      (omega arith) (omega (arith, e, year)))
              | inr other ↦
                  simp (in_range, future, other)
                    (month_before current current.year (current.month - 1) d future'
                      (ground (arith, other)) (omega (arith, d.last_month)) (ground (arith, other)))
            ]
      ]
