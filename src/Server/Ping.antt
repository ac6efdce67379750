-- ===== src/Server/Ping.antt =====
-- server/task.go: `NewPingTask`, which measures again after a high latency.
use mango_agent.Base.{
  ℕ, zero, suc, ◌+◌, ◌-◌, ℤ, pos, negsuc, Bool, false, ◌&&◌, Option, none, some, Text, codes,
  text_eq, if◌then◌else◌, ◌==◌, ltb,
}
use mango_agent.Server.Probes.{Net, measure}

-- `highLatencyThreshold`, `retryDropThresholdTcping` and `PingHighLatencyRetries`.
abbrev pub high_latency_threshold : ℕ
high_latency_threshold = 1000

abbrev pub retry_drop_threshold_tcping : ℕ
retry_drop_threshold_tcping = 800

abbrev pub ping_high_latency_retries : ℕ
ping_high_latency_retries = 3

abbrev pub is_high : ℤ → Bool
is_high (pos n) = ltb high_latency_threshold n
is_high (negsuc n) = false

-- Whether `first - second` is over `retryDropThresholdTcping`.
abbrev pub is_drop : ℤ → ℤ → Bool
is_drop (pos a) (pos b) = ltb (b + retry_drop_threshold_tcping) a
is_drop (pos a) (negsuc b) = ltb retry_drop_threshold_tcping (a + b + 1)
is_drop (negsuc a) (pos b) = false
is_drop (negsuc a) (negsuc b) = ltb (a + retry_drop_threshold_tcping) b

-- What one retry makes of its measurement; `rest` is what the retries after it find.
abbrev pub judge : Bool → ℤ → Option ℤ → Option ℤ → Option ℤ
judge tcp first rest none = none
judge tcp first rest (some second) =
    if is_high second then rest else if tcp && is_drop first second then none else some second

-- The `for` loop: `left` retries follow this one, which is the measurement `i`. `none` is an
-- error.
unfoldable pub retry : Bool → ℤ → (ℕ → Option ℤ) → ℕ → ℕ → Option ℤ
retry tcp first measured zero i = judge tcp first none (measured i)
retry tcp first measured (suc left) i =
    judge tcp first (retry tcp first measured left (i + 1)) (measured i)

abbrev pub first_judged : Bool → (ℕ → Option ℤ) → Option ℤ → Option ℤ
first_judged tcp measured none = none
first_judged tcp measured (some first) =
    if is_high first then retry tcp first measured (ping_high_latency_retries - 1) 1 else some first

-- The latency that `NewPingTask` finds, where `measured i` is the measurement `i` and `none` an
-- error.
unfoldable pub find_latency : Bool → (ℕ → Option ℤ) → Option ℤ
find_latency tcp measured = first_judged tcp measured (measured 0)

abbrev pub result_of : Option ℤ → ℤ
result_of none = negsuc 0
result_of (some latency) = latency

-- The result that `NewPingTask` reports, if it reports one; `net i` is the network at the
-- measurement `i`.
unfoldable pub new_ping_task : (ℕ → Net) → ℕ → Text → Text → Option ℤ
new_ping_task net task_id ping_type target =
    if task_id == 0
    then none
    else some (
        result_of
          (find_latency (text_eq ping_type (codes "tcp")) (λ i. measure (net i) ping_type target)))
