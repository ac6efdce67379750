-- ===== src/Server/Loop.antt =====
-- server/websocket.go: `EstablishWebSocketConnection` and `runPostFallback`, as the connection goes
-- up and down. Times are in nanoseconds.
use mango_agent.Base.{
  ℕ, zero, suc, ◌+◌, Bool, true, false, ◌&&◌, Option, none, some, List, [], ◌∷◌, ◌++◌, Text, codes,
  if◌then◌else◌, ltb, get_or,
}
use mango_agent.Strings.{trim_prefix, trim_suffix}

-- Whether `conn` and `readDone` are not nil, and `nextReportAt`.
pub record Link : Type 0 where
  pub conn : Bool
  pub reading : Bool
  pub next_report_at : ℕ

-- The loop over `retry`: `left` attempts are left, the next dial is the dial `i`, and `dial` tells
-- if it succeeds. The result is the dial that did.
unfoldable pub retry_dial : (ℕ → Bool) → ℕ → ℕ → Option ℕ
retry_dial dial zero i = none
retry_dial dial (suc left) i =
    let rest = retry_dial dial left (i + 1) in if dial i then some i else rest

-- `runPostFallback`, as far as it dials: `fuel` bounds the ticks of `reconnectTicker`.
unfoldable pub run_post_fallback : (ℕ → Bool) → ℕ → ℕ → Option ℕ
run_post_fallback dial zero i = none
run_post_fallback dial (suc fuel) i =
    let rest = run_post_fallback dial fuel (i + 1) in if dial i then some i else rest

-- The flags: one more than `flags.MaxRetries`, and the report interval.
pub record LoopFlags : Type 0 where
  pub attempts : ℕ
  pub report_interval : ℕ

abbrev pub or_post : LoopFlags → (ℕ → Bool) → ℕ → Option ℕ → Option ℕ
or_post flags dial fuel (some i) = some i
or_post flags dial fuel none = run_post_fallback dial fuel flags.attempts

-- The part of a data tick that connects; `none` is one that is still in the fallback.
unfoldable pub connect : LoopFlags → (ℕ → Bool) → ℕ → Option ℕ
connect flags dial fuel = or_post flags dial fuel (retry_dial dial flags.attempts 0)

abbrev down : Link → Link
down l = record l { conn = false; reading = false }

abbrev up : Link → Link
up l = record l { conn = true; reading = true }

-- The part of a data tick that reports. It reads the clock twice: `now` is what it compares with
-- `nextReportAt`, and `begin` is the time from which it sets it, just before it generates the report
-- and writes it. The result tells if a report was written.
unfoldable pub report_tick : LoopFlags → ℕ → ℕ → Bool → Link → Link × Bool
report_tick flags now begin written l =
    if ltb now l.next_report_at
    then (l, false)
    else let l' : Link = record l { next_report_at = begin + flags.report_interval } in
      if written then (l', true) else (down l', false)

abbrev pub connected : LoopFlags → ℕ → ℕ → Bool → Link → Option ℕ → Option (Link × Bool)
connected flags now begin written l none = none
connected flags now begin written l (some i) = some (report_tick flags now begin written (up l))

-- A tick of `dataTicker`. The clock reads `now` after the dials, then `begin`, and `written` tells
-- if writing the report succeeds.
unfoldable pub data_tick : LoopFlags → (ℕ → Bool) → ℕ → ℕ → ℕ → Bool → Link → Option (Link × Bool)
data_tick flags dial fuel now begin written l =
    if l.conn
    then some (report_tick flags now begin written l)
    else connected flags now begin written l (connect flags dial fuel)

-- A tick of `heartbeatTicker`, where `written` tells if writing the ping succeeds.
unfoldable pub heartbeat : Bool → Link → Link
heartbeat written l = if l.conn && (if written then false else true) then down l else l

-- What the `select` takes: a data tick, a heartbeat, or the end of the reader.
pub data LoopEvent : Type 0 where
  data_event : (ℕ → Bool) → ℕ → ℕ → Bool → LoopEvent
  heartbeat_event : Bool → LoopEvent
  read_done : LoopEvent

abbrev pub with_report : ℕ → Option (Link × Bool) → Option (Link × List ℕ)
with_report begin none = none
with_report begin (some (l, true)) = some (l, begin ∷ [])
with_report begin (some (l, false)) = some (l, [])

-- A round of the `for` loop, with the time at which it began the report that it wrote, if it wrote
-- one. The reader's end is taken only while `readDone` is not nil.
unfoldable pub loop_round : LoopFlags → ℕ → LoopEvent → Link → Option (Link × List ℕ)
loop_round flags fuel (data_event dial now begin written) l =
    with_report begin (data_tick flags dial fuel now begin written l)
loop_round flags fuel (heartbeat_event written) l = some (heartbeat written l, [])
loop_round flags fuel read_done l = some ((if l.reading then down l else l), [])

abbrev pub after_times : List ℕ → Option (Link × List ℕ) → Option (Link × List ℕ)
after_times times none = none
after_times times (some (l, more)) = some (l, times ++ more)

abbrev pub and_then :
    Option (Link × List ℕ) → (Link → Option (Link × List ℕ)) → Option (Link × List ℕ)
and_then none rest = none
and_then (some (l, times)) rest = after_times times (rest l)

-- The `for` loop over what it takes.
unfoldable pub loop_rounds : LoopFlags → ℕ → List LoopEvent → Link → Option (Link × List ℕ)
loop_rounds flags fuel [] l = some (l, [])
loop_rounds flags fuel (e ∷ es) l = and_then (loop_round flags fuel e l) (loop_rounds flags fuel es)

-- `buildWebSocketEndpoint`, where `to_ascii` is `utils.ConvertIDNToASCII`.
unfoldable pub build_web_socket_endpoint : (Text → Option Text) → Text → Text → Text
build_web_socket_endpoint to_ascii endpoint token =
    let http = trim_suffix endpoint (codes "/") ++ codes "/api/clients/v2/rpc?token=" ++ token in
    let url = codes "ws" ++ trim_prefix http (codes "http") in get_or url (to_ascii url)
