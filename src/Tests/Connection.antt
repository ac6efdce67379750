-- ===== src/Tests/Connection.antt =====
-- server/websocket.go on small inputs.
use mango_agent.Base.{
  ℕ, Bool, true, false, none, some, List, [], ◌∷◌, Text, codes, Dict, lookup, ◌≡◌, refl, ◌==◌,
  arith,
}
use mango_agent.Server.Events.{
  expire_seen, mark_seen, has_id, Decoder, Event, process_event, process_events,
}
use mango_agent.Server.Seen.{IsBounded, process_events-IsBounded}
use mango_agent.Server.Redelivery.{process_event-again}
use mango_agent.Server.Acks.{added, answered, run, owed, run-owed}
use mango_agent.Server.Loop.{
  Link, LoopFlags, retry_dial, run_post_fallback, connect, report_tick, data_tick, heartbeat,
  LoopEvent, data_event, heartbeat_event, read_done, loop_round, loop_rounds,
}
use mango_agent.Server.Recovery.{data_tick-recovers}
use mango_agent.Server.Spacing.{Spaced, rounds-Spaced}

-- Every text is the parameters of a terminal request, and of nothing else.
abbrev decoder : Decoder
decoder = record {
  P = Text;
  Op = Unit;
  Key = Unit;
  exec = λ p. none;
  mining = λ p. none;
  ping = λ p. none;
  terminal = λ p. some p;
  file = λ p. none;
  authorize = λ p. none;
  revoke = λ p. none;
}

abbrev request : Event decoder
request = record { id = codes "e1"; method = codes "agent.terminal.request"; params = codes "r1" }

abbrev other_event : Event decoder
other_event = record { id = codes "e2"; method = codes "agent.message"; params = [] }

abbrev seen_before : Dict ℕ
seen_before = (codes "e0", 5) ∷ []

process_events-IsBounded_example :
    IsBounded
      (process_events decoder 7
        (request ∷ other_event ∷ [])
        (record { acks = []; seen = seen_before })).0.seen
process_events-IsBounded_example =
    process_events-IsBounded decoder 7 (request ∷ other_event ∷ [])
      (record { acks = []; seen = seen_before }) (record { named = (refl, tt); few = omega arith })

taken_as_new : (mark_seen 7 request.id seen_before).1 ≡ true
unfolding mark_seen expire_seen lookup
taken_as_new = refl

process_event-again_example :
    let seen = (process_event decoder 7 request seen_before).0 in
    let later =
      (process_events decoder 8 (other_event ∷ []) (record { acks = []; seen = seen })).0.seen in
    ((process_event decoder 9 request later).1 ≡ [])
    × ((process_event decoder 9 request later).2 ≡ true)
process_event-again_example =
    process_event-again decoder request 7 8 9 (other_event ∷ []) [] seen_before refl taken_as_new
      (omega arith) (omega arith) (omega arith)

run-owed_example :
    has_id (codes "a") (
      run (added (codes "b") ∷ answered (codes "a" ∷ []) ∷ added (codes "a") ∷ []) (codes "a" ∷ []))
    ≡ owed
        (codes "a")
        (added (codes "b") ∷ answered (codes "a" ∷ []) ∷ added (codes "a") ∷ [])
        (has_id (codes "a") (codes "a" ∷ []))
run-owed_example =
    run-owed (codes "a") (added (codes "b") ∷ answered (codes "a" ∷ []) ∷ added (codes "a") ∷ [])
      (codes "a" ∷ []) refl

-- An agent with two attempts, whose fourth dial succeeds.
abbrev flags : LoopFlags
flags = record { attempts = 2; report_interval = 3 }

abbrev fourth : ℕ → Bool
fourth i = i == 3

abbrev lost : Link
lost = record { conn = false; reading = false; next_report_at = 10 }

data_tick-recovers_example :
    (l' : Link) × (sent : Bool) × (data_tick flags fourth 4 12 13 true lost ≡ some (l', sent))
    × (l'.conn ≡ true)
    × (l'.reading ≡ true)
data_tick-recovers_example = data_tick-recovers fourth flags 4 3 12 13 lost refl refl (omega arith)

abbrev some_rounds : List LoopEvent
some_rounds =
    data_event fourth 12 13 true
    ∷ data_event fourth 14 14 true
    ∷ data_event fourth 16 18 true
    ∷ heartbeat_event true
    ∷ read_done
    ∷ []

abbrev after_rounds : Link × List ℕ
after_rounds = (record { conn = false; reading = false; next_report_at = 21 }, 13 ∷ 18 ∷ [])

rounds_end : loop_rounds flags 4 some_rounds lost ≡ some after_rounds
unfolding loop_rounds loop_round data_tick connect retry_dial run_post_fallback report_tick
    heartbeat
rounds_end = refl

rounds-Spaced_example :
    (r : Link × List ℕ) × (loop_rounds flags 4 some_rounds lost ≡ some r)
    × (r.0.reading ≡ r.0.conn)
    × Spaced 3 10 r.1
rounds-Spaced_example = rounds-Spaced flags 4 some_rounds lost refl (
  (omega arith, (3, refl, omega arith)),
  ((omega arith, (3, refl, omega arith)), ((omega arith, (3, refl, omega arith)), (tt, (tt, tt)))),
)
