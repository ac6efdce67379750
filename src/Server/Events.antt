-- ===== src/Server/Events.antt =====
-- server/websocket.go: which events were seen, which are to be acknowledged, and what an event
-- starts. Times are in nanoseconds.
use mango_agent.Base.{
  ℕ, ◌+◌, Bool, true, false, ◌||◌, Option, none, some, List, [], ◌∷◌, ◌++◌, Text, codes, Dict,
  lookup, insert, delete, length, text_eq, if◌then◌else◌, leb, ltb, ◌>>=◌,
}
use mango_agent.Strings.{is_nil}

-- `v2SeenEventTTL` and `v2SeenEventLimit`.
abbrev pub seen_ttl : ℕ
seen_ttl = 600000000000

abbrev pub seen_limit : ℕ
seen_limit = 4096

-- `v2AckEventIDs` and `v2SeenEvents`.
pub record Inbox : Type 0 where
  pub acks : List Text
  pub seen : Dict ℕ

unfoldable pub expire_seen : ℕ → Dict ℕ → Dict ℕ
expire_seen now [] = []
expire_seen now ((id, at) ∷ m) =
    if ltb (at + seen_ttl) now then expire_seen now m else (id, at) ∷ expire_seen now m

-- The loop that looks for the oldest entry; the empty id stands for none.
unfoldable pub find_oldest : Text → ℕ → Dict ℕ → Text
find_oldest oldest_id oldest [] = oldest_id
find_oldest oldest_id oldest ((id, at) ∷ m) =
    let newer = is_nil oldest_id || ltb at oldest in
    find_oldest (if newer then id else oldest_id) (if newer then at else oldest) m

abbrev pub delete_named : Text → Dict ℕ → Dict ℕ
delete_named [] m = m
delete_named (c ∷ id) m = delete (c ∷ id) m

unfoldable pub make_room : Dict ℕ → Dict ℕ
make_room m = if leb seen_limit (length m) then delete_named (find_oldest [] 0 m) m else m

abbrev pub mark_looked : ℕ → Text → Option ℕ → Dict ℕ → Dict ℕ × Bool
mark_looked now id (some at) m = (m, false)
mark_looked now id none m = (insert id now (make_room m), true)

-- `markV2EventSeen`
unfoldable pub mark_seen : ℕ → Text → Dict ℕ → Dict ℕ × Bool
mark_seen now [] m = (m, true)
mark_seen now (c ∷ id) m =
    mark_looked now (c ∷ id) (lookup (c ∷ id) (expire_seen now m)) (expire_seen now m)

-- A list of ids as a set.
unfoldable pub has_id : Text → List Text → Bool
has_id id [] = false
has_id id (i ∷ ids) = text_eq i id || has_id id ids

-- `clearV2AckEventIDs`
unfoldable pub clear_acks : List Text → List Text → List Text
clear_acks sent [] = []
clear_acks sent (id ∷ ids) =
    if has_id id sent then clear_acks sent ids else id ∷ clear_acks sent ids

-- `addV2AckEventID`
unfoldable pub add_ack : Text → List Text → List Text
add_ack [] acks = acks
add_ack (c ∷ id) acks = acks ++ (c ∷ id) ∷ []

-- `v2.BindParams`, which goes through JSON, for each kind of parameters; `none` is its error. `P` is
-- the type of raw parameters, `Op` that of file operations, `Key` that of the parameters of a key.
pub record Decoder : Type 1 where
  pub P : Type 0
  pub Op : Type 0
  pub Key : Type 0
  pub exec : P → Option (Text × Text)
  pub mining : P → Option (Text × Text)
  pub ping : P → Option (ℕ × Text × Text)
  pub terminal : P → Option Text
  pub file : P → Option Op
  pub authorize : P → Option Key
  pub revoke : P → Option Text

-- What an event starts, in a goroutine of its own; `log` is a line in the log.
pub data Action (d : Decoder) : Type 0 where
  log : Action d
  start_task : Text → Text → Action d
  start_mining_control : Text → Text → Action d
  start_ping : ℕ → Text → Text → Action d
  start_terminal : Text → Action d
  start_file : d.Op → Action d
  start_authorize : d.Key → Action d
  start_revoke : Text → Action d

pub record Event (d : Decoder) : Type 0 where
  pub id : Text
  pub method : Text
  pub params : d.P

module _ (d : Decoder) where
  -- The `switch` of `processV2Event`; `none` is an event that it does not handle.
  unfoldable pub dispatch : Text → d.P → Option (Action d)
  dispatch method params =
      if text_eq method (codes "agent.exec")
      then (do p ← d.exec params; some (start_task p.0 p.1))
      else if text_eq method (codes "agent.mining.control")
      then (do p ← d.mining params; some (start_mining_control p.0 p.1))
      else if text_eq method (codes "agent.ping")
      then (do p ← d.ping params; some (start_ping p.0 p.1 p.2))
      else if text_eq method (codes "agent.terminal.request")
      then (do id ← d.terminal params; some (start_terminal id))
      else if text_eq method (codes "agent.message") || text_eq method (codes "agent.event")
      then some log
      else if text_eq method (codes "agent.file")
      then (do op ← d.file params; some (start_file op))
      else if text_eq method (codes "agent.ssh.authorize")
      then (do key ← d.authorize params; some (start_authorize key))
      else if text_eq method (codes "agent.ssh.revoke")
      then (do ticket ← d.revoke params; some (start_revoke ticket))
      else none

  abbrev pub started : Option (Action d) → List (Action d) × Bool
  started none = ([], false)
  started (some a) = (a ∷ [], true)

  abbrev pub after_mark : Event d → Dict ℕ × Bool → Dict ℕ × List (Action d) × Bool
  after_mark e (seen, false) = (seen, [], true)
  after_mark e (seen, true) = let r = started (dispatch e.method e.params) in (seen, r.0, r.1)

  -- `processV2Event`: the seen events after it, what it starts, and its result.
  unfoldable pub process_event : ℕ → Event d → Dict ℕ → Dict ℕ × List (Action d) × Bool
  process_event now e seen = after_mark e (mark_seen now e.id seen)

  -- The loop of `processV2ResponseEvents`.
  unfoldable pub process_events : ℕ → List (Event d) → Inbox → Inbox × List (Action d)
  process_events now [] box = (box, [])
  process_events now (e ∷ es) box =
      let (seen, actions, fine) = process_event now e box.seen in
      let rest =
        process_events now es
          (record { acks = if fine then add_ack e.id box.acks else box.acks; seen = seen }) in
      (rest.0, actions ++ rest.1)
