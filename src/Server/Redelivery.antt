-- ===== src/Server/Redelivery.antt =====
-- server/websocket.go: an event that the server sends again.
use mango_agent.Base.{
  ℕ, suc, ◌+◌, ◌≤◌, ◌<◌, true, false, Bool-cases, Option, none, some, [], ◌∷◌, List, Text, text_eq,
  text_eq_iff, Dict, lookup, lookup-insert, length, ltb, ◌≡◌, refl, ap, inl, inr, arith,
  text_eq_refl,
}
use mango_agent.Strings.{is_nil}
use mango_agent.Server.Events.{
  seen_ttl, seen_limit, expire_seen, make_room, mark_looked, mark_seen, Decoder, Event,
  process_event, process_events, Inbox,
}
use mango_agent.Server.Seen.{expire_seen-length, length-insert, after_mark-seen}

lookup-expire_seen :
    (now : ℕ) (id : Text) (at : ℕ) (m : Dict ℕ)
    → lookup id m ≡ some at
    → now ≤ at + seen_ttl
    → lookup id (expire_seen now m) ≡ some at
unfolding lookup expire_seen
lookup-expire_seen now id at [] h k = cc
lookup-expire_seen now id at ((j, t) ∷ m) h k = elim (Bool-cases (text_eq j id)) [
  | inl same ↦
      let e : t ≡ at = cc (simp same at h) in
      let kept : ltb (at + seen_ttl) now ≡ false = ground (arith, k) in simp (e, kept, same)
  | inr other ↦
      let rest = lookup-expire_seen now id at m (simp other at h) k in
      elim (Bool-cases (ltb (t + seen_ttl) now)) [
        | inl old ↦ simp (old, rest)
        | inr new ↦ simp (new, other, rest)
      ]
]

-- The id is remembered since `at`, and there is room for `n` more events.
record IsKept (id : Text) (at n : ℕ) (m : Dict ℕ) : Type 0 where
  kept : lookup id m ≡ some at
  room : length m + n ≤ seen_limit

make_room-free : (m : Dict ℕ) → length m < seen_limit → make_room m ≡ m
unfolding make_room
make_room-free m h = ground arith

mark_looked-IsKept :
    (id j : Text) (at n now : ℕ) (m : Dict ℕ) (o : Option ℕ)
    → o ≡ lookup j m
    → IsKept id at (suc n) m
    → IsKept id at n (mark_looked now j o m).0
mark_looked-IsKept id j at n now m (some t) e h = record {
  kept = h.kept;
  room = omega (arith, h.room);
}
mark_looked-IsKept id j at n now m none e h =
    rw (make_room-free m (omega (arith, h.room))) (record {
      kept = elim (Bool-cases (text_eq j id)) [
        | inl same ↦ let k = (text_eq_iff j id).0 same in let c = h.kept in cc
        | inr other ↦ rw (lookup-insert, other) h.kept
      ];
      room = omega (arith, length-insert j now m, h.room);
    })

mark_seen-IsKept :
    (id j : Text) (at n now : ℕ) (m : Dict ℕ)
    → now ≤ at + seen_ttl
    → IsKept id at (suc n) m
    → IsKept id at n (mark_seen now j m).0
unfolding mark_seen
mark_seen-IsKept id [] at n now m k h = record { kept = h.kept; room = omega (arith, h.room) }
mark_seen-IsKept id (c ∷ j) at n now m k h =
    mark_looked-IsKept id (c ∷ j) at n now (expire_seen now m) (lookup (c ∷ j) (expire_seen now m))
      refl
      (record {
        kept = lookup-expire_seen now id at m h.kept k;
        room = omega (arith, expire_seen-length now m, h.room);
      })

mark_seen-known :
    (now : ℕ) (id : Text) (at : ℕ) (m : Dict ℕ)
    → is_nil id ≡ false
    → lookup id (expire_seen now m) ≡ some at
    → mark_seen now id m ≡ (expire_seen now m, false)
unfolding mark_seen
mark_seen-known now [] at m n h = cc
mark_seen-known now (c ∷ i) at m n h = rw h refl

mark_looked-new :
    (id : Text) (now n : ℕ) (m : Dict ℕ) (o : Option ℕ)
    → (mark_looked now id o m).1 ≡ true
    → length m + n < seen_limit
    → IsKept id now n (mark_looked now id o m).0
mark_looked-new id now n m (some t) new room = cc
mark_looked-new id now n m none new room = rw (make_room-free m (omega (arith, room))) (record {
  kept = rw (lookup-insert, text_eq_refl) refl;
  room = omega (arith, length-insert id now m, room);
})

mark_seen-new :
    (id : Text) (now n : ℕ) (m : Dict ℕ)
    → is_nil id ≡ false
    → (mark_seen now id m).1 ≡ true
    → length m + n < seen_limit
    → IsKept id now n (mark_seen now id m).0
unfolding mark_seen
mark_seen-new [] now n m named new room = cc
mark_seen-new (c ∷ id) now n m named new room =
    mark_looked-new (c ∷ id) now n (expire_seen now m) (lookup (c ∷ id) (expire_seen now m)) new
      (omega (arith, expire_seen-length now m, room))

module _ (d : Decoder) where
  process_events-IsKept :
      (id : Text) (at now : ℕ) (es : List (Event d)) (box : Inbox)
      → now ≤ at + seen_ttl
      → IsKept id at (length es) box.seen
      → IsKept id at 0 (process_events d now es box).0.seen
  unfolding process_events process_event
  process_events-IsKept id at now [] box k h = h
  process_events-IsKept id at now (e ∷ es) box k h = process_events-IsKept id at now es _ k (
      rw (after_mark-seen d e (mark_seen now e.id box.seen))
        (mark_seen-IsKept id e.id at (length es) now box.seen k h))

  first_delivery :
      (e : Event d) (now n : ℕ) (m : Dict ℕ)
      → is_nil e.id ≡ false
      → (mark_seen now e.id m).1 ≡ true
      → length m + n < seen_limit
      → IsKept e.id now n (process_event d now e m).0
  unfolding process_event
  first_delivery e now n m named new room =
      rw (after_mark-seen d e (mark_seen now e.id m)) (mark_seen-new e.id now n m named new room)

  known :
      (now : ℕ) (e : Event d) (at : ℕ) (m : Dict ℕ)
      → is_nil e.id ≡ false
      → lookup e.id (expire_seen now m) ≡ some at
      → process_event d now e m ≡ (expire_seen now m, [], true)
  unfolding process_event
  known now e at m n h = rw (mark_seen-known now e.id at m n h) refl

  -- An event with an id, delivered again within ten minutes of the delivery at `first` that was
  -- taken as new, starts nothing and is acknowledged, when the events remembered before the first
  -- delivery and those that come at `between` are together fewer than 4096.
  pub process_event-again :
      (e : Event d) (first between again : ℕ) (es : List (Event d)) (acks : List Text) (m : Dict ℕ)
      → is_nil e.id ≡ false
      → (mark_seen first e.id m).1 ≡ true
      → between ≤ first + seen_ttl
      → again ≤ first + seen_ttl
      → length m + length es < seen_limit
      → let seen = (process_event d first e m).0 in
        let later = (process_events d between es (record { acks = acks; seen = seen })).0.seen in
        ((process_event d again e later).1 ≡ []) × ((process_event d again e later).2 ≡ true)
  process_event-again e first between again es acks m n new b a room =
      let seen = (process_event d first e m).0 in
      let start = first_delivery e first (length es) m n new room in
      let box : Inbox = record { acks = acks; seen = seen } in
      let kept = process_events-IsKept e.id first between es box b start in
      let later = (process_events d between es box).0.seen in
      let e' =
        known again e first later n (lookup-expire_seen again e.id first later kept.kept a) in
      (ap (λ r. r.1) e', ap (λ r. r.2) e')
