-- ===== src/Server/Seen.antt =====
-- server/websocket.go: how many events the agent remembers as seen.
use mango_agent.Base.{
  ℕ, suc, ◌+◌, ◌≤◌, ◌<◌, Bool, true, false, Bool-cases, Option, none, some, [], ◌∷◌, List, Text,
  text_eq, text_eq_iff, Dict, lookup, insert, delete, length, leb, ltb, ◌≡◌, ◌≢◌, ◌⊎◌, refl, sym,
  inl, inr, arith, All,
}
use mango_agent.Strings.{is_nil}
use mango_agent.Server.Events.{
  seen_ttl, seen_limit, expire_seen, find_oldest, make_room, delete_named, mark_looked, mark_seen,
  Decoder, Event, after_mark, process_event, process_events, Inbox,
}

-- No event of the list has the empty id.
abbrev pub IsNamed : Dict ℕ → Type 0
IsNamed m = All (λ e. is_nil e.0 ≡ false) m

pub expire_seen-length : (now : ℕ) (m : Dict ℕ) → length (expire_seen now m) ≤ length m
unfolding expire_seen
expire_seen-length now [] = omega arith
expire_seen-length now ((id, at) ∷ m) = ground (arith, expire_seen-length now m)

expire_seen-IsNamed : (now : ℕ) (m : Dict ℕ) → IsNamed m → IsNamed (expire_seen now m)
unfolding expire_seen
expire_seen-IsNamed now [] h = tt
expire_seen-IsNamed now ((id, at) ∷ m) h = elim (Bool-cases (ltb (at + seen_ttl) now)) [
  | inl old ↦ rw old (expire_seen-IsNamed now m h.1)
  | inr new ↦ rw new (h.0, expire_seen-IsNamed now m h.1)
]

insert-IsNamed :
    (id : Text) (at : ℕ) (m : Dict ℕ) → is_nil id ≡ false → IsNamed m → IsNamed (insert id at m)
unfolding insert
insert-IsNamed id at [] n h = (n, tt)
insert-IsNamed id at ((j, t) ∷ m) n h = elim (Bool-cases (text_eq j id)) [
  | inl same ↦ rw same (h.0, h.1)
  | inr other ↦ rw other (h.0, insert-IsNamed id at m n h.1)
]

delete-IsNamed : (id : Text) (m : Dict ℕ) → IsNamed m → IsNamed (delete id m)
unfolding delete
delete-IsNamed id [] h = tt
delete-IsNamed id ((j, t) ∷ m) h = elim (Bool-cases (text_eq j id)) [
  | inl same ↦ rw same (delete-IsNamed id m h.1)
  | inr other ↦ rw other (h.0, delete-IsNamed id m h.1)
]

pub length-insert : (id : Text) (at : ℕ) (m : Dict ℕ) → length (insert id at m) ≤ suc (length m)
unfolding insert
length-insert id at [] = omega arith
length-insert id at ((j, t) ∷ m) = ground (arith, length-insert id at m)

length-delete : (id : Text) (m : Dict ℕ) → length (delete id m) ≤ length m
unfolding delete
length-delete id [] = omega arith
length-delete id ((j, t) ∷ m) = ground (arith, length-delete id m)

length-delete_key : (id : Text) (m : Dict ℕ) → lookup id m ≢ none → length (delete id m) < length m
unfolding delete lookup
length-delete_key id [] h = absurd (h refl)
length-delete_key id ((j, t) ∷ m) h = elim (Bool-cases (text_eq j id)) [
  | inl same ↦ rw same (omega (arith, length-delete id m))
  | inr other ↦ rw other (omega (arith, length-delete_key id m (simp other at h)))
]

find_oldest-named :
    (first : Text) (t : ℕ) (m : Dict ℕ)
    → is_nil first ≡ false
    → IsNamed m
    → is_nil (find_oldest first t m) ≡ false
unfolding find_oldest
find_oldest-named first t [] n h = n
find_oldest-named first t ((id, at) ∷ m) n h = elim (Bool-cases (ltb at t)) [
  | inl older ↦ rw (n, older) (find_oldest-named id at m h.0 h.1)
  | inr newer ↦ rw (n, newer) (find_oldest-named first t m n h.1)
]

lookup-later :
    (id j : Text) (t : ℕ) (m : Dict ℕ) → lookup id m ≢ none → lookup id ((j, t) ∷ m) ≢ none
unfolding lookup
lookup-later id j t m h = elim (Bool-cases (text_eq j id)) [
  | inl same ↦ rw same (λ e. cc)
  | inr other ↦ rw other h
]

lookup-first : (id j : Text) (t : ℕ) (m : Dict ℕ) → id ≡ j → lookup id ((j, t) ∷ m) ≢ none
unfolding lookup
lookup-first id j t m h = rw ((text_eq_iff j id).1 (sym h)) (λ e. cc)

-- The loop ends at the id it began with or at one of the list.
find_oldest-held :
    (first : Text) (t : ℕ) (m : Dict ℕ)
    → is_nil first ≡ false
    → IsNamed m
    → (find_oldest first t m ≡ first) ⊎ (lookup (find_oldest first t m) m ≢ none)
unfolding find_oldest
find_oldest-held first t [] n h = inl refl
find_oldest-held first t ((id, at) ∷ m) n h = elim (Bool-cases (ltb at t)) [
  | inl older ↦
      rw (n, older)
        (elim (find_oldest-held id at m h.0 h.1) [
          | inl e ↦ inr (lookup-first (find_oldest id at m) id at m e)
          | inr k ↦ inr (lookup-later (find_oldest id at m) id at m k)
        ])
  | inr newer ↦
      rw (n, newer)
        (elim (find_oldest-held first t m n h.1) [
          | inl e ↦ inl e
          | inr k ↦ inr (lookup-later (find_oldest first t m) id at m k)
        ])
]

-- An entry is found in a list that has one.
find_oldest-key :
    (id : Text) (at : ℕ) (m : Dict ℕ)
    → IsNamed ((id, at) ∷ m)
    → lookup (find_oldest [] 0 ((id, at) ∷ m)) ((id, at) ∷ m) ≢ none
unfolding find_oldest
find_oldest-key id at m h = elim (find_oldest-held id at m h.0 h.1) [
  | inl e ↦ lookup-first (find_oldest id at m) id at m e
  | inr k ↦ lookup-later (find_oldest id at m) id at m k
]

delete_named-is : (id : Text) (m : Dict ℕ) → is_nil id ≡ false → delete_named id m ≡ delete id m
delete_named-is [] m h = cc
delete_named-is (c ∷ id) m h = refl

delete_oldest-length :
    (m : Dict ℕ)
    → IsNamed m
    → 1 ≤ length m
    → length (delete_named (find_oldest [] 0 m) m) < length m
unfolding find_oldest
delete_oldest-length [] h k = omega arith
delete_oldest-length ((id, at) ∷ m) h k =
    rw (delete_named-is (find_oldest id at m) ((id, at) ∷ m) (find_oldest-named id at m h.0 h.1))
      (length-delete_key (find_oldest id at m) ((id, at) ∷ m) (find_oldest-key id at m h))

delete_named-IsNamed : (id : Text) (m : Dict ℕ) → IsNamed m → IsNamed (delete_named id m)
delete_named-IsNamed [] m h = h
delete_named-IsNamed (c ∷ id) m h = delete-IsNamed (c ∷ id) m h

-- What every call keeps of the seen events.
pub record IsBounded (m : Dict ℕ) : Type 0 where
  pub named : IsNamed m
  pub few : length m ≤ seen_limit

make_room-lem :
    (m : Dict ℕ) → IsBounded m → IsNamed (make_room m) × (length (make_room m) < seen_limit)
unfolding make_room
make_room-lem m h = elim (Bool-cases (leb seen_limit (length m))) [
  | inl full ↦ rw full (
    delete_named-IsNamed (find_oldest [] 0 m) m h.named,
    omega (arith, delete_oldest-length m h.named (ground arith), h.few),
  )
  | inr free ↦ rw free (h.named, ground arith)
]

mark_looked-IsBounded :
    (now : ℕ) (id : Text) (o : Option ℕ) (m : Dict ℕ)
    → is_nil id ≡ false
    → IsBounded m
    → IsBounded (mark_looked now id o m).0
mark_looked-IsBounded now id (some at) m n h = h
mark_looked-IsBounded now id none m n h =
    let room = make_room-lem m h in
    record {
      named = insert-IsNamed id now (make_room m) n room.0;
      few = omega (arith, length-insert id now (make_room m), room.1);
    }

mark_seen-IsBounded :
    (now : ℕ) (id : Text) (m : Dict ℕ) → IsBounded m → IsBounded (mark_seen now id m).0
unfolding mark_seen
mark_seen-IsBounded now [] m h = h
mark_seen-IsBounded now (c ∷ id) m h =
    mark_looked-IsBounded now (c ∷ id) (lookup (c ∷ id) (expire_seen now m)) (expire_seen now m)
      refl
      (record {
        named = expire_seen-IsNamed now m h.named;
        few = omega (arith, expire_seen-length now m, h.few);
      })

module _ (d : Decoder) where
  pub after_mark-seen : (e : Event d) (r : Dict ℕ × Bool) → (after_mark d e r).0 ≡ r.0
  after_mark-seen e (m, true) = refl
  after_mark-seen e (m, false) = refl

  -- However many events arrive and whatever they are, the agent never remembers more than 4096 of
  -- them, nor one with the empty id, when that holds to begin with.
  pub process_events-IsBounded :
      (now : ℕ) (es : List (Event d)) (box : Inbox)
      → IsBounded box.seen
      → IsBounded (process_events d now es box).0.seen
  unfolding process_events process_event
  process_events-IsBounded now [] box h = h
  process_events-IsBounded now (e ∷ es) box h = process_events-IsBounded now es _ (
      rw (after_mark-seen e (mark_seen now e.id box.seen))
        (mark_seen-IsBounded now e.id box.seen h))
