-- ===== src/Server/Acks.antt =====
-- server/websocket.go: which events the next request acknowledges.
use mango_agent.Base.{
  Bool, false, not, ◌&&◌, ◌||◌, Bool-cases, List, [], ◌∷◌, ◌++◌, Text, text_eq, text_eq_iff, ◌≡◌,
  refl, inl, inr, arith,
}
use mango_agent.Strings.{is_nil}
use mango_agent.Server.Events.{has_id, add_ack, clear_acks}

-- What happens to the list, one locked section after another: an event is added, or a request that
-- carried `sent` succeeded. The report loop and the pull loop take turns in any order.
pub data Step : Type 0 where
  added : Text → Step
  answered : List Text → Step

unfoldable pub run : List Step → List Text → List Text
run [] acks = acks
run (added id ∷ steps) acks = run steps (add_ack id acks)
run (answered sent ∷ steps) acks = run steps (clear_acks sent acks)

-- Whether one event is still to be acknowledged, kept apart from all others.
unfoldable pub owed : Text → List Step → Bool → Bool
owed id [] b = b
owed id (added j ∷ steps) b = owed id steps (b || text_eq j id)
owed id (answered sent ∷ steps) b = owed id steps (b && not (has_id id sent))

has_id-append :
    (id j : Text) (acks : List Text) → has_id id (acks ++ j ∷ []) ≡ (has_id id acks || text_eq j id)
unfolding has_id
has_id-append id j [] = ground arith
has_id-append id j (i ∷ acks) = ground (arith, has_id-append id j acks)

has_id-add_ack :
    (id j : Text) (acks : List Text)
    → is_nil id ≡ false
    → has_id id (add_ack j acks) ≡ (has_id id acks || text_eq j id)
unfolding add_ack
has_id-add_ack [] j acks n = cc
has_id-add_ack (c ∷ id) [] acks n = ground arith
has_id-add_ack (c ∷ id) (k ∷ j) acks n = has_id-append (c ∷ id) (k ∷ j) acks

has_id-clear_acks :
    (id : Text) (sent acks : List Text)
    → has_id id (clear_acks sent acks) ≡ (has_id id acks && not (has_id id sent))
unfolding clear_acks has_id
has_id-clear_acks id sent [] = refl
has_id-clear_acks id sent (i ∷ acks) = elim (Bool-cases (text_eq i id)) [
  | inl same ↦
      let e = (text_eq_iff i id).0 same in ground (arith, e, has_id-clear_acks id sent acks)
  | inr other ↦ ground (arith, has_id-clear_acks id sent acks)
]

-- In whatever order events are added and requests succeed, an event with an id is in the list
-- exactly if it was there, or was added, and no later successful request carried it.
pub run-owed :
    (id : Text) (steps : List Step) (acks : List Text)
    → is_nil id ≡ false
    → has_id id (run steps acks) ≡ owed id steps (has_id id acks)
unfolding run owed
run-owed id [] acks n = refl
run-owed id (added j ∷ steps) acks n =
    rw (run-owed id steps (add_ack j acks) n, has_id-add_ack id j acks n) refl
run-owed id (answered sent ∷ steps) acks n =
    rw (run-owed id steps (clear_acks sent acks) n, has_id-clear_acks id sent acks) refl
