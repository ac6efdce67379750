-- ===== src/Upload/Cancel.antt =====
-- server/file_stream.go: the life cycle of upload streams over any order of its calls.
use mango_agent.Base.{
  ℕ, ◌-◌, true, false, Bool-cases, Option-cases, Option, none, some, List, [], ◌∷◌, Text, Dict,
  lookup, insert, delete, get_or, ◌==◌, text_eq, All, ◌≡◌, refl, inl, inr, arith, ◌>>=◌, ◌∙◌,
}
use mango_agent.Upload.Data.{Lifecycle}
use mango_agent.Upload.Lifecycle.{
  is_stale, prune_upload_lifecycles_locked, new_lifecycle, activate, begin_found, drop_stream,
  begin_upload_stream, deactivate, end_found, end_upload_stream, cancel_upload_streams, wait_found,
  wait_upload_streams,
}

-- The calls of the package's functions, with the time at which they run.
pub data Call : Type 0 where
  begins : ℕ → Text → Text → Call
  ends : Text → Text → Call
  cancels : ℕ → Text → Call
  waits : Text → Call

-- A call's effect on the map; a wait that has to go on leaves it as it is.
unfoldable pub handle : Call → Dict Lifecycle → Option (Dict Lifecycle)
handle (begins now id stream) m = some (begin_upload_stream now id stream m).0
handle (ends id stream) m = end_upload_stream id stream m
handle (cancels now id) m = some (cancel_upload_streams now id m).0
handle (waits id) m = some (get_or m (wait_upload_streams id m))

unfoldable pub handle_all : List Call → Dict Lifecycle → Option (Dict Lifecycle)
handle_all [] m = some m
handle_all (c ∷ cs) m = do m' ← handle c m; handle_all cs m'

-- The channel is closed exactly when no stream is active.
abbrev pub IsIdleClosed : Lifecycle → Type 0
IsIdleClosed l = l.idle_closed ≡ (l.active == 0)

abbrev pub IsSound : Dict Lifecycle → Type 0
IsSound m = All (λ e. IsIdleClosed e.1) m

insert-IsSound :
    (id : Text) (l : Lifecycle) (m : Dict Lifecycle)
    → IsSound m
    → IsIdleClosed l
    → IsSound (insert id l m)
unfolding insert
insert-IsSound id l [] h k = (k, tt)
insert-IsSound id l ((j, w) ∷ m) h k = elim (Bool-cases (text_eq j id)) [
  | inl same ↦ rw same (k, h.1)
  | inr other ↦ rw other (h.0, insert-IsSound id l m h.1 k)
]

delete-IsSound : (id : Text) (m : Dict Lifecycle) → IsSound m → IsSound (delete id m)
unfolding delete
delete-IsSound id [] h = tt
delete-IsSound id ((j, w) ∷ m) h = elim (Bool-cases (text_eq j id)) [
  | inl same ↦ rw same (delete-IsSound id m h.1)
  | inr other ↦ rw other (h.0, delete-IsSound id m h.1)
]

prune-IsSound :
    (now : ℕ) (m : Dict Lifecycle) → IsSound m → IsSound (prune_upload_lifecycles_locked now m)
unfolding prune_upload_lifecycles_locked
prune-IsSound now [] h = tt
prune-IsSound now ((j, w) ∷ m) h = elim (Bool-cases (is_stale now w)) [
  | inl stale ↦ rw stale (prune-IsSound now m h.1)
  | inr fresh ↦ rw fresh (h.0, prune-IsSound now m h.1)
]

lookup-IsIdleClosed :
    (id : Text) (m : Dict Lifecycle) {l : Lifecycle}
    → IsSound m
    → lookup id m ≡ some l
    → IsIdleClosed l
unfolding lookup
lookup-IsIdleClosed id [] h e = cc
lookup-IsIdleClosed id ((j, w) ∷ m) h e = elim (Bool-cases (text_eq j id)) [
  | inl same ↦ ground arith
  | inr other ↦ lookup-IsIdleClosed id m h.1 (simp other at e)
]

get_or-IsIdleClosed :
    (id : Text) (m : Dict Lifecycle) → IsSound m → IsIdleClosed (get_or new_lifecycle (lookup id m))
get_or-IsIdleClosed id m h = elim (Option-cases (lookup id m)) [
  | inl missing ↦ rw missing refl
  | inr (l, e) ↦ rw e (lookup-IsIdleClosed id m h e)
]

activate-IsIdleClosed :
    (stream : Text) (l : Lifecycle) → IsIdleClosed l → IsIdleClosed (activate stream l)
unfolding activate
activate-IsIdleClosed stream l h = ground arith

begin_found-IsSound :
    (id stream : Text) (l : Lifecycle) (m : Dict Lifecycle)
    → IsSound m
    → IsIdleClosed l
    → IsSound (begin_found id stream l m).0
unfolding begin_found
begin_found-IsSound id stream l m h k = elim (Bool-cases l.canceled) [
  | inl over ↦ simp over (insert-IsSound id l m h k)
  | inr live ↦
      simp live (insert-IsSound id (activate stream l) m h (activate-IsIdleClosed stream l k))
]

begin-IsSound :
    (now : ℕ) (id stream : Text) (m : Dict Lifecycle)
    → IsSound m
    → IsSound (begin_upload_stream now id stream m).0
unfolding begin_upload_stream
begin-IsSound now [] stream m h = h
begin-IsSound now (c ∷ id) stream m h =
    let p = prune-IsSound now m h in
    begin_found-IsSound (c ∷ id) stream _ _ p (get_or-IsIdleClosed (c ∷ id) _ p)

drop_stream-IsIdleClosed :
    (stream : Text) (l : Lifecycle) → IsIdleClosed l → IsIdleClosed (drop_stream stream l)
drop_stream-IsIdleClosed [] l h = h
drop_stream-IsIdleClosed (c ∷ s) l h = h

deactivate-IsSound :
    (id : Text) (l : Lifecycle) (m : Dict Lifecycle)
    → IsSound m
    → IsIdleClosed l
    → (m' : Dict Lifecycle) × (deactivate id l m ≡ some m') × IsSound m'
unfolding deactivate
deactivate-IsSound id l m h k = elim (Bool-cases (l.active == 0)) [
  | inl idle ↦ (insert id l m, simp idle refl, insert-IsSound id l m h k)
  | inr busy ↦
      let opened : l.idle_closed ≡ false = k ∙ busy in
      elim (Bool-cases (l.active - 1 == 0)) [
        | inl last ↦
            let l' = record l { active = l.active - 1; idle_closed = true } in
            elim (Bool-cases l.canceled) [
              | inl over ↦ (
                insert id l' m,
                simp (busy, last, opened, over) refl,
                insert-IsSound id l' m h (ground arith),
              )
              | inr live ↦
                  (delete id m, simp (busy, last, opened, live) refl, delete-IsSound id m h)
            ]
        | inr more ↦
            let l' = record l { active = l.active - 1 } in
            (insert id l' m, simp (busy, more) refl, insert-IsSound id l' m h (ground arith))
      ]
]

end_found-IsSound :
    (id stream : Text) (l : Option Lifecycle) (m : Dict Lifecycle)
    → IsSound m
    → lookup id m ≡ l
    → (m' : Dict Lifecycle) × (end_found id stream l m ≡ some m') × IsSound m'
unfolding end_found
end_found-IsSound id stream none m h e = (m, refl, h)
end_found-IsSound id stream (some l) m h e =
    deactivate-IsSound id (drop_stream stream l) m h
      (drop_stream-IsIdleClosed stream l (lookup-IsIdleClosed id m h e))

wait_found-IsSound :
    (id : Text) (l : Option Lifecycle) (m : Dict Lifecycle)
    → IsSound m
    → IsSound (get_or m (wait_found id l m))
unfolding wait_found
wait_found-IsSound id none m h = h
wait_found-IsSound id (some l) m h = elim (Bool-cases (l.active == 0)) [
  | inl idle ↦ elim (Bool-cases l.canceled) [
    | inl over ↦ simp (idle, over) h
    | inr live ↦ simp (idle, live) (delete-IsSound id m h)
  ]
  | inr busy ↦ simp busy h
]

handle-IsSound :
    (c : Call) (m : Dict Lifecycle)
    → IsSound m
    → (m' : Dict Lifecycle) × (handle c m ≡ some m') × IsSound m'
unfolding handle end_upload_stream cancel_upload_streams wait_upload_streams
handle-IsSound (begins now id stream) m h = (_, refl, begin-IsSound now id stream m h)
handle-IsSound (ends [] stream) m h = (m, refl, h)
handle-IsSound (ends (c ∷ id) stream) m h =
    end_found-IsSound (c ∷ id) stream (lookup (c ∷ id) m) m h refl
handle-IsSound (cancels now []) m h = (m, refl, h)
handle-IsSound (cancels now (c ∷ id)) m h =
    let p = prune-IsSound now m h in
    (_, refl, insert-IsSound (c ∷ id) _ _ p (get_or-IsIdleClosed (c ∷ id) _ p))
handle-IsSound (waits []) m h = (m, refl, h)
handle-IsSound (waits (c ∷ id)) m h = (_, refl, wait_found-IsSound (c ∷ id) (lookup (c ∷ id) m) m h)

-- From a map whose channels are closed exactly where no stream is active (the empty map is one), no
-- sequence of `beginUploadStream`, its returned functions, `cancelUploadStreams` and
-- `waitUploadStreams` closes a channel twice, and the map after it is such a map.
pub handle_all-IsSound :
    (cs : List Call) (m : Dict Lifecycle)
    → IsSound m
    → (m' : Dict Lifecycle) × (handle_all cs m ≡ some m') × IsSound m'
unfolding handle_all
handle_all-IsSound [] m h = (m, refl, h)
handle_all-IsSound (c ∷ cs) m h =
    let (m', e, k) = handle-IsSound c m h in
    let (m'', e', k') = handle_all-IsSound cs m' k in (m'', rw e e', k')
