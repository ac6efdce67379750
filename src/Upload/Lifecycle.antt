-- ===== src/Upload/Lifecycle.antt =====
-- server/file_stream.go: the life cycle of upload streams. `none` is a panic: the channel `idle` is
-- closed a second time.
use mango_agent.Base.{
  ℕ, ◌+◌, ◌-◌, Bool, true, false, ◌||◌, not, Option, none, some, [], ◌∷◌, Text, Dict, lookup,
  insert, delete, get_or, if◌then◌else◌, leb, ◌==◌, ◌>>=◌,
}
use mango_agent.Upload.Data.{Lifecycle}

-- `uploadCancelTombstoneTTL`, in nanoseconds.
abbrev pub tombstone_ttl : ℕ
tombstone_ttl = 900000000000

abbrev is_old : ℕ → Option ℕ → Bool
is_old now none = true
is_old now (some at) = leb (at + tombstone_ttl) now

-- Whether `pruneUploadLifecyclesLocked` deletes an entry.
unfoldable pub is_stale : ℕ → Lifecycle → Bool
is_stale now l = if not l.canceled || not (l.active == 0) then false else is_old now l.canceled_at

unfoldable pub prune_upload_lifecycles_locked : ℕ → Dict Lifecycle → Dict Lifecycle
unfolding is_stale
prune_upload_lifecycles_locked now [] = []
prune_upload_lifecycles_locked now ((id, l) ∷ m) =
    if is_stale now l
    then prune_upload_lifecycles_locked now m
    else (id, l) ∷ prune_upload_lifecycles_locked now m

-- A new entry: its channel is closed at once.
abbrev pub new_lifecycle : Lifecycle
new_lifecycle = record {
  active = 0;
  idle_closed = true;
  canceled = false;
  canceled_at = none;
  streams = [];
}

abbrev add_stream : Text → Dict (Unit {0}) → Dict (Unit {0})
add_stream [] streams = streams
add_stream (c ∷ id) streams = insert (c ∷ id) tt streams

-- The first stream to become active makes a fresh channel.
unfoldable pub activate : Text → Lifecycle → Lifecycle
activate stream l = record l {
  active = l.active + 1;
  idle_closed = if l.active + 1 == 1 then false else l.idle_closed;
  streams = add_stream stream l.streams;
}

-- A cancelled entry lets no stream begin.
unfoldable pub begin_found : Text → Text → Lifecycle → Dict Lifecycle → Dict Lifecycle × Bool
begin_found id stream l m =
    if l.canceled then (insert id l m, false) else (insert id (activate stream l) m, true)

-- `beginUploadStream`: the map after it, and whether the stream may go on. A call with no upload
-- id registers nothing.
unfoldable pub begin_upload_stream : ℕ → Text → Text → Dict Lifecycle → Dict Lifecycle × Bool
begin_upload_stream now [] stream m = (m, true)
begin_upload_stream now (c ∷ id) stream m =
    let pruned = prune_upload_lifecycles_locked now m in
    begin_found (c ∷ id) stream (get_or new_lifecycle (lookup (c ∷ id) pruned)) pruned

-- `close(state.idle)`
abbrev pub close_idle : Lifecycle → Option Lifecycle
close_idle l = if l.idle_closed then none else some (record l { idle_closed = true })

abbrev pub drop_stream : Text → Lifecycle → Lifecycle
drop_stream [] l = l
drop_stream (c ∷ id) l = record l { streams = delete (c ∷ id) l.streams }

-- The last active stream closes the channel, and the entry goes unless it is cancelled.
unfoldable pub deactivate : Text → Lifecycle → Dict Lifecycle → Option (Dict Lifecycle)
deactivate id l m =
    if l.active == 0
    then some (insert id l m)
    else if l.active - 1 == 0
    then (do
      l' ← close_idle (record l { active = l.active - 1 })
      some (if l'.canceled then insert id l' m else delete id m))
    else some (insert id (record l { active = l.active - 1 }) m)

unfoldable pub end_found : Text → Text → Option Lifecycle → Dict Lifecycle → Option (Dict Lifecycle)
end_found id stream none m = some m
end_found id stream (some l) m = deactivate id (drop_stream stream l) m

-- The function that `beginUploadStream` returns, at its first call.
unfoldable pub end_upload_stream : Text → Text → Dict Lifecycle → Option (Dict Lifecycle)
end_upload_stream [] stream m = some m
end_upload_stream (c ∷ id) stream m = end_found (c ∷ id) stream (lookup (c ∷ id) m) m

-- `cancelUploadStreams`: the map after it, and the streams whose contexts it cancels.
unfoldable pub cancel_upload_streams : ℕ → Text → Dict Lifecycle → Dict Lifecycle × Dict (Unit {0})
cancel_upload_streams now [] m = (m, [])
cancel_upload_streams now (c ∷ id) m =
    let pruned = prune_upload_lifecycles_locked now m in
    let l = get_or new_lifecycle (lookup (c ∷ id) pruned) in
    (insert (c ∷ id) (record l { canceled = true; canceled_at = some now }) pruned, l.streams)

unfoldable pub wait_found : Text → Option Lifecycle → Dict Lifecycle → Option (Dict Lifecycle)
wait_found id none m = some m
wait_found id (some l) m =
    if l.active == 0 then some (if l.canceled then m else delete id m) else none

-- One round of `waitUploadStreams`: `none` is a wait for the channel, after which it tries again.
unfoldable pub wait_upload_streams : Text → Dict Lifecycle → Option (Dict Lifecycle)
wait_upload_streams [] m = some m
wait_upload_streams (c ∷ id) m = wait_found (c ∷ id) (lookup (c ∷ id) m) m
