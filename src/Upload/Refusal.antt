-- ===== src/Upload/Refusal.antt =====
-- server/file_stream.go: calls after the cancellation of an upload.
use mango_agent.Base.{
  ℕ, ◌+◌, ◌≤◌, ◌<◌, false, some, List, [], ◌∷◌, Text, Dict, lookup, get_or, All, ◌≡◌, refl, arith,
  >>=-eq-some,
}
use mango_agent.Upload.Data.{Lifecycle}
use mango_agent.Upload.Lifecycle.{
  tombstone_ttl, prune_upload_lifecycles_locked, new_lifecycle, begin_found, begin_upload_stream,
  end_upload_stream, cancel_upload_streams, wait_upload_streams,
}
use mango_agent.Upload.Cancel.{Call, begins, ends, cancels, waits, handle, handle_all}
use mango_agent.Upload.Tombstone.{
  IsCancelled, prune-IsCancelled, own-IsCancelled, end-IsCancelled, begin_found-IsCancelled,
  cancel-IsCancelled, wait-IsCancelled,
}

-- A call runs before the tombstone of a cancellation at `t` ends, and not before `t`.
abbrev pub IsWithin : ℕ → Call → Type 0
IsWithin t (begins now id stream) = (t ≤ now) × (now < t + tombstone_ttl)
IsWithin t (ends id stream) = Unit
IsWithin t (cancels now id) = (t ≤ now) × (now < t + tombstone_ttl)
IsWithin t (waits id) = Unit

module _ (t : ℕ) (id : Text) where
  handle-IsCancelled :
      (c : Call) (m : Dict Lifecycle) {m' : Dict Lifecycle}
      → IsWithin t c
      → IsCancelled t id m
      → handle c m ≡ some m'
      → IsCancelled t id m'
  unfolding handle begin_upload_stream end_upload_stream cancel_upload_streams wait_upload_streams
  handle-IsCancelled (begins now [] stream) m {m'} w c h = let e : m ≡ m' = cc in rw⁻¹ e c
  handle-IsCancelled (begins now (x ∷ j) stream) m {m'} w c h =
      let e : (begin_upload_stream now (x ∷ j) stream m).0 ≡ m' = cc in
      rw⁻¹ e (begin_found-IsCancelled t id (x ∷ j) stream _ (prune-IsCancelled t id now m w.1 c))
  handle-IsCancelled (ends [] stream) m {m'} w c h = let e : m ≡ m' = cc in rw⁻¹ e c
  handle-IsCancelled (ends (x ∷ j) stream) m w c h = end-IsCancelled t id (x ∷ j) stream m c h
  handle-IsCancelled (cancels now []) m {m'} w c h = let e : m ≡ m' = cc in rw⁻¹ e c
  handle-IsCancelled (cancels now (x ∷ j)) m {m'} w c h =
      let e : (cancel_upload_streams now (x ∷ j) m).0 ≡ m' = cc in
      rw⁻¹ e (
        cancel-IsCancelled t id (x ∷ j)
          (get_or new_lifecycle (lookup (x ∷ j) (prune_upload_lifecycles_locked now m))) _ now
          (prune-IsCancelled t id now m w.1 c) w.0)
  handle-IsCancelled (waits []) m {m'} w c h = let e : m ≡ m' = cc in rw⁻¹ e c
  handle-IsCancelled (waits (x ∷ j)) m {m'} w c h =
      let e : get_or m (wait_upload_streams (x ∷ j) m) ≡ m' = cc in
      rw⁻¹ e (wait-IsCancelled t id (x ∷ j) m c)

  handle_all-IsCancelled :
      (cs : List Call) (m : Dict Lifecycle) {m' : Dict Lifecycle}
      → All (IsWithin t) cs
      → IsCancelled t id m
      → handle_all cs m ≡ some m'
      → IsCancelled t id m'
  unfolding handle_all
  handle_all-IsCancelled [] m {m'} w c h = let e : m ≡ m' = cc in rw⁻¹ e c
  handle_all-IsCancelled (x ∷ cs) m w c h =
      let (m1, e, k) = >>=-eq-some (handle x m) (handle_all cs) h in
      handle_all-IsCancelled cs m1 w.1 (handle-IsCancelled x m w.0 c e) k

-- After an upload with a non-empty id is cancelled at `t`, and whatever streams of it or of other
-- uploads begin, end, are cancelled or waited for in the 15 minutes from `t` on, a stream of that
-- upload that begins within these 15 minutes is refused.
pub begin_upload_stream_refused :
    (t now c : ℕ) (id stream : Text) (cs : List Call) (m : Dict Lifecycle) {m' : Dict Lifecycle}
    → All (IsWithin t) cs
    → now < t + tombstone_ttl
    → handle_all cs (cancel_upload_streams t (c ∷ id) m).0 ≡ some m'
    → (begin_upload_stream now (c ∷ id) stream m').1 ≡ false
unfolding cancel_upload_streams begin_upload_stream begin_found
begin_upload_stream_refused t now c id stream cs m {m'} w lt h =
    let start =
      own-IsCancelled t (c ∷ id) _ (prune_upload_lifecycles_locked t m) t refl refl (omega arith) in
    let held = handle_all-IsCancelled t (c ∷ id) cs _ w start h in
    let kept = prune-IsCancelled t (c ∷ id) now m' lt held in rw (kept.found, kept.canceled) refl
