-- ===== src/Upload/Chunks.antt =====
-- server/file_stream.go: `writeUploadStreamChunk`, in its three parts: the session's tests under
-- the lock, the write to the part file outside it, and the record of the chunk under the lock
-- again. Other requests may come between the parts.
use mango_agent.Base.{
  ℕ, zero, suc, ◌+◌, Bool, true, false, ◌&&◌, not, Option, none, some, List, [], ◌∷◌, Text, lookup,
  insert, get_or, if◌then◌else◌, ltb, ◌==◌, max, take, length, text_eq,
}
use mango_agent.Strings.{is_nil}
use mango_agent.Upload.Data.{
  Env, upload_part_path_for, UploadStreamSpec, UploadChunkState, Server, Error, unknown_session,
  wrong_target, wrong_total, wrong_chunk_size, wrong_count, session_gone, open_error, read_error,
  short_stream, sync_error, Result, ok, err,
}

-- `WriteAt`: what lies before the offset of a shorter file reads as zeros. No bytes change nothing.
unfoldable pub write_at : ℕ → List ℕ → List ℕ → List ℕ
write_at offset [] file = file
write_at zero (b ∷ bs) [] = b ∷ write_at zero bs []
write_at zero (b ∷ bs) (x ∷ file) = b ∷ write_at zero bs file
write_at (suc offset) (b ∷ bs) [] = 0 ∷ write_at offset (b ∷ bs) []
write_at (suc offset) (b ∷ bs) (x ∷ file) = x ∷ write_at offset (b ∷ bs) file

-- A set of chunk indices.
unfoldable pub has_part : ℕ → List ℕ → Bool
has_part i [] = false
has_part i (p ∷ ps) = if p == i then true else has_part i ps

unfoldable pub add_part : ℕ → List ℕ → List ℕ
unfolding has_part
add_part i ps = if has_part i ps then ps else i ∷ ps

abbrev pub differs : ℕ → ℕ → Bool
differs old new = not (old == 0) && not (old == new)

-- The tests of a session against a request; a field that is zero or empty is not tested.
unfoldable pub session_error : Env → UploadChunkState → Text → ℕ → ℕ → ℕ → Option Error
session_error env st path total chunk count =
    if not (is_nil st.target_path) && not (text_eq (env.clean st.target_path) (env.clean path))
    then some wrong_target
    else if differs st.expected_size total
    then some wrong_total
    else if differs st.chunk_size chunk
    then some wrong_chunk_size
    else if differs st.part_count count
    then some wrong_count
    else none

abbrev pub new_session : Env → UploadStreamSpec → UploadChunkState
new_session env spec = record {
  size = 0;
  expected_size = spec.total_size;
  chunk_size = spec.chunk_size;
  target_path = spec.path;
  parts = [];
  part_count = spec.chunk_count;
  temp_path = upload_part_path_for env spec.path spec.upload_id;
  created_at = 0;
}

abbrev pub or_else : Text → Text → Text
or_else other [] = other
or_else other (c ∷ s) = c ∷ s

abbrev pub path_unless : Text → Option Error → Result Text
path_unless path none = ok path
path_unless path (some e) = err e

-- The tests of the session, and the path of its part file.
unfoldable pub check_session : Env → UploadStreamSpec → UploadChunkState → Result Text
unfolding session_error
check_session env spec st =
    path_unless (or_else (upload_part_path_for env spec.path spec.upload_id) st.temp_path)
      (session_error env st spec.path spec.total_size spec.chunk_size spec.chunk_count)

-- The first part. Only a request marked first starts a session, with an empty part file.
unfoldable pub open_found :
    Env → UploadStreamSpec → Option UploadChunkState → Server → Server × Result Text
unfolding check_session
open_found env spec (some st) sv = (sv, check_session env spec st)
open_found env spec none sv =
    let st = new_session env spec in
    if not spec.first
    then (sv, err unknown_session)
    else if env.can_open st.temp_path
    then (
      record sv {
        chunks = insert spec.upload_id st sv.chunks;
        disk = insert st.temp_path [] sv.disk;
      },
      check_session env spec st,
    )
    else (sv, err open_error)

unfoldable pub open_session : Env → UploadStreamSpec → Server → Server × Result Text
unfolding open_found
open_session env spec sv = open_found env spec (lookup spec.upload_id sv.chunks) sv

-- The second part. `body` is what the reader gives before it ends, or fails where `broken` says so;
-- at most `expected` bytes are copied. Opening the file creates it.
unfoldable pub copy_chunk :
    Env → UploadStreamSpec → Text → List ℕ → Bool → Server → Server × Result ℕ
unfolding write_at
copy_chunk env spec path body broken sv =
    let copied = take spec.expected body in
    let file = get_or [] (lookup path sv.disk) in
    let sv' = record sv { disk = insert path (write_at spec.offset copied file) sv.disk } in
    if not (env.can_open path)
    then (sv, err open_error)
    else if broken && ltb (length copied) spec.expected
    then (sv', err read_error)
    else if not (length copied == spec.expected)
    then (sv', err short_stream)
    else if env.can_sync path
    then (sv', ok (length copied))
    else (sv', err sync_error)

-- The third part.
unfoldable pub record_found :
    Env → UploadStreamSpec → Text → ℕ → Option UploadChunkState → Server → Server × Result ℕ
unfolding add_part
record_found env spec path written none sv = (sv, err session_gone)
record_found env spec path written (some st) sv = (
  record sv {
    chunks =
        insert spec.upload_id
          (record {
            size = max st.size (spec.offset + written);
            expected_size = spec.total_size;
            chunk_size = spec.chunk_size;
            target_path = or_else spec.path st.target_path;
            parts = add_part spec.chunk_index st.parts;
            part_count = spec.chunk_count;
            temp_path = path;
            created_at = env.now;
          })
          sv.chunks;
  },
  ok (spec.offset + written),
)

unfoldable pub record_chunk : Env → UploadStreamSpec → Text → ℕ → Server → Server × Result ℕ
unfolding record_found
record_chunk env spec path written sv =
    record_found env spec path written (lookup spec.upload_id sv.chunks) sv

-- The three parts with nothing in between.
unfoldable pub then_record : Env → UploadStreamSpec → Text → Server × Result ℕ → Server × Result ℕ
then_record env spec path (sv, err e) = (sv, err e)
then_record env spec path (sv, ok written) = record_chunk env spec path written sv

unfoldable pub then_copy :
    Env → UploadStreamSpec → List ℕ → Bool → Server × Result Text → Server × Result ℕ
then_copy env spec body broken (sv, err e) = (sv, err e)
then_copy env spec body broken (sv, ok path) =
    then_record env spec path (copy_chunk env spec path body broken sv)

unfoldable pub write_upload_stream_chunk :
    Env → UploadStreamSpec → List ℕ → Bool → Server → Server × Result ℕ
write_upload_stream_chunk env spec body broken sv =
    then_copy env spec body broken (open_session env spec sv)
