-- ===== src/Tests/Uploads.antt =====
-- server/file_stream.go on small inputs.
use mango_agent.Base.{
  ◌+◌, ◌≤◌, ◌<◌, pos, true, false, some, List, [], ◌∷◌, ◌++◌, codes, Dict, lookup, insert, ◌≡◌,
  refl, arith, delete,
}
use mango_agent.Strings.{trim_space, trim_left, trim_right, has_prefix}
use mango_agent.Upload.Data.{
  text, number, ok, Args, Env, arg_string, arg_bool, arg_int64, resolve_file_path, UploadStreamSpec,
  Lifecycle,
}
use mango_agent.Upload.Spec.{
  check_request, count_of, check_offset, check_index, check_count, check_chunk_size, check_metadata,
  parse_upload_stream_spec,
}
use mango_agent.Upload.Lifecycle.{
  is_stale, prune_upload_lifecycles_locked, begin_found, activate, begin_upload_stream, deactivate,
  end_found, end_upload_stream, cancel_upload_streams, wait_found, wait_upload_streams,
}
use mango_agent.Upload.Layout.{IsChunk, parse_upload_stream_spec-IsChunk}
use mango_agent.Upload.Tiles.{parse_upload_stream_spec-tiles}
use mango_agent.Upload.Cancel.{
  Call, begins, ends, cancels, waits, handle, handle_all, IsSound, handle_all-IsSound,
}
use mango_agent.Upload.Refusal.{begin_upload_stream_refused}
use mango_agent.Base.{ℕ, ◌*◌, ◌-◌, Bool, none, min}
use mango_agent.Upload.Data.{Server, upload_part_path_for}
use mango_agent.Upload.Chunks.{has_part, add_part}
use mango_agent.Upload.Commit.{commit}
use mango_agent.Upload.Assembly.{Job, IsRequest, LetsWrite}
use mango_agent.Upload.Transfer.{LetsCommit, commit_of, send_all, received, send_all-commit}

abbrev system : Env
system = record {
  clean = λ path. path;
  home = some (codes "/root");
  join = λ a b. a ++ (codes "/" ++ b);
  base = λ path. path;
  dir = λ path. path;
  can_open = λ path. true;
  can_sync = λ path. true;
  can_remove = λ path. true;
  can_truncate = λ path. true;
  can_make_dir = λ path. true;
  is_dir = λ path. false;
  can_stat = λ path. true;
  can_chmod = λ path. true;
  can_replace = λ path. true;
  can_sync_dir = λ path. true;
  now = 0;
}

abbrev second_chunk : Args
second_chunk =
    (codes "path", text (codes " /tmp/a"))
    ∷ (codes "upload_id", text (codes "u1"))
    ∷ (codes "offset", number (pos 4))
    ∷ (codes "chunk_count", number (pos 3))
    ∷ (codes "total_size", number (pos 10))
    ∷ (codes "chunk_size", number (pos 4))
    ∷ (codes "chunk_index", number (pos 1))
    ∷ []

abbrev second_spec : UploadStreamSpec
second_spec = record {
  path = codes "/tmp/a";
  upload_id = codes "u1";
  offset = 4;
  chunk_index = 1;
  chunk_count = 3;
  total_size = 10;
  chunk_size = 4;
  expected = 4;
  first = false;
}

parse_upload_stream_spec-IsChunk_example : IsChunk second_spec
unfolding parse_upload_stream_spec check_request check_metadata check_chunk_size check_count
    count_of check_index check_offset resolve_file_path arg_string arg_bool arg_int64 lookup
    trim_space trim_left trim_right has_prefix
parse_upload_stream_spec-IsChunk_example = parse_upload_stream_spec-IsChunk system second_chunk refl

parse_upload_stream_spec-tiles_example :
    ((t : UploadStreamSpec) × (check_index (record second_spec { offset = 4 }) (pos 1) ≡ ok t)
      × (t.offset ≤ 6)
      × (6 < t.offset + t.expected))
    × ((offset index : ℕ) (t : UploadStreamSpec)
        → check_index (record second_spec { offset = offset }) (pos index) ≡ ok t
        → t.offset ≤ 6
        → 6 < t.offset + t.expected
        → index ≡ 1)
unfolding parse_upload_stream_spec check_request check_metadata check_chunk_size check_count
    count_of check_index check_offset resolve_file_path arg_string arg_bool arg_int64 lookup
    trim_space trim_left trim_right has_prefix
parse_upload_stream_spec-tiles_example =
    parse_upload_stream_spec-tiles system second_chunk 6 refl (omega arith)

abbrev some_calls : List Call
some_calls =
    begins 10 (codes "u1") (codes "s1")
    ∷ begins 11 (codes "u1") (codes "s2")
    ∷ cancels 12 (codes "u1")
    ∷ ends (codes "u1") (codes "s1")
    ∷ ends (codes "u1") (codes "s2")
    ∷ ends (codes "u1") (codes "s2")
    ∷ waits (codes "u1")
    ∷ []

handle_all-IsSound_example : (m : Dict Lifecycle) × (handle_all some_calls [] ≡ some m) × IsSound m
handle_all-IsSound_example = handle_all-IsSound some_calls [] tt

abbrev after_cancel : Dict Lifecycle
after_cancel =
    (
      codes "u1",
      record {
        active = 0;
        idle_closed = true;
        canceled = true;
        canceled_at = some 12;
        streams = [];
      },
    )
    ∷ []

begin_upload_stream_refused_example :
    (begin_upload_stream 20 (codes "u1") (codes "s4") after_cancel).1 ≡ false
unfolding handle_all handle begin_upload_stream begin_found activate end_upload_stream end_found
    deactivate cancel_upload_streams prune_upload_lifecycles_locked is_stale wait_upload_streams
    wait_found lookup insert delete
begin_upload_stream_refused_example =
    begin_upload_stream_refused 12 20 b'u' (codes "1") (codes "s4")
      (begins 13 (codes "u1") (codes "s3")
        ∷ begins 14 (codes "u2") (codes "s5")
        ∷ ends (codes "u2") (codes "s5")
        ∷ waits (codes "u1")
        ∷ [])
      [] ((omega arith, omega arith), ((omega arith, omega arith), (tt, (tt, tt)))) (omega arith)
      refl

abbrev ten_bytes : Job
ten_bytes = record {
  bytes = 10 ∷ 11 ∷ 12 ∷ 13 ∷ 14 ∷ 15 ∷ 16 ∷ 17 ∷ 18 ∷ 19 ∷ [];
  target = codes "/tmp/a";
  id = codes "u1";
  chunk = 4;
  count = 3;
}

abbrev request : ℕ → ℕ → ℕ → Bool → UploadStreamSpec
request i off n first = record second_spec {
  chunk_index = i;
  offset = off;
  expected = n;
  first = first;
}

request-IsRequest :
    (i off n : ℕ) (first : Bool)
    → i < 3
    → off ≡ i * 4
    → n ≡ min 4 (10 - off)
    → IsRequest ten_bytes (request i off n first)
request-IsRequest i off n first lt at len = record {
  is_chunk = record {
    total_pos = omega arith;
    chunk_pos = omega arith;
    chunk_max = omega arith;
    count_covers = omega arith;
    count_tight = omega arith;
    index_lt = lt;
    offset_eq = at;
    length_eq = len;
    length_pos = omega arith;
  };
  id_eq = refl;
  path_eq = refl;
  total_eq = refl;
  chunk_eq = refl;
  count_eq = refl;
}

abbrev no_uploads : Server
no_uploads = record { lifecycles = []; chunks = []; disk = [] }

abbrev out_of_order : List UploadStreamSpec
out_of_order =
    request 1 4 4 true ∷ request 2 8 2 false ∷ request 1 4 4 false ∷ request 0 0 4 false ∷ []

system-LetsWrite : LetsWrite system ten_bytes
unfolding upload_part_path_for
system-LetsWrite = record { part_named = refl; target_named = refl; opens = refl; syncs = refl }

system-LetsCommit : LetsCommit system ten_bytes
system-LetsCommit = record {
  truncates = refl;
  makes_dir = refl;
  stats = refl;
  no_dir = refl;
  chmods = refl;
  replaces = refl;
  syncs_dir = refl;
}

send_all-commit_example :
    ((commit system (commit_of ten_bytes) (send_all system ten_bytes out_of_order no_uploads)).1
      ≡ none)
    × (lookup
          (codes "/tmp/a")
          (commit system
            (commit_of ten_bytes)
            (send_all system ten_bytes out_of_order no_uploads)).0.disk
        ≡ some ten_bytes.bytes)
    × (lookup
          (codes "u1")
          (commit system
            (commit_of ten_bytes)
            (send_all system ten_bytes out_of_order no_uploads)).0.chunks
        ≡ none)
unfolding lookup received add_part has_part
send_all-commit_example =
    send_all-commit system ten_bytes system-LetsWrite (request 1 4 4 true)
      (request 2 8 2 false ∷ request 1 4 4 false ∷ request 0 0 4 false ∷ []) no_uploads
      system-LetsCommit
      (
        request-IsRequest 1 4 4 true (omega arith) refl refl,
        (
          request-IsRequest 2 8 2 false (omega arith) refl refl,
          (
            request-IsRequest 1 4 4 false (omega arith) refl refl,
            (request-IsRequest 0 0 4 false (omega arith) refl refl, tt),
          ),
        ),
      )
      refl refl refl
