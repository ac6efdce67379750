-- ===== src/Upload/Commit.antt =====
-- server/files.go: `commitFileUpload` and `cancelFileUpload`. Both wait until no stream of the upload
-- is active.
use mango_agent.Base.{
  ℕ, zero, suc, ℤ, pos, negsuc, Bool, true, false, ◌&&◌, not, Option, none, some, List, [], Text,
  Dict, codes, lookup, insert, delete, if◌then◌else◌, ltb, ◌==◌, take, length,
}
use mango_agent.Strings.{is_nil, trim_space}
use mango_agent.Upload.Data.{
  max_transfer_chunk_size, Args, arg_string, arg_int64, Env, resolve_file_path, same_path,
  upload_part_path_for, UploadChunkState, Lifecycle, Server, Error, id_required, not_a_file,
  bad_metadata, bad_chunk_size, bad_count, unknown_session, wrong_target, wrong_total,
  wrong_chunk_size, wrong_count, incomplete, part_missing, part_short, remove_error, stat_error,
  truncate_error, mkdir_error, is_directory, chmod_error, replace_error, sync_dir_error, Result, ok,
  err,
}
use mango_agent.Upload.Spec.{is_no_file, or_default, upload_chunk_count, is_count}
use mango_agent.Upload.Chunks.{differs}
use mango_agent.Upload.Lifecycle.{cancel_upload_streams, wait_upload_streams}

-- A commit's metadata, checked.
pub record CommitSpec : Type 0 where
  pub path : Text
  pub upload_id : Text
  pub total_size : ℕ
  pub chunk_size : ℕ
  pub chunk_count : ℕ

unfoldable pub check_commit_count : CommitSpec → Result CommitSpec
check_commit_count s =
    if is_count s.chunk_count (upload_chunk_count (pos s.total_size) (pos s.chunk_size))
    then ok s
    else err bad_count

unfoldable pub check_commit_chunk : CommitSpec → ℤ → Result CommitSpec
unfolding check_commit_count
check_commit_chunk s (negsuc n) = err bad_chunk_size
check_commit_chunk s (pos zero) = err bad_chunk_size
check_commit_chunk s (pos (suc n)) =
    if ltb max_transfer_chunk_size (suc n)
    then err bad_chunk_size
    else check_commit_count (record s { chunk_size = suc n })

unfoldable pub check_commit : CommitSpec → ℤ → ℤ → ℤ → Result CommitSpec
unfolding check_commit_chunk
check_commit s (pos (suc total)) (pos (suc count)) chunk =
    check_commit_chunk (record s { total_size = suc total; chunk_count = suc count }) chunk
check_commit s _ _ chunk = err bad_metadata

unfoldable pub parse_commit : Env → Args → Result CommitSpec
unfolding check_commit
parse_commit env args =
    let s : CommitSpec = record {
      path = resolve_file_path env (arg_string args (codes "path"));
      upload_id = trim_space (arg_string args (codes "upload_id"));
      total_size = 0;
      chunk_size = 0;
      chunk_count = 0;
    } in
    if is_nil s.upload_id
    then err id_required
    else if is_no_file s.path
    then err not_a_file
    else check_commit s (arg_int64 args (codes "total_size")) (arg_int64 args (codes "chunk_count"))
        (or_default (arg_int64 args (codes "chunk_size")))

-- The tests of the session.
unfoldable pub commit_error : Env → CommitSpec → UploadChunkState → Option Error
commit_error env s st =
    if not (is_nil st.target_path) && not (same_path env st.target_path s.path)
    then some wrong_target
    else if differs st.expected_size s.total_size
    then some wrong_total
    else if differs st.chunk_size s.chunk_size
    then some wrong_chunk_size
    else if differs st.part_count s.chunk_count
    then some wrong_count
    else if not (length st.parts == s.chunk_count)
    then some incomplete
    else if is_nil st.temp_path
    then some part_missing
    else none

-- The rename of the part file over the target, and the end of the session.
unfoldable pub replace_target : Env → CommitSpec → Text → List ℕ → Server → Server × Option Error
replace_target env s part content sv =
    let moved = record sv { disk = insert s.path content (delete part sv.disk) } in
    if not (env.can_replace s.path)
    then (sv, some replace_error)
    else if not (env.can_sync_dir (env.dir s.path))
    then (moved, some sync_dir_error)
    else (record moved { chunks = delete s.upload_id sv.chunks }, none)

abbrev pub is_some {ℓ} : {A : Type ℓ} → Option A → Bool
is_some none = false
is_some (some a) = true

-- From the part file's length on. A target that is there lends the part file its mode.
unfoldable pub finish_part : Env → CommitSpec → Text → List ℕ → Server → Server × Option Error
finish_part env s part content sv =
    let cut = record sv { disk = insert part (take s.total_size content) sv.disk } in
    let long = ltb s.total_size (length content) in
    let sv' = if long then cut else sv in
    if ltb (length content) s.total_size
    then (sv, some part_short)
    else if long && not (env.can_truncate part)
    then (sv, some truncate_error)
    else if not (env.can_make_dir (env.dir s.path))
    then (sv', some mkdir_error)
    else if not (env.can_stat s.path)
    then (sv', some stat_error)
    else if env.is_dir s.path
    then (sv', some is_directory)
    else if not (env.can_chmod part)
    then (sv', some chmod_error)
    else replace_target env s part (take s.total_size content) sv'

unfoldable pub finish_found :
    Env → CommitSpec → Text → Option (List ℕ) → Server → Server × Option Error
finish_found env s part none sv = (sv, some stat_error)
finish_found env s part (some content) sv = finish_part env s part content sv

unfoldable pub commit_checked :
    Env → CommitSpec → UploadChunkState → Option Error → Server → Server × Option Error
commit_checked env s st (some e) sv = (sv, some e)
commit_checked env s st none sv = finish_found env s st.temp_path (lookup st.temp_path sv.disk) sv

unfoldable pub commit_found :
    Env → CommitSpec → Option UploadChunkState → Server → Server × Option Error
commit_found env s none sv = (sv, some unknown_session)
commit_found env s (some st) sv = commit_checked env s st (commit_error env s st) sv

unfoldable pub commit : Env → CommitSpec → Server → Server × Option Error
commit env s sv = commit_found env s (lookup s.upload_id sv.chunks) sv

-- A call that ends, or that waits for streams to end, with the state that it leaves until then.
pub data Progress : Type 0 where
  finished : Server × Option Error → Progress
  waiting : Server → Progress

abbrev go_on : (Server → Server × Option Error) → Server → Option (Dict Lifecycle) → Progress
go_on f sv none = waiting sv
go_on f sv (some m) = finished (f (record sv { lifecycles = m }))

-- What follows a call of `waitUploadStreams`.
unfoldable pub after_wait : Text → (Server → Server × Option Error) → Server → Progress
after_wait id f sv = go_on f sv (wait_upload_streams id sv.lifecycles)

unfoldable pub commit_parsed : Env → Result CommitSpec → Server → Progress
unfolding after_wait
commit_parsed env (err e) sv = finished (sv, some e)
commit_parsed env (ok s) sv = after_wait s.upload_id (commit env s) sv

-- `commitFileUpload`
unfoldable pub commit_file_upload : Env → Args → Server → Progress
commit_file_upload env args sv = commit_parsed env (parse_commit env args) sv

-- `os.Remove`, where a file that is not there is no error.
unfoldable pub remove_file : Env → Text → Server → Server × Option Error
remove_file env path sv =
    if not (is_some (lookup path sv.disk))
    then (sv, none)
    else if env.can_remove path
    then (record sv { disk = delete path sv.disk }, none)
    else (sv, some remove_error)

unfoldable pub forget_session : Text → Server × Option Error → Server × Option Error
forget_session id (sv, some e) = (sv, some e)
forget_session id (sv, none) = (record sv { chunks = delete id sv.chunks }, none)

-- `removeUploadFileLocked`, of a session that is there.
unfoldable pub remove_upload_file_locked :
    Env → Text → UploadChunkState → Server → Server × Option Error
unfolding remove_file forget_session
remove_upload_file_locked env id st sv =
    forget_session id (if is_nil st.temp_path then (sv, none) else remove_file env st.temp_path sv)

unfoldable pub cancel_found :
    Env → Text → Text → Option UploadChunkState → Server → Server × Option Error
unfolding remove_upload_file_locked
cancel_found env id target none sv =
    if is_nil target then (sv, none) else remove_file env (upload_part_path_for env target id) sv
cancel_found env id target (some st) sv =
    if not (is_nil target)
      && (not (is_nil st.target_path) && not (same_path env target st.target_path))
    then (sv, some wrong_target)
    else remove_upload_file_locked env id st sv

-- `cancelFileUpload`
unfoldable pub cancel_file_upload : Env → Args → Server → Progress
unfolding after_wait
cancel_file_upload env args sv =
    let id = trim_space (arg_string args (codes "upload_id")) in
    let path = trim_space (arg_string args (codes "path")) in
    let target = if is_nil path then [] else resolve_file_path env path in
    let stopped = record sv { lifecycles = (cancel_upload_streams env.now id sv.lifecycles).0 } in
    if is_nil id
    then finished (sv, some id_required)
    else after_wait id (λ sv'. cancel_found env id target (lookup id sv'.chunks) sv') stopped
