-- ===== src/Upload/Spec.antt =====
-- server/file_stream.go: `parseUploadStreamSpec`, and `uploadChunkCount` of server/files.go.
use mango_agent.Base.{
  ℕ, zero, suc, ◌+◌, ◌-◌, ◌*◌, ◌/◌, ℤ, pos, negsuc, Bool, false, ◌||◌, not, Text, codes,
  if◌then◌else◌, text_eq, leb, ltb, ◌==◌, u64, min,
}
use mango_agent.Strings.{trim_space, is_nil, int64_limit, negated}
use mango_agent.Upload.Data.{
  default_transfer_chunk_size, max_transfer_chunk_size, Args, arg_string, arg_bool, arg_int64, Env,
  resolve_file_path, UploadStreamSpec, id_required, not_a_file, bad_metadata, bad_chunk_size,
  bad_count, bad_offset, bad_length, Result, ok, err,
}

-- `path == "/" || path == "."`
abbrev pub is_no_file : Text → Bool
is_no_file path = text_eq path (codes "/") || text_eq path (codes ".")

abbrev pub or_default : ℤ → ℤ
or_default (pos zero) = pos default_transfer_chunk_size
or_default n = n

-- `(total + chunk - 1) / chunk` on `int64`: a sum that overflows wraps to a negative number, and
-- division rounds towards zero.
unfoldable pub count_of : ℕ → ℕ → ℤ
count_of total chunk =
    let sum = total + chunk - 1 in
    if ltb sum int64_limit then pos (sum / chunk) else negated ((u64 - sum) / chunk)

abbrev pub is_count : ℕ → ℤ → Bool
is_count n (pos m) = n == m
is_count n (negsuc m) = false

-- The last tests, on numbers known not to be negative.
unfoldable pub check_offset : UploadStreamSpec → Result UploadStreamSpec
check_offset s =
    if leb s.chunk_count s.chunk_index || not (s.offset == s.chunk_index * s.chunk_size)
    then err bad_offset
    else if s.total_size - s.offset == 0
    then err bad_length
    else ok (record s { expected = min s.chunk_size (s.total_size - s.offset) })

unfoldable pub check_index : UploadStreamSpec → ℤ → Result UploadStreamSpec
unfolding check_offset
check_index s (negsuc i) = err bad_offset
check_index s (pos i) = check_offset (record s { chunk_index = i })

unfoldable pub check_count : UploadStreamSpec → ℤ → Result UploadStreamSpec
unfolding check_index count_of
check_count s index =
    if not (is_count s.chunk_count (count_of s.total_size s.chunk_size))
    then err bad_count
    else check_index s index

unfoldable pub check_chunk_size : UploadStreamSpec → ℤ → ℤ → Result UploadStreamSpec
unfolding check_count
check_chunk_size s (negsuc n) index = err bad_chunk_size
check_chunk_size s (pos zero) index = err bad_chunk_size
check_chunk_size s (pos (suc n)) index =
    if ltb max_transfer_chunk_size (suc n)
    then err bad_chunk_size
    else check_count (record s { chunk_size = suc n }) index

unfoldable pub check_metadata : UploadStreamSpec → ℤ → ℤ → ℤ → ℤ → ℤ → Result UploadStreamSpec
unfolding check_chunk_size
check_metadata s (pos offset) (pos (suc count)) (pos (suc total)) chunk index =
    check_chunk_size (record s { offset = offset; chunk_count = suc count; total_size = suc total })
      chunk index
check_metadata s _ _ _ chunk index = err bad_metadata

unfoldable pub check_request : UploadStreamSpec → ℤ → ℤ → ℤ → ℤ → ℤ → Result UploadStreamSpec
unfolding check_metadata
check_request s offset count total chunk index =
    if is_nil s.upload_id
    then err id_required
    else if is_no_file s.path
    then err not_a_file
    else check_metadata s offset count total (or_default chunk) index

unfoldable pub parse_upload_stream_spec : Env → Args → Result UploadStreamSpec
parse_upload_stream_spec env args =
    check_request
      (record {
        path = resolve_file_path env (arg_string args (codes "path"));
        upload_id = trim_space (arg_string args (codes "upload_id"));
        offset = 0;
        chunk_index = 0;
        chunk_count = 0;
        total_size = 0;
        chunk_size = 0;
        expected = 0;
        first = arg_bool args (codes "first");
      })
      (arg_int64 args (codes "offset")) (arg_int64 args (codes "chunk_count"))
      (arg_int64 args (codes "total_size")) (arg_int64 args (codes "chunk_size"))
      (arg_int64 args (codes "chunk_index"))

-- `uploadChunkCount`
unfoldable pub upload_chunk_count : ℤ → ℤ → ℤ
unfolding count_of
upload_chunk_count (pos (suc size)) (pos (suc chunk)) = count_of (suc size) (suc chunk)
upload_chunk_count _ _ = pos 0
