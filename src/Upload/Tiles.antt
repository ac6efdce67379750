-- ===== src/Upload/Tiles.antt =====
-- server/file_stream.go: the chunks that pass the tests of `parseUploadStreamSpec` make up the upload.
use mango_agent.Base.{ℕ, ◌+◌, ◌-◌, ◌*◌, ◌/◌, ◌≤◌, ◌<◌, pos, min, ◌≡◌, arith, ◌∙◌, sym, ap}
use native.Mathlib.Nat.{div-add-mod, mod-lt, div-lt_iff_lt-mul}
use mango_agent.Upload.Data.{Args, Env, UploadStreamSpec, ok}
use mango_agent.Upload.Spec.{check_index, check_offset, parse_upload_stream_spec}
use mango_agent.Upload.Layout.{
  IsChunk, IsCounted, check_index-IsChunk, parse_upload_stream_spec-IsChunk, IsChunk-tiles,
}

IsCounted-of : (s : UploadStreamSpec) → IsChunk s → IsCounted s
IsCounted-of s c = record {
  total_pos = c.total_pos;
  chunk_pos = c.chunk_pos;
  chunk_max = c.chunk_max;
  count_covers = c.count_covers;
  count_tight = c.count_tight;
}

check_index_kept :
    (s : UploadStreamSpec) (i : ℕ) {t : UploadStreamSpec}
    → check_index s (pos i) ≡ ok t
    → (t.chunk_index ≡ i) × (t.chunk_size ≡ s.chunk_size) × (t.total_size ≡ s.total_size)
unfolding check_index check_offset
check_index_kept s i h = (ground arith, ground arith, ground arith)

check_index-accepts :
    (s : UploadStreamSpec) (x : ℕ)
    → IsCounted s
    → x < s.total_size
    → let at = (x / s.chunk_size) * s.chunk_size in
      (t : UploadStreamSpec) × (check_index (record s { offset = at }) (pos (x / s.chunk_size))
        ≡ ok t)
      × (t.offset ≤ x)
      × (x < t.offset + t.expected)
unfolding check_index check_offset
check_index-accepts s x c lt =
    let q = x / s.chunk_size in
    let below : q < s.chunk_count =
      (div-lt_iff_lt-mul c.chunk_pos).1 (omega (arith, lt, c.count_covers)) in
    let e = div-add-mod x s.chunk_size in
    let r = mod-lt x c.chunk_pos in
    let le : q * s.chunk_size ≤ x = omega arith in
    let next : x < q * s.chunk_size + s.chunk_size = omega arith in
    (
      record s {
        chunk_index = q;
        offset = q * s.chunk_size;
        expected = min s.chunk_size (s.total_size - q * s.chunk_size);
      },
      ground (arith, below, le, lt),
      le,
      omega (arith, le, next, lt),
    )

-- Where `parseUploadStreamSpec` accepts metadata, and a position is below their total: of the
-- metadata that differ from these in the index and the offset only, those whose index is the position
-- divided by the chunk size pass the tests with the offset that belongs to it, and any that pass them
-- and have the position in their chunk have that index.
pub parse_upload_stream_spec-tiles :
    (env : Env) (args : Args) {s : UploadStreamSpec} (x : ℕ)
    → parse_upload_stream_spec env args ≡ ok s
    → x < s.total_size
    → let q = x / s.chunk_size in
      ((t : UploadStreamSpec) × (check_index (record s { offset = q * s.chunk_size }) (pos q)
          ≡ ok t)
        × (t.offset ≤ x)
        × (x < t.offset + t.expected))
      × ((offset index : ℕ) (t : UploadStreamSpec)
          → check_index (record s { offset = offset }) (pos index) ≡ ok t
          → t.offset ≤ x
          → x < t.offset + t.expected
          → index ≡ q)
parse_upload_stream_spec-tiles env args {s} x h lt =
    let c = IsCounted-of s (parse_upload_stream_spec-IsChunk env args h) in
    (
      check_index-accepts s x c lt,
      λ offset index t e lo hi.
          let s' : UploadStreamSpec = record s { offset = offset } in
          let (at, size, total) = check_index_kept s' index e in
          let chunk =
            check_index-IsChunk s' (pos index)
              (record {
                total_pos = c.total_pos;
                chunk_pos = c.chunk_pos;
                chunk_max = c.chunk_max;
                count_covers = c.count_covers;
                count_tight = c.count_tight;
              })
              e in
          let found = (IsChunk-tiles t x chunk (omega (arith, total, lt))).0 (lo, hi) in
          sym at ∙ found ∙ ap (λ k. x / k) size,
    )
