-- ===== src/Upload/Layout.antt =====
-- server/file_stream.go: the shape of the chunks that `parseUploadStreamSpec` lets through.
use mango_agent.Base.{
  ℕ, zero, suc, ◌+◌, ◌-◌, ◌*◌, ◌/◌, ◌%◌, ◌≤◌, ◌<◌, ℤ, pos, negsuc, true, false, ltb, u64, min, ◌≡◌,
  refl, arith, Bool-cases, inl, inr, ◌↔◌, ◌∙◌,
}
use mathlib.Core.Path.{subst}
use native.Mathlib.Nat.{div-add-mod, mod-lt}
use mango_agent.Strings.{is_nil, int64_limit, negated}
use mango_agent.Upload.Data.{Args, Env, max_transfer_chunk_size, UploadStreamSpec, ok}
use mango_agent.Upload.Spec.{
  is_no_file, or_default, check_request, count_of, is_count, check_offset, check_index, check_count,
  check_chunk_size, check_metadata, parse_upload_stream_spec,
}

-- A chunk of an upload: its place, its length, and the number of chunks.
pub record IsChunk (s : UploadStreamSpec) : Type 0 where
  pub total_pos : 0 < s.total_size
  pub chunk_pos : 0 < s.chunk_size
  pub chunk_max : s.chunk_size ≤ max_transfer_chunk_size
  pub count_covers : s.total_size ≤ s.chunk_count * s.chunk_size
  pub count_tight : s.chunk_count * s.chunk_size < s.total_size + s.chunk_size
  pub index_lt : s.chunk_index < s.chunk_count
  pub offset_eq : s.offset ≡ s.chunk_index * s.chunk_size
  pub length_eq : s.expected ≡ min s.chunk_size (s.total_size - s.offset)
  pub length_pos : 0 < s.expected

-- What the tests have established before the offset is looked at.
pub record IsCounted (s : UploadStreamSpec) : Type 0 where
  pub total_pos : 0 < s.total_size
  pub chunk_pos : 0 < s.chunk_size
  pub chunk_max : s.chunk_size ≤ max_transfer_chunk_size
  pub count_covers : s.total_size ≤ s.chunk_count * s.chunk_size
  pub count_tight : s.chunk_count * s.chunk_size < s.total_size + s.chunk_size

is_count-negated : (n k : ℕ) → is_count (suc n) (negated k) ≡ false
is_count-negated n zero = ground arith
is_count-negated n (suc k) = refl

is_count-count_of :
    (n total chunk : ℕ)
    → is_count (suc n) (count_of total chunk) ≡ true
    → suc n ≡ (total + chunk - 1) / chunk
unfolding count_of
is_count-count_of n total chunk e = elim (Bool-cases (ltb (total + chunk - 1) int64_limit)) [
  | inl fits ↦ ground arith
  | inr wraps ↦ ground (arith, is_count-negated n ((u64 - (total + chunk - 1)) / chunk))
]

-- Rounding up, for a count that is not zero.
count_bounds :
    (n total chunk : ℕ)
    → 0 < chunk
    → n ≡ (total + chunk - 1) / chunk
    → (total ≤ n * chunk) × (n * chunk < total + chunk)
count_bounds n total chunk h e =
    let q = div-add-mod (total + chunk - 1) chunk in
    let r : (total + chunk - 1) % chunk < chunk = mod-lt (total + chunk - 1) h in
    rw e (omega arith, omega arith)

check_offset-IsChunk :
    (s : UploadStreamSpec) {t : UploadStreamSpec} → IsCounted s → check_offset s ≡ ok t → IsChunk t
unfolding check_offset
check_offset-IsChunk s c h = record {
  total_pos = ground arith;
  chunk_pos = ground arith;
  chunk_max = ground arith;
  count_covers = ground arith;
  count_tight = ground arith;
  index_lt = ground arith;
  offset_eq = ground arith;
  length_eq = ground arith;
  length_pos = ground arith;
}

pub check_index-IsChunk :
    (s : UploadStreamSpec) (index : ℤ) {t : UploadStreamSpec}
    → IsCounted s
    → check_index s index ≡ ok t
    → IsChunk t
unfolding check_index
check_index-IsChunk s (negsuc i) c h = cc
check_index-IsChunk s (pos i) c h =
    check_offset-IsChunk (record s { chunk_index = i })
      (record {
        total_pos = c.total_pos;
        chunk_pos = c.chunk_pos;
        chunk_max = c.chunk_max;
        count_covers = c.count_covers;
        count_tight = c.count_tight;
      })
      h

check_count-IsChunk :
    (s : UploadStreamSpec) (n : ℕ) (index : ℤ) {t : UploadStreamSpec}
    → s.chunk_count ≡ suc n
    → 0 < s.total_size
    → 0 < s.chunk_size
    → s.chunk_size ≤ max_transfer_chunk_size
    → check_count s index ≡ ok t
    → IsChunk t
unfolding check_count
check_count-IsChunk s n index e total chunk most h =
    elim (Bool-cases (is_count s.chunk_count (count_of s.total_size s.chunk_size))) [
      | inl fits ↦
          let n_eq : suc n ≡ (s.total_size + s.chunk_size - 1) / s.chunk_size =
            is_count-count_of n s.total_size s.chunk_size
              (subst (λ (k : ℕ). is_count k (count_of s.total_size s.chunk_size) ≡ true) e fits) in
          let (covers, tight) =
            count_bounds s.chunk_count s.total_size s.chunk_size chunk (e ∙ n_eq) in
          check_index-IsChunk s index
            (record {
              total_pos = total;
              chunk_pos = chunk;
              chunk_max = most;
              count_covers = covers;
              count_tight = tight;
            })
            (simp fits at h)
      | inr not_fits ↦ cc (simp not_fits at h)
    ]

check_chunk_size-IsChunk :
    (s : UploadStreamSpec) (n : ℕ) (chunk index : ℤ) {t : UploadStreamSpec}
    → s.chunk_count ≡ suc n
    → 0 < s.total_size
    → check_chunk_size s chunk index ≡ ok t
    → IsChunk t
unfolding check_chunk_size
check_chunk_size-IsChunk s n (negsuc c) index e total h = cc
check_chunk_size-IsChunk s n (pos zero) index e total h = cc
check_chunk_size-IsChunk s n (pos (suc c)) index e total h =
    elim (Bool-cases (ltb max_transfer_chunk_size (suc c))) [
      | inl over ↦ cc (simp over at h)
      | inr fits ↦
          check_count-IsChunk (record s { chunk_size = suc c }) n index e total (omega arith)
            (ground arith) (simp fits at h)
    ]

check_metadata-IsChunk :
    (s : UploadStreamSpec) (offset count total chunk index : ℤ) {t : UploadStreamSpec}
    → check_metadata s offset count total chunk index ≡ ok t
    → IsChunk t
unfolding check_metadata
check_metadata-IsChunk s (pos o) (pos (suc n)) (pos (suc m)) chunk index h =
    check_chunk_size-IsChunk (record s { offset = o; chunk_count = suc n; total_size = suc m }) n
      chunk index refl (omega arith) h
check_metadata-IsChunk s _ _ _ chunk index h = cc

check_request-IsChunk :
    (s : UploadStreamSpec) (offset count total chunk index : ℤ) {t : UploadStreamSpec}
    → check_request s offset count total chunk index ≡ ok t
    → IsChunk t
unfolding check_request
check_request-IsChunk s offset count total chunk index h = elim (Bool-cases (is_nil s.upload_id)) [
  | inl unnamed ↦ cc (simp unnamed at h)
  | inr named ↦ elim (Bool-cases (is_no_file s.path)) [
    | inl none_given ↦ cc (simp (named, none_given) at h)
    | inr file ↦
        check_metadata-IsChunk s offset count total (or_default chunk) index
          (simp (named, file) at h)
  ]
]

-- Metadata that `parseUploadStreamSpec` accepts describe a chunk: the size and the count are
-- positive, the chunk size is at most the limit, the count is the total divided by the chunk size
-- and rounded up, the index is below it, the offset is the index times the chunk size, and the
-- length is positive and the chunk size or what is left.
pub parse_upload_stream_spec-IsChunk :
    (env : Env) (args : Args) {s : UploadStreamSpec}
    → parse_upload_stream_spec env args ≡ ok s
    → IsChunk s
unfolding parse_upload_stream_spec
parse_upload_stream_spec-IsChunk env args h = check_request-IsChunk _ _ _ _ _ _ h

div_between : (i c x : ℕ) → 0 < c → i * c ≤ x → x < i * c + c → i ≡ x / c
div_between i c x h lo hi = grind arith

-- A chunk has exactly those positions that give its index when they are divided by the chunk size.
pub IsChunk-tiles :
    (s : UploadStreamSpec) (x : ℕ)
    → IsChunk s
    → x < s.total_size
    → ((s.offset ≤ x) × (x < s.offset + s.expected)) ↔ (s.chunk_index ≡ x / s.chunk_size)
IsChunk-tiles s x c lt = (
  λ h. div_between s.chunk_index s.chunk_size x c.chunk_pos (omega arith) (omega arith),
  λ h.
      let q = div-add-mod x s.chunk_size in
      let r = mod-lt x c.chunk_pos in
      let q' : s.chunk_size * s.chunk_index + x % s.chunk_size ≡ x = rw h q in
      (omega arith, omega arith),
)
