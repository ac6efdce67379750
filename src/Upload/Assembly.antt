-- ===== src/Upload/Assembly.antt =====
-- server/file_stream.go and server/files.go: the requests of one upload, and the part file under
-- them.
use mango_agent.Base.{
  ℕ, ◌+◌, ◌-◌, ◌/◌, ◌≤◌, ◌<◌, true, false, Bool-cases, some, List, Text, length, take, drop, lookup,
  ◌==◌, ==_iff, ltb, ◌≡◌, sym, ap, ◌∙◌, inl, inr, arith,
}
use mango_agent.Strings.{is_nil}
use mango_agent.Upload.Data.{Env, upload_part_path_for, UploadStreamSpec, UploadChunkState, Server}
use mango_agent.Upload.Chunks.{has_part, add_part, write_at}
use mango_agent.Upload.Layout.{IsChunk, IsChunk-tiles}
use mango_agent.Upload.Parts.{
  Distinct, Below, has_part-add_part, get_elem?, get_elem?-write_at_in, get_elem?-write_at_out,
  get_elem?-slice, length-slice, get_elem?_of_lt,
}

-- The upload: the bytes, the target, the upload's id, the chunk size and the number of chunks.
pub record Job : Type 0 where
  pub bytes : List ℕ
  pub target : Text
  pub id : Text
  pub chunk : ℕ
  pub count : ℕ

-- A request of the job: a chunk of it, with its bytes as body.
pub record IsRequest (j : Job) (s : UploadStreamSpec) : Type 0 where
  pub is_chunk : IsChunk s
  pub id_eq : s.upload_id ≡ j.id
  pub path_eq : s.path ≡ j.target
  pub total_eq : s.total_size ≡ length j.bytes
  pub chunk_eq : s.chunk_size ≡ j.chunk
  pub count_eq : s.chunk_count ≡ j.count

abbrev pub body_of : Job → UploadStreamSpec → List ℕ
body_of j s = take s.expected (drop s.offset j.bytes)

abbrev pub part_of : Env → Job → Text
part_of env j = upload_part_path_for env j.target j.id

-- What the system must let through for the part file.
pub record LetsWrite (env : Env) (j : Job) : Type 0 where
  pub part_named : is_nil (part_of env j) ≡ false
  pub target_named : is_nil j.target ≡ false
  pub opens : env.can_open (part_of env j) ≡ true
  pub syncs : env.can_sync (part_of env j) ≡ true

-- The session's part of the state, and the file that agrees with the bytes in every chunk received.
pub record Holds (env : Env) (j : Job) (parts : List ℕ) (sv : Server) : Type 0 where
  pub st : UploadChunkState
  pub file : List ℕ
  pub session : lookup j.id sv.chunks ≡ some st
  pub on_disk : lookup (part_of env j) sv.disk ≡ some file
  pub st_total : st.expected_size ≡ length j.bytes
  pub st_chunk : st.chunk_size ≡ j.chunk
  pub st_target : st.target_path ≡ j.target
  pub st_count : st.part_count ≡ j.count
  pub st_temp : st.temp_path ≡ part_of env j
  pub st_parts : st.parts ≡ parts
  pub distinct : Distinct parts
  pub below : Below j.count parts
  pub agrees :
      (x : ℕ)
      → x < length j.bytes
      → has_part (x / j.chunk) parts ≡ true
      → get_elem? file x ≡ get_elem? j.bytes x

module _ (env : Env) (j : Job) (lets : LetsWrite env j) where
  pub length-body : (s : UploadStreamSpec) → IsRequest j s → length (body_of j s) ≡ s.expected
  length-body s r =
      length-slice s.expected s.offset j.bytes
        (omega (arith, r.is_chunk.length_eq, r.total_eq, r.is_chunk.length_pos))

  -- The file after the chunk's bytes are written into it.
  pub written_agrees :
      (s : UploadStreamSpec) (parts file : List ℕ) (x : ℕ)
      → IsRequest j s
      → (has_part (x / j.chunk) parts ≡ true → get_elem? file x ≡ get_elem? j.bytes x)
      → x < length j.bytes
      → has_part (x / j.chunk) (add_part s.chunk_index parts) ≡ true
      → get_elem? (write_at s.offset (body_of j s) file) x ≡ get_elem? j.bytes x
  written_agrees s parts file x r old lt h =
      let tiles = IsChunk-tiles s x r.is_chunk (omega (arith, r.total_eq)) in
      let len = length-body s r in
      elim (Bool-cases (s.chunk_index == x / j.chunk)) [
        | inl mine ↦
            let inside = tiles.1 (rw r.chunk_eq ((==_iff _ _).0 mine)) in
            get_elem?-write_at_in s.offset (body_of j s) file x inside.0 (omega arith)
            ∙ get_elem?-slice s.expected s.offset j.bytes (x - s.offset) (omega arith)
            ∙ ap (get_elem? j.bytes) (omega arith)
        | inr other ↦
            let (v, found) = get_elem?_of_lt j.bytes x lt in
            let there : has_part (x / j.chunk) parts ≡ true =
              ground (arith, has_part-add_part s.chunk_index (x / j.chunk) parts) in
            let outside : s.offset ≤ x → s.offset + length (body_of j s) ≤ x = λ le.
              elim (Bool-cases (ltb x (s.offset + s.expected))) [
                | inl below ↦
                    let i : s.chunk_index ≡ x / j.chunk =
                      tiles.0 (le, ground arith) ∙ ap (λ (c : ℕ). x / c) r.chunk_eq in
                    ground arith
                | inr above ↦ ground (arith, len)
              ] in
            get_elem?-write_at_out s.offset (body_of j s) file x v outside (old there ∙ found)
            ∙ sym found
      ]
