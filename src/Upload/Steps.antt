-- ===== src/Upload/Steps.antt =====
-- server/file_stream.go: what one request of an upload does to its session and its part file.
use mango_agent.Base.{
  ℕ, ◌+◌, true, false, none, some, List, [], ◌∷◌, Text, length, lookup, insert, lookup-insert,
  text_eq_refl, ==_iff, max, ◌≡◌, refl, ap, arith,
}
use mango_agent.Strings.{is_nil}
use mango_agent.Upload.Data.{
  Env, upload_part_path_for, UploadStreamSpec, UploadChunkState, Server, ok,
}
use mango_agent.Upload.Chunks.{
  has_part, add_part, write_at, differs, session_error, new_session, or_else, check_session,
  open_found, open_session, copy_chunk, record_found, record_chunk, then_record, then_copy,
  write_upload_stream_chunk,
}
use mango_agent.Upload.Parts.{add_part-Distinct, add_part-Below, take-take}
use mango_agent.Upload.Assembly.{
  Job, IsRequest, body_of, part_of, LetsWrite, Holds, length-body, written_agrees,
}

pub differs_same : (n : ℕ) → differs n n ≡ false
differs_same n = ground arith

or_else_named : (o p : Text) → is_nil p ≡ false → or_else o p ≡ p
or_else_named o [] h = cc
or_else_named o (c ∷ p) h = refl

module _ (env : Env) (j : Job) (lets : LetsWrite env j) where
  -- A session that has the job's data passes the tests of a request of the job.
  check_session_passes :
      (s : UploadStreamSpec) (st : UploadChunkState)
      → IsRequest j s
      → st.expected_size ≡ length j.bytes
      → st.chunk_size ≡ j.chunk
      → st.target_path ≡ j.target
      → st.part_count ≡ j.count
      → st.temp_path ≡ part_of env j
      → check_session env s st ≡ ok (part_of env j)
  unfolding check_session session_error
  check_session_passes s st r total chunk target count temp = simp (
    total,
    chunk,
    target,
    count,
    temp,
    r.path_eq,
    r.total_eq,
    r.chunk_eq,
    r.count_eq,
    r.id_eq,
    text_eq_refl,
    differs_same,
    or_else_named _ (part_of env j) lets.part_named,
    lets.target_named,
  )

  copy_chunk_runs :
      (s : UploadStreamSpec) (sv : Server) (file : List ℕ)
      → IsRequest j s
      → lookup (part_of env j) sv.disk ≡ some file
      → copy_chunk env s (part_of env j) (body_of j s) false sv ≡ (
        record sv { disk = insert (part_of env j) (write_at s.offset (body_of j s) file) sv.disk },
        ok s.expected,
      )
  unfolding copy_chunk
  copy_chunk_runs s sv file r at = simp (
    at,
    take-take,
    length-body env j lets s r,
    (==_iff s.expected s.expected).1 refl,
    lets.opens,
    lets.syncs,
  )

  -- The session after the request.
  abbrev pub recorded_state : UploadStreamSpec → UploadChunkState → UploadChunkState
  recorded_state s st = record {
    size = max st.size (s.offset + s.expected);
    expected_size = s.total_size;
    chunk_size = s.chunk_size;
    target_path = or_else s.path st.target_path;
    parts = add_part s.chunk_index st.parts;
    part_count = s.chunk_count;
    temp_path = part_of env j;
    created_at = env.now;
  }

  abbrev pub after_request : UploadStreamSpec → List ℕ → UploadChunkState → Server → Server
  after_request s file st sv = record sv {
    disk = insert (part_of env j) (write_at s.offset (body_of j s) file) sv.disk;
    chunks = insert s.upload_id (recorded_state s st) sv.chunks;
  }

  pub request_runs :
      (s : UploadStreamSpec) (sv : Server) (parts : List ℕ)
      → IsRequest j s
      → (h : Holds env j parts sv)
      → write_upload_stream_chunk env s (body_of j s) false sv
        ≡ (after_request s h.file h.st sv, ok (s.offset + s.expected))
  unfolding write_upload_stream_chunk open_session open_found then_copy then_record record_chunk
      record_found
  request_runs s sv parts r h =
      let found : lookup s.upload_id sv.chunks ≡ some h.st = simp r.id_eq h.session in
      simp (
        found,
        check_session_passes s h.st r h.st_total h.st_chunk h.st_target h.st_count h.st_temp,
        copy_chunk_runs s sv h.file r h.on_disk,
      )

  pub request-Holds :
      (s : UploadStreamSpec) (sv : Server) (parts : List ℕ)
      → IsRequest j s
      → (h : Holds env j parts sv)
      → Holds env j (add_part s.chunk_index parts) (after_request s h.file h.st sv)
  request-Holds s sv parts r h = record {
    st = recorded_state s h.st;
    file = write_at s.offset (body_of j s) h.file;
    session = simp (r.id_eq) (rw (lookup-insert, text_eq_refl) refl);
    on_disk = rw (lookup-insert, text_eq_refl) refl;
    st_total = r.total_eq;
    st_chunk = r.chunk_eq;
    st_target = simp (h.st_target) (or_else_named s.path j.target lets.target_named);
    st_count = r.count_eq;
    st_temp = refl;
    st_parts = ap (add_part s.chunk_index) h.st_parts;
    distinct = add_part-Distinct s.chunk_index parts h.distinct;
    below =
        add_part-Below j.count s.chunk_index parts
          (let i = r.is_chunk.index_lt in let c = r.count_eq in omega arith) h.below;
    agrees = λ x lt there. written_agrees env j lets s parts h.file x r (h.agrees x lt) lt there;
  }

  -- The state in which the first request of an upload writes.
  abbrev pub opened : UploadStreamSpec → Server → Server
  opened s sv = record sv {
    chunks = insert s.upload_id (new_session env s) sv.chunks;
    disk = insert (new_session env s).temp_path [] sv.disk;
  }

  part_same :
      (s : UploadStreamSpec)
      → IsRequest j s
      → upload_part_path_for env s.path s.upload_id ≡ part_of env j
  part_same s r = simp (r.path_eq, r.id_eq)

  pub opened-Holds :
      (s : UploadStreamSpec) (sv : Server) → IsRequest j s → Holds env j [] (opened s sv)
  unfolding has_part
  opened-Holds s sv r = record {
    st = new_session env s;
    file = [];
    session = simp (r.id_eq) (rw (lookup-insert, text_eq_refl) refl);
    on_disk = rw (part_same s r, lookup-insert, text_eq_refl) refl;
    st_total = r.total_eq;
    st_chunk = r.chunk_eq;
    st_target = r.path_eq;
    st_count = r.count_eq;
    st_temp = part_same s r;
    st_parts = refl;
    distinct = tt;
    below = tt;
    agrees = λ x lt there. cc;
  }

  pub first_runs :
      (s : UploadStreamSpec) (sv : Server)
      → IsRequest j s
      → s.first ≡ true
      → lookup j.id sv.chunks ≡ none
      → write_upload_stream_chunk env s (body_of j s) false sv
        ≡ write_upload_stream_chunk env s (body_of j s) false (opened s sv)
  unfolding write_upload_stream_chunk open_session open_found
  first_runs s sv r first new =
      let fresh : lookup s.upload_id sv.chunks ≡ none = simp r.id_eq new in
      let can : env.can_open (upload_part_path_for env s.path s.upload_id) ≡ true =
        rw (part_same s r) lets.opens in
      simp (fresh, first, can, lookup-insert, text_eq_refl)
