-- ===== src/Upload/Transfer.antt =====
-- server/file_stream.go and server/files.go: an upload from its first request to its commit.
use mango_agent.Base.{
  ℕ, ◌*◌, ◌/◌, ◌≤◌, ◌<◌, true, false, Bool-cases, none, some, List, [], ◌∷◌, length, take, All,
  lookup, lookup-insert, lookup-delete, text_eq_refl, ==_iff, ltb, ◌≡◌, refl, ap, ◌∙◌, inl, inr,
  arith,
}
use mango_agent.Upload.Data.{Env, same_path, UploadStreamSpec, UploadChunkState, Server}
use mango_agent.Upload.Chunks.{add_part, write_upload_stream_chunk}
use mango_agent.Upload.Commit.{
  CommitSpec, commit_error, replace_target, finish_part, finish_found, commit_checked, commit_found,
  commit,
}
use mango_agent.Upload.Parts.{has_part_of_full, take-eq_of_get_elem?}
use mango_agent.Upload.Assembly.{Job, IsRequest, body_of, part_of, LetsWrite, Holds}
use mango_agent.Upload.Steps.{
  request_runs, request-Holds, opened, opened-Holds, first_runs, differs_same,
}

-- Requests one after another, each with its bytes as body.
unfoldable pub send_all : Env → Job → List UploadStreamSpec → Server → Server
send_all env j [] sv = sv
send_all env j (s ∷ ss) sv =
    send_all env j ss (write_upload_stream_chunk env s (body_of j s) false sv).0

-- The indices that requests bring, each once.
unfoldable pub received : List UploadStreamSpec → List ℕ → List ℕ
received [] parts = parts
received (s ∷ ss) parts = received ss (add_part s.chunk_index parts)

-- What the system must let through for the commit.
pub record LetsCommit (env : Env) (j : Job) : Type 0 where
  pub truncates : env.can_truncate (part_of env j) ≡ true
  pub makes_dir : env.can_make_dir (env.dir j.target) ≡ true
  pub stats : env.can_stat j.target ≡ true
  pub no_dir : env.is_dir j.target ≡ false
  pub chmods : env.can_chmod (part_of env j) ≡ true
  pub replaces : env.can_replace j.target ≡ true
  pub syncs_dir : env.can_sync_dir (env.dir j.target) ≡ true

abbrev pub commit_of : Job → CommitSpec
commit_of j = record {
  path = j.target;
  upload_id = j.id;
  total_size = length j.bytes;
  chunk_size = j.chunk;
  chunk_count = j.count;
}

div-lt : (x c n : ℕ) → 0 < c → x < n * c → x / c < n
div-lt x c n pos_c lt = grind arith

module _ (env : Env) (j : Job) (lets : LetsWrite env j) where
  send_all-Holds :
      (ss : List UploadStreamSpec) (parts : List ℕ) (sv : Server)
      → All (IsRequest j) ss
      → Holds env j parts sv
      → Holds env j (received ss parts) (send_all env j ss sv)
  unfolding send_all received
  send_all-Holds [] parts sv r h = h
  send_all-Holds (s ∷ ss) parts sv r h = rw (request_runs env j lets s sv parts r.0 h) (
      send_all-Holds ss (add_part s.chunk_index parts) _ r.1
        (request-Holds env j lets s sv parts r.0 h))

  -- With all parts received, the part file begins with the job's bytes.
  whole_file :
      (s : UploadStreamSpec) (parts : List ℕ) (sv : Server)
      → IsRequest j s
      → (h : Holds env j parts sv) → length parts ≡ j.count
      → take (length j.bytes) h.file ≡ j.bytes
  whole_file s parts sv r h full = take-eq_of_get_elem? h.file j.bytes (λ x lt.
      let covers = r.is_chunk.count_covers in
      let total = r.total_eq in
      let size : s.chunk_count * s.chunk_size ≡ j.count * j.chunk = simp (r.count_eq, r.chunk_eq) in
      let pos_c : 0 < j.chunk = rw (← r.chunk_eq) r.is_chunk.chunk_pos in
      h.agrees x lt (
        has_part_of_full j.count (x / j.chunk) parts h.distinct h.below full
          (div-lt x j.chunk j.count pos_c (omega arith))))

  -- So it is long enough.
  whole_length : (xs file : List ℕ) → take (length xs) file ≡ xs → length xs ≤ length file
  whole_length [] file h = omega arith
  whole_length (x ∷ xs) [] h = cc
  whole_length (x ∷ xs) (y ∷ file) h =
      let rest : take (length xs) file ≡ xs = cc in omega (arith, whole_length xs file rest)

  commit_passes :
      (st : UploadChunkState)
      → st.expected_size ≡ length j.bytes
      → st.chunk_size ≡ j.chunk
      → st.target_path ≡ j.target
      → st.part_count ≡ j.count
      → st.temp_path ≡ part_of env j
      → length st.parts ≡ j.count
      → commit_error env (commit_of j) st ≡ none
  unfolding commit_error same_path
  commit_passes st total chunk target count temp full =
      simp
        (
          total,
          chunk,
          target,
          count,
          temp,
          full,
          text_eq_refl,
          differs_same,
          lets.target_named,
          lets.part_named,
          (==_iff j.count j.count).1 refl,
        )
        (ground arith)

  commit_runs :
      (sv : Server) (file : List ℕ)
      → LetsCommit env j
      → take (length j.bytes) file ≡ j.bytes
      → ((finish_part env (commit_of j) (part_of env j) file sv).1 ≡ none)
        × (lookup j.target (finish_part env (commit_of j) (part_of env j) file sv).0.disk
            ≡ some j.bytes)
        × (lookup j.id (finish_part env (commit_of j) (part_of env j) file sv).0.chunks ≡ none)
  unfolding finish_part replace_target
  commit_runs sv file c whole =
      let short : ltb (length file) (length j.bytes) ≡ false =
        ground (arith, whole_length j.bytes file whole) in
      elim (Bool-cases (ltb (length j.bytes) (length file))) [
        | inl long ↦
            simp
              (
                short, long, c.truncates, c.makes_dir, c.stats, c.no_dir, c.chmods, c.replaces,
                c.syncs_dir, whole, lookup-insert, lookup-delete, text_eq_refl,
              )
              (refl, refl, refl)
        | inr exact ↦
            simp
              (
                short, exact, c.truncates, c.makes_dir, c.stats, c.no_dir, c.chmods, c.replaces,
                c.syncs_dir, whole, lookup-insert, lookup-delete, text_eq_refl,
              )
              (refl, refl, refl)
      ]

  committed :
      (s : UploadStreamSpec) (parts : List ℕ) (sv : Server)
      → LetsCommit env j
      → IsRequest j s
      → (h : Holds env j parts sv) → length parts ≡ j.count
      → ((commit env (commit_of j) sv).1 ≡ none)
        × (lookup j.target (commit env (commit_of j) sv).0.disk ≡ some j.bytes)
        × (lookup j.id (commit env (commit_of j) sv).0.chunks ≡ none)
  unfolding commit commit_found commit_checked finish_found
  committed s parts sv c r h full =
      let passes =
        commit_passes h.st h.st_total h.st_chunk h.st_target h.st_count h.st_temp
          (ap length h.st_parts ∙ full) in
      simp (h.session, passes, h.st_temp, h.on_disk)
        (commit_runs sv h.file c (whole_file s parts sv r h full))

  -- Where no session of the upload is there, the system lets every write through, and requests
  -- one after another, in any order and some perhaps repeatedly, the first of them marked as first,
  -- each bring a chunk of the same bytes, and together as many different chunks as the upload has:
  -- the commit reports no error, the target file then holds exactly these bytes, and the session is
  -- gone.
  pub send_all-commit :
      (s : UploadStreamSpec) (ss : List UploadStreamSpec) (sv : Server)
      → LetsCommit env j
      → All (IsRequest j) (s ∷ ss)
      → s.first ≡ true
      → lookup j.id sv.chunks ≡ none
      → length (received (s ∷ ss) []) ≡ j.count
      → ((commit env (commit_of j) (send_all env j (s ∷ ss) sv)).1 ≡ none)
        × (lookup j.target (commit env (commit_of j) (send_all env j (s ∷ ss) sv)).0.disk
            ≡ some j.bytes)
        × (lookup j.id (commit env (commit_of j) (send_all env j (s ∷ ss) sv)).0.chunks ≡ none)
  unfolding send_all
  send_all-commit s ss sv c r first new full =
      let held =
        send_all-Holds (s ∷ ss) [] (opened env j lets s sv) r (opened-Holds env j lets s sv r.0) in
      rw (first_runs env j lets s sv r.0 first new) (committed s _ _ c r.0 held full)
