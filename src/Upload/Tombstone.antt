-- ===== src/Upload/Tombstone.antt =====
-- server/file_stream.go: what keeps the entry of a cancelled upload.
use mango_agent.Base.{
  ℕ, ◌+◌, ◌-◌, ◌≤◌, ◌<◌, true, false, Bool-cases, Option-cases, some, [], ◌∷◌, Text, Dict, lookup,
  insert, delete, lookup-insert, lookup-delete, get_or, ◌==◌, text_eq, text_eq_iff, text_eq_refl,
  ◌≡◌, refl, inl, inr, arith, ◌∙◌,
}
use mango_agent.Upload.Data.{Lifecycle}
use mango_agent.Upload.Lifecycle.{
  tombstone_ttl, is_stale, prune_upload_lifecycles_locked, new_lifecycle, begin_found, drop_stream,
  deactivate, end_found, wait_found,
}

-- The entry of an upload that was cancelled at `t` or later.
pub record IsCancelled (t : ℕ) (id : Text) (m : Dict Lifecycle) : Type 0 where
  pub entry : Lifecycle
  pub at : ℕ
  pub found : lookup id m ≡ some entry
  pub canceled : entry.canceled ≡ true
  pub canceled_at : entry.canceled_at ≡ some at
  pub late : t ≤ at

prune-lookup :
    (now : ℕ) (id : Text) (m : Dict Lifecycle) {l : Lifecycle}
    → lookup id m ≡ some l
    → is_stale now l ≡ false
    → lookup id (prune_upload_lifecycles_locked now m) ≡ some l
unfolding prune_upload_lifecycles_locked lookup
prune-lookup now id [] h k = cc
prune-lookup now id ((j, w) ∷ m) {l} h k = elim (Bool-cases (text_eq j id)) [
  | inl same ↦
      let e : w ≡ l = cc (simp same at h) in
      let f : is_stale now w ≡ false = rw e k in rw (f, same) (simp same at h)
  | inr other ↦
      let rest = prune-lookup now id m {l = l} (simp other at h) k in
      elim (Bool-cases (is_stale now w)) [
        | inl stale ↦ rw stale rest
        | inr fresh ↦ rw (fresh, other) rest
      ]
]

module _ (t : ℕ) (id : Text) where
  pub prune-IsCancelled :
      (now : ℕ) (m : Dict Lifecycle)
      → now < t + tombstone_ttl
      → IsCancelled t id m
      → IsCancelled t id (prune_upload_lifecycles_locked now m)
  unfolding is_stale
  prune-IsCancelled now m h c = record {
    entry = c.entry;
    at = c.at;
    found =
        prune-lookup now id m c.found
          (let a = c.canceled in let b = c.canceled_at in let d = c.late in ground arith);
    canceled = c.canceled;
    canceled_at = c.canceled_at;
    late = c.late;
  }

  -- An entry of another upload, or one that is still cancelled.
  insert-IsCancelled :
      (j : Text) (l : Lifecycle) (m : Dict Lifecycle)
      → IsCancelled t id m
      → text_eq j id ≡ false
      → IsCancelled t id (insert j l m)
  insert-IsCancelled j l m c other = record {
    entry = c.entry;
    at = c.at;
    found = rw (lookup-insert j id l m, other) c.found;
    canceled = c.canceled;
    canceled_at = c.canceled_at;
    late = c.late;
  }

  delete-IsCancelled :
      (j : Text) (m : Dict Lifecycle)
      → IsCancelled t id m
      → text_eq j id ≡ false
      → IsCancelled t id (delete j m)
  delete-IsCancelled j m c other = record {
    entry = c.entry;
    at = c.at;
    found = rw (lookup-delete j id m, other) c.found;
    canceled = c.canceled;
    canceled_at = c.canceled_at;
    late = c.late;
  }

  pub own-IsCancelled :
      (l : Lifecycle) (m : Dict Lifecycle) (at : ℕ)
      → l.canceled ≡ true
      → l.canceled_at ≡ some at
      → t ≤ at
      → IsCancelled t id (insert id l m)
  own-IsCancelled l m at a b d = record {
    entry = l;
    at = at;
    found = rw (lookup-insert id id l m, text_eq_refl id) refl;
    canceled = a;
    canceled_at = b;
    late = d;
  }

  drop_stream-canceled :
      (stream : Text) (l : Lifecycle)
      → ((drop_stream stream l).canceled ≡ l.canceled)
        × ((drop_stream stream l).canceled_at ≡ l.canceled_at)
  drop_stream-canceled [] l = (refl, refl)
  drop_stream-canceled (c ∷ s) l = (refl, refl)

  deactivate_own :
      (l : Lifecycle) (m : Dict Lifecycle) (at : ℕ) {m' : Dict Lifecycle}
      → l.canceled ≡ true
      → l.canceled_at ≡ some at
      → t ≤ at
      → deactivate id l m ≡ some m'
      → IsCancelled t id m'
  unfolding deactivate
  deactivate_own l m at {m'} a b d h = elim (Bool-cases (l.active == 0)) [
    | inl idle ↦
        let e : insert id l m ≡ m' = cc (simp idle at h) in rw⁻¹ e (own-IsCancelled l m at a b d)
    | inr busy ↦ elim (Bool-cases (l.active - 1 == 0)) [
      | inl last ↦ elim (Bool-cases l.idle_closed) [
        | inl closed ↦ cc (simp (busy, last, closed) at h)
        | inr opened ↦
            let e : insert id (record l { active = l.active - 1; idle_closed = true }) m ≡ m' =
              ground arith in
            rw⁻¹ e (own-IsCancelled _ m at a b d)
      ]
      | inr more ↦
          let e : insert id (record l { active = l.active - 1 }) m ≡ m' = ground arith in
          rw⁻¹ e (own-IsCancelled _ m at a b d)
    ]
  ]

  deactivate_other :
      (j : Text) (l : Lifecycle) (m : Dict Lifecycle) {m' : Dict Lifecycle}
      → IsCancelled t id m
      → text_eq j id ≡ false
      → deactivate j l m ≡ some m'
      → IsCancelled t id m'
  unfolding deactivate
  deactivate_other j l m {m'} c other h = elim (Bool-cases (l.active == 0)) [
    | inl idle ↦
        let e : insert j l m ≡ m' = cc (simp idle at h) in rw⁻¹ e (insert-IsCancelled j l m c other)
    | inr busy ↦ elim (Bool-cases (l.active - 1 == 0)) [
      | inl last ↦ elim (Bool-cases l.idle_closed) [
        | inl closed ↦ cc (simp (busy, last, closed) at h)
        | inr opened ↦ elim (Bool-cases l.canceled) [
          | inl over ↦
              let e : insert j (record l { active = l.active - 1; idle_closed = true }) m ≡ m' =
                ground arith in
              rw⁻¹ e (insert-IsCancelled j _ m c other)
          | inr live ↦
              let e : delete j m ≡ m' = ground arith in rw⁻¹ e (delete-IsCancelled j m c other)
        ]
      ]
      | inr more ↦
          let e : insert j (record l { active = l.active - 1 }) m ≡ m' = ground arith in
          rw⁻¹ e (insert-IsCancelled j _ m c other)
    ]
  ]

  pub end-IsCancelled :
      (j stream : Text) (m : Dict Lifecycle) {m' : Dict Lifecycle}
      → IsCancelled t id m
      → end_found j stream (lookup j m) m ≡ some m'
      → IsCancelled t id m'
  unfolding end_found
  end-IsCancelled j stream m {m'} c h = elim (Bool-cases (text_eq j id)) [
    | inl same ↦
        let j_id : j ≡ id = (text_eq_iff j id).0 same in
        let (k, k') = drop_stream-canceled stream c.entry in
        deactivate_own (drop_stream stream c.entry) m c.at (k ∙ c.canceled) (k' ∙ c.canceled_at)
          c.late (simp (j_id, c.found) at h)
    | inr other ↦ elim (Option-cases (lookup j m)) [
      | inl missing ↦ let e : m ≡ m' = cc (simp missing at h) in rw⁻¹ e c
      | inr (l, found) ↦ deactivate_other j (drop_stream stream l) m c other (simp found at h)
    ]
  ]

  pub begin_found-IsCancelled :
      (j stream : Text) (m : Dict Lifecycle)
      → IsCancelled t id m
      → IsCancelled t id (begin_found j stream (get_or new_lifecycle (lookup j m)) m).0
  unfolding begin_found
  begin_found-IsCancelled j stream m c = elim (Bool-cases (text_eq j id)) [
    | inl same ↦
        let j_id : j ≡ id = (text_eq_iff j id).0 same in
        rw (j_id, c.found, c.canceled)
          (own-IsCancelled (record c.entry { canceled = true }) m c.at refl c.canceled_at c.late)
    | inr other ↦ elim (Bool-cases (get_or new_lifecycle (lookup j m)).canceled) [
      | inl over ↦ rw over (insert-IsCancelled j _ m c other)
      | inr live ↦ rw live (insert-IsCancelled j _ m c other)
    ]
  ]

  pub cancel-IsCancelled :
      (j : Text) (l : Lifecycle) (m : Dict Lifecycle) (now : ℕ)
      → IsCancelled t id m
      → t ≤ now
      → IsCancelled t id (insert j (record l { canceled = true; canceled_at = some now }) m)
  cancel-IsCancelled j l m now c le = elim (Bool-cases (text_eq j id)) [
    | inl same ↦
        let j_id : j ≡ id = (text_eq_iff j id).0 same in
        rw j_id (own-IsCancelled _ m now refl refl le)
    | inr other ↦ insert-IsCancelled j _ m c other
  ]

  pub wait-IsCancelled :
      (j : Text) (m : Dict Lifecycle)
      → IsCancelled t id m
      → IsCancelled t id (get_or m (wait_found j (lookup j m) m))
  unfolding wait_found
  wait-IsCancelled j m c = elim (Bool-cases (text_eq j id)) [
    | inl same ↦
        let j_id : j ≡ id = (text_eq_iff j id).0 same in
        rw (j_id, c.found)
          (elim (Bool-cases (c.entry.active == 0)) [
            | inl idle ↦ simp (idle, c.canceled) c
            | inr busy ↦ simp busy c
          ])
    | inr other ↦ elim (Option-cases (lookup j m)) [
      | inl missing ↦ rw missing c
      | inr (l, found) ↦ rw found (elim (Bool-cases (l.active == 0)) [
        | inl idle ↦ elim (Bool-cases l.canceled) [
          | inl over ↦ simp (idle, over) c
          | inr live ↦ simp (idle, live) (delete-IsCancelled j m c other)
        ]
        | inr busy ↦ simp busy c
      ])
    ]
  ]
