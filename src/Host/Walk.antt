-- ===== src/Host/Walk.antt =====
-- monitoring/unit/cgroup.go: the fuel of the loops that walk from a directory towards the root.
use mango_agent.Base.{
  ℕ, zero, suc, ◌+◌, ◌≤◌, ◌<◌, Bool, true, false, Bool-cases, some, Text, codes, text_eq, length,
  ◌≡◌, refl, inl, inr, arith, ◌⊎◌,
}
use mango_agent.Host.World.{System}
use mango_agent.Host.Cgroup.{is_top, walk_up}

-- What `filepath.Dir` promises of a path that is neither the root nor ".": the result is the path
-- itself, shorter, or ".".
pub record DirShortens (sys : System) : Type 0 where
  pub shorter :
      (p : Text)
      → is_top p ≡ false
      → text_eq (sys.dir p) p ≡ false
      → (length (sys.dir p) < length p) ⊎ (sys.dir p ≡ codes ".")

module _ {ℓ} {S : Type ℓ} (sys : System) (body : S → Text → S × Bool) where
  walk_up_top :
      (n : ℕ) (s : S) (curr : Text)
      → is_top curr ≡ true
      → walk_up sys body (suc n) s curr ≡ some (body s curr).0
  unfolding walk_up
  walk_up_top n s curr h = elim (Bool-cases (body s curr).1) [
    | inl done ↦ rw done refl
    | inr more ↦ rw (more, h) refl
  ]

  -- Fuel of two more than the length of the path is enough.
  pub walk_up_total :
      (n : ℕ) (s : S) (curr : Text)
      → DirShortens sys
      → length curr + 2 ≤ n
      → (s' : S) × (walk_up sys body n s curr ≡ some s')
  unfolding walk_up
  walk_up_total zero s curr d h = absurd (omega arith)
  walk_up_total (suc zero) s curr d h = absurd (omega arith)
  walk_up_total (suc (suc n)) s curr d h = elim (Bool-cases (body s curr).1) [
    | inl done ↦ ((body s curr).0, rw done refl)
    | inr more ↦ elim (Bool-cases (is_top curr)) [
      | inl top ↦ ((body s curr).0, rw (more, top) refl)
      | inr inner ↦ elim (Bool-cases (text_eq (sys.dir curr) curr)) [
        | inl fixed ↦ ((body s curr).0, rw (more, inner, fixed) refl)
        | inr moves ↦ elim (d.shorter curr inner moves) [
          | inl less ↦
              let (s', e) = walk_up_total (suc n) (body s curr).0 (sys.dir curr) d (omega arith) in
              (s', rw (more, inner, moves) e)
          | inr dot ↦ (
            (body (body s curr).0 (sys.dir curr)).0,
            rw (more, inner, moves) (walk_up_top n (body s curr).0 (sys.dir curr) (rw dot refl)),
          )
        ]
      ]
    ]
  ]
