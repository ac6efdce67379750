-- ===== src/Host/Limits.antt =====
-- monitoring/unit/cgroup.go: the memory limit among a directory and those above it.
use mango_agent.Base.{
  ℕ, zero, suc, ◌+◌, ◌<◌, false, Bool-cases, Option, none, some, List, [], ◌∷◌, Text, codes,
  text_eq, if◌then◌else◌, length, ltb, ◌==◌, ◌&&◌, ◌||◌, ◌≡◌, inl, inr, arith,
}
use mango_agent.Host.World.{System}
use mango_agent.Host.Cgroup.{
  CgroupMem, cgroup_unlimited, no_limit, set_usage, is_top, walk_up, read_number, memory_step,
  read_memory_v2,
}
use mango_agent.Host.Walk.{DirShortens, walk_up_total}

-- The directories that the walk can visit.
unfoldable pub ancestors : System → ℕ → Text → List Text
ancestors sys zero p = []
ancestors sys (suc n) p =
    let rest = ancestors sys n (sys.dir p) in
    if is_top p || text_eq (sys.dir p) p then p ∷ [] else p ∷ rest

abbrev finite_part : Option ℕ → ℕ
finite_part none = 0
finite_part (some lim) = if ltb 0 lim && ltb lim cgroup_unlimited then lim else 0

-- The limit that a directory sets, and 0 for none.
unfoldable pub limit_in : System → Text → ℕ
limit_in sys p = finite_part (read_number sys p (codes "memory.max"))

unfoldable pub nearest_limit : System → List Text → ℕ
unfolding limit_in
nearest_limit sys [] = 0
nearest_limit sys (p ∷ ps) =
    let rest = nearest_limit sys ps in if limit_in sys p == 0 then rest else limit_in sys p

-- What one round does to the limit.
memory_step_lem :
    (sys : System) (out : CgroupMem) (p : Text)
    → out.limit ≡ 0
    → out.is_ok ≡ false
    → ((memory_step sys out p).0.limit ≡ limit_in sys p)
      × ((memory_step sys out p).0.is_ok ≡ ltb 0 (limit_in sys p))
      × ((memory_step sys out p).1 ≡ ltb 0 (limit_in sys p))
unfolding memory_step limit_in
memory_step_lem sys out p h k = ground arith

walk_up-nearest :
    (sys : System) (n : ℕ) (out : CgroupMem) (p : Text) {out' : CgroupMem}
    → out.limit ≡ 0
    → out.is_ok ≡ false
    → walk_up sys (memory_step sys) n out p ≡ some out'
    → (out'.limit ≡ nearest_limit sys (ancestors sys n p)) × (out'.is_ok ≡ ltb 0 out'.limit)
unfolding walk_up ancestors nearest_limit
walk_up-nearest sys zero out p h k e = cc
walk_up-nearest sys (suc n) out p {out'} h k e =
    let (l, o, d) = memory_step_lem sys out p h k in
    elim (Bool-cases (limit_in sys p == 0)) [
      | inl unset ↦ elim (Bool-cases (is_top p || text_eq (sys.dir p) p)) [
        | inl last ↦ ground arith
        | inr inner ↦
            let ih = walk_up-nearest sys n (memory_step sys out p).0 (sys.dir p) {out' = out'} in
            ground (arith, ih)
      ]
      | inr set ↦ ground arith
    ]

limit_in-lt : (sys : System) (p : Text) → limit_in sys p < cgroup_unlimited
unfolding limit_in
limit_in-lt sys p = ground arith

nearest_limit-lt : (sys : System) (ps : List Text) → nearest_limit sys ps < cgroup_unlimited
unfolding nearest_limit
nearest_limit-lt sys [] = ground arith
nearest_limit-lt sys (p ∷ ps) = ground (arith, limit_in-lt sys p, nearest_limit-lt sys ps)

-- Where `filepath.Dir` shortens paths, the walk of `ReadCgroupMemory` for version 2 ends, the limit
-- it returns is that of the nearest directory from `dir` upwards whose `memory.max` is positive and
-- below 2 ^ 62, and 0 if there is none; `OK` says whether there is one.
pub read_memory_v2-nearest :
    (sys : System) (dir : Text)
    → DirShortens sys
    → (cg : CgroupMem) × (read_memory_v2 sys dir ≡ some cg)
      × (cg.limit ≡ nearest_limit sys (ancestors sys (length dir + 2) dir))
      × (cg.is_ok ≡ ltb 0 cg.limit)
      × (cg.limit < cgroup_unlimited)
unfolding read_memory_v2
read_memory_v2-nearest sys dir d =
    let start = set_usage dir (read_number sys dir (codes "memory.current")) no_limit in
    let (cg, e) = walk_up_total sys (memory_step sys) (length dir + 2) start dir d (omega arith) in
    let (l, o) = walk_up-nearest sys (length dir + 2) start dir (ground arith) (ground arith) e in
    (cg, e, l, o, rw l (nearest_limit-lt sys _))
