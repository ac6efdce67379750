-- ===== src/Host/Bounds.antt =====
-- monitoring/unit/mem.go: what is in use against the total.
use mango_agent.Base.{
  ◌+◌, ◌≤◌, ◌<◌, true, Bool-cases, Option, none, some, u64, codes, ◌≡◌, inl, inr, arith,
  >>=-eq-some, ◌&&◌,
}
use mango_agent.Host.World.{System, VirtualMemory}
use mango_agent.Host.Meminfo.{RamInfo, ProcMemInfo, read_proc_meminfo}
use mango_agent.Strings.{is_nil}
use mango_agent.Host.Cgroup.{
  CgroupMem, or_dir, self_cgroup_v1_path, read_memory_v1, read_cgroup_memory, resolve_cgroup_v2_dir,
}
use mango_agent.Host.Walk.{DirShortens}
use mango_agent.Host.Limits.{read_memory_v2-nearest}
use mango_agent.Host.Ram.{
  Flags, htop_of, get_mem_htop_like, gopsutil_of, get_mem_gopsutil, with_cache, ram_of_host,
  ram_of_cgroup, ram, swap,
}

-- The parts of /proc/meminfo that make up the total, and the shared memory within the cache.
pub record IsConsistent (i : ProcMemInfo) : Type 0 where
  pub parts : ((i.mem_free + i.cached) + i.s_reclaimable) + i.buffers ≤ i.mem_total
  pub shared : i.shmem ≤ i.cached
  pub fits : i.mem_total < u64

abbrev pub InfoIsConsistent : Option ProcMemInfo → Type 0
InfoIsConsistent none = Unit
InfoIsConsistent (some i) = IsConsistent i

abbrev pub StatIsConsistent : Option VirtualMemory → Type 0
StatIsConsistent none = Unit
StatIsConsistent (some v) = (v.available ≤ v.total) × (v.free ≤ v.total) × (v.total < u64)

htop_of-le : (i : Option ProcMemInfo) → InfoIsConsistent i → (htop_of i).used ≤ (htop_of i).total
htop_of-le none c = omega arith
htop_of-le (some i) c = let a = c.parts in let b = c.shared in let d = c.fits in ground arith

stat-le :
    (v : Option VirtualMemory)
    → StatIsConsistent v
    → ((gopsutil_of v).used ≤ (gopsutil_of v).total) × ((with_cache v).used ≤ (with_cache v).total)
stat-le none c = (omega arith, omega arith)
stat-le (some v) c = (omega arith, omega arith)

ram_of_host-le :
    (sys : System) (f : Flags)
    → InfoIsConsistent (read_proc_meminfo sys)
    → StatIsConsistent sys.virtual_memory
    → (ram_of_host sys f).used ≤ (ram_of_host sys f).total
unfolding ram_of_host get_mem_htop_like get_mem_gopsutil
ram_of_host-le sys f c v =
    ground (
      arith,
      htop_of-le (read_proc_meminfo sys) c,
      htop_of-le none tt,
      stat-le sys.virtual_memory v,
    )

read_cgroup_memory_total :
    (sys : System) → DirShortens sys → (cg : CgroupMem) × (read_cgroup_memory sys ≡ some cg)
unfolding read_cgroup_memory
read_cgroup_memory_total sys d = elim (Bool-cases (is_nil (resolve_cgroup_v2_dir sys))) [
  | inl first ↦ (
    read_memory_v1 sys
        (or_dir (self_cgroup_v1_path sys (codes "memory")) (codes "/sys/fs/cgroup/memory")),
    simp first,
  )
  | inr second ↦
      let (cg, e, l, o, lt) = read_memory_v2-nearest sys (resolve_cgroup_v2_dir sys) d in
      (cg, simp second e)
]

ram_total : (sys : System) (f : Flags) → DirShortens sys → (r : RamInfo) × (ram sys f ≡ some r)
unfolding ram
ram_total sys f d = elim (Bool-cases (f.prefer_cgroup_limits && sys.linux)) [
  | inl grouped ↦
      let (cg, e) = read_cgroup_memory_total sys d in (ram_of_cgroup sys f cg, simp (grouped, e))
  | inr plain ↦ (ram_of_host sys f, simp plain)
]

ram_used-le :
    (sys : System) (f : Flags) {r : RamInfo}
    → InfoIsConsistent (read_proc_meminfo sys)
    → StatIsConsistent sys.virtual_memory
    → ram sys f ≡ some r
    → r.used ≤ r.total
unfolding ram
ram_used-le sys f c v h =
    let host = ram_of_host-le sys f c v in
    elim (Bool-cases (f.prefer_cgroup_limits && sys.linux)) [
      | inl grouped ↦
          let (cg, e, k) =
            >>=-eq-some (read_cgroup_memory sys) (λ cg. some (ram_of_cgroup sys f cg))
              (simp grouped at h) in
          ground (arith, host)
      | inr plain ↦ ground (arith, host)
    ]

-- Where `filepath.Dir` shortens paths, the parts of /proc/meminfo fit into its total with the shared
-- memory among the cached, and gopsutil's available and free memory are at most its total, `Ram`
-- returns, and the memory that it reports as used is at most the total it reports, whatever the
-- flags and the control group say.
pub ram-le :
    (sys : System) (f : Flags)
    → DirShortens sys
    → InfoIsConsistent (read_proc_meminfo sys)
    → StatIsConsistent sys.virtual_memory
    → (r : RamInfo) × (ram sys f ≡ some r) × (r.used ≤ r.total)
ram-le sys f d c v = let (r, e) = ram_total sys f d in (r, e, ram_used-le sys f c v e)

-- Where /proc/meminfo is read on Linux, its free swap is at most its total swap, and the total and
-- the cached swap fit into a word, the swap that `Swap` reports as used is at most the total it
-- reports, whatever the cached swap is.
pub swap-le :
    (sys : System) (i : ProcMemInfo)
    → sys.linux ≡ true
    → read_proc_meminfo sys ≡ some i
    → i.swap_free ≤ i.swap_total
    → i.swap_total < u64
    → i.swap_cached < u64
    → (swap sys).used ≤ (swap sys).total
unfolding swap
swap-le sys i l e free fits cached = simp (l, e) (ground arith)

-- Where /proc/meminfo is read on Linux, its free, cached, reclaimable and buffer memory together
-- exceed its positive total but not a word, and the shared memory exceeds the free memory, which is
-- at most the total, `GetMemHtopLike` reports more memory in use than there is, as long as total and
-- shared memory together fit into a word.
pub get_mem_htop_like_exceeds :
    (sys : System) (i : ProcMemInfo)
    → sys.linux ≡ true
    → read_proc_meminfo sys ≡ some i
    → 0 < i.mem_total
    → i.mem_total < ((i.mem_free + i.cached) + i.s_reclaimable) + i.buffers
    → ((i.mem_free + i.cached) + i.s_reclaimable) + i.buffers < u64
    → i.mem_free ≤ i.mem_total
    → i.mem_free < i.shmem
    → i.mem_total + i.shmem < u64
    → (get_mem_htop_like sys).total < (get_mem_htop_like sys).used
unfolding get_mem_htop_like
get_mem_htop_like_exceeds sys i l e total over fits free shared small = simp (l, e) (ground arith)
