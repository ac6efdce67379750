-- ===== src/Host/Ram.antt =====
-- monitoring/unit/mem.go: the memory and swap that the agent reports.
use mango_agent.Base.{
  ℕ, Bool, Option, none, some, [], codes, if◌then◌else◌, add64, sub64, ltb, leb, ◌>>=◌, ◌&&◌, min,
}
use mango_agent.Host.World.{System, VirtualMemory, SwapMemory}
use mango_agent.Host.Meminfo.{RamInfo, ProcMemInfo, read_proc_meminfo}
use mango_agent.Host.Cgroup.{CgroupMem, read_cgroup_memory}

-- The flags of `GlobalConfig` that the reports read.
pub record Flags : Type 0 where
  pub prefer_cgroup_limits : Bool
  pub force_memory_total : ℕ
  pub memory_include_cache : Bool
  pub memory_report_raw_used : Bool

abbrev pub htop_used : ProcMemInfo → ℕ
htop_used i =
    let used_diff = add64 (add64 (add64 i.mem_free i.cached) i.s_reclaimable) i.buffers in
    add64
      (if leb used_diff i.mem_total
        then sub64 i.mem_total used_diff
        else sub64 i.mem_total i.mem_free)
      i.shmem

abbrev pub htop_of : Option ProcMemInfo → RamInfo
htop_of none = record { total = 0; used = 0; mode = codes "htoplike" }
htop_of (some i) =
    if ltb 0 i.mem_total
    then record { total = i.mem_total; used = htop_used i; mode = codes "htoplike" }
    else record { total = 0; used = 0; mode = codes "htoplike" }

-- `GetMemHtopLike`
unfoldable pub get_mem_htop_like : System → RamInfo
get_mem_htop_like sys = htop_of (if sys.linux then read_proc_meminfo sys else none)

abbrev pub gopsutil_of : Option VirtualMemory → RamInfo
gopsutil_of none = record { total = 0; used = 0; mode = codes "gopsutil" }
gopsutil_of (some v) = record {
  total = v.total;
  used = sub64 v.total v.available;
  mode = codes "gopsutil";
}

-- `GetMemGopsutil`
unfoldable pub get_mem_gopsutil : System → RamInfo
get_mem_gopsutil sys = gopsutil_of sys.virtual_memory

abbrev pub with_cache : Option VirtualMemory → RamInfo
with_cache none = record { total = 0; used = 0; mode = [] }
with_cache (some v) = record {
  total = v.total;
  used = sub64 v.total v.free;
  mode = codes "includeCache";
}

-- `Ram` behind the tests for control groups.
unfoldable pub ram_of_host : System → Flags → RamInfo
unfolding get_mem_htop_like get_mem_gopsutil
ram_of_host sys f =
    let h = get_mem_htop_like sys in
    if f.memory_include_cache
    then with_cache sys.virtual_memory
    else if f.memory_report_raw_used
    then h
    else if sys.linux && ltb 0 h.total
    then h
    else get_mem_gopsutil sys

abbrev pub ram_of_cgroup : System → Flags → CgroupMem → RamInfo
ram_of_cgroup sys f cg =
    if ltb 0 f.force_memory_total
    then record {
      total = f.force_memory_total;
      used = min cg.usage f.force_memory_total;
      mode = codes "force";
    }
    else if cg.is_ok && ltb 0 cg.limit
    then record { total = cg.limit; used = min cg.usage cg.limit; mode = codes "cgroup" }
    else ram_of_host sys f

-- `Ram`; `none` is a lack of fuel in the walk over the directories.
unfoldable pub ram : System → Flags → Option RamInfo
unfolding ram_of_host
ram sys f =
    if f.prefer_cgroup_limits && sys.linux
    then (do cg ← read_cgroup_memory sys; some (ram_of_cgroup sys f cg))
    else some (ram_of_host sys f)

abbrev pub swap_used : ProcMemInfo → ℕ
swap_used i =
    let used_deductions = add64 i.swap_free i.swap_cached in
    if leb used_deductions i.swap_total
    then sub64 i.swap_total used_deductions
    else sub64 i.swap_total i.swap_free

abbrev pub swap_of_stat : Option SwapMemory → RamInfo
swap_of_stat none = record { total = 0; used = 0; mode = [] }
swap_of_stat (some s) = record { total = s.total; used = s.used; mode = [] }

abbrev pub swap_of : System → Option ProcMemInfo → RamInfo
swap_of sys none = swap_of_stat sys.swap_memory
swap_of sys (some i) = record { total = i.swap_total; used = swap_used i; mode = [] }

-- `Swap`
unfoldable pub swap : System → RamInfo
swap sys = swap_of sys (if sys.linux then read_proc_meminfo sys else none)
