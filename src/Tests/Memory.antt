-- ===== src/Tests/Memory.antt =====
-- monitoring/unit/mem.go and monitoring/unit/cgroup.go on small inputs.
use mango_agent.Base.{
  ℕ, suc, ◌+◌, ◌≤◌, ◌<◌, ◌==◌, true, false, Option, none, some, [], ◌∷◌, ◌++◌, Text, codes, Dict,
  lookup, length, ltb, if◌then◌else◌, ◌≡◌, refl, inl, inr, ◌⊎◌, arith,
}
use mango_agent.Strings.{
  fields, words_from, scan_lines, scan_tokens, split, drop_cr, parse_uint, digits_of, digits_value,
}
use mango_agent.Host.World.{System, scan_fails}
use mango_agent.Host.Meminfo.{
  RamInfo, ProcMemInfo, empty_info, read_proc_meminfo, read_fields, read_field, set_field,
  trim_colon,
}
use mango_agent.Host.Cgroup.{CgroupMem, cgroup_unlimited, is_top, read_memory_v2}
use mango_agent.Host.Ram.{Flags, get_mem_htop_like, ram, swap}
use mango_agent.Host.Walk.{DirShortens}
use mango_agent.Host.Limits.{ancestors, nearest_limit, read_memory_v2-nearest}
use mango_agent.Host.Bounds.{InfoIsConsistent, ram-le, swap-le, get_mem_htop_like_exceeds}

-- `filepath.Dir` on a clean path.
unfoldable before_slash : Text → Option Text
before_slash [] = none
before_slash (c ∷ cs) = elim (before_slash cs) [
  | none ↦ if c == b'/' then some [] else none
  | some a ↦ some (c ∷ a)
]

abbrev parent_of : Option Text → Text
parent_of none = codes "."
parent_of (some []) = codes "/"
parent_of (some (c ∷ a)) = c ∷ a

abbrev size_of : Option Text → ℕ
size_of none = 0
size_of (some a) = suc (length a)

before_slash-le : (p : Text) → size_of (before_slash p) ≤ length p
unfolding before_slash
before_slash-le [] = omega arith
before_slash-le (c ∷ cs) = ground (arith, before_slash-le cs)

-- Only the root itself is as short as the root.
root_is_top : (p : Text) → before_slash p ≡ some [] → is_top p ≡ false → 1 < length p
unfolding before_slash
root_is_top [] e h = cc
root_is_top (c ∷ []) e h = ground arith
root_is_top (c ∷ d ∷ cs) e h = omega arith

parent_of-shorter :
    (o : Option Text) (p : Text)
    → before_slash p ≡ o
    → is_top p ≡ false
    → (length (parent_of o) < length p) ⊎ (parent_of o ≡ codes ".")
parent_of-shorter none p e h = inr refl
parent_of-shorter (some []) p e h = inl (root_is_top p e h)
parent_of-shorter (some (c ∷ a)) p e h = let le = before_slash-le p in inl (ground arith)

abbrev with_files : Dict Text → System
with_files files = record {
  linux = true;
  freebsd = false;
  read = λ path. lookup path files;
  exists = λ path. true;
  join = λ a b. a ++ (codes "/" ++ b);
  dir = λ path. parent_of (before_slash path);
  virtual_memory = none;
  swap_memory = none;
  free_output = none;
}

with_files-DirShortens : (files : Dict Text) → DirShortens (with_files files)
with_files-DirShortens files = record {
  shorter = λ p h moves. parent_of-shorter (before_slash p) p refl h;
}

abbrev nested : Dict Text
nested =
    (codes "/sys/fs/cgroup/a/b/memory.max", codes "max")
    ∷ (codes "/sys/fs/cgroup/a/memory.max", codes "1048576")
    ∷ (codes "/sys/fs/cgroup/a/b/memory.current", codes "4096")
    ∷ []

read_memory_v2-nearest_example :
    (cg : CgroupMem) × (read_memory_v2 (with_files nested) (codes "/sys/fs/cgroup/a/b") ≡ some cg)
    × (cg.limit
        ≡ nearest_limit (with_files nested) (
            ancestors
              (with_files nested)
              (length (codes "/sys/fs/cgroup/a/b") + 2)
              (codes "/sys/fs/cgroup/a/b")))
    × (cg.is_ok ≡ ltb 0 cg.limit)
    × (cg.limit < cgroup_unlimited)
read_memory_v2-nearest_example =
    read_memory_v2-nearest (with_files nested) (codes "/sys/fs/cgroup/a/b")
      (with_files-DirShortens nested)

abbrev meminfo_file : Dict Text
meminfo_file =
    (
      codes "/proc/meminfo",
      codes
          "MemTotal:  1000 kB\nMemFree:  100 kB\nCached:  200 kB\nShmem:  50 kB\nSwapTotal:  10 kB\nSwapFree:  4 kB\nSwapCached:  9 kB\n",
    )
    ∷ []

abbrev small_info : ProcMemInfo
small_info = record empty_info {
  mem_total = 1024000;
  mem_free = 102400;
  cached = 204800;
  shmem = 51200;
  swap_total = 10240;
  swap_free = 4096;
  swap_cached = 9216;
}

abbrev grouped_flags : Flags
grouped_flags = record {
  prefer_cgroup_limits = true;
  force_memory_total = 0;
  memory_include_cache = false;
  memory_report_raw_used = false;
}

small_info_run : read_proc_meminfo (with_files meminfo_file) ≡ some small_info
unfolding read_proc_meminfo scan_fails split lookup scan_lines scan_tokens drop_cr read_fields
    read_field fields words_from parse_uint digits_of digits_value trim_colon set_field
small_info_run = refl

small_info-IsConsistent : InfoIsConsistent (read_proc_meminfo (with_files meminfo_file))
small_info-IsConsistent =
    rw small_info_run (record { parts = omega arith; shared = omega arith; fits = omega arith })

ram-le_example :
    (r : RamInfo) × (ram (with_files meminfo_file) grouped_flags ≡ some r) × (r.used ≤ r.total)
ram-le_example =
    ram-le (with_files meminfo_file) grouped_flags (with_files-DirShortens meminfo_file)
      small_info-IsConsistent tt

swap-le_example : (swap (with_files meminfo_file)).used ≤ (swap (with_files meminfo_file)).total
swap-le_example =
    swap-le (with_files meminfo_file) small_info refl small_info_run (omega arith) (omega arith)
      (omega arith)

-- A cache that overlaps with what is free.
abbrev crowded_file : Dict Text
crowded_file =
    (
      codes "/proc/meminfo",
      codes "MemTotal: 1000 kB\nMemFree: 100 kB\nCached: 950 kB\nShmem: 200 kB\n",
    )
    ∷ []

abbrev crowded_info : ProcMemInfo
crowded_info = record empty_info {
  mem_total = 1024000;
  mem_free = 102400;
  cached = 972800;
  shmem = 204800;
}

crowded_info_run : read_proc_meminfo (with_files crowded_file) ≡ some crowded_info
unfolding read_proc_meminfo scan_fails split lookup scan_lines scan_tokens drop_cr read_fields
    read_field fields words_from parse_uint digits_of digits_value trim_colon set_field
crowded_info_run = refl

get_mem_htop_like_exceeds_example :
    (get_mem_htop_like (with_files crowded_file)).total
    < (get_mem_htop_like (with_files crowded_file)).used
get_mem_htop_like_exceeds_example =
    get_mem_htop_like_exceeds (with_files crowded_file) crowded_info refl crowded_info_run
      (omega arith) (omega arith) (omega arith) (omega arith) (omega arith) (omega arith)
