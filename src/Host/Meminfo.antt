-- ===== src/Host/Meminfo.antt =====
-- monitoring/unit/mem.go: /proc/meminfo and the output of `free`.
use mango_agent.Base.{
  ℕ, ◌*◌, ◌%◌, Option, none, some, List, [], ◌∷◌, Text, codes, text_eq, if◌then◌else◌, u64, ◌>>=◌,
  ◌&&◌, not, get_or,
}
use mango_agent.Strings.{fields, scan_lines, parse_uint, has_prefix}
use mango_agent.Host.World.{System, scan_fails}

pub record RamInfo : Type 0 where
  pub total : ℕ
  pub used : ℕ
  pub mode : Text

pub record ProcMemInfo : Type 0 where
  pub mem_total : ℕ
  pub mem_free : ℕ
  pub mem_available : ℕ
  pub buffers : ℕ
  pub cached : ℕ
  pub swap_total : ℕ
  pub swap_free : ℕ
  pub swap_cached : ℕ
  pub shmem : ℕ
  pub s_reclaimable : ℕ
  pub zswap : ℕ
  pub zswapped : ℕ

abbrev pub empty_info : ProcMemInfo
empty_info = record {
  mem_total = 0;
  mem_free = 0;
  mem_available = 0;
  buffers = 0;
  cached = 0;
  swap_total = 0;
  swap_free = 0;
  swap_cached = 0;
  shmem = 0;
  s_reclaimable = 0;
  zswap = 0;
  zswapped = 0;
}

-- The `switch` on a line's key.
unfoldable pub set_field : Text → ℕ → ProcMemInfo → ProcMemInfo
set_field key val i =
    if text_eq key (codes "MemTotal")
    then record i { mem_total = val }
    else if text_eq key (codes "MemFree")
    then record i { mem_free = val }
    else if text_eq key (codes "MemAvailable")
    then record i { mem_available = val }
    else if text_eq key (codes "Buffers")
    then record i { buffers = val }
    else if text_eq key (codes "Cached")
    then record i { cached = val }
    else if text_eq key (codes "SwapTotal")
    then record i { swap_total = val }
    else if text_eq key (codes "SwapFree")
    then record i { swap_free = val }
    else if text_eq key (codes "SwapCached")
    then record i { swap_cached = val }
    else if text_eq key (codes "Shmem")
    then record i { shmem = val }
    else if text_eq key (codes "SReclaimable")
    then record i { s_reclaimable = val }
    else if text_eq key (codes "Zswap")
    then record i { zswap = val }
    else if text_eq key (codes "Zswapped")
    then record i { zswapped = val }
    else i

-- `strings.TrimSuffix(key, ":")`
unfoldable pub trim_colon : Text → Text
trim_colon [] = []
trim_colon (c ∷ []) = if text_eq (c ∷ []) (codes ":") then [] else c ∷ []
trim_colon (c ∷ d ∷ cs) = c ∷ trim_colon (d ∷ cs)

-- The number of bytes that a number of kilobytes stands for.
abbrev pub kilobytes : ℕ → ℕ
kilobytes n = (n * 1024) % u64

abbrev set_parsed : Text → Option ℕ → ProcMemInfo → ProcMemInfo
set_parsed key none i = i
set_parsed key (some n) i = set_field (trim_colon key) (kilobytes n) i

unfoldable pub read_field : List Text → ProcMemInfo → ProcMemInfo
unfolding set_field trim_colon
read_field (key ∷ value ∷ _) i = set_parsed key (parse_uint value) i
read_field _ i = i

unfoldable pub read_fields : List Text → ProcMemInfo → ProcMemInfo
unfolding read_field
read_fields [] i = i
read_fields (l ∷ ls) i = read_fields ls (read_field (fields l) i)

-- `ReadProcMeminfo`; `none` is an error.
unfoldable pub read_proc_meminfo : System → Option ProcMemInfo
unfolding read_fields
read_proc_meminfo sys = do
  text ← sys.read (codes "/proc/meminfo")
  if scan_fails text then none else some (read_fields (scan_lines text) empty_info)

unfoldable pub read_mem_line : List Text → RamInfo → RamInfo
read_mem_line (_ ∷ total ∷ used ∷ _) r = record r {
  total = get_or r.total (parse_uint total);
  used = get_or r.used (parse_uint used);
}
read_mem_line _ r = r

-- The first line behind the header that begins with "Mem:".
unfoldable pub find_mem_line : List Text → RamInfo → RamInfo
unfolding read_mem_line
find_mem_line [] r = r
find_mem_line (l ∷ ls) r =
    let rest = find_mem_line ls r in
    if has_prefix l (codes "Mem:") then read_mem_line (fields l) r else rest

abbrev without_header : List Text → List Text
without_header [] = []
without_header (l ∷ ls) = ls

abbrev read_free : Option Text → RamInfo → RamInfo
read_free none r = r
read_free (some out) r = find_mem_line (without_header (scan_lines out)) r

-- `CallFree`
unfoldable pub call_free : System → RamInfo
unfolding find_mem_line
call_free sys =
    let r : RamInfo = record { total = 0; used = 0; mode = codes "callFree" } in
    if not sys.linux && not sys.freebsd then r else read_free sys.free_output r
