-- ===== src/Host/Cgroup.antt =====
-- monitoring/unit/cgroup.go: the limits of the control group, found in its directory or in the
-- nearest directory above.
use mango_agent.Base.{
  ℕ, zero, suc, ◌+◌, ◌/◌, ℤ, pos, Bool, true, false, Option, none, some, List, [], ◌∷◌, Text, codes,
  text_eq, if◌then◌else◌, ltb, length, ◌==◌, ◌>>=◌, ◌&&◌, ◌||◌, get_or,
}
use mango_agent.Strings.{
  trim_space, fields, scan_lines, split, parse_uint, parse_int, has_prefix, trim_prefix, is_nil,
}
use mango_agent.Host.World.{System, cut}

-- `cgroupUnlimited`
abbrev pub cgroup_unlimited : ℕ
cgroup_unlimited = 4611686018427387904

pub record CgroupMem : Type 0 where
  pub limit : ℕ
  pub usage : ℕ
  pub is_ok : Bool
  pub path : Text

abbrev pub no_limit : CgroupMem
no_limit = record { limit = 0; usage = 0; is_ok = false; path = [] }

-- `parseUintBytes`; `none` is an error.
unfoldable pub parse_uint_bytes : Text → Option ℕ
parse_uint_bytes b =
    let s = trim_space b in if is_nil s || text_eq s (codes "max") then none else parse_uint s

unfoldable pub find_unified : List Text → Text
find_unified [] = []
find_unified (l ∷ ls) =
    let rest = find_unified ls in
    if has_prefix l (codes "0::") then trim_prefix l (codes "0::") else rest

-- `selfCgroupRelUnified`
unfoldable pub self_cgroup_rel_unified : System → Text
unfolding find_unified
self_cgroup_rel_unified sys =
    get_or []
      (do text ← sys.read (codes "/proc/self/cgroup"); some (find_unified (scan_lines text)))

-- `resolveCgroupV2Dir`
unfoldable pub resolve_cgroup_v2_dir : System → Text
unfolding self_cgroup_rel_unified
resolve_cgroup_v2_dir sys =
    if sys.exists (codes "/sys/fs/cgroup/cgroup.controllers")
    then (let rel = self_cgroup_rel_unified sys in
        if is_nil rel || text_eq rel (codes "/")
        then codes "/sys/fs/cgroup"
        else sys.join (codes "/sys/fs/cgroup") rel)
    else []

abbrev holds : Text → List Text → Bool
holds c [] = false
holds c (d ∷ ds) = text_eq d c || holds c ds

-- A line `4:memory:/docker/xxx`: the path, if the controller is among those it names.
unfoldable pub controller_line : Text → Text → Option Text
unfolding cut
controller_line controller l = do
  (number, rest) ← cut b':' l
  (names, rel) ← cut b':' rest
  if holds controller (split b',' names) then some rel else none

unfoldable pub find_controller : System → Text → List Text → Text
unfolding controller_line
find_controller sys controller [] = []
find_controller sys controller (l ∷ ls) =
    let rest = find_controller sys controller ls in
    get_or rest (do
      rel ← controller_line controller l
      let dir = sys.join (codes "/sys/fs/cgroup") controller
      some (if text_eq rel (codes "/") then dir else sys.join dir rel))

-- `selfCgroupV1Path`
unfoldable pub self_cgroup_v1_path : System → Text → Text
unfolding find_controller
self_cgroup_v1_path sys controller = get_or [] (do
  text ← sys.read (codes "/proc/self/cgroup")
  some (find_controller sys controller (scan_lines text)))

-- Whether the walk upwards ends here whatever stands above.
abbrev pub is_top : Text → Bool
is_top p = text_eq p (codes "/sys/fs/cgroup") || (text_eq p (codes "/") || text_eq p (codes "."))

-- The three loops over a directory and those above it. The body gives the new state and whether
-- the loop ends; `none` is a lack of fuel.
unfoldable pub walk_up {ℓ} : {S : Type ℓ} → System → (S → Text → S × Bool) → ℕ → S → Text → Option S
walk_up sys body zero s curr = none
walk_up sys body (suc n) s curr =
    let r = body s curr in
    let rest = walk_up sys body n r.0 (sys.dir curr) in
    if r.1 then some r.0 else if is_top curr || text_eq (sys.dir curr) curr then some r.0 else rest

-- A file of one number in a directory.
unfoldable pub read_number : System → Text → Text → Option ℕ
unfolding parse_uint_bytes
read_number sys dir name = do b ← sys.read (sys.join dir name); parse_uint_bytes b

abbrev pub set_usage : Text → Option ℕ → CgroupMem → CgroupMem
set_usage dir none out = out
set_usage dir (some n) out = record out { usage = n; path = dir }

abbrev is_finite : ℕ → Bool
is_finite lim = ltb 0 lim && ltb lim cgroup_unlimited

abbrev set_limit : ℕ → CgroupMem → CgroupMem
set_limit lim out = record out { limit = lim; is_ok = true }

abbrev limit_or_usage : System → Text → Option ℕ → CgroupMem → CgroupMem × Bool
limit_or_usage sys curr (some lim) out =
    if is_finite lim
    then (set_limit lim out, true)
    else if out.usage == 0
    then (set_usage curr (read_number sys curr (codes "memory.current")) out, false)
    else (out, false)
limit_or_usage sys curr none out =
    if out.usage == 0
    then (set_usage curr (read_number sys curr (codes "memory.current")) out, false)
    else (out, false)

-- The body of the loop of `ReadCgroupMemory`.
unfoldable pub memory_step : System → CgroupMem → Text → CgroupMem × Bool
unfolding read_number
memory_step sys out curr = limit_or_usage sys curr (read_number sys curr (codes "memory.max")) out

abbrev finite_or : Option ℕ → CgroupMem → CgroupMem
finite_or none out = out
finite_or (some lim) out = if is_finite lim then set_limit lim out else out

abbrev pub or_dir : Text → Text → Text
or_dir [] dir = dir
or_dir (c ∷ p) dir = c ∷ p

-- The part of `ReadCgroupMemory` for version 1 of control groups.
unfoldable pub read_memory_v1 : System → Text → CgroupMem
unfolding read_number
read_memory_v1 sys dir =
    finite_or (read_number sys dir (codes "memory.limit_in_bytes"))
      (set_usage dir (read_number sys dir (codes "memory.usage_in_bytes")) no_limit)

unfoldable pub read_memory_v2 : System → Text → Option CgroupMem
unfolding memory_step walk_up
read_memory_v2 sys dir =
    walk_up sys (memory_step sys) (length dir + 2)
      (set_usage dir (read_number sys dir (codes "memory.current")) no_limit) dir

-- `ReadCgroupMemory`
unfoldable pub read_cgroup_memory : System → Option CgroupMem
unfolding resolve_cgroup_v2_dir self_cgroup_v1_path read_memory_v1 read_memory_v2
read_cgroup_memory sys =
    let dir = resolve_cgroup_v2_dir sys in
    if is_nil dir
    then some (
        read_memory_v1 sys
          (or_dir (self_cgroup_v1_path sys (codes "memory")) (codes "/sys/fs/cgroup/memory")))
    else read_memory_v2 sys dir

-- A quota: the microseconds of each period, and the period.
abbrev pub Quota : Type 0
Quota = ℤ × ℤ

abbrev pub is_pos : ℤ → Bool
is_pos (pos (suc n)) = true
is_pos _ = false

-- `strconv.ParseInt` without an error, and positive.
abbrev positive_int : Text → Option ℤ
positive_int s = let (v, fine) = parse_int s in if fine && is_pos v then some v else none

-- The fields of `cpu.max`; the period defaults to 100000.
unfoldable pub read_cpu_max : List Text → Option Quota
read_cpu_max [] = none
read_cpu_max (q ∷ []) =
    if text_eq q (codes "max") then none else (do quota ← positive_int q; some (quota, pos 100000))
read_cpu_max (q ∷ p ∷ _) =
    if text_eq q (codes "max")
    then none
    else (do quota ← positive_int q; some (quota, get_or (pos 100000) (positive_int p)))

-- A loop that ends at the first directory with a value.
abbrev pub first_value {ℓ} : {A : Type ℓ} → (Text → Option A) → Option A → Text → Option A × Bool
first_value f s curr = elim (f curr) [ none ↦ (none, false) | some a ↦ (some a, true) ]

abbrev cpu_max_in : System → Text → Option Quota
cpu_max_in sys curr = do b ← sys.read (sys.join curr (codes "cpu.max")); read_cpu_max (fields b)

unfoldable pub read_quota_v1 : System → Text → Option Quota
read_quota_v1 sys dir = do
  qb ← sys.read (sys.join dir (codes "cpu.cfs_quota_us"))
  pb ← sys.read (sys.join dir (codes "cpu.cfs_period_us"))
  q ← positive_int (trim_space qb)
  p ← positive_int (trim_space pb)
  some (q, p)

-- `readCPUQuota`; the outer option is the fuel.
unfoldable pub read_cpu_quota : System → Text → Bool → Option (Option Quota)
unfolding read_cpu_max read_quota_v1 walk_up
read_cpu_quota sys dir true = walk_up sys (first_value (cpu_max_in sys)) (length dir + 2) none dir
read_cpu_quota sys dir false = some (read_quota_v1 sys dir)

abbrev usage_line : List Text → Option ℕ
usage_line (k ∷ v ∷ []) = if text_eq k (codes "usage_usec") then parse_uint v else none
usage_line _ = none

unfoldable pub find_usage : List Text → Option ℕ
find_usage [] = none
find_usage (l ∷ ls) =
    let rest = find_usage ls in elim (usage_line (fields l)) [ none ↦ rest | some v ↦ some v ]

abbrev cpu_stat_in : System → Text → Option ℕ
cpu_stat_in sys curr = do b ← sys.read (sys.join curr (codes "cpu.stat")); find_usage (scan_lines b)

-- `readCPUUsageUsec`
unfoldable pub read_cpu_usage_usec : System → Text → Bool → Option (Option ℕ)
unfolding find_usage walk_up
read_cpu_usage_usec sys dir true =
    walk_up sys (first_value (cpu_stat_in sys)) (length dir + 2) none dir
read_cpu_usage_usec sys dir false = some (do
  b ← sys.read (sys.join dir (codes "cpuacct.usage"))
  ns ← parse_uint (trim_space b)
  some (ns / 1000))
