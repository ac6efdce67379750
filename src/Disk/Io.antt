-- ===== src/Disk/Io.antt =====
-- monitoring/unit/disk_io.go: the devices whose traffic is reported, and its rates.
use mango_agent.Base.{
  ℕ, ◌-◌, Bool, true, false, not, ◌||◌, Option, none, some, List, [], ◌∷◌, ◌++◌, map, Text, codes,
  text_eq, Dict, lookup, insert, length, if◌then◌else◌, ltb, leb, get_or, ◌>>=◌,
}
use mango_agent.Strings.{is_nil, has_prefix, trim_prefix, split, fields}
use mango_agent.Disk.Parts.{Partition, is_physical_disk, device_id, included}

-- `mountTarget`
pub record Target : Type 0 where
  pub mountpoint : Text
  pub device : Text

-- `/proc/self/mountinfo`, the link of a device number under `/sys/dev/block`, `path.Base`, and the
-- order in which a `range` visits the entries of a map.
pub record Sys : Type 0 where
  pub mountinfo : Option Text
  pub read_link : Text → Option Text
  pub base : Text → Text
  pub range : Dict Text → Dict Text

unfoldable pub is_virtual_device : Text → Bool
is_virtual_device dev = not (has_prefix dev (codes "/dev/"))

unfoldable pub is_real_block_device : Text → Bool
is_real_block_device dev =
    if not (has_prefix dev (codes "/dev/"))
    then false
    else if has_prefix dev (codes "/dev/loop")
    then false
    else true

unfoldable pub trim_dev_prefix : Text → Text
trim_dev_prefix dev = trim_prefix dev (codes "/dev/")

abbrev major_minor : Text → List Text → Option Text
major_minor mountpoint (a ∷ b ∷ c ∷ d ∷ e ∷ fs) = if text_eq e mountpoint then some c else none
major_minor mountpoint _ = none

unfoldable pub find_in_lines : Text → List Text → Option Text
find_in_lines mountpoint [] = none
find_in_lines mountpoint (l ∷ ls) = elim (major_minor mountpoint (fields l)) [
  | some c ↦ some c
  | none ↦ find_in_lines mountpoint ls
]

-- `findMountinfoMajorMinor`; `none` is the empty text.
unfoldable pub find_mountinfo_major_minor : Text → Text → Option Text
find_mountinfo_major_minor content mountpoint = find_in_lines mountpoint (split 10 content)

abbrev named_device : Text → Text → Text
named_device dev name =
    if is_nil name || text_eq name (codes ".") || text_eq name (codes "/")
    then dev
    else codes "/dev/" ++ name

unfoldable pub resolve_physical_device : Sys → Text → Text → Text
resolve_physical_device sys mountpoint dev =
    if has_prefix dev (codes "/dev/")
    then dev
    else get_or dev (do
      content ← sys.mountinfo
      number ← find_mountinfo_major_minor content mountpoint
      link ← sys.read_link number
      some (named_device dev (sys.base link)))

-- The maps `seen` of the two loops over the partitions: a device and its shortest mountpoint.
abbrev pub see : Partition → Option Text → Dict Text → Dict Text
see part none m = insert (device_id part) part.mountpoint m
see part (some existing) m =
    if ltb (length part.mountpoint) (length existing)
    then insert (device_id part) part.mountpoint m
    else m

unfoldable pub seen_map : (Partition → Bool) → List Partition → Dict Text → Dict Text
seen_map p [] m = m
seen_map p (part ∷ parts) m =
    seen_map p parts (if p part then see part (lookup (device_id part) m) m else m)

abbrev pub target_of : Text × Text → Target
target_of (dev, mp) = record { mountpoint = mp; device = trim_dev_prefix dev }

unfoldable pub fallback_physical_targets : (Dict Text → Dict Text) → List Partition → List Target
fallback_physical_targets range parts =
    map target_of (range (seen_map (λ part. is_real_block_device part.device) parts []))

unfoldable pub default_mount_targets : (Dict Text → Dict Text) → List Partition → List Target
default_mount_targets range parts = map target_of (range (seen_map is_physical_disk parts []))

-- The map `byMount`.
unfoldable pub by_mount : List Partition → Dict Text → Dict Text
by_mount [] m = m
by_mount (part ∷ parts) m = by_mount parts (insert part.mountpoint part.device m)

-- What one mountpoint of the list adds to `targets`, and whether it sets `hadVirtual`.
abbrev pub mount_target : Sys → Text → Option Text → List Target × Bool
mount_target sys mp none = ([], false)
mount_target sys mp (some dev) =
    let real = resolve_physical_device sys mp dev in
    if is_virtual_device real
    then ([], true)
    else (record { mountpoint = mp; device = trim_dev_prefix real } ∷ [], false)

unfoldable pub include_targets : Sys → Dict Text → List Text → List Target × Bool
include_targets sys m [] = ([], false)
include_targets sys m (mp ∷ mps) =
    let here = mount_target sys mp (lookup mp m) in
    let rest = include_targets sys m mps in (here.0 ++ rest.0, here.1 || rest.1)

abbrev pub or_physical : Sys → List Partition → List Target × Bool → List Target
or_physical sys parts ([], true) = fallback_physical_targets sys.range parts
or_physical sys parts (targets, had_virtual) = targets

unfoldable pub filter_mount_targets : Sys → Text → List Partition → List Target
filter_mount_targets sys include_mountpoints parts =
    if is_nil include_mountpoints
    then default_mount_targets sys.range parts
    else or_physical sys parts
        (include_targets sys (by_mount parts []) (included include_mountpoints))

-- The counters of `disk.IOCountersStat` that are read.
pub record DiskCounters : Type 0 where
  pub read_bytes : ℕ
  pub write_bytes : ℕ
  pub read_count : ℕ
  pub write_count : ℕ

unfoldable pub disk_safe_delta : ℕ → ℕ → ℕ
disk_safe_delta cur prev = if leb prev cur then cur - prev else 0

-- `DiskIOStat` before the division by the time that passed.
pub record IoDelta : Type 0 where
  pub device : Text
  pub mountpoint : Text
  pub read_bytes : ℕ
  pub write_bytes : ℕ
  pub read_count : ℕ
  pub write_count : ℕ

abbrev pub delta_of : Target → Option DiskCounters → Option DiskCounters → List IoDelta
delta_of t (some p) (some c) =
    record {
      device = t.device;
      mountpoint = t.mountpoint;
      read_bytes = disk_safe_delta c.read_bytes p.read_bytes;
      write_bytes = disk_safe_delta c.write_bytes p.write_bytes;
      read_count = disk_safe_delta c.read_count p.read_count;
      write_count = disk_safe_delta c.write_count p.write_count;
    }
    ∷ []
delta_of t _ _ = []

unfoldable pub deltas : List Target → Dict DiskCounters → Dict DiskCounters → List IoDelta
deltas [] prev cur = []
deltas (t ∷ ts) prev cur =
    delta_of t (lookup t.device prev) (lookup t.device cur) ++ deltas ts prev cur

-- `computeDiskIORates`: the differences that it divides by the time that passed, which is in
-- nanoseconds here.
unfoldable pub compute_disk_io_rates :
    List Target → Dict DiskCounters → Dict DiskCounters → ℕ → List IoDelta
compute_disk_io_rates targets prev cur elapsed =
    if not (ltb 0 elapsed) || is_nil prev || is_nil cur then [] else deltas targets prev cur

-- `lastDiskIOCounters` with `lastDiskSampleTime`, once there is a sample.
abbrev pub IoSample : Type 0
IoSample = Option (Dict DiskCounters × ℕ)

abbrev rates_since : List Target → Dict DiskCounters → ℕ → IoSample → List IoDelta
rates_since targets cur now none = []
rates_since targets cur now (some (prev, at)) =
    if ltb at now then compute_disk_io_rates targets prev cur (now - at) else []

abbrev with_counters :
    List Target → Option (Dict DiskCounters) → ℕ → IoSample → IoSample × List IoDelta
with_counters targets none now last = (last, [])
with_counters targets (some cur) now last = (some (cur, now), rates_since targets cur now last)

abbrev with_targets :
    List Target → Option (Dict DiskCounters) → ℕ → IoSample → IoSample × List IoDelta
with_targets [] counters now last = (last, [])
with_targets (t ∷ ts) counters now last = with_counters (t ∷ ts) counters now last

abbrev with_parts :
    Sys
    → Text
    → Option (List Partition)
    → Option (Dict DiskCounters)
    → ℕ
    → IoSample
    → IoSample × List IoDelta
with_parts sys mounts none counters now last = (last, [])
with_parts sys mounts (some parts) counters now last =
    with_targets (filter_mount_targets sys mounts parts) counters now last

-- `DiskIO`, where `parts` and `counters` are the answers of `disk.Partitions` and
-- `disk.IOCounters`.
unfoldable pub disk_io :
    Sys
    → Text
    → Option (List Partition)
    → Option (Dict DiskCounters)
    → ℕ
    → IoSample
    → IoSample × List IoDelta
disk_io sys mounts parts counters now last = with_parts sys mounts parts counters now last
