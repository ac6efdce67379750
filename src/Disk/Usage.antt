-- ===== src/Disk/Usage.antt =====
-- monitoring/unit/disk.go: how much of the disks is used, and the use of a directory under a quota.
-- Times are in nanoseconds, sizes in bytes.
use mango_agent.Base.{
  ℕ, ◌+◌, Bool, true, false, ◌&&◌, Option, none, some, List, [], ◌∷◌, Text, text_eq, Dict, lookup,
  insert, if◌then◌else◌, ltb, add64,
}
use mango_agent.Strings.{is_nil}
use mango_agent.Disk.Parts.{Partition, is_physical_disk, device_id, included}

-- `DiskInfo`, and the fields of `disk.UsageStat` that are read.
pub record DiskInfo : Type 0 where
  pub total : ℕ
  pub used : ℕ

abbrev add_usage : DiskInfo → DiskInfo → DiskInfo
add_usage a b = record { total = add64 a.total b.total; used = add64 a.used b.used }

abbrev pub no_disk : DiskInfo
no_disk = record { total = 0; used = 0 }

-- What `filepath.WalkDir` comes to: an entry it cannot read, a directory, an entry without `Info`,
-- a regular file of a size, or something else.
pub data Entry : Type 0 where
  unreadable : Entry
  directory : Entry
  no_info : Entry
  regular : ℕ → Entry
  irregular : Entry

abbrev visit : Entry → ℕ × Bool → ℕ × Bool
visit unreadable r = r
visit (regular size) (total, walked) = (add64 total size, true)
visit _ (total, walked) = (total, true)

unfoldable pub walk_entries : List Entry → ℕ × Bool → ℕ × Bool
walk_entries [] r = r
walk_entries (e ∷ es) r = walk_entries es (visit e r)

abbrev ok_if_walked : ℕ × Bool → Option ℕ
ok_if_walked (total, true) = some total
ok_if_walked (total, false) = none

-- `dirApparentSize` over what the walk comes to; `none` is not ok.
unfoldable pub dir_apparent_size : List Entry → Option ℕ
unfolding walk_entries
dir_apparent_size entries = ok_if_walked (walk_entries entries (0, false))

-- `diskWalkTTL`
abbrev pub disk_walk_ttl : ℕ
disk_walk_ttl = 60000000000

-- `diskWalkRoot`, `diskWalkUsed` with `diskWalkOK`, and `diskWalkAt`, where `none` is the zero time.
pub record Cache : Type 0 where
  pub root : Text
  pub used : Option ℕ
  pub at : Option ℕ

abbrev pub fresh : ℕ → Option ℕ → Bool
fresh now none = false
fresh now (some at) = ltb now (at + disk_walk_ttl)

-- `dirApparentSizeCached`, where `tree now root` is what a walk of `root` at `now` comes to.
unfoldable pub dir_apparent_size_cached :
    (ℕ → Text → List Entry) → ℕ → Text → Cache → Cache × Option ℕ
dir_apparent_size_cached tree now root c =
    let used = dir_apparent_size (tree now root) in
    if text_eq c.root root && fresh now c.at
    then (c, c.used)
    else (record { root = root; used = used; at = some now }, used)

-- The machine: its partitions, and `disk.Usage` of a mountpoint.
pub record DiskSystem : Type 0 where
  pub partitions : Option (List Partition)
  pub usage : Text → Option DiskInfo
  pub tree : ℕ → Text → List Entry

-- `flags.IncludeMountpoints` and `flags.ForceDiskTotal`.
pub record Limits : Type 0 where
  pub include_mountpoints : Text
  pub force_disk_total : ℕ

abbrev with_usage : Option DiskInfo → DiskInfo → DiskInfo
with_usage none sum = sum
with_usage (some u) sum = add_usage sum u

abbrev keep_larger : Text → DiskInfo → Option DiskInfo → Dict DiskInfo → Dict DiskInfo
keep_larger id u none m = insert id u m
keep_larger id u (some existing) m = if ltb existing.total u.total then insert id u m else m

abbrev add_device : Text → Option DiskInfo → Dict DiskInfo → Dict DiskInfo
add_device id none m = m
add_device id (some u) m = keep_larger id u (lookup id m) m

unfoldable pub sum_devices : Dict DiskInfo → DiskInfo → DiskInfo
sum_devices [] sum = sum
sum_devices ((id, u) ∷ m) sum = sum_devices m (add_usage sum u)

module _ (system : DiskSystem) where
  unfoldable pub sum_mounts : List Text → DiskInfo → DiskInfo
  sum_mounts [] sum = sum
  sum_mounts (m ∷ ms) sum = sum_mounts ms (with_usage (system.usage m) sum)

  -- `deviceMap` of `Disk`.
  unfoldable pub usage_map : List Partition → Dict DiskInfo → Dict DiskInfo
  usage_map [] m = m
  usage_map (part ∷ parts) m = usage_map parts (
      if is_physical_disk part
      then add_device (device_id part) (system.usage part.mountpoint) m
      else m)

  abbrev pub measured : Text → Option (List Partition) → DiskInfo
  measured mounts none = no_disk
  measured mounts (some parts) =
      if is_nil mounts
      then sum_devices (usage_map parts []) no_disk
      else sum_mounts (included mounts) no_disk

  abbrev first_used : ℕ → List Text → Cache → Cache × Option ℕ
  first_used now [] c = (c, none)
  first_used now (root ∷ ms) c = dir_apparent_size_cached system.tree now root c

  -- `forcedDiskUsed`
  unfoldable pub forced_disk_used : Limits → ℕ → Cache → Cache × Option ℕ
  forced_disk_used flags now c =
      if is_nil flags.include_mountpoints
      then (c, none)
      else first_used now (included flags.include_mountpoints) c

  abbrev pub forced_by : ℕ → DiskInfo → Option ℕ → DiskInfo
  forced_by total info none = record {
    total = total;
    used = if ltb total info.used then total else info.used;
  }
  forced_by total info (some used) = record {
    total = total;
    used = if ltb total used then total else used;
  }

  abbrev pub forced : Limits → DiskInfo → Cache × Option ℕ → Cache × DiskInfo
  forced flags info (c, used) = (c, forced_by flags.force_disk_total info used)

  -- `Disk`
  unfoldable pub disk_info : Limits → ℕ → Cache → Cache × DiskInfo
  disk_info flags now c =
      let info = measured flags.include_mountpoints system.partitions in
      if ltb 0 flags.force_disk_total
      then forced flags info (forced_disk_used flags now c)
      else (c, info)
