-- ===== src/Disk/Parts.antt =====
-- monitoring/unit/disk.go: which partitions count as disks, and their list.
use mango_agent.Base.{
  ℕ, Bool, true, false, not, ◌&&◌, ◌||◌, Option, none, some, List, [], ◌∷◌, ◌++◌, map, Text, codes,
  text_eq, Dict, lookup, insert, length, take, if◌then◌else◌, ltb,
}
use mango_agent.Strings.{
  is_nil, has_prefix, split, trim_space, to_lower, contains, index_of, join, begins_with_any,
}

-- `disk.PartitionStat`
pub record Partition : Type 0 where
  pub device : Text
  pub mountpoint : Text
  pub fstype : Text
  pub opts : List Text

-- `mountpointsToExcludePerfix`
abbrev pub mountpoints_to_exclude : List Text
mountpoints_to_exclude =
    codes "/tmp"
    ∷ codes "/var/tmp"
    ∷ codes "/dev"
    ∷ codes "/run"
    ∷ codes "/var/lib/containers"
    ∷ codes "/var/lib/docker"
    ∷ codes "/proc"
    ∷ codes "/sys"
    ∷ codes "/sys/fs/cgroup"
    ∷ codes "/etc/resolv.conf"
    ∷ codes "/etc/host"
    ∷ codes "/nix/store"
    ∷ []

-- `fstypeToExclude`
abbrev pub fstypes_to_exclude : List Text
fstypes_to_exclude =
    codes "tmpfs"
    ∷ codes "devtmpfs"
    ∷ codes "udev"
    ∷ codes "nfs"
    ∷ codes "cifs"
    ∷ codes "smb"
    ∷ codes "vboxsf"
    ∷ codes "9p"
    ∷ codes "fuse"
    ∷ codes "overlay"
    ∷ codes "proc"
    ∷ codes "devpts"
    ∷ codes "sysfs"
    ∷ codes "cgroup"
    ∷ codes "mqueue"
    ∷ codes "hugetlbfs"
    ∷ codes "debugfs"
    ∷ codes "binfmt_misc"
    ∷ codes "securityfs"
    ∷ codes "nullfs"
    ∷ []

unfoldable pub is_physical_disk : Partition → Bool
is_physical_disk part =
    let mountpoint = to_lower part.mountpoint in
    let fstype = to_lower part.fstype in
    let opts = to_lower (join b',' part.opts) in
    if text_eq part.mountpoint (codes "/")
    then true
    else if begins_with_any mountpoint mountpoints_to_exclude
    then false
    else if text_eq fstype (codes "autofs") && not (has_prefix part.device (codes "/dev/"))
    then false
    else if text_eq fstype (codes "fuseblk")
    then true
    else if text_eq part.device (codes "/dev/fuse")
        && text_eq fstype (codes "fuse")
        && text_eq mountpoint (codes "/sdcard")
    then true
    else if begins_with_any fstype fstypes_to_exclude
    then false
    else if contains opts (codes "remote") || contains opts (codes "network")
    then false
    else if has_prefix part.device (codes "/dev/loop")
    then false
    else true

abbrev up_to : Text → Option ℕ → Text
up_to device none = device
up_to device (some i) = take i device

-- The variable `deviceID`, and `dev`: for ZFS it is the pool.
unfoldable pub device_id : Partition → Text
device_id part =
    if text_eq (to_lower part.fstype) (codes "zfs")
    then up_to part.device (index_of part.device (codes "/"))
    else part.device

-- The mountpoints of `flags.IncludeMountpoints`.
unfoldable pub include_mounts : List Text → List Text
include_mounts [] = []
include_mounts (m ∷ ms) =
    let rest = include_mounts ms in if is_nil (trim_space m) then rest else trim_space m ∷ rest

unfoldable pub included : Text → List Text
included flag = include_mounts (split b';' flag)

-- `deviceMap` of `DiskList` after one more physical partition.
abbrev pub keep_shorter : Partition → Option Partition → Dict Partition → Dict Partition
keep_shorter part none m = insert (device_id part) part m
keep_shorter part (some existing) m =
    if ltb (length part.mountpoint) (length existing.mountpoint)
    then insert (device_id part) part m
    else m

-- `deviceMap` of `DiskList` at the end of its loop.
unfoldable pub device_map : List Partition → Dict Partition → Dict Partition
device_map [] m = m
device_map (part ∷ parts) m =
    device_map parts
      (if is_physical_disk part then keep_shorter part (lookup (device_id part) m) m else m)

abbrev pub list_entry : Text × Partition → Text
list_entry (id, part) = part.mountpoint ++ codes " (" ++ part.fstype ++ codes ")"

abbrev pub list_of :
    (Dict Partition → Dict Partition) → Option (List Partition) → Option (List Text)
list_of range none = none
list_of range (some parts) = some (map list_entry (range (device_map parts [])))

-- `DiskList`, where `parts` is the answer of `disk.Partitions`, and `range` the order in which a
-- `range` visits the entries of the map; `none` is an error.
unfoldable pub disk_list :
    (Dict Partition → Dict Partition) → Text → Option (List Partition) → Option (List Text)
disk_list range include_mountpoints parts =
    if is_nil include_mountpoints then list_of range parts else some (included include_mountpoints)
