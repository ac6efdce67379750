-- ===== src/Tests/Disks.antt =====
-- monitoring/unit/disk.go and disk_io.go on small inputs.
use mango_agent.Base.{ℕ, true, none, List, [], ◌∷◌, map, Text, codes, ◌≡◌, All, arith}
use mathlib.Core.List.{Perm, reverse, reverse_perm}
use mathlib.Core.List.Perm
use mango_agent.Disk.Parts.{Partition, is_physical_disk, device_map}
use mango_agent.Disk.Io.{default_mount_targets}
use mango_agent.Disk.Usage.{Entry, regular, directory, Cache}
use mango_agent.Disk.Dedup.{disk_target, Covers, default_mount_targets-Covers}
use mango_agent.Disk.Quota.{IsRecent, answers, dir_apparent_size_cached-IsRecent}

abbrev partition : Text → Text → Partition
partition device mountpoint = record {
  device = device;
  mountpoint = mountpoint;
  fstype = codes "ext4";
  opts = [];
}

abbrev parts : List Partition
parts =
    partition (codes "/dev/sda1") (codes "/data/a")
    ∷ partition (codes "/dev/sda1") (codes "/data")
    ∷ partition (codes "tmpfs") (codes "/run")
    ∷ []

-- One loop visits the entries backwards.
default_mount_targets-Covers_example :
    Perm (default_mount_targets reverse parts) (map disk_target (device_map parts []))
    × All (λ p. is_physical_disk p ≡ true → Covers p (device_map parts [])) parts
default_mount_targets-Covers_example =
    default_mount_targets-Covers reverse (λ m. m) parts (λ m. reverse_perm m) (λ m. Perm.refl m)

-- A directory with one file, which grows.
abbrev tree : ℕ → Text → List Entry
tree now root = directory ∷ regular now ∷ []

abbrev calls : List (ℕ × Text)
calls = (5, codes "/home") ∷ (70000000000, codes "/home") ∷ (70000000001, codes "/home") ∷ []

abbrev empty_cache : Cache
empty_cache = record { root = []; used = none; at = none }

dir_apparent_size_cached-IsRecent_example :
    All (λ a. IsRecent tree a.0.0 a.0.1 a.1) (answers tree calls empty_cache)
dir_apparent_size_cached-IsRecent_example =
    dir_apparent_size_cached-IsRecent tree calls 0 empty_cache
      (omega arith, (omega arith, (omega arith, tt)))
      (record { walked = λ t e. cc; past = λ t e. cc })
