-- ===== src/Disk/Dedup.antt =====
-- monitoring/unit/disk.go and disk_io.go: which mountpoint stands for a device.
use mango_agent.Base.{
  ◌≤◌, ◌<◌, true, Bool-cases, Option, none, some, List, [], ◌∷◌, map, Text, text_eq, text_eq_iff,
  text_eq_refl, Dict, lookup, insert, lookup-insert, length, ltb, ◌≡◌, ◌⊎◌, refl, ap, ◌∙◌, inl, inr,
  arith, All,
}
use mathlib.Core.List.{Perm}
use mathlib.Core.List.Perm
use mango_agent.Disk.Parts.{Partition, is_physical_disk, device_id, keep_shorter, device_map}
use mango_agent.Disk.Io.{see, seen_map, target_of, trim_dev_prefix, default_mount_targets, Target}

-- The device and the mountpoint of an entry of `deviceMap`.
abbrev pub mount_of : Text × Partition → Text × Text
mount_of (id, part) = (id, part.mountpoint)

lookup-map :
    (id : Text) (m : Dict Partition)
    → lookup id (map mount_of m) ≡ elim (lookup id m) [ none ↦ none | some p ↦ some p.mountpoint ]
unfolding lookup
lookup-map id [] = refl
lookup-map id ((j, p) ∷ m) = elim (Bool-cases (text_eq j id)) [
  | inl same ↦ simp same
  | inr other ↦ simp (other, lookup-map id m)
]

insert-map :
    (id : Text) (p : Partition) (m : Dict Partition)
    → map mount_of (insert id p m) ≡ insert id p.mountpoint (map mount_of m)
unfolding insert
insert-map id p [] = refl
insert-map id p ((j, q) ∷ m) = elim (Bool-cases (text_eq j id)) [
  | inl same ↦ simp same
  | inr other ↦ simp (other, insert-map id p m)
]

see-keep_shorter :
    (p : Partition) (m : Dict Partition) (o : Option Partition)
    → map mount_of (keep_shorter p o m)
      ≡ see p (elim o [ none ↦ none | some q ↦ some q.mountpoint ]) (map mount_of m)
see-keep_shorter p m none = insert-map (device_id p) p m
see-keep_shorter p m (some q) =
    elim (Bool-cases (ltb (length p.mountpoint) (length q.mountpoint))) [
      | inl shorter ↦ simp shorter (insert-map (device_id p) p m)
      | inr longer ↦ simp longer
    ]

seen_map-device_map :
    (parts : List Partition) (m : Dict Partition)
    → seen_map is_physical_disk parts (map mount_of m) ≡ map mount_of (device_map parts m)
unfolding seen_map device_map
seen_map-device_map [] m = refl
seen_map-device_map (p ∷ parts) m = elim (Bool-cases (is_physical_disk p)) [
  | inl physical ↦
      let e = see-keep_shorter p m (lookup (device_id p) m) in
      simp (physical, lookup-map (device_id p) m)
        (rw⁻¹ e (seen_map-device_map parts (keep_shorter p (lookup (device_id p) m) m)))
  | inr other ↦ simp other (seen_map-device_map parts m)
]

abbrev pub disk_target : Text × Partition → Target
disk_target (id, p) = record { mountpoint = p.mountpoint; device = trim_dev_prefix id }

map-mount_of : (m : Dict Partition) → map target_of (map mount_of m) ≡ map disk_target m
map-mount_of [] = refl
map-mount_of ((id, p) ∷ m) = ap (λ ts. disk_target (id, p) ∷ ts) (map-mount_of m)

-- The disks whose traffic is reported are those of the disk list.
default_mount_targets-device_map :
    (range : Dict Text → Dict Text) (range' : Dict Partition → Dict Partition)
    (parts : List Partition)
    → ((m : Dict Text) → Perm (range m) m)
    → ((m : Dict Partition) → Perm (range' m) m)
    → Perm (default_mount_targets range parts) (map disk_target (range' (device_map parts [])))
unfolding default_mount_targets
default_mount_targets-device_map range range' parts visits visits' =
    let devices = device_map parts [] in
    let same : map target_of (seen_map is_physical_disk parts []) ≡ map disk_target devices =
      ap (map target_of) (seen_map-device_map parts []) ∙ map-mount_of devices in
    let there = Perm.map target_of (visits (seen_map is_physical_disk parts [])) in
    let back = Perm.symm (Perm.map disk_target (visits' devices)) in
    Perm.trans (rw (← same) there) back

-- The entry of a device in `deviceMap`: a partition of that device whose mountpoint is no longer
-- than that of `p`.
pub record Covers (p : Partition) (m : Dict Partition) : Type 0 where
  pub entry : Partition
  pub held : lookup (device_id p) m ≡ some entry
  pub shorter : length entry.mountpoint ≤ length p.mountpoint

insert-Covers :
    (p q : Partition) (m : Dict Partition)
    → Covers p m
    → (lookup (device_id q) m ≡ none)
      ⊎ ((e : Partition) × (lookup (device_id q) m ≡ some e)
          × (length q.mountpoint < length e.mountpoint))
    → Covers p (insert (device_id q) q m)
insert-Covers p q m c h = elim (Bool-cases (text_eq (device_id q) (device_id p))) [
  | inr other ↦ record {
    entry = c.entry;
    held = rw (lookup-insert, other) c.held;
    shorter = c.shorter;
  }
  | inl same ↦
      let e = (text_eq_iff (device_id q) (device_id p)).0 same in
      record {
        entry = q;
        held = rw (lookup-insert, same) refl;
        shorter = elim h [
          | inl none_held ↦ let held = c.held in cc
          | inr (x, x_held, lt) ↦
              let held = c.held in
              let k : some x ≡ some c.entry = cc in
              let k' : x ≡ c.entry = cc in
              omega (arith, ap (λ y. length y.mountpoint) k', lt, c.shorter)
        ];
      }
]

keep_shorter-Covers :
    (p q : Partition) (m : Dict Partition) (o : Option Partition)
    → lookup (device_id q) m ≡ o
    → Covers p m
    → Covers p (keep_shorter q o m)
keep_shorter-Covers p q m none e c = insert-Covers p q m c (inl e)
keep_shorter-Covers p q m (some x) e c =
    elim (Bool-cases (ltb (length q.mountpoint) (length x.mountpoint))) [
      | inl shorter ↦ rw shorter (insert-Covers p q m c (inr (x, e, ground (arith, shorter))))
      | inr longer ↦ rw longer c
    ]

keep_shorter_self :
    (p : Partition) (m : Dict Partition) (o : Option Partition)
    → lookup (device_id p) m ≡ o
    → Covers p (keep_shorter p o m)
keep_shorter_self p m none e = record {
  entry = p;
  held = rw (lookup-insert, text_eq_refl) refl;
  shorter = omega arith;
}
keep_shorter_self p m (some x) e =
    elim (Bool-cases (ltb (length p.mountpoint) (length x.mountpoint))) [
      | inl shorter ↦ rw shorter (record {
        entry = p;
        held = rw (lookup-insert, text_eq_refl) refl;
        shorter = omega arith;
      })
      | inr longer ↦ rw longer (record { entry = x; held = e; shorter = ground (arith, longer) })
    ]

device_map-keeps :
    (p : Partition) (parts : List Partition) (m : Dict Partition)
    → Covers p m
    → Covers p (device_map parts m)
unfolding device_map
device_map-keeps p [] m c = c
device_map-keeps p (q ∷ parts) m c = elim (Bool-cases (is_physical_disk q)) [
  | inl physical ↦
      rw physical
        (device_map-keeps p parts _ (keep_shorter-Covers p q m (lookup (device_id q) m) refl c))
  | inr other ↦ rw other (device_map-keeps p parts m c)
]

All-covered :
    (parts : List Partition) (m final : Dict Partition)
    → device_map parts m ≡ final
    → All (λ p. is_physical_disk p ≡ true → Covers p final) parts
unfolding device_map
All-covered [] m final e = tt
All-covered (p ∷ parts) m final e = elim (Bool-cases (is_physical_disk p)) [
  | inl physical ↦
      let shorter = keep_shorter p (lookup (device_id p) m) m in
      let e' : device_map parts shorter ≡ final = simp physical at e in
      (
        λ h. rw⁻¹ e' (
            device_map-keeps p parts shorter (keep_shorter_self p m (lookup (device_id p) m) refl)),
        All-covered parts shorter final e',
      )
  | inr other ↦ (λ h. cc, All-covered parts m final (simp other at e))
]

-- Without a list of mountpoints, in whatever order each of the two loops visits its map, the disks
-- whose traffic is reported are those of the disk list: the same devices with the same mountpoints, up
-- to order. Every physical partition is covered there: its device has an entry, whose mountpoint is no
-- longer than the partition's.
pub default_mount_targets-Covers :
    (range : Dict Text → Dict Text) (range' : Dict Partition → Dict Partition)
    (parts : List Partition)
    → ((m : Dict Text) → Perm (range m) m)
    → ((m : Dict Partition) → Perm (range' m) m)
    → Perm (default_mount_targets range parts) (map disk_target (range' (device_map parts [])))
      × All (λ p. is_physical_disk p ≡ true → Covers p (device_map parts [])) parts
default_mount_targets-Covers range range' parts visits visits' = (
  default_mount_targets-device_map range range' parts visits visits',
  All-covered parts [] (device_map parts []) refl,
)
