-- ===== src/Disk/Quota.antt =====
-- monitoring/unit/disk.go: the report under a quota, and the age of what it says of a directory.
use mango_agent.Base.{
  ℕ, ◌+◌, ◌≤◌, ◌<◌, true, ◌&&◌, Bool-cases, Option, none, some, Option-cases, List, [], ◌∷◌, Text,
  text_eq, text_eq_iff, ltb, ◌≡◌, refl, ap, inl, inr, arith, All,
}
use mango_agent.Disk.Usage.{
  DiskInfo, Entry, dir_apparent_size, disk_walk_ttl, Cache, dir_apparent_size_cached, DiskSystem,
  Limits, fresh, measured, forced_disk_used, forced_by, disk_info,
}

forced_by_lem :
    (system : DiskSystem) (total : ℕ) (info : DiskInfo) (o : Option ℕ)
    → ((forced_by system total info o).total ≡ total)
      × ((forced_by system total info o).used ≤ total)
forced_by_lem system total info none = (refl, ground arith)
forced_by_lem system total info (some used) = (refl, ground arith)

-- With a quota set, `Disk` reports the quota as the total, and a use that is at most the quota.
pub disk-quota :
    (system : DiskSystem) (flags : Limits) (now : ℕ) (c : Cache)
    → 0 < flags.force_disk_total
    → let info = (disk_info system flags now c).1 in
      (info.total ≡ flags.force_disk_total) × (info.used ≤ flags.force_disk_total)
unfolding disk_info
disk-quota system flags now c h =
    let e : ltb 0 flags.force_disk_total ≡ true = ground (arith, h) in
    simp e (
      forced_by_lem system flags.force_disk_total
        (measured system flags.include_mountpoints system.partitions)
        (forced_disk_used system flags now c).1)

module _ (tree : ℕ → Text → List Entry) where
  -- What the cache holds was walked at the time it says, which is not after `now`.
  pub record IsWalked (now : ℕ) (c : Cache) : Type 0 where
    pub walked : (t : ℕ) → c.at ≡ some t → c.used ≡ dir_apparent_size (tree t c.root)
    pub past : (t : ℕ) → c.at ≡ some t → t ≤ now

  -- A size that a walk of `root` found less than `diskWalkTTL` before `now`.
  pub record IsRecent (now : ℕ) (root : Text) (used : Option ℕ) : Type 0 where
    pub at : ℕ
    pub found : used ≡ dir_apparent_size (tree at root)
    pub past : at ≤ now
    pub recent : now < at + disk_walk_ttl

  cached_lem :
      (earlier now : ℕ) (root : Text) (c : Cache)
      → earlier ≤ now
      → IsWalked earlier c
      → let (c', used) = dir_apparent_size_cached tree now root c in
        IsWalked now c' × IsRecent now root used
  unfolding dir_apparent_size_cached
  cached_lem earlier now root c le w = elim (Bool-cases (text_eq c.root root && fresh now c.at)) [
    | inl hit ↦
        rw hit
          (record { walked = w.walked; past = λ t e. omega (arith, le, w.past t e) }, hit_lem hit)
    | inr miss ↦ rw miss (
      record {
        walked = λ t e. let k : now ≡ t = cc in ap (λ s. dir_apparent_size (tree s root)) k;
        past = λ t e. let k : now ≡ t = cc in omega (arith, k);
      },
      record { at = now; found = refl; past = omega arith; recent = omega arith },
    )
  ]
    where
      hit_lem : (text_eq c.root root && fresh now c.at) ≡ true → IsRecent now root c.used
      hit_lem hit = elim (Option-cases c.at) [
        | inl none_yet ↦ ground (arith, none_yet, hit)
        | inr (t, e) ↦
            let same : c.root ≡ root = (text_eq_iff c.root root).0 (ground (arith, hit)) in
            record {
              at = t;
              found = rw⁻¹ same (w.walked t e);
              past = omega (arith, le, w.past t e);
              recent = let k = simp e at hit in ground (arith, k);
            }
      ]

  -- A call at a time, for a directory.
  abbrev pub Call : Type 0
  Call = ℕ × Text

  abbrev pub Ascends : ℕ → List Call → Type 0
  Ascends earlier [] = Unit
  Ascends earlier ((now, root) ∷ calls) = earlier ≤ now × Ascends now calls

  -- Each call with its answer.
  unfoldable pub answers : List Call → Cache → List (Call × Option ℕ)
  answers [] c = []
  answers ((now, root) ∷ calls) c =
      let (c', used) = dir_apparent_size_cached tree now root c in
      ((now, root), used) ∷ answers calls c'

  -- In any sequence of calls, for whatever directories, each answer is what a walk of the directory
  -- asked for found, less than a minute before the call and not after it, when the cache is as a
  -- walk left it.
  pub dir_apparent_size_cached-IsRecent :
      (calls : List Call) (earlier : ℕ) (c : Cache)
      → Ascends earlier calls
      → IsWalked earlier c
      → All (λ a. IsRecent a.0.0 a.0.1 a.1) (answers calls c)
  unfolding answers
  dir_apparent_size_cached-IsRecent [] earlier c h w = tt
  dir_apparent_size_cached-IsRecent ((now, root) ∷ calls) earlier c h w =
      let (walked, recent) = cached_lem earlier now root c h.0 w in
      (recent, dir_apparent_size_cached-IsRecent calls now _ h.1 walked)
