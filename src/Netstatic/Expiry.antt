-- ===== src/Netstatic/Expiry.antt =====
-- monitoring/netstatic/static.go: which records `purgeExpiredLocked` keeps.
use mango_agent.Base.{
  pos, ℕ, ◌≤◌, ◌<◌, Bool, none, some, List, [], ◌∷◌, ◌++◌, Text, text_eq, if◌then◌else◌, ◌≡◌, ◌≢◌,
  refl, arith, leb, keep_if, All, ◌∙◌,
}
use mango_agent.Netstatic.Data.{
  Floats, TrafficData, GoMap, entries, History, State, cutoff_of, ttl_of,
}
use mango_agent.Netstatic.Ops.{keep_entry, purge_entries, map_entries, purge_expired_locked}

-- The records of an interface, over every entry with its name.
abbrev pub records_for : Text → History → List TrafficData
records_for name [] = []
records_for name ((k, arr) ∷ m) =
    if text_eq k name then arr ++ records_for name m else records_for name m

keep_if-append {ℓ} :
    {A : Type ℓ} (p : A → Bool) (xs ys : List A)
    → keep_if p (xs ++ ys) ≡ keep_if p xs ++ keep_if p ys
keep_if-append p [] ys = refl
keep_if-append p (x ∷ xs) ys = ground (arith, keep_if-append p xs ys)

records_for-keep_entry :
    (name k : Text) (arr : List TrafficData) (m : History)
    → records_for name (keep_entry k arr m)
      ≡ (if text_eq k name then arr ++ records_for name m else records_for name m)
records_for-keep_entry name k [] m = ground arith
records_for-keep_entry name k (td ∷ arr) m = refl

purge_entries_lem :
    (c : ℕ) (m : History) (name : Text)
    → records_for name (purge_entries c m) ≡ keep_if (λ td. leb c td.timestamp) (records_for name m)
unfolding purge_entries
purge_entries_lem c [] name = refl
purge_entries_lem c ((k, arr) ∷ m) name = ground (
  arith,
  records_for-keep_entry name k (keep_if (λ td. leb c td.timestamp) arr) (purge_entries c m),
  purge_entries_lem c m name,
  keep_if-append (λ td. leb c td.timestamp) arr (records_for name m),
)

abbrev pub IsKept : Text × List TrafficData → Type 0
IsKept e = e.1 ≢ []

keep_entry-IsKept :
    (k : Text) (arr : List TrafficData) (m : History)
    → All IsKept m
    → All IsKept (keep_entry k arr m)
keep_entry-IsKept k [] m h = h
keep_entry-IsKept k (td ∷ arr) m h = (λ e. cc, h)

purge_entries-IsKept : (c : ℕ) (m : History) → All IsKept (purge_entries c m)
unfolding purge_entries
purge_entries-IsKept c [] = tt
purge_entries-IsKept c ((k, arr) ∷ m) = keep_entry-IsKept k _ _ (purge_entries-IsKept c m)

keep_none :
    (c b : ℕ) (arr : List TrafficData)
    → b ≤ c
    → All (λ td. td.timestamp < b) arr
    → keep_if (λ td. leb c td.timestamp) arr ≡ []
keep_none c b [] le h = refl
keep_none c b (td ∷ arr) le h = ground (arith, keep_none c b arr le h.1)

cutoff_wraps :
    (now t : ℕ) → now < t → t < 9223372036854775808 → 9223372036854775808 ≤ cutoff_of now (pos t)
unfolding cutoff_of
cutoff_wraps now t lt small = ground arith

module _ (fl : Floats) where
  open fl use {F}

  purge_map :
      (c : ℕ) (m : GoMap (List TrafficData)) (name : Text)
      → (records_for name (entries (map_entries (purge_entries c) m))
          ≡ keep_if (λ td. leb c td.timestamp) (records_for name (entries m)))
        × All IsKept (entries (map_entries (purge_entries c) m))
  purge_map c none name = (refl, tt)
  purge_map c (some m) name = (purge_entries_lem c m name, purge_entries-IsKept c m)

  -- A purge keeps, for each interface, exactly the stored records whose time is at the cutoff or
  -- later, in their order, and leaves no interface with an empty list.
  pub purge_expired_locked_keeps :
      (now : ℕ) (s : State F) (name : Text)
      → (records_for name (entries (purge_expired_locked fl now s).store.interfaces)
          ≡ keep_if
              (λ td. leb (cutoff_of now (ttl_of fl s.config)) td.timestamp)
              (records_for name (entries s.store.interfaces)))
        × All IsKept (entries (purge_expired_locked fl now s).store.interfaces)
  unfolding purge_expired_locked
  purge_expired_locked_keeps now s name =
      purge_map (cutoff_of now (ttl_of fl s.config)) s.store.interfaces name

  -- Where the configured time to keep reaches back before 1970, the cutoff wraps to the far
  -- future, and a purge drops every stored record with a time below 2 ^ 63.
  pub purge_expired_locked_wraps :
      (now t : ℕ) (s : State F) (name : Text)
      → ttl_of fl s.config ≡ pos t
      → now < t
      → t < 9223372036854775808
      → All
          (λ td. td.timestamp < 9223372036854775808)
          (records_for name (entries s.store.interfaces))
      → records_for name (entries (purge_expired_locked fl now s).store.interfaces) ≡ []
  purge_expired_locked_wraps now t s name e lt small old =
      (purge_expired_locked_keeps now s name).0
      ∙ rw e (keep_none _ _ _ (cutoff_wraps now t lt small) old)
