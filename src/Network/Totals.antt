-- ===== src/Network/Totals.antt =====
-- monitoring/unit/net.go: which interfaces the totals are made of, and when a report fails.
use mango_agent.Base.{
  ℕ, Bool, true, false, Bool-cases, Option, none, some, List, [], ◌∷◌, map, Text, add64, ◌≡◌, refl,
  ap, inl, inr, All, keep_if,
}
use mango_agent.Strings.{is_nil}
use mango_agent.Network.Interfaces.{
  NicCounters, loopback_names, begins_with_one, parse_nics, should_include, list_names,
  interface_list, sum_counters, collect_network_totals,
}
use mango_agent.Network.Speed.{SpeedSample, with_totals}

-- The wrapped sums over some counters.
unfoldable pub sum_all : List NicCounters → ℕ × ℕ → ℕ × ℕ
sum_all [] sum = sum
sum_all (c ∷ cs) (up, down) = sum_all cs (add64 up c.bytes_sent, add64 down c.bytes_recv)

module _ (glob : Text → Text → Bool) (include exclude : List Text) where
  abbrev pub included_nic : NicCounters → Bool
  included_nic c = should_include glob c.name include exclude

  list_names_lem :
      (cs : List NicCounters)
      → list_names glob include exclude cs ≡ map (λ c. c.name) (keep_if included_nic cs)
  unfolding list_names
  list_names_lem [] = refl
  list_names_lem (c ∷ cs) = elim (Bool-cases (included_nic c)) [
    | inl yes' ↦ simp (yes', list_names_lem cs)
    | inr no' ↦ simp (no', list_names_lem cs)
  ]

  sum_counters_lem :
      (cs : List NicCounters) (sum : ℕ × ℕ)
      → sum_counters glob include exclude cs sum ≡ sum_all (keep_if included_nic cs) sum
  unfolding sum_counters sum_all
  sum_counters_lem [] sum = refl
  sum_counters_lem (c ∷ cs) (up, down) = elim (Bool-cases (included_nic c)) [
    | inl yes' ↦ simp yes' (sum_counters_lem cs (add64 up c.bytes_sent, add64 down c.bytes_recv))
    | inr no' ↦ simp no' (sum_counters_lem cs (up, down))
  ]

  not_loopback :
      (c : NicCounters) → included_nic c ≡ true → begins_with_one c.name loopback_names ≡ false
  unfolding should_include
  not_loopback c h = elim (Bool-cases (begins_with_one c.name loopback_names)) [
    | inl lo ↦ cc (simp lo at h)
    | inr other ↦ other
  ]

  kept_not_loopback :
      (cs : List NicCounters)
      → All (λ c. begins_with_one c.name loopback_names ≡ false) (keep_if included_nic cs)
  kept_not_loopback [] = tt
  kept_not_loopback (c ∷ cs) = elim (Bool-cases (included_nic c)) [
    | inl yes' ↦ rw yes' (not_loopback c yes', kept_not_loopback cs)
    | inr no' ↦ rw no' (kept_not_loopback cs)
  ]

  totals_lem :
      (cs : List NicCounters)
      → is_nil cs ≡ false
      → collect_network_totals glob include exclude (some cs)
        ≡ some (sum_all (keep_if included_nic cs) (0, 0))
  unfolding collect_network_totals
  totals_lem [] h = cc
  totals_lem (c ∷ cs) h = ap some (sum_counters_lem (c ∷ cs) (0, 0))

-- The totals of the traffic are the wrapped sums over exactly the interfaces of the interface list,
-- none of which has a loopback or virtual name, when there is some interface.
pub interface_list-totals :
    (glob : Text → Text → Bool) (include_nics exclude_nics : Text) (cs : List NicCounters)
    → is_nil cs ≡ false
    → let include = parse_nics include_nics in
      let exclude = parse_nics exclude_nics in
      let kept = keep_if (included_nic glob include exclude) cs in
      (interface_list glob include_nics exclude_nics (some cs) ≡ some (map (λ c. c.name) kept))
      × (collect_network_totals glob include exclude (some cs) ≡ some (sum_all kept (0, 0)))
      × All (λ c. begins_with_one c.name loopback_names ≡ false) kept
unfolding interface_list
interface_list-totals glob include_nics exclude_nics cs h =
    let include = parse_nics include_nics in
    let exclude = parse_nics exclude_nics in
    (
      ap some (list_names_lem glob include exclude cs),
      totals_lem glob include exclude cs h,
      kept_not_loopback glob include exclude cs,
    )

module _ (glob : Text → Text → Bool) (rate : ℕ → ℕ → ℕ) where
  abbrev is_none {ℓ} : {A : Type ℓ} → Option A → Bool
  is_none none = true
  is_none (some a) = false

  with_totals_lem :
      (o : Option (ℕ × ℕ)) (now : ℕ) (s : Option SpeedSample)
      → (with_totals glob rate o now s).1.failed ≡ is_none o
  with_totals_lem none now s = refl
  with_totals_lem (some (up, down)) now s = refl
