-- ===== src/Network/Interfaces.antt =====
-- monitoring/unit/net.go: the network interfaces that the reports include.
use mango_agent.Base.{
  ℕ, Bool, true, false, ◌||◌, Option, none, some, List, [], ◌∷◌, map, Text, codes, if◌then◌else◌,
  add64,
}
use mango_agent.Strings.{is_nil, has_prefix, split, trim_space}

-- `loopbackNames`
abbrev pub loopback_names : List Text
loopback_names =
    codes "br"
    ∷ codes "cni"
    ∷ codes "docker"
    ∷ codes "podman"
    ∷ codes "flannel"
    ∷ codes "lo"
    ∷ codes "veth"
    ∷ codes "virbr"
    ∷ codes "vmbr"
    ∷ codes "tap"
    ∷ codes "fwbr"
    ∷ codes "fwpr"
    ∷ []

unfoldable pub begins_with_one : Text → List Text → Bool
begins_with_one s [] = false
begins_with_one s (p ∷ ps) = has_prefix s p || begins_with_one s ps

-- `parseNics`; the list stands for the set.
unfoldable pub parse_nics : Text → List Text
parse_nics nics = if is_nil nics then [] else map trim_space (split b',' nics)

-- The fields of `net.IOCountersStat` that are read.
pub record NicCounters : Type 0 where
  pub name : Text
  pub bytes_sent : ℕ
  pub bytes_recv : ℕ

-- `glob` is `filepath.Match` of a pattern and a name, where a bad pattern matches nothing.
module _ (glob : Text → Text → Bool) where
  unfoldable pub matches_any : List Text → Text → Bool
  matches_any [] name = false
  matches_any (pattern_ ∷ ps) name = glob pattern_ name || matches_any ps name

  unfoldable pub should_include : Text → List Text → List Text → Bool
  should_include name include exclude =
      if begins_with_one name loopback_names
      then false
      else if matches_any include name
      then true
      else if matches_any exclude name
      then false
      else is_nil include

  unfoldable pub list_names : List Text → List Text → List NicCounters → List Text
  list_names include exclude [] = []
  list_names include exclude (c ∷ cs) =
      let rest = list_names include exclude cs in
      if should_include c.name include exclude then c.name ∷ rest else rest

  abbrev names_of : List Text → List Text → Option (List NicCounters) → Option (List Text)
  names_of include exclude none = none
  names_of include exclude (some cs) = some (list_names include exclude cs)

  -- `InterfaceList` with `flags.IncludeNics` and `flags.ExcludeNics`, where `counters` is the answer
  -- of `net.IOCounters`; `none` is an error.
  unfoldable pub interface_list : Text → Text → Option (List NicCounters) → Option (List Text)
  interface_list include_nics exclude_nics counters =
      names_of (parse_nics include_nics) (parse_nics exclude_nics) counters

  -- The loop of `collectNetworkTotals`, upward and downward.
  unfoldable pub sum_counters : List Text → List Text → List NicCounters → ℕ × ℕ → ℕ × ℕ
  sum_counters include exclude [] sum = sum
  sum_counters include exclude (c ∷ cs) (up, down) = sum_counters include exclude cs (
      if should_include c.name include exclude
      then (add64 up c.bytes_sent, add64 down c.bytes_recv)
      else (up, down))

  unfoldable pub collect_network_totals :
      List Text → List Text → Option (List NicCounters) → Option (ℕ × ℕ)
  collect_network_totals include exclude none = none
  collect_network_totals include exclude (some []) = none
  collect_network_totals include exclude (some (c ∷ cs)) =
      some (sum_counters include exclude (c ∷ cs) (0, 0))
