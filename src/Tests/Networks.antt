-- ===== src/Tests/Networks.antt =====
-- monitoring/unit/net.go, monitoring/unit/miner.go, dnsresolver/resolver.go and utils/utils.go on
-- small inputs.
use mango_agent.Base.{
  ℕ, Bool, true, false, Option, none, some, List, [], ◌∷◌, map, Text, codes, text_eq, ◌≡◌, refl,
  All, arith, keep_if, if◌then◌else◌,
}
use mango_agent.Network.Interfaces.{
  NicCounters, loopback_names, begins_with_one, parse_nics, interface_list, collect_network_totals,
}
use mango_agent.Network.Totals.{included_nic, sum_all, interface_list-totals}
use mango_agent.Miner.Snapshot.{Snapshot, miner, collect_all}
use mango_agent.Miner.History.{miner-collect_all}
use mango_agent.Utils.Reset.{date, get_last_reset_date}
use mango_agent.Utils.Latest.{IsLastReset, get_last_reset_date-IsLastReset}

abbrev nic : Text → NicCounters
nic name = record { name = name; bytes_sent = 3; bytes_recv = 4 }

abbrev nics : List NicCounters
nics = nic (codes "lo") ∷ nic (codes "eth0") ∷ nic (codes "eth1") ∷ []

interface_list-totals_example :
    let include = parse_nics (codes "eth0") in
    let exclude = parse_nics [] in
    let kept = keep_if (included_nic text_eq include exclude) nics in
    (interface_list text_eq (codes "eth0") [] (some nics) ≡ some (map (λ c. c.name) kept))
    × (collect_network_totals text_eq include exclude (some nics) ≡ some (sum_all kept (0, 0)))
    × All (λ c. begins_with_one c.name loopback_names ≡ false) kept
interface_list-totals_example = interface_list-totals text_eq (codes "eth0") [] nics refl

abbrev no_snapshot : Snapshot ℕ
no_snapshot = record { last = none; fails = 0 }

miner-collect_all_example :
    (miner 40 (collect_all ((10, none) ∷ (20, some 7) ∷ (30, none) ∷ []) no_snapshot) ≡ some 7)
    × (no_snapshot.last ≡ none → miner 40 (collect_all ((30, none) ∷ []) no_snapshot) ≡ none)
miner-collect_all_example =
    miner-collect_all ((10, none) ∷ []) ((30, none) ∷ []) 7 20 40 no_snapshot (refl, tt)

-- `net.ParseIP` of two addresses.
abbrev parse_ip : Text → Option Bool
parse_ip ip =
    if text_eq ip (codes "10.0.0.1")
    then some true
    else if text_eq ip (codes "::2")
    then some false
    else none

abbrev reached : Text → Bool
reached ip = text_eq ip (codes "::2")

-- Every month has 30 days.
abbrev thirty : ℕ → ℕ → ℕ
thirty year month = 30

get_last_reset_date-IsLastReset_example :
    IsLastReset thirty
      (λ year month. (omega arith, omega arith))
      31
      (omega arith)
      (omega arith)
      (date 2026 1 15)
      (get_last_reset_date thirty 31 (date 2026 1 15))
get_last_reset_date-IsLastReset_example =
    get_last_reset_date-IsLastReset thirty (λ year month. (omega arith, omega arith)) 31
      (omega arith) (omega arith) (date 2026 1 15)
      (record {
        first_month = omega arith;
        last_month = omega arith;
        first_day = omega arith;
        last_of_month = omega arith;
      })
      (omega arith)
