-- ===== src/Dns/Order.antt =====
-- dnsresolver/resolver.go: which of a host's addresses a connection is made to.
use mango_agent.Base.{Bool, false, Option, List, Text, ◌≡◌, All}
use mango_agent.Dns.Resolver.{is_preferred}

module _ (parse_ip : Text → Option Bool) (dial : Text → Bool) where
  abbrev Unreached : List Text → Type 0
  Unreached ips = All (λ ip. dial ip ≡ false) ips

  module _ (p : Text) where
    abbrev preferred : Text → Bool
    preferred = is_preferred parse_ip p
