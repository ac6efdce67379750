-- ===== src/Dns/Resolver.antt =====
-- dnsresolver/resolver.go: the name server that is used, and the order in which addresses are
-- dialled. A connection is known by the address it was made to.
use mango_agent.Base.{
  ℕ, ◌+◌, Bool, true, false, not, ◌&&◌, ◌||◌, Option, none, some, List, [], ◌∷◌, ◌++◌, Text, codes,
  text_eq, if◌then◌else◌, leb, ◌==◌, ◌>>=◌,
}
use mango_agent.Strings.{is_nil, trim_space, has_prefix, contains}

-- `strings.Count` of one byte.
unfoldable pub count_byte : ℕ → Text → ℕ
count_byte c [] = 0
count_byte c (d ∷ ds) = let rest = count_byte c ds in if d == c then rest + 1 else rest

unfoldable pub normalized : Text → Text
normalized s =
    let colons = count_byte b':' s in
    if (has_prefix s (codes "[") && contains s (codes "]:"))
      || (colons == 1 && not (contains s (codes "]")))
    then s
    else if leb 2 colons && not (contains s (codes "]"))
    then codes "[" ++ s ++ codes "]:53"
    else if not (contains s (codes ":"))
    then s ++ codes ":53"
    else s

unfoldable pub normalize_dns_server : Text → Text
normalize_dns_server s = normalized (trim_space s)

-- `SetCustomDNSServer`: `CustomDNSServer` after it.
unfoldable pub set_custom_dns_server : Text → Text → Text
set_custom_dns_server dns_server custom =
    if is_nil dns_server then custom else normalize_dns_server dns_server

-- The loop over `DNSServers` in `Dial`, past the server that was tried; `dial` tells whether a
-- server is reached.
unfoldable pub dial_servers : (Text → Bool) → Text → List Text → Option Text
dial_servers dial tried [] = none
dial_servers dial tried (server ∷ servers) =
    let rest = dial_servers dial tried servers in
    if text_eq server tried then rest else if dial server then some server else rest

-- `Dial` of the resolver that `GetCustomResolver` builds; `none` is an error.
unfoldable pub resolver_dial : (Text → Bool) → Text → List Text → Option Text
resolver_dial dial custom servers =
    if not (is_nil custom) && dial custom then some custom else dial_servers dial custom servers

unfoldable pub normalize_ip_version_preference : Text → Text
normalize_ip_version_preference p = if text_eq p (codes "4") || text_eq p (codes "6") then p else []

-- The preference that `sortIPsByPreference` uses; `v4_first` is `preferIPv4First`.
unfoldable pub preference : Bool → Text → Text
preference v4_first p =
    let wanted = normalize_ip_version_preference p in
    if is_nil wanted then (if v4_first then codes "4" else codes "6") else wanted

-- `parse_ip` is `net.ParseIP`, with whether the address is an IPv4 one.
module _ (parse_ip : Text → Option Bool) where
  abbrev matches_version : Text → Option Bool → Bool
  matches_version p none = false
  matches_version p (some true) = text_eq p (codes "4")
  matches_version p (some false) = text_eq p (codes "6")

  unfoldable pub is_preferred : Text → Text → Bool
  is_preferred p ip = matches_version p (parse_ip ip)

  -- The slices `preferred` and `others`.
  unfoldable pub partition_ips : Text → List Text → List Text × List Text
  partition_ips p [] = ([], [])
  partition_ips p (ip ∷ ips) =
      let rest = partition_ips p ips in
      if is_preferred p ip then (ip ∷ rest.0, rest.1) else (rest.0, ip ∷ rest.1)

  unfoldable pub sort_ips_by_preference : Bool → List Text → Text → List Text
  sort_ips_by_preference v4_first ips p =
      let parts = partition_ips (preference v4_first p) ips in parts.0 ++ parts.1

  -- The loop that dials one address after another.
  unfoldable pub dial_each : (Text → Bool) → List Text → Option Text
  dial_each dial [] = none
  dial_each dial (ip ∷ ips) = let rest = dial_each dial ips in if dial ip then some ip else rest

  -- The function that `GetDialContextWithPreference` returns, with the addresses that the host
  -- resolves to; `none` is an error.
  unfoldable pub dial_context : (Text → Bool) → Bool → Text → Option (List Text) → Option Text
  dial_context dial v4_first prefer ips = do
    found ← ips
    dial_each dial (sort_ips_by_preference v4_first found (normalize_ip_version_preference prefer))

-- `httpClientKey`, and `httpClients` with clients known by numbers.
pub record ClientKey : Type 0 where
  pub timeout : ℕ
  pub ignore_unsafe_cert : Bool
  pub prefer_ip_version : Text
  pub force_http2 : Bool

abbrev same_flag : Bool → Bool → Bool
same_flag true b = b
same_flag false b = not b

unfoldable pub same_key : ClientKey → ClientKey → Bool
same_key a b =
    a.timeout == b.timeout
    && same_flag a.ignore_unsafe_cert b.ignore_unsafe_cert
    && text_eq a.prefer_ip_version b.prefer_ip_version
    && same_flag a.force_http2 b.force_http2

unfoldable pub find_client : ClientKey → List (ClientKey × ℕ) → Option ℕ
find_client key [] = none
find_client key ((k, client) ∷ m) = if same_key k key then some client else find_client key m

abbrev pub http_timeout : ℕ → ℕ
http_timeout t = if t == 0 then 30000000000 else t

abbrev cached_client : ClientKey → ℕ → List (ClientKey × ℕ) → Option ℕ → List (ClientKey × ℕ) × ℕ
cached_client key made m (some client) = (m, client)
cached_client key made m none = ((key, made) ∷ m, made)

-- `getHTTPClient`, where `made` is the client that it makes if there is none for the key.
unfoldable pub get_http_client :
    Bool → ℕ → ℕ → Text → Bool → List (ClientKey × ℕ) → List (ClientKey × ℕ) × ℕ
get_http_client ignore_unsafe_cert made timeout prefer force_http2 m =
    let key : ClientKey = record {
      timeout = http_timeout timeout;
      ignore_unsafe_cert = ignore_unsafe_cert;
      prefer_ip_version = prefer;
      force_http2 = force_http2;
    } in
    cached_client key made m (find_client key m)
