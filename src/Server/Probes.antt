-- ===== src/Server/Probes.antt =====
-- server/task.go: the measurements of a ping task by ICMP, TCP and HTTP, and the reading of the
-- output of the system's `ping`. Latencies are in milliseconds, times in nanoseconds.
use Prim.Native.String.{String}
use mango_agent.Base.{
  ℕ, ◌+◌, ◌/◌, ℤ, pos, Bool, true, false, not, ◌&&◌, ◌||◌, Option, none, some, List, [], ◌∷◌, ◌++◌,
  Text, codes, text_eq, take, drop, if◌then◌else◌, ◌==◌, leb, ltb, ◌>>=◌, get_or,
}
use mango_agent.Strings.{
  is_nil, trim_space, has_prefix, contains, index_of, index_any, split, trim_chars, digits_of,
  int64_limit,
}

-- A run of a `ping.Pinger` with one packet: it cannot be made, its `Run` fails, or it received
-- that many packets with that average time.
pub data Pinged : Type 0 where
  no_pinger : Pinged
  run_error : Pinged
  received : ℕ → ℕ → Pinged

-- The network, the standard library's parsers of addresses, and floating point. `http_get` is
-- `client.Get`: the status and how long it took.
pub record Net : Type 1 where
  pub goos : Text
  pub parse_ip : Text → Option Bool
  pub lookup_host : Text → Option (List Text)
  pub split_host_port : Text → Option (Text × Text)
  pub join_host_port : Text → Text → Text
  pub pinger : Bool → Text → Pinged
  pub system_ping : Text → Option Text
  pub dial_tcp : Text → Option ℕ
  pub parse_url : Text → Bool
  pub http_get : Text → Option (ℕ × ℕ)
  pub F : Type 0
  pub parse_float : Text → Option F
  pub thousandfold : F → F
  pub truncated : F → ℤ

-- `\d` and `\s` of a regular expression.
abbrev is_digit : ℕ → Bool
is_digit c = leb 48 c && leb c 57

abbrev is_blank : ℕ → Bool
is_blank c = c == 9 || c == 10 || c == 12 || c == 13 || c == 32

unfoldable pub span : (ℕ → Bool) → Text → Text × Text
span p [] = ([], [])
span p (c ∷ cs) = let rest = span p cs in if p c then (c ∷ rest.0, rest.1) else ([], c ∷ cs)

-- A match of `(\d+)\s+packets received` at the start of a text: its group.
unfoldable pub match_received : Text → Option Text
unfolding span
match_received s =
    let digits = span is_digit s in
    let blanks = span is_blank digits.1 in
    if not (is_nil digits.0)
      && not (is_nil blanks.0)
      && has_prefix blanks.1 (codes "packets received")
    then some digits.0
    else none

-- `FindStringSubmatch`
unfoldable pub find_received : Text → Option Text
unfolding match_received
find_received [] = none
find_received (c ∷ cs) = elim (match_received (c ∷ cs)) [
  | some g ↦ some g
  | none ↦ find_received cs
]

abbrev int_or_zero : Option ℕ → ℕ
int_or_zero none = 0
int_or_zero (some n) = if ltb n int64_limit then n else 0

unfoldable pub ping_packets_received : Text → ℕ
unfolding find_received digits_of
ping_packets_received output = int_or_zero (find_received output >>= digits_of)

module _ (net : Net) where
  abbrev average : Text → Text → Option ℤ
  average number unit = do
    f ← net.parse_float number
    some (net.truncated (if has_prefix unit (codes "s") then net.thousandfold f else f))

  abbrev second_part : List Text → Option Text
  second_part (a ∷ b ∷ parts) = some b
  second_part _ = none

  -- `none` is a result that is not ok.
  unfoldable pub ping_avg_rtt_ms : Text → Option ℤ
  unfolding index_of index_any split
  ping_avg_rtt_ms output = do
    i ← index_of output (codes "min/avg/max")
    eq ← index_of (drop i output) (codes "=")
    let rest = trim_space (drop (i + eq + 1) output)
    idx ← index_any rest (32 ∷ 9 ∷ 13 ∷ 10 ∷ [])
    avg ← second_part (split b'/' (trim_space (take idx rest)))
    average avg (trim_space (drop idx rest))

  unfoldable pub resolve_ip : Text → Option Text
  resolve_ip target = elim (net.parse_ip target) [
    | some v4 ↦ some target
    | none ↦ elim (net.lookup_host target) [ some (addr ∷ addrs) ↦ some addr | _ ↦ none ]
  ]

  unfoldable pub system_ping : Text → Option ℤ
  unfolding ping_packets_received ping_avg_rtt_ms
  system_ping ip = do
    output ← net.system_ping ip
    if ping_packets_received output == 0
        then none
        else some (get_or (pos 0) (ping_avg_rtt_ms output))

  -- `Milliseconds` of a duration.
  abbrev milliseconds : ℕ → ℤ
  milliseconds t = pos (t / 1000000)

  abbrev pinged : Pinged → Option ℤ
  pinged (received n rtt) = if n == 0 then none else some (milliseconds rtt)
  pinged _ = none

  -- On Windows a failed run is tried again without privileges.
  abbrev first_pinged : Text → Bool → Pinged → Option ℤ
  first_pinged ip true run_error = pinged (net.pinger false ip)
  first_pinged ip windows p = pinged p

  abbrev on : String → Bool
  on os = text_eq net.goos (codes os)

  abbrev host_of : Text → Text
  host_of target = elim (net.split_host_port target) [
    | some hp ↦ trim_chars hp.0 (codes "[]")
    | none ↦ trim_chars target (codes "[]")
  ]

  abbrev port_of : Text → Text
  port_of target = elim (net.split_host_port target) [ some hp ↦ hp.1 | none ↦ codes "80" ]

  unfoldable pub icmp_ping : Text → Option ℤ
  unfolding resolve_ip system_ping
  icmp_ping target = do
    ip ← resolve_ip (host_of target)
    if on "darwin"
        then system_ping ip
        else first_pinged ip (on "windows") (net.pinger (on "windows") ip)

  unfoldable pub tcp_ping : Text → Option ℤ
  unfolding resolve_ip
  tcp_ping target = do
    ip ← resolve_ip (host_of target)
    elapsed ← net.dial_tcp (net.join_host_port ip (port_of target))
    some (milliseconds elapsed)

  abbrev is_v6 : Option Bool → Bool
  is_v6 (some false) = true
  is_v6 _ = false

  -- The URL that `httpPing` asks for.
  unfoldable pub http_target : Text → Text
  http_target target =
      let t =
        if contains target (codes ":")
          && not (contains target (codes "["))
          && is_v6 (net.parse_ip target)
        then codes "[" ++ target ++ codes "]"
        else target in
      if not (has_prefix t (codes "http://")) && not (has_prefix t (codes "https://"))
      then codes "http://" ++ t
      else t

  unfoldable pub http_ping : Text → Option ℤ
  unfolding http_target
  http_ping target =
      if net.parse_url (http_target target)
      then (do
        r ← net.http_get (http_target target)
        if leb 200 r.0 && ltb r.0 400 then some (milliseconds r.1) else none)
      else none

  -- The closure `measure` of `NewPingTask`.
  unfoldable pub measure : Text → Text → Option ℤ
  measure ping_type target =
      if text_eq ping_type (codes "icmp")
      then icmp_ping target
      else if text_eq ping_type (codes "tcp")
      then tcp_ping target
      else if text_eq ping_type (codes "http")
      then http_ping target
      else none
