-- ===== src/Network/Connections.antt =====
-- monitoring/unit/net.go: how many TCP and UDP connections there are.
use mango_agent.Base.{
  ℕ, ◌+◌, Bool, true, false, ◌||◌, Option, none, some, List, [], ◌∷◌, Text, codes, text_eq, length,
  if◌then◌else◌, leb,
}
use mango_agent.Strings.{is_nil, trim_space, split, scan_lines, max_scan_token_size}

unfoldable pub count_filled : List Text → ℕ
count_filled [] = 0
count_filled (l ∷ ls) =
    let rest = count_filled ls in if is_nil (trim_space l) then rest else rest + 1

abbrev drop_header : List Text → List Text
drop_header [] = []
drop_header (l ∷ ls) = ls

-- Whether a `bufio.Scanner` ends with an error: some line does not fit its buffer.
unfoldable pub has_long_line : List Text → Bool
has_long_line [] = false
has_long_line (l ∷ ls) = leb max_scan_token_size (length l) || has_long_line ls

-- A file of `/proc/net`: one that is not there, one that gives an error, or its content.
pub data ProcFile : Type 0 where
  missing : ProcFile
  broken : ProcFile
  content : Text → ProcFile

-- `countProcNetFile` of a content; `none` is the error of the scanner.
unfoldable pub count_proc_net_file : Text → Option ℕ
unfolding count_filled has_long_line
count_proc_net_file s =
    if has_long_line (split 10 s) then none else some (count_filled (drop_header (scan_lines s)))

-- The variables `total` and `readAny`; `none` is an error.
abbrev with_count : Option ℕ → ℕ → Option (ℕ × Bool)
with_count none total = none
with_count (some n) total = some (total + n, true)

abbrev count_one : ProcFile → ℕ × Bool → Option (ℕ × Bool)
count_one missing r = some r
count_one broken r = none
count_one (content s) r = with_count (count_proc_net_file s) r.0

abbrev counted_any : Option (ℕ × Bool) → Option ℕ
counted_any (some (total, true)) = some total
counted_any _ = none

-- `countProcNetFiles` of the two files that it is called with.
unfoldable pub count_proc_net_files : ProcFile → ProcFile → Option ℕ
count_proc_net_files a b = elim (count_one a (0, false)) [
  | none ↦ none
  | some r ↦ counted_any (count_one b r)
]

abbrev pair_of : Option ℕ → Option ℕ → Option (ℕ × ℕ)
pair_of (some a) (some b) = some (a, b)
pair_of _ _ = none

unfoldable pub proc_net_connections_count : (Text → ProcFile) → Option (ℕ × ℕ)
proc_net_connections_count file =
    pair_of (count_proc_net_files (file (codes "tcp")) (file (codes "tcp6")))
      (count_proc_net_files (file (codes "udp")) (file (codes "udp6")))

unfoldable pub connections_count_with_proc_fallback :
    (Text → ProcFile) → Option (ℕ × ℕ) → Option (ℕ × ℕ)
connections_count_with_proc_fallback file fallback = elim (proc_net_connections_count file) [
  | some counts ↦ some counts
  | none ↦ fallback
]

-- `ConnectionsCount`, where `file` reads under `net` of the root that `procRoot` names, and
-- `fallback` is `gopsutilConnectionsCount`; `none` is an error.
unfoldable pub connections_count : Text → (Text → ProcFile) → Option (ℕ × ℕ) → Option (ℕ × ℕ)
connections_count goos file fallback =
    if text_eq goos (codes "linux")
    then connections_count_with_proc_fallback file fallback
    else fallback

-- `procRoot` with `flags.HostProc`.
unfoldable pub proc_root : Text → Text
proc_root host_proc = if is_nil host_proc then codes "/proc" else host_proc
