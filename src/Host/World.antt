-- ===== src/Host/World.antt =====
-- monitoring/unit/mem.go and monitoring/unit/cgroup.go: what the code asks of the system.
use mango_agent.Base.{
  ℕ, Bool, false, Option, none, some, List, [], ◌∷◌, Text, length, ◌==◌, leb, if◌then◌else◌, ◌||◌,
  ◌>>=◌,
}
use mango_agent.Strings.{split, max_scan_token_size}

-- gopsutil's `VirtualMemoryStat` and `SwapMemoryStat`, as far as the code reads them.
pub record VirtualMemory : Type 0 where
  pub total : ℕ
  pub available : ℕ
  pub free : ℕ

pub record SwapMemory : Type 0 where
  pub total : ℕ
  pub used : ℕ

-- The system: `read` opens and reads a file, `exists` is `os.Stat` without an error,
-- `join` and `dir` are those of `filepath`, `free_output` is the output of `free -b` when it runs.
pub record System : Type 0 where
  pub linux : Bool
  pub freebsd : Bool
  pub read : Text → Option Text
  pub exists : Text → Bool
  pub join : Text → Text → Text
  pub dir : Text → Text
  pub virtual_memory : Option VirtualMemory
  pub swap_memory : Option SwapMemory
  pub free_output : Option Text

abbrev is_long : List Text → Bool
is_long [] = false
is_long (l ∷ ls) = leb max_scan_token_size (length l) || is_long ls

-- Whether `Err` of a `bufio.Scanner` over the text is an error: some line does not fit.
unfoldable pub scan_fails : Text → Bool
scan_fails s = is_long (split 10 s)

-- The text before the first separator and the text behind it, if there is one.
unfoldable pub cut : ℕ → Text → Option (Text × Text)
cut sep [] = none
cut sep (c ∷ cs) =
    let rest = cut sep cs in if c == sep then some ([], cs) else (do (a, b) ← rest; some (c ∷ a, b))
