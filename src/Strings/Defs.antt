-- ===== src/Strings/Defs.antt =====
-- The functions of Go's `strings`, `bufio` and `strconv` that the agent calls.
use mango_agent.Base.{
  ℕ, ℤ, pos, negsuc, zero, suc, ◌+◌, ◌-◌, ◌*◌, Bool, true, false, ◌&&◌, ◌||◌, Option, none, some,
  List, [], ◌∷◌, ◌++◌, Text, length, ◌==◌, leb, ltb, if◌then◌else◌, u64, drop,
}

abbrev pub is_space : ℕ → Bool
is_space c = c == 32 || (leb 9 c && leb c 13)

abbrev pub is_nil {ℓ} : {A : Type ℓ} → List A → Bool
is_nil [] = true
is_nil (x ∷ xs) = false

unfoldable pub trim_left : Text → Text
trim_left [] = []
trim_left (c ∷ cs) = if is_space c then trim_left cs else c ∷ cs

unfoldable pub trim_right : Text → Text
trim_right [] = []
trim_right (c ∷ cs) = let rest = trim_right cs in if is_nil rest && is_space c then [] else c ∷ rest

unfoldable pub trim_space : Text → Text
unfolding trim_left trim_right
trim_space s = trim_right (trim_left s)

unfoldable pub has_prefix : Text → Text → Bool
has_prefix s [] = true
has_prefix [] (p ∷ ps) = false
has_prefix (c ∷ cs) (p ∷ ps) = c == p && has_prefix cs ps

unfoldable pub trim_prefix : Text → Text → Text
unfolding has_prefix
trim_prefix s p = if has_prefix s p then drop (length p) s else s

abbrev pub cons_first : ℕ → List Text → List Text
cons_first c [] = (c ∷ []) ∷ []
cons_first c (w ∷ ws) = (c ∷ w) ∷ ws

-- `strings.Split` at a separator of one byte.
unfoldable pub split : ℕ → Text → List Text
split sep [] = [] ∷ []
split sep (c ∷ cs) = let rest = split sep cs in if c == sep then [] ∷ rest else cons_first c rest

-- `strings.Join(lines, "\n")`
unfoldable pub join_lines : List Text → Text
join_lines [] = []
join_lines (l ∷ []) = l
join_lines (l ∷ l' ∷ ls) = l ++ (10 ∷ join_lines (l' ∷ ls))

abbrev push_word : Text → List Text → List Text
push_word [] ws = ws
push_word (c ∷ w) ws = (c ∷ w) ∷ ws

-- The word that a text begins with, and the words behind it.
unfoldable pub words_from : Text → Text × List Text
words_from [] = ([], [])
words_from (c ∷ cs) =
    let rest = words_from cs in
    if is_space c then ([], push_word rest.0 rest.1) else (c ∷ rest.0, rest.1)

-- `strings.Fields`
unfoldable pub fields : Text → List Text
unfolding words_from
fields s = push_word (words_from s).0 (words_from s).1

-- `bufio.MaxScanTokenSize`
abbrev pub max_scan_token_size : ℕ
max_scan_token_size = 65536

unfoldable pub drop_cr : Text → Text
drop_cr [] = []
drop_cr (c ∷ []) = if c == 13 then [] else c ∷ []
drop_cr (c ∷ d ∷ cs) = c ∷ drop_cr (d ∷ cs)

-- The lines of a `bufio.Scanner`: it stops at a line that does not fit its buffer, and an empty
-- last line is none.
unfoldable pub scan_tokens : List Text → List Text
unfolding drop_cr
scan_tokens [] = []
scan_tokens (l ∷ []) = if is_nil l || leb max_scan_token_size (length l) then [] else drop_cr l ∷ []
scan_tokens (l ∷ l' ∷ ls) =
    let rest = scan_tokens (l' ∷ ls) in
    if leb max_scan_token_size (length l) then [] else drop_cr l ∷ rest

unfoldable pub scan_lines : Text → List Text
unfolding split scan_tokens
scan_lines s = scan_tokens (split 10 s)

-- Decimal digits, or `none` if some byte is not one.
unfoldable pub digits_value : ℕ → Text → Option ℕ
digits_value acc [] = some acc
digits_value acc (c ∷ cs) =
    let rest = digits_value (acc * 10 + (c - 48)) cs in if leb 48 c && leb c 57 then rest else none

unfoldable pub digits_of : Text → Option ℕ
unfolding digits_value
digits_of [] = none
digits_of (c ∷ cs) = digits_value 0 (c ∷ cs)

abbrev fits_uint64 : Option ℕ → Option ℕ
fits_uint64 none = none
fits_uint64 (some n) = if ltb n u64 then some n else none

-- `strconv.ParseUint(s, 10, 64)`; `none` is an error.
unfoldable pub parse_uint : Text → Option ℕ
unfolding digits_of
parse_uint s = fits_uint64 (digits_of s)

abbrev pub int64_limit : ℕ
int64_limit = 9223372036854775808

abbrev pub negated : ℕ → ℤ
negated zero = pos 0
negated (suc n) = negsuc n

-- The value that `strconv.ParseInt(s, 10, 64)` returns, and whether it returns no error. Out of
-- range the value is the nearest one; a text that is no number gives 0.
abbrev pub signed_value : Bool → Option ℕ → ℤ × Bool
signed_value negative none = (pos 0, false)
signed_value false (some n) =
    if ltb n int64_limit then (pos n, true) else (pos (int64_limit - 1), false)
signed_value true (some n) =
    if leb n int64_limit then (negated n, true) else (negated int64_limit, false)

unfoldable pub parse_int : Text → ℤ × Bool
unfolding digits_of
parse_int [] = (pos 0, false)
parse_int (c ∷ cs) =
    if c == b'-'
    then signed_value true (digits_of cs)
    else if c == b'+'
    then signed_value false (digits_of cs)
    else signed_value false (digits_of (c ∷ cs))
