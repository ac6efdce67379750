-- ===== src/Strings/Search.antt =====
-- The functions of Go's `strings` that look for one text in another.
use mango_agent.Base.{
  ℕ, zero, suc, ◌+◌, ◌-◌, Bool, true, false, ◌&&◌, ◌||◌, Option, none, some, List, [], ◌∷◌, ◌++◌,
  Text, text_eq, length, take, drop, ◌==◌, leb, if◌then◌else◌,
}
use mango_agent.Strings.Defs.{has_prefix}

unfoldable pub contains : Text → Text → Bool
contains [] sub = has_prefix [] sub
contains (c ∷ cs) sub = has_prefix (c ∷ cs) sub || contains cs sub

abbrev next_index : Option ℕ → Option ℕ
next_index none = none
next_index (some n) = some (suc n)

-- `strings.Index`; `none` is its -1.
unfoldable pub index_of : Text → Text → Option ℕ
index_of [] sub = if has_prefix [] sub then some 0 else none
index_of (c ∷ cs) sub =
    let rest = index_of cs sub in if has_prefix (c ∷ cs) sub then some 0 else next_index rest

unfoldable pub has_byte : ℕ → Text → Bool
has_byte c [] = false
has_byte c (d ∷ ds) = c == d || has_byte c ds

-- `strings.IndexAny` for ASCII characters.
unfoldable pub index_any : Text → Text → Option ℕ
unfolding has_byte
index_any [] chars = none
index_any (c ∷ cs) chars =
    let rest = index_any cs chars in if has_byte c chars then some 0 else next_index rest

-- The first argument counts the bytes of a match that are still to be left out.
unfoldable pub replace_from : ℕ → Text → Text → Text → Text
replace_from k [] old new = []
replace_from (suc k) (c ∷ cs) old new = replace_from k cs old new
replace_from zero (c ∷ cs) old new = elim (has_prefix (c ∷ cs) old) [
  | true ↦ new ++ replace_from (length old - 1) cs old new
  | false ↦ c ∷ replace_from 0 cs old new
]

-- `strings.ReplaceAll` of a text that is not empty.
unfoldable pub replace_all : Text → Text → Text → Text
unfolding replace_from
replace_all s old new = replace_from 0 s old new

unfoldable pub to_lower : Text → Text
to_lower [] = []
to_lower (c ∷ cs) = (if leb b'A' c && leb c b'Z' then c + 32 else c) ∷ to_lower cs

unfoldable pub trim_suffix : Text → Text → Text
trim_suffix s p =
    let n = length s - length p in
    if leb (length p) (length s) && has_prefix (drop n s) p then take n s else s

unfoldable pub trim_chars_left : Text → Text → Text
unfolding has_byte
trim_chars_left [] chars = []
trim_chars_left (c ∷ cs) chars = if has_byte c chars then trim_chars_left cs chars else c ∷ cs

abbrev put_byte : Bool → ℕ → Text → Text
put_byte true c [] = []
put_byte _ c cs = c ∷ cs

unfoldable pub trim_chars_right : Text → Text → Text
unfolding has_byte
trim_chars_right [] chars = []
trim_chars_right (c ∷ cs) chars = put_byte (has_byte c chars) c (trim_chars_right cs chars)

-- `strings.Trim` at ASCII characters.
unfoldable pub trim_chars : Text → Text → Text
unfolding trim_chars_left trim_chars_right
trim_chars s chars = trim_chars_right (trim_chars_left s chars) chars

-- `strings.Join` at a separator of one byte.
unfoldable pub join : ℕ → List Text → Text
join sep [] = []
join sep (l ∷ []) = l
join sep (l ∷ l' ∷ ls) = l ++ (sep ∷ join sep (l' ∷ ls))

-- Whether a text is one of the list or begins with one of it.
unfoldable pub begins_with_any : Text → List Text → Bool
begins_with_any s [] = false
begins_with_any s (p ∷ ps) = text_eq s p || has_prefix s p || begins_with_any s ps
