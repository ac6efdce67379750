-- ===== src/Strings/Lines.antt =====
-- Splitting into lines and joining them again.
use mango_agent.Base.{
  ℕ, ◌<◌, Bool-cases, List, [], ◌∷◌, ◌++◌, Text, length, All, ◌≡◌, ◌≢◌, refl, ap, inl, inr, arith,
  ◌==◌, ◌∙◌,
}
use mathlib.Core.List.{append_assoc}
use mango_agent.Strings.Defs.{
  cons_first, split, join_lines, scan_tokens, scan_lines, drop_cr, max_scan_token_size,
}

-- No byte of the text is a newline.
abbrev pub IsLine : Text → Type 0
IsLine s = All (λ c. c ≢ 10) s

split-line : (l rest : Text) → IsLine l → split 10 (l ++ (10 ∷ rest)) ≡ l ∷ split 10 rest
unfolding split
split-line [] rest h = refl
split-line (c ∷ l) rest h = ground (arith, split-line l rest h.1, h.0)

-- The text of a file with these lines, each ended by a newline; empty where there are none.
unfoldable pub text_of : List Text → Text
text_of [] = []
text_of (l ∷ ls) = join_lines (l ∷ ls) ++ (10 ∷ [])

cons_first-IsLine : (c : ℕ) (ls : List Text) → c ≢ 10 → All IsLine ls → All IsLine (cons_first c ls)
cons_first-IsLine c [] h k = ((h, tt), tt)
cons_first-IsLine c (l ∷ ls) h k = ((h, k.0), k.1)

-- A text with some newlines splits into texts with none.
pub split-IsLine : (s : Text) → All IsLine (split 10 s)
unfolding split
split-IsLine [] = (tt, tt)
split-IsLine (c ∷ cs) = elim (Bool-cases (c == 10)) [
  | inl newline ↦ rw newline (tt, split-IsLine cs)
  | inr other ↦ rw other (cons_first-IsLine c (split 10 cs) (ground arith) (split-IsLine cs))
]

-- A file's text splits into its lines and an empty one.
pub split-text_of : (ls : List Text) → All IsLine ls → split 10 (text_of ls) ≡ ls ++ [] ∷ []
unfolding join_lines split text_of
split-text_of [] h = refl
split-text_of (l ∷ []) h = split-line l [] h.0
split-text_of (l ∷ l' ∷ ls) h =
    ap (split 10) (append_assoc l (10 ∷ join_lines (l' ∷ ls)) (10 ∷ []))
    ∙ split-line l (text_of (l' ∷ ls)) h.0
    ∙ ap (◌∷◌ l) (split-text_of (l' ∷ ls) h.1)

-- A line that a scanner reads back as it stands: short enough, and with no carriage return at
-- the end.
pub record IsScannable (l : Text) : Type 0 where
  pub line : IsLine l
  pub short : length l < max_scan_token_size
  pub no_cr : drop_cr l ≡ l

scan_tokens-lines : (ls : List Text) → All IsScannable ls → scan_tokens (ls ++ [] ∷ []) ≡ ls
unfolding scan_tokens
scan_tokens-lines [] h = refl
scan_tokens-lines (l ∷ []) h = ground (arith, h.0.short, h.0.no_cr)
scan_tokens-lines (l ∷ l' ∷ ls) h =
    ground (arith, h.0.short, h.0.no_cr, scan_tokens-lines (l' ∷ ls) h.1)

All-IsLine : (ls : List Text) → All IsScannable ls → All IsLine ls
All-IsLine [] h = tt
All-IsLine (l ∷ ls) h = (h.0.line, All-IsLine ls h.1)

-- A scanner reads back the lines that a file was written with.
pub scan_lines-text_of : (ls : List Text) → All IsScannable ls → scan_lines (text_of ls) ≡ ls
unfolding scan_lines
scan_lines-text_of ls h = rw (split-text_of ls (All-IsLine ls h)) (scan_tokens-lines ls h)
