-- ===== src/Sshauth/Prune.antt =====
-- sshauth/sshauth.go: what is left in a file after a key is revoked.
use mango_agent.Base.{
  Bool, true, false, Bool-cases, List, [], ◌∷◌, ◌++◌, Text, not, ◌&&◌, ◌||◌, if◌then◌else◌, ◌≡◌,
  ◌⊎◌, inl, inr, arith, All,
}
use mango_agent.Strings.{is_nil, trim_space, has_prefix, split}
use mango_agent.Sshauth.World.{lease_tag_prefix, World}
use mango_agent.Sshauth.Ops.{keeps_line, prune_lines}

-- No line of a list bears the tag.
abbrev pub Untagged : Text → List Text → Type 0
Untagged tag = All (λ l. has_prefix (trim_space l) tag ≡ false)

keeps_line-untagged :
    (tag : Text) (skip : Bool) (line : Text)
    → keeps_line tag skip line ≡ true
    → has_prefix line tag ≡ false
unfolding keeps_line
keeps_line-untagged tag skip line h = ground arith

pub prune_lines-Untagged :
    (tag : Text) (skip : Bool) (lines : List Text) → Untagged tag (prune_lines tag skip lines).0
unfolding prune_lines
prune_lines-Untagged tag skip [] = tt
prune_lines-Untagged tag skip (line ∷ lines) =
    let rest = prune_lines-Untagged tag (has_prefix (trim_space line) tag) lines in
    elim (Bool-cases (keeps_line tag skip (trim_space line))) [
      | inl kept ↦ rw kept (keeps_line-untagged tag skip (trim_space line) kept, rest)
      | inr dropped ↦ rw dropped rest
    ]

-- Each line with the one before it.
unfoldable pub with_previous : Text → List Text → List (Text × Text)
with_previous previous [] = []
with_previous previous (line ∷ lines) = (previous, line) ∷ with_previous line lines

-- A line stays if it is not blank, bears no tag of the ticket, and does not follow one that does,
-- or else is itself a tag line.
abbrev pub survives : Text → Text × Text → Bool
survives tag (previous, line) =
    not (is_nil (trim_space line))
    && not (has_prefix (trim_space line) tag)
    && (not (has_prefix (trim_space previous) tag) || has_prefix (trim_space line) lease_tag_prefix)

unfoldable pub keep_lines : (Text × Text → Bool) → List (Text × Text) → List Text
keep_lines p [] = []
keep_lines p ((previous, line) ∷ lines) =
    let rest = keep_lines p lines in if p (previous, line) then line ∷ rest else rest

abbrev pub survivors : Text → List Text → List Text
survivors tag lines = keep_lines (survives tag) (with_previous [] lines)

pub prune_lines-All {κ} :
    (P : Text → Type κ) (tag : Text) (skip : Bool) (lines : List Text)
    → All P lines
    → All P (prune_lines tag skip lines).0
unfolding prune_lines
prune_lines-All P tag skip [] h = tt
prune_lines-All P tag skip (line ∷ lines) h =
    let rest = prune_lines-All P tag (has_prefix (trim_space line) tag) lines h.1 in
    elim (Bool-cases (keeps_line tag skip (trim_space line))) [
      | inl kept ↦ rw kept (h.0, rest)
      | inr dropped ↦ rw dropped rest
    ]

-- Where nothing is removed, no line bears the tag.
pub prune_lines-none :
    (tag : Text) (skip : Bool) (lines : List Text)
    → (prune_lines tag skip lines).1 ≡ false
    → Untagged tag lines
unfolding prune_lines
prune_lines-none tag skip [] h = tt
prune_lines-none tag skip (line ∷ lines) h =
    (ground arith, prune_lines-none tag (has_prefix (trim_space line) tag) lines (ground arith))

-- The file after a revocation: as it was, where no line bore the tag, or the lines that stay.
abbrev pub IsPruned : Text → Text → Text → Type 0
IsPruned tag old content =
    ((content ≡ old) × Untagged tag (split 10 old))
    ⊎ (split 10 content ≡ survivors tag (split 10 old) ++ [] ∷ [])
