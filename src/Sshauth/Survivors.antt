-- ===== src/Sshauth/Survivors.antt =====
-- sshauth/sshauth.go: exactly which lines `reconcileLeasesAtPath` keeps.
use mango_agent.Base.{
  ℕ, Bool, not, ◌&&◌, List, [], ◌∷◌, ◌++◌, Text, if◌then◌else◌, ◌≡◌, sym, ◌∙◌, arith,
}
use mathlib.Core.List.{append-nil}
use mango_agent.Strings.{is_nil, trim_space, has_prefix}
use mango_agent.Sshauth.World.{lease_tag_prefix}
use mango_agent.Sshauth.Reconcile.{
  parse_lease, Scan, keep_line, reconcile_tag, reconcile_line, reconcile_lines,
}
use mango_agent.Sshauth.Prune.{keep_lines}
use mango_agent.Sshauth.Scans.{expired_line, append_if, tag-nonblank}

-- A tag line that names no ticket.
abbrev pub unnamed_line : Text → Bool
unnamed_line l =
    has_prefix (trim_space l) lease_tag_prefix && is_nil (parse_lease (trim_space l)).ticket

-- Each line with the last one before it that is not a tag line without a ticket.
unfoldable pub with_last : Text → List Text → List (Text × Text)
with_last last [] = []
with_last last (line ∷ lines) =
    (last, line) ∷ with_last (if unnamed_line line then last else line) lines

-- A tag line stays unless its lease has expired; another stays if it is not blank and does not
-- follow the tag line of a lease that has.
abbrev pub stays : ℕ → Text × Text → Bool
stays now (last, line) =
    if has_prefix (trim_space line) lease_tag_prefix
    then not (expired_line now line)
    else not (is_nil (trim_space line)) && not (expired_line now last)

abbrev pub stay : ℕ → List Text → List Text
stay now lines = keep_lines (stays now) (with_last [] lines)

round_lines :
    (now : ℕ) (last line : Text) (st : Scan)
    → st.skip_next ≡ expired_line now last
    → (reconcile_line now line st).new_lines
      ≡ st.new_lines ++ (if stays now (last, line) then line ∷ [] else [])
unfolding reconcile_line reconcile_tag keep_line
round_lines now last line st h =
    let blank = tag-nonblank (trim_space line) in ground (arith, h, blank, append-nil st.new_lines)

round_skip :
    (now : ℕ) (last line : Text) (st : Scan)
    → st.skip_next ≡ expired_line now last
    → (reconcile_line now line st).skip_next
      ≡ expired_line now (if unnamed_line line then last else line)
unfolding reconcile_line reconcile_tag keep_line
round_skip now last line st h = ground (arith, h)

pub reconcile_lines-stay :
    (now : ℕ) (last : Text) (lines : List Text) (st : Scan)
    → st.skip_next ≡ expired_line now last
    → (reconcile_lines now lines st).new_lines
      ≡ st.new_lines ++ keep_lines (stays now) (with_last last lines)
unfolding reconcile_lines with_last keep_lines
reconcile_lines-stay now last [] st h = sym (append-nil st.new_lines)
reconcile_lines-stay now last (line ∷ lines) st h =
    let next = if unnamed_line line then last else line in
    let rest =
      reconcile_lines-stay now next lines (reconcile_line now line st)
        (round_skip now last line st h) in
    rest
    ∙ rw (round_lines now last line st h) (
        append_if (stays now (last, line)) line st.new_lines
          (keep_lines (stays now) (with_last next lines)))
