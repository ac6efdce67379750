-- ===== src/Sshauth/RoundTrip.antt =====
-- sshauth/sshauth.go: a key that is authorized and revoked again.
use mango_agent.Base.{
  true, false, some, List, [], ◌∷◌, ◌++◌, Text, codes, lookup, ◌≡◌, ◌≢◌, refl, arith, All,
}
use mango_agent.Strings.{is_nil, trim_space, trim_right, has_prefix}
use mango_agent.Strings.Lines.{IsLine, IsScannable, text_of}
use mango_agent.Strings.Trims.{has_prefix-trim_space}
use mango_agent.Sshauth.World.{lease_tag_prefix, Env, World, Time}
use mango_agent.Sshauth.Ops.{format_int, tag_of, lease_tag_line}

-- A line that is not blank, that a scanner reads back, and that bears no tag of the ticket.
pub record IsPlain (ticket : Text) (l : Text) : Type 0 where
  pub scannable : IsScannable l
  pub nonblank : is_nil (trim_space l) ≡ false
  pub untagged : has_prefix (trim_space l) (tag_of ticket) ≡ false

expiry-ne-nil : (s : Text) → trim_right (codes " EXP:" ++ s) ≢ []
unfolding trim_right
expiry-ne-nil s = ground arith

-- The tag line bears the tag of its ticket, also when it is trimmed.
pub lease_tag_line-tagged :
    (ticket : Text) (e : Time)
    → has_prefix (trim_space (lease_tag_line ticket e)) (tag_of ticket) ≡ true
unfolding lease_tag_line
lease_tag_line-tagged ticket e =
    has_prefix-trim_space b'#' (codes " MANGOHUB_TICKET:" ++ ticket)
      (codes " EXP:" ++ format_int e.unix) refl (expiry-ne-nil (format_int e.unix))

abbrev pub entry_of : Text → Text → Time → List Text
entry_of ticket key e = lease_tag_line ticket e ∷ trim_space key ∷ []

-- A file of plain lines, and a call on it that the system lets through.
pub record Fits (env : Env) (path ticket key : Text) (ls : List Text) (w : World) : Type 0 where
  pub holds : lookup path w.disk ≡ some (text_of ls)
  pub plain : All (IsPlain ticket) ls
  pub ticket_line : IsLine ticket
  pub key_line : IsLine (trim_space key)
  pub key_untagged : has_prefix (trim_space (trim_space key)) lease_tag_prefix ≡ false
  pub can_read : env.readable path ≡ true
  pub can_write : env.writable path ≡ true
