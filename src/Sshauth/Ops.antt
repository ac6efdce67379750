-- ===== src/Sshauth/Ops.antt =====
-- sshauth/sshauth.go: `AuthorizeKey`, `RevokeKey` and what they call.
use mango_agent.Base.{
  ℕ, zero, suc, ◌+◌, ◌*◌, ◌/◌, ◌%◌, ℤ, pos, negsuc, Bool, true, false, not, ◌&&◌, ◌||◌, Option,
  none, some, List, [], ◌∷◌, ◌++◌, Text, codes, lookup, insert, delete, if◌then◌else◌, ◌==◌,
}
use mango_agent.Strings.{is_nil, trim_space, has_prefix, split, scan_lines}
use mango_agent.Strings.Lines.{text_of}
use mango_agent.Sshauth.World.{
  lease_tag_prefix, second, Time, Timer, Env, World, missing_argument, no_home, read_error, Outcome,
  resolve_authorized_keys_path, write_authorized_keys_atomic, time_until,
}

-- The decimal digits of a number, in front of a text; `fuel` bounds how many.
unfoldable pub digits_onto : ℕ → ℕ → Text → Text
digits_onto zero n rest = rest
digits_onto (suc fuel) n rest =
    let more = digits_onto fuel (n / 10) ((48 + n % 10) ∷ rest) in
    if n / 10 == 0 then (48 + n % 10) ∷ rest else more

-- `%d` of an `int64`, which has at most nineteen digits.
unfoldable pub format_int : ℤ → Text
unfolding digits_onto
format_int (pos n) = digits_onto 20 n []
format_int (negsuc n) = b'-' ∷ digits_onto 20 (n + 1) []

-- Whether the loop of `removeKeyByTicketLocked` keeps a line, where `skip` is `skipNextKey` and
-- `line` is trimmed.
unfoldable pub keeps_line : Text → Bool → Text → Bool
keeps_line tag skip line =
    if has_prefix line tag
    then false
    else if skip && not (has_prefix line lease_tag_prefix)
    then false
    else not (is_nil line)

-- That loop: the lines kept, and the flag `removed`. After a line, `skipNextKey` holds exactly if
-- the line has the ticket's tag.
unfoldable pub prune_lines : Text → Bool → List Text → List Text × Bool
unfolding keeps_line
prune_lines tag skip [] = ([], false)
prune_lines tag skip (line ∷ lines) =
    let hit = has_prefix (trim_space line) tag in
    let rest = prune_lines tag hit lines in
    (if keeps_line tag skip (trim_space line) then line ∷ rest.0 else rest.0, hit || rest.1)

abbrev pub tag_of : Text → Text
tag_of ticket = lease_tag_prefix ++ ticket

unfoldable pub write_pruned : Env → Text → World → List Text × Bool → Outcome
write_pruned env path w (lines, false) = (w, none)
write_pruned env path w (lines, true) = write_authorized_keys_atomic env path (text_of lines) w

unfoldable pub remove_from : Env → Text → Text → World → Option Text → Outcome
unfolding write_pruned
remove_from env path ticket w none = (w, none)
remove_from env path ticket w (some content) =
    if env.readable path
    then write_pruned env path w (prune_lines (tag_of ticket) false (split 10 content))
    else (w, some read_error)

unfoldable pub remove_key_by_ticket_locked : Env → Text → Text → World → Outcome
unfolding remove_from
remove_key_by_ticket_locked env path ticket w = remove_from env path ticket w (lookup path w.disk)

-- The lines that `authorizeKeyAtPath` goes on with; an error of `os.ReadFile` leaves none.
unfoldable pub existing_lines : Env → Text → Option Text → List Text
existing_lines env path none = []
existing_lines env path (some content) = if env.readable path then scan_lines content else []

unfoldable pub lease_tag_line : Text → Time → Text
lease_tag_line ticket expires = tag_of ticket ++ (codes " EXP:" ++ format_int expires.unix)

abbrev at_least : ℕ → ℕ → ℕ
at_least least zero = least
at_least least (suc n) = suc n

unfoldable pub arm_timer : Text → Timer → Outcome → Outcome
arm_timer ticket t (w, some e) = (w, some e)
arm_timer ticket t (w, none) = (record w { timers = insert ticket t w.timers }, none)

unfoldable pub authorize_key_at_path : Env → Text → Text → Text → Text → Time → World → Outcome
unfolding existing_lines
authorize_key_at_path env path ticket key user expires w =
    let w' = (remove_key_by_ticket_locked env path ticket w).0 in
    let lines = existing_lines env path (lookup path w'.disk) in
    let content = text_of (lines ++ lease_tag_line ticket expires ∷ trim_space key ∷ []) in
    arm_timer ticket
      (record { delay = at_least (5 * second) (time_until env.now expires); user = user })
      (write_authorized_keys_atomic env path content w')

unfoldable pub authorize_resolved : Env → Option Text → Text → Text → Text → Time → World → Outcome
authorize_resolved env none ticket key user expires w = (w, some no_home)
authorize_resolved env (some path) ticket key user expires w =
    authorize_key_at_path env path ticket key user expires w

-- `AuthorizeKey`
unfoldable pub authorize_key : Env → Text → Text → Text → Time → World → Outcome
unfolding authorize_resolved
authorize_key env ticket key user expires w =
    if is_nil ticket || is_nil key
    then (w, some missing_argument)
    else authorize_resolved env (resolve_authorized_keys_path env user) ticket key user expires w

unfoldable pub revoke_key_at_path : Env → Text → Text → World → Outcome
revoke_key_at_path env path ticket w =
    remove_key_by_ticket_locked env path ticket (record w { timers = delete ticket w.timers })

unfoldable pub revoke_resolved : Env → Option Text → Text → World → Outcome
revoke_resolved env none ticket w = (w, some no_home)
revoke_resolved env (some path) ticket w = revoke_key_at_path env path ticket w

-- The default path, whose failure to resolve is passed over.
unfoldable pub revoke_default : Env → Option Text → Text → World → Outcome
revoke_default env none ticket w = (w, none)
revoke_default env (some path) ticket w = revoke_key_at_path env path ticket w

unfoldable pub revoke_globbed : Env → List (Text × Text) → Text → World → World
revoke_globbed env [] ticket w = w
revoke_globbed env ((path, user) ∷ paths) ticket w =
    revoke_globbed env paths ticket (revoke_key_at_path env path ticket w).0

abbrev pub root_keys : Text
root_keys = codes "/root/.ssh/authorized_keys"

-- `RevokeKey`
unfoldable pub revoke_key : Env → Text → Text → World → Outcome
unfolding revoke_resolved revoke_default revoke_globbed
revoke_key env ticket [] w =
    let first = revoke_default env (resolve_authorized_keys_path env []) ticket w in
    (
      if env.windows
          then first.0
          else (revoke_key_at_path env root_keys ticket
              (revoke_globbed env env.globbed ticket first.0)).0,
      first.1,
    )
revoke_key env ticket (c ∷ user) w =
    revoke_resolved env (resolve_authorized_keys_path env (c ∷ user)) ticket w
