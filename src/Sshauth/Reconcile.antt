-- ===== src/Sshauth/Reconcile.antt =====
-- sshauth/sshauth.go: `ReconcileLeases`, which runs when the agent starts.
use mango_agent.Base.{
  ℕ, zero, suc, ◌/◌, ℤ, pos, negsuc, Bool, true, false, not, ◌&&◌, Option, none, some, List, [],
  ◌∷◌, ◌++◌, Text, Dict, codes, lookup, insert, if◌then◌else◌, leb, ltb, ◌+◌, length,
}
use mango_agent.Strings.{is_nil, trim_space, has_prefix, trim_prefix, split, fields, parse_int}
use mango_agent.Strings.Lines.{text_of}
use mango_agent.Sshauth.World.{
  lease_tag_prefix, second, Timer, Env, World, Error, no_home, read_error, Outcome,
  resolve_authorized_keys_path, write_authorized_keys_atomic, time_until,
}
use mango_agent.Sshauth.Ops.{root_keys}

-- The ticket and the time of expiry that the words of a tag line give; 0 if there is no time.
pub record Lease : Type 0 where
  pub ticket : Text
  pub expires : ℤ

unfoldable pub read_word : Lease → Text → Lease
read_word l p =
    if has_prefix p (codes "MANGOHUB_TICKET:")
    then record l { ticket = trim_prefix p (codes "MANGOHUB_TICKET:") }
    else if has_prefix p (codes "EXP:")
    then record l { expires = (parse_int (trim_prefix p (codes "EXP:"))).0 }
    else l

unfoldable pub read_words : Lease → List Text → Lease
unfolding read_word
read_words l [] = l
read_words l (p ∷ parts) = read_words (read_word l p) parts

unfoldable pub parse_lease : Text → Lease
unfolding read_words
parse_lease trimmed = read_words (record { ticket = []; expires = pos 0 }) (fields trimmed)

-- `expUnix > 0 && expUnix <= now`, and `expUnix > now`.
abbrev pub is_expired : ℕ → ℤ → Bool
is_expired now (pos e) = ltb 0 e && leb e now
is_expired now (negsuc e) = false

abbrev pub is_active : ℕ → ℤ → Bool
is_active now (pos e) = ltb now e
is_active now (negsuc e) = false

-- The variables of the loop; a set of tickets is a map to nothing.
pub record Scan : Type 0 where
  pub new_lines : List Text
  pub expired_tickets : Dict (Unit {0})
  pub active_leases : Dict ℤ
  pub skip_next : Bool

-- The end of the loop's body.
unfoldable pub keep_line : Text → Scan → Scan
keep_line line st =
    if st.skip_next && not (has_prefix (trim_space line) lease_tag_prefix)
    then record st { skip_next = false }
    else if is_nil (trim_space line)
    then record st { skip_next = false }
    else record st { skip_next = false; new_lines = st.new_lines ++ line ∷ [] }

unfoldable pub reconcile_tag : ℕ → Text → Lease → Scan → Scan
reconcile_tag now line l st =
    if is_nil l.ticket
    then record st { new_lines = st.new_lines ++ line ∷ [] }
    else if is_expired now l.expires
    then record st { expired_tickets = insert l.ticket tt st.expired_tickets; skip_next = true }
    else if is_active now l.expires
    then keep_line line (record st { active_leases = insert l.ticket l.expires st.active_leases })
    else keep_line line st

unfoldable pub reconcile_line : ℕ → Text → Scan → Scan
reconcile_line now line st =
    if has_prefix (trim_space line) lease_tag_prefix
    then reconcile_tag now line (parse_lease (trim_space line)) st
    else keep_line line st

unfoldable pub reconcile_lines : ℕ → List Text → Scan → Scan
reconcile_lines now [] st = st
reconcile_lines now (line ∷ lines) st = reconcile_lines now lines (reconcile_line now line st)

abbrev pub start_scan : Scan
start_scan = record { new_lines = []; expired_tickets = []; active_leases = []; skip_next = false }

abbrev pub or_second : ℕ → ℕ
or_second zero = second
or_second (suc n) = suc n

abbrev pub arm_missing : Text → Timer → Option Timer → Dict Timer → Dict Timer
arm_missing ticket t none timers = insert ticket t timers
arm_missing ticket t (some old) timers = timers

-- The timers of the leases that have not expired are set, where they are not.
unfoldable pub rearm : Env → Text → Dict ℤ → Dict Timer → Dict Timer
rearm env user [] timers = timers
rearm env user ((ticket, expires) ∷ leases) timers =
    let delay = or_second (time_until env.now (record { unix = expires; nsec = 0 })) in
    rearm env user leases
      (arm_missing ticket (record { delay = delay; user = user }) (lookup ticket timers) timers)

-- A result of `reconcileLeasesAtPath`: the world, and the number of expired leases or an error.
abbrev pub Count : Type 0
Count = World × ℕ × Option Error

unfoldable pub finish_reconcile : Env → Text → Scan → Outcome → Count
finish_reconcile env user st (w, some e) = (w, 0, some e)
finish_reconcile env user st (w, none) = (
  record w { timers = rearm env user st.active_leases w.timers },
  length st.expired_tickets,
  none,
)

unfoldable pub write_reconciled : Env → Text → Scan → World → Outcome
write_reconciled env path st w =
    if is_nil st.expired_tickets
    then (w, none)
    else write_authorized_keys_atomic env path (text_of st.new_lines) w

unfoldable pub reconcile_content : Env → Text → Text → World → Option Text → Count
reconcile_content env path user w none = (w, 0, none)
reconcile_content env path user w (some content) =
    let st = reconcile_lines (env.now / second) (split 10 content) start_scan in
    if env.readable path
    then finish_reconcile env user st (write_reconciled env path st w)
    else (w, 0, some read_error)

unfoldable pub reconcile_leases_at_path : Env → Text → Text → World → Count
unfolding reconcile_content
reconcile_leases_at_path env path user w = reconcile_content env path user w (lookup path w.disk)

unfoldable pub reconcile_resolved : Env → Option Text → Text → World → Count
reconcile_resolved env none user w = (w, 0, some no_home)
reconcile_resolved env (some path) user w = reconcile_leases_at_path env path user w

abbrev is_some : {A : Type 0} → Option A → Bool
is_some none = false
is_some (some a) = true

-- The paths scanned so far, at the start: the default one, if it resolves to a text.
abbrev path_set : Option Text → Dict (Unit {0})
path_set none = []
path_set (some []) = []
path_set (some (c ∷ path)) = (c ∷ path, tt) ∷ []

unfoldable pub reconcile_default : Env → Option Text → World → Count
reconcile_default env none w = (w, 0, none)
reconcile_default env (some path) w = reconcile_leases_at_path env path [] w

-- The scan of the users' files: a path is scanned once. The count adds up.
unfoldable pub reconcile_globbed :
    Env → List (Text × Text) → Dict (Unit {0}) → ℕ → World → World × ℕ × Dict (Unit {0})
reconcile_globbed env [] scanned total w = (w, total, scanned)
reconcile_globbed env ((path, user) ∷ paths) scanned total w =
    let r = reconcile_leases_at_path env path user w in
    let seen = is_some (lookup path scanned) in
    reconcile_globbed env paths (insert path tt scanned) (if seen then total else total + r.1)
      (if seen then w else r.0)

unfoldable pub reconcile_root : Env → World × ℕ × Dict (Unit {0}) → Count
reconcile_root env (w, total, scanned) =
    let r = reconcile_leases_at_path env root_keys (codes "root") w in
    if is_some (lookup root_keys scanned) then (w, total, none) else (r.0, total + r.1, none)

unfoldable pub reconcile_users : Env → Option Text → Count → Count
unfolding reconcile_globbed reconcile_root
reconcile_users env path first =
    if env.windows
    then (first.0, first.1, none)
    else reconcile_root env (reconcile_globbed env env.globbed (path_set path) first.1 first.0)

-- `ReconcileLeases`
unfoldable pub reconcile_leases : Env → Text → World → Count
unfolding reconcile_resolved reconcile_users reconcile_default
reconcile_leases env [] w =
    let path = resolve_authorized_keys_path env [] in
    reconcile_users env path (reconcile_default env path w)
reconcile_leases env (c ∷ user) w =
    reconcile_resolved env (resolve_authorized_keys_path env (c ∷ user)) (c ∷ user) w
