-- ===== src/Sshauth/World.antt =====
-- sshauth/sshauth.go: the state, the system's answers, and the files.
use mango_agent.Base.{
  ℕ, ◌+◌, ◌-◌, ◌*◌, min, ℤ, pos, negsuc, Bool, Option, none, some, List, [], ◌∷◌, Text, Dict, codes,
  insert, ◌==◌, if◌then◌else◌,
}

abbrev pub lease_tag_prefix : Text
lease_tag_prefix = codes "# MANGOHUB_TICKET:"

abbrev pub second : ℕ
second = 1000000000

-- A `time.Time`: seconds from 1970, and nanoseconds behind them.
pub record Time : Type 0 where
  pub unix : ℤ
  pub nsec : ℕ

-- A timer of `leaseTimers`: it calls `RevokeKey(ticket, user)` after a delay.
pub record Timer : Type 0 where
  pub delay : ℕ
  pub user : Text

-- What the operating system answers. `lookup_home` is `user.Lookup`, the next three are
-- `user.Current`, `os.UserHomeDir` and `os.Geteuid`; `auth_file` joins a home directory with
-- ".ssh/authorized_keys". `admin_file` is the Windows path, if its directory exists. `globbed` is
-- what /home/*/.ssh/authorized_keys matches, with the third part of each path. `now` is in
-- nanoseconds.
pub record Env : Type 0 where
  pub windows : Bool
  pub admin_file : Option Text
  pub lookup_home : Text → Option Text
  pub current_home : Option Text
  pub user_home_dir : Option Text
  pub euid : ℕ
  pub auth_file : Text → Text
  pub globbed : List (Text × Text)
  pub readable : Text → Bool
  pub writable : Text → Bool
  pub now : ℕ

pub record World : Type 0 where
  pub disk : Dict Text
  pub timers : Dict Timer

pub data Error : Type 0 where
  missing_argument no_home read_error write_error : Error

abbrev pub Outcome : Type 0
Outcome = World × Option Error

abbrev nonempty : Option Text → Option Text
nonempty none = none
nonempty (some []) = none
nonempty (some (c ∷ s)) = some (c ∷ s)

abbrev or_home : Option Text → Option Text → Option Text
or_home none other = other
or_home (some home) other = some home

-- The home directory of `user.Lookup`, for a user that is named.
unfoldable pub named_home : Env → Text → Option Text
named_home env [] = none
named_home env (c ∷ user) = nonempty (env.lookup_home (c ∷ user))

abbrev map_path : (Text → Text) → Option Text → Option Text
map_path f none = none
map_path f (some home) = some (f home)

-- `ResolveAuthorizedKeysPath`; `none` is its error.
unfoldable pub resolve_authorized_keys_path : Env → Text → Option Text
unfolding named_home
resolve_authorized_keys_path env user =
    if env.windows
    then or_home env.admin_file (map_path env.auth_file env.user_home_dir)
    else map_path env.auth_file (
        or_home (named_home env user) (
          or_home (nonempty env.current_home) (
            or_home (nonempty env.user_home_dir)
              (if env.euid == 0 then some (codes "/root") else none))))

-- `writeAuthorizedKeysAtomic`: the file has the new content, or stays as it was on an error.
unfoldable pub write_authorized_keys_atomic : Env → Text → Text → World → Outcome
write_authorized_keys_atomic env path content w =
    if env.writable path
    then (record w { disk = insert path content w.disk }, none)
    else (w, some write_error)

abbrev until : ℕ → ℤ → ℕ → ℕ
until now (pos s) nsec = min (s * second + nsec - now) 9223372036854775807
until now (negsuc s) nsec = 0

-- `time.Until`, cut off at 0, where the code tests for `<= 0`, and at the largest duration.
unfoldable pub time_until : ℕ → Time → ℕ
time_until now t = until now t.unix t.nsec
