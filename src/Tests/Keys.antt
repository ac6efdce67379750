-- ===== src/Tests/Keys.antt =====
-- sshauth/sshauth.go on small inputs.
use mango_agent.Base.{◌*◌, pos, true, false, none, some, [], ◌∷◌, ◌++◌, Text, codes}
use mango_agent.Strings.Lines.{text_of}
use mango_agent.Sshauth.World.{second, Env, World, Time}

abbrev host : Env
host = record {
  windows = false;
  admin_file = none;
  lookup_home = λ user. some (codes "/home/" ++ user);
  current_home = some (codes "/root");
  user_home_dir = some (codes "/root");
  euid = 0;
  auth_file = λ home. home ++ codes "/.ssh/authorized_keys";
  globbed = [];
  readable = λ path. true;
  writable = λ path. true;
  now = 100 * second;
}

abbrev keys : Text
keys = codes "/root/.ssh/authorized_keys"

abbrev old_content : Text
old_content = text_of (
    codes "ssh-rsa A root"
    ∷ codes "# MANGOHUB_TICKET:7 EXP:90"
    ∷ codes "ssh-rsa B"
    ∷ codes "# MANGOHUB_TICKET:71 EXP:200"
    ∷ codes "ssh-rsa C"
    ∷ [])

-- Two leases, of which the ticket of the first begins that of the second.
abbrev two_leases : World
two_leases = record { disk = (keys, old_content) ∷ []; timers = [] }

abbrev one_key : World
one_key = record { disk = (keys, text_of (codes "ssh-rsa A root" ∷ [])) ∷ []; timers = [] }

abbrev expiry : Time
expiry = record { unix = pos 160; nsec = 0 }
