-- ===== src/Tests/Moves.antt =====
-- server/files.go: a move across devices on a small file system.
use mango_agent.Base.{
  true, false, none, some, [], ◌∷◌, ◌++◌, Bool, Text, codes, Dict, insert, ◌≡◌, ◌⊎◌, refl,
}
use mango_agent.Strings.{trim_space, has_prefix}
use mango_agent.Upload.Data.{Env, expand_home, resolve_file_path, same_path}
use mango_agent.Files.Moves.{
  Failure, remove_failed, Fs, regular, cross_device, copy_failed, path_contains, copy_regular_file,
  move_resolved, move_path,
}
use mango_agent.Files.Kept.{other, IsSafe, move_path-remove_all}

abbrev paths : Env
paths = record {
  clean = λ p. p;
  home = none;
  join = λ a b. a ++ (codes "/" ++ b);
  base = λ p. p;
  dir = λ p. codes "/b";
  can_open = λ p. true;
  can_sync = λ p. true;
  can_remove = λ p. true;
  can_truncate = λ p. true;
  can_make_dir = λ p. true;
  is_dir = λ p. false;
  can_stat = λ p. true;
  can_chmod = λ p. true;
  can_replace = λ p. true;
  can_sync_dir = λ p. true;
  now = 0;
}

-- A move to "/b/x". Two devices; the second is full, so that a copy leaves an empty file and fails.
abbrev full : Fs
full = record {
  S = Dict Text;
  rel = λ a b. none;
  is_abs = λ p. false;
  volume_root = λ p. [];
  lstat = λ p s. regular;
  walk = λ p s. [];
  read_link = λ p s. none;
  can_open = λ p s. true;
  mkdir_all = λ p s. (s, true);
  make_directory = λ p s. (s, true);
  rename = λ a b s. (s, cross_device);
  remove = λ p s. (s, true);
  remove_all = λ p s. ([], true);
  symlink = λ a b s. (s, true);
  write_copy = λ a b s. (insert b [] s, false);
}

abbrev files : Dict Text
files = (codes "/a", codes "content") ∷ []

copy_fails : (move_path paths full (codes "/a") (codes "/b/x") files).1 ≡ some copy_failed
unfolding move_path resolve_file_path expand_home trim_space has_prefix move_resolved same_path
    path_contains copy_regular_file
copy_fails = refl

-- A removal that does nothing.
abbrev no_removal : Text → Dict Text → Dict Text × Bool
no_removal p s = (s, true)

move_path-remove_all_example :
    IsSafe paths full no_removal
      (resolve_file_path paths (codes "/a"))
      (resolve_file_path paths (codes "/b/x"))
      (move_path paths full (codes "/a") (codes "/b/x") files)
      (move_path paths (other paths full no_removal) (codes "/a") (codes "/b/x") files)
    × ((e : Failure)
        → (move_path paths full (codes "/a") (codes "/b/x") files).1 ≡ some e
        → (e ≡ remove_failed)
          ⊎ (move_path paths (other paths full no_removal) (codes "/a") (codes "/b/x") files
              ≡ move_path paths full (codes "/a") (codes "/b/x") files))
move_path-remove_all_example =
    move_path-remove_all paths full no_removal (codes "/a") (codes "/b/x") files
