-- ===== src/Files/Moves.antt =====
-- server/files.go: moving, copying and deleting a path, over the calls of the operating system.
use mango_agent.Base.{
  Bool, true, false, not, ◌&&◌, ◌||◌, Option, none, some, List, [], ◌∷◌, Text, codes, text_eq,
  if◌then◌else◌,
}
use mango_agent.Strings.{has_prefix}
use mango_agent.Upload.Data.{Env, resolve_file_path, same_path}

-- What `os.Lstat` gives.
pub data Kind : Type 0 where
  missing : Kind
  unknown : Kind
  directory : Kind
  link : Kind
  regular : Kind

-- How `os.Rename` ends.
pub data Renamed : Type 0 where
  renamed : Renamed
  cross_device : Renamed
  not_renamed : Renamed

-- An entry of a walk: its path relative to the root, which is "." at the root itself, and its kind;
-- `none` is an error of the walk.
abbrev pub WalkEntry : Type 0
WalkEntry = Option (Text × Kind)

-- The calls on the file system, whose state is `S`; a Boolean tells if a call succeeds. `write_copy`
-- is what `copyRegularFile` does once it opened its source and made the directory: it opens the
-- destination, copies, and sets mode and times. `make_directory` is `MkdirAll` with a mode, `Chmod`
-- and `Chtimes`. `rel` and `is_abs` are those of `filepath`.
pub record Fs : Type 1 where
  pub S : Type 0
  pub rel : Text → Text → Option Text
  pub is_abs : Text → Bool
  pub volume_root : Text → Text
  pub lstat : Text → S → Kind
  pub walk : Text → S → List WalkEntry
  pub read_link : Text → S → Option Text
  pub can_open : Text → S → Bool
  pub mkdir_all : Text → S → S × Bool
  pub make_directory : Text → S → S × Bool
  pub rename : Text → Text → S → S × Renamed
  pub remove : Text → S → S × Bool
  pub remove_all : Text → S → S × Bool
  pub symlink : Text → Text → S → S × Bool
  pub write_copy : Text → Text → S → S × Bool

-- The error that an operation returns, by the step that failed.
pub data Failure : Type 0 where
  refused : Failure
  mkdir_failed : Failure
  rename_failed : Failure
  stat_failed : Failure
  copy_failed : Failure
  remove_failed : Failure

module _ (env : Env) (fs : Fs) where
  -- Steps one after another, up to the first that fails.
  abbrev pub and_next : fs.S × Bool → (fs.S → fs.S × Bool) → fs.S × Bool
  and_next (s, false) next = (s, false)
  and_next (s, true) next = next s

  abbrev pub is_inside : Option Text → Bool
  is_inside none = false
  is_inside (some relative) =
      not (
        text_eq relative (codes ".")
        || text_eq relative (codes "..")
        || has_prefix relative (codes "../"))
      && not (fs.is_abs relative)

  unfoldable pub path_contains : Text → Text → Bool
  path_contains parent child = is_inside (fs.rel (env.clean parent) (env.clean child))

  -- The part of `copySymlink` after the directory is made.
  abbrev pub place_link : Text → Text → Kind → fs.S → fs.S × Bool
  place_link target destination missing s = fs.symlink target destination s
  place_link target destination unknown s = (s, false)
  place_link target destination directory s = (s, false)
  place_link target destination _ s =
      and_next (fs.remove destination s) (fs.symlink target destination)

  abbrev pub link_to : Text → Option Text → fs.S → fs.S × Bool
  link_to destination none s = (s, false)
  link_to destination (some target) s =
      and_next (fs.mkdir_all (env.dir destination) s)
        (λ s'. place_link target destination (fs.lstat destination s') s')

  unfoldable pub copy_symlink : Text → Text → fs.S → fs.S × Bool
  copy_symlink source destination s = link_to destination (fs.read_link source s) s

  unfoldable pub copy_regular_file : Text → Text → fs.S → fs.S × Bool
  copy_regular_file source destination s =
      if fs.can_open source s
      then and_next (fs.mkdir_all (env.dir destination) s) (fs.write_copy source destination)
      else (s, false)

  abbrev pub target_of : Text → Text → Text
  target_of destination relative =
      if text_eq relative (codes ".") then destination else env.join destination relative

  abbrev pub copy_entry : Text → Text → Kind → fs.S → fs.S × Bool
  copy_entry path target link s = copy_symlink path target s
  copy_entry path target directory s = fs.make_directory target s
  copy_entry path target _ s = copy_regular_file path target s

  abbrev pub copy_walked : Text → Text → WalkEntry → fs.S → fs.S × Bool
  copy_walked source destination none s = (s, false)
  copy_walked source destination (some (relative, kind)) s =
      copy_entry (target_of source relative) (target_of destination relative) kind s

  -- The function that `copyDirectory` gives to the walk, over its entries.
  unfoldable pub copy_entries : Text → Text → List WalkEntry → fs.S → fs.S × Bool
  copy_entries source destination [] s = (s, true)
  copy_entries source destination (e ∷ es) s =
      and_next (copy_walked source destination e s) (copy_entries source destination es)

  unfoldable pub copy_directory : Text → Text → fs.S → fs.S × Bool
  copy_directory source destination s = copy_entries source destination (fs.walk source s) s

  abbrev pub Result : Type 0
  Result = fs.S × Option Failure

  abbrev pub or_failure : Failure → fs.S × Bool → Result
  or_failure e (s, true) = (s, none)
  or_failure e (s, false) = (s, some e)

  -- The removal at the end of a move across devices.
  abbrev pub then_remove : Text → fs.S × Bool → Result
  then_remove source (s, false) = (s, some copy_failed)
  then_remove source (s, true) = or_failure remove_failed (fs.remove_all source s)

  abbrev pub move_across : Text → Text → Kind → fs.S → Result
  move_across source destination missing s = (s, some stat_failed)
  move_across source destination unknown s = (s, some stat_failed)
  move_across source destination link s = then_remove source (copy_symlink source destination s)
  move_across source destination directory s =
      then_remove source (copy_directory source destination s)
  move_across source destination regular s =
      then_remove source (copy_regular_file source destination s)

  abbrev pub after_rename : Text → Text → fs.S × Renamed → Result
  after_rename source destination (s, renamed) = (s, none)
  after_rename source destination (s, not_renamed) = (s, some rename_failed)
  after_rename source destination (s, cross_device) =
      move_across source destination (fs.lstat source s) s

  abbrev pub after_mkdir : Text → Text → fs.S × Bool → Result
  after_mkdir source destination (s, false) = (s, some mkdir_failed)
  after_mkdir source destination (s, true) =
      after_rename source destination (fs.rename source destination s)

  unfoldable pub move_resolved : Text → Text → fs.S → Result
  move_resolved source destination s =
      if same_path env source destination
      then (s, none)
      else if path_contains source destination
      then (s, some refused)
      else after_mkdir source destination (fs.mkdir_all (env.dir destination) s)

  -- `movePath`; the second component is its error.
  unfoldable pub move_path : Text → Text → fs.S → Result
  move_path source destination s =
      move_resolved (resolve_file_path env source) (resolve_file_path env destination) s

  abbrev pub copy_kind : Text → Text → Kind → fs.S → Result
  copy_kind source destination missing s = (s, some stat_failed)
  copy_kind source destination unknown s = (s, some stat_failed)
  copy_kind source destination directory s =
      if path_contains source destination
      then (s, some refused)
      else or_failure copy_failed (copy_directory source destination s)
  copy_kind source destination link s = or_failure copy_failed (copy_symlink source destination s)
  copy_kind source destination regular s =
      or_failure copy_failed (copy_regular_file source destination s)

  abbrev pub copy_resolved : Text → Text → fs.S → Result
  copy_resolved source destination s =
      if same_path env source destination
      then (s, some refused)
      else copy_kind source destination (fs.lstat source s) s

  -- `copyPath`
  unfoldable pub copy_path : Text → Text → fs.S → Result
  copy_path source destination s =
      copy_resolved (resolve_file_path env source) (resolve_file_path env destination) s

  abbrev pub is_known : Kind → Bool
  is_known missing = false
  is_known unknown = false
  is_known _ = true

  abbrev pub delete_resolved : Text → fs.S → Result
  delete_resolved path s =
      if text_eq path (codes "/") || text_eq path (fs.volume_root path)
      then (s, some refused)
      else if is_known (fs.lstat path s)
      then or_failure remove_failed (fs.remove_all path s)
      else (s, some stat_failed)

  -- `deletePath`, where `volume_root` is the root of a path's volume, or empty without one.
  unfoldable pub delete_path : Text → fs.S → Result
  delete_path path s = delete_resolved (resolve_file_path env path) s
