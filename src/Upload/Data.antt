-- ===== src/Upload/Data.antt =====
-- server/files.go and server/file_stream.go: the state behind file uploads, and the metadata of a
-- request. Paths go through the operating system's functions, which are the record `Env`.
use mango_agent.Base.{
  ℕ, ℤ, pos, Bool, false, ◌||◌, Option, none, some, List, [], ◌∷◌, ◌++◌, Text, Dict, codes, lookup,
  if◌then◌else◌, text_eq, drop,
}
use mango_agent.Strings.{trim_space, has_prefix, is_nil}

abbrev pub default_transfer_chunk_size : ℕ
default_transfer_chunk_size = 26214400

abbrev pub max_transfer_chunk_size : ℕ
max_transfer_chunk_size = 134217728

-- A JSON value of a request's arguments; a number stands for its conversion to `int64`.
pub data Value : Type 0 where
  text : Text → Value
  flag : Bool → Value
  number : ℤ → Value
  other : Value

abbrev pub Args : Type 0
Args = Dict Value

abbrev text_value : Option Value → Text
text_value (some (text s)) = s
text_value _ = []

abbrev flag_value : Option Value → Bool
flag_value (some (flag b)) = b
flag_value _ = false

abbrev number_value : Option Value → ℤ
number_value (some (number n)) = n
number_value _ = pos 0

unfoldable pub arg_string : Args → Text → Text
arg_string args key = text_value (lookup key args)

unfoldable pub arg_bool : Args → Text → Bool
arg_bool args key = flag_value (lookup key args)

unfoldable pub arg_int64 : Args → Text → ℤ
arg_int64 args key = number_value (lookup key args)

-- The system under the file operations: `clean` is `filepath.Clean`,
-- `home` is `os.UserHomeDir`, and `join`, `base` and `dir` are those of `filepath`. The last fields
-- say which calls succeed on a path.
pub record Env : Type 0 where
  pub clean : Text → Text
  pub home : Option Text
  pub join : Text → Text → Text
  pub base : Text → Text
  pub dir : Text → Text
  pub can_open : Text → Bool
  pub can_sync : Text → Bool
  pub can_remove : Text → Bool
  pub can_truncate : Text → Bool
  pub can_make_dir : Text → Bool
  pub is_dir : Text → Bool
  pub can_stat : Text → Bool
  pub can_chmod : Text → Bool
  pub can_replace : Text → Bool
  pub can_sync_dir : Text → Bool
  pub now : ℕ

-- The home directory in front of what stands behind "~".
unfoldable pub expand_home : Env → Option Text → Text → Text
expand_home env none trimmed = env.clean trimmed
expand_home env (some []) trimmed = env.clean trimmed
expand_home env (some (c ∷ home)) trimmed =
    if text_eq trimmed (codes "~")
    then env.clean (c ∷ home)
    else env.clean (env.join (c ∷ home) (drop 2 trimmed))

abbrev or_root : Text → Text
or_root [] = codes "/"
or_root (c ∷ s) = c ∷ s

unfoldable pub resolve_file_path : Env → Text → Text
unfolding expand_home
resolve_file_path env path =
    let trimmed = or_root (trim_space path) in
    if text_eq trimmed (codes "~")
      || (has_prefix trimmed (codes "~/") || has_prefix trimmed (b'~' ∷ b'\\' ∷ []))
    then expand_home env env.home trimmed
    else env.clean trimmed

-- `samePath`, on Unix.
unfoldable pub same_path : Env → Text → Text → Bool
same_path env left right = text_eq (env.clean left) (env.clean right)

-- `uploadPartPathFor`, on Unix.
unfoldable pub upload_part_path_for : Env → Text → Text → Text
upload_part_path_for env target id =
    let name = env.base target in
    let shown =
      if is_nil name || (text_eq name (codes ".") || text_eq name (codes "/"))
      then codes "upload"
      else name in
    env.join (env.dir target)
      (codes "." ++ (shown ++ (codes ".komari-upload-" ++ (id ++ codes ".part"))))

-- The fields of `uploadStreamSpec`; all but the paths are natural numbers once they are checked.
pub record UploadStreamSpec : Type 0 where
  pub path : Text
  pub upload_id : Text
  pub offset : ℕ
  pub chunk_index : ℕ
  pub chunk_count : ℕ
  pub total_size : ℕ
  pub chunk_size : ℕ
  pub expected : ℕ
  pub first : Bool

pub record UploadChunkState : Type 0 where
  pub size : ℕ
  pub expected_size : ℕ
  pub chunk_size : ℕ
  pub target_path : Text
  pub parts : List ℕ
  pub part_count : ℕ
  pub temp_path : Text
  pub created_at : ℕ

-- `idle_closed` says whether the channel `idle` is closed; `canceled_at` is `none` for the zero
-- time; `streams` holds the streams whose context can be cancelled.
pub record Lifecycle : Type 0 where
  pub active : ℕ
  pub idle_closed : Bool
  pub canceled : Bool
  pub canceled_at : Option ℕ
  pub streams : Dict (Unit {0})

-- The package's variables, and the files on disk by their paths.
pub record Server : Type 0 where
  pub lifecycles : Dict Lifecycle
  pub chunks : Dict UploadChunkState
  pub disk : Dict (List ℕ)

pub data Error : Type 0 where
  id_required not_a_file bad_metadata bad_chunk_size bad_count bad_offset bad_length : Error
  unknown_session wrong_target wrong_total wrong_chunk_size wrong_count incomplete : Error
  part_missing part_short cancelled session_gone open_error read_error short_stream : Error
  sync_error remove_error stat_error truncate_error mkdir_error is_directory chmod_error : Error
  replace_error sync_dir_error : Error

pub data Result {ℓ} (A : Type ℓ) : Type ℓ where
  ok : A → Result A
  err : Error → Result A
