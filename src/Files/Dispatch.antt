-- ===== src/Files/Dispatch.antt =====
-- server/files.go: which operation a request asks for, and how its result is returned.
use mango_agent.Base.{
  ℕ, zero, suc, ◌+◌, ◌-◌, ◌*◌, Bool, false, ◌&&◌, ◌||◌, Option, none, some, List, [], ◌∷◌, Text,
  codes, text_eq, if◌then◌else◌, leb, ltb,
}
use mango_agent.Strings.{is_nil, trim_space, trim_prefix}
use mango_agent.Upload.Data.{Args, arg_string}

-- The call that a request leads to.
pub data Operation : Type 0 where
  list_files_call : Text → Operation
  list_filesystem_roots_call : Operation
  stat_file_call : Text → Operation
  create_file_call : Text → Operation
  mkdir_call : Text → Text → Operation
  delete_path_call : Text → Operation
  move_path_call : Text → Text → Operation
  copy_path_call : Text → Text → Operation
  chmod_path_call : Text → Text → Operation
  chown_path_call : Args → Operation
  search_files_call : Args → Operation
  send_download_stream_call : Args → Operation
  receive_upload_stream_call : Args → Operation
  commit_file_upload_call : Args → Operation
  cancel_file_upload_call : Args → Operation

-- The `switch` of `executeFileOperation`; `none` is an operation that it does not support.
unfoldable pub select_operation : Text → Args → Option Operation
select_operation op args =
    let path = arg_string args (codes "path") in
    let source = arg_string args (codes "source") in
    let destination = arg_string args (codes "destination") in
    let mode = arg_string args (codes "mode") in
    if text_eq op (codes "list")
    then some (list_files_call path)
    else if text_eq op (codes "list_roots")
    then some list_filesystem_roots_call
    else if text_eq op (codes "stat")
    then some (stat_file_call path)
    else if text_eq op (codes "create")
    then some (create_file_call path)
    else if text_eq op (codes "mkdir")
    then some (mkdir_call path mode)
    else if text_eq op (codes "delete")
    then some (delete_path_call path)
    else if text_eq op (codes "move")
    then some (move_path_call source destination)
    else if text_eq op (codes "copy")
    then some (copy_path_call source destination)
    else if text_eq op (codes "chmod")
    then some (chmod_path_call path mode)
    else if text_eq op (codes "chown")
    then some (chown_path_call args)
    else if text_eq op (codes "search")
    then some (search_files_call args)
    else if text_eq op (codes "download_stream")
    then some (send_download_stream_call args)
    else if text_eq op (codes "upload_stream")
    then some (receive_upload_stream_call args)
    else if text_eq op (codes "upload_commit")
    then some (commit_file_upload_call args)
    else if text_eq op (codes "upload_cancel")
    then some (cancel_file_upload_call args)
    else none

-- `executeFileOperation`: the operation that it carries out, or `none` if it returns an error at
-- once.
unfoldable pub execute_file_operation : Bool → Text → Args → Option Operation
execute_file_operation disable_web_ssh op args =
    if disable_web_ssh then none else select_operation op args

-- The answer to one attempt of `postFileResult`: no answer, or a status.
abbrev pub Answer : Type 0
Answer = Option ℕ

abbrev pub is_accepted : Answer → Bool
is_accepted none = false
is_accepted (some status) = leb 200 status && ltb status 300

abbrev pub is_rejected : Answer → Bool
is_rejected none = false
is_rejected (some status) = leb 400 status && ltb status 500

-- `maxAttempts`
abbrev pub max_attempts : ℕ
max_attempts = 4

-- The loop of `postFileResult` from attempt `attempt` on, with `left` attempts after it: the last
-- attempt, and the pauses in milliseconds.
unfoldable pub post_from : (ℕ → Answer) → ℕ → ℕ → ℕ × List ℕ
post_from answer zero attempt = (attempt, [])
post_from answer (suc left) attempt =
    let rest = post_from answer left (attempt + 1) in
    if is_accepted (answer attempt) || is_rejected (answer attempt)
    then (attempt, [])
    else (rest.0, attempt * 500 ∷ rest.1)

unfoldable pub post_file_result : (ℕ → Answer) → ℕ × List ℕ
post_file_result answer = post_from answer (max_attempts - 1) 1

-- The value of octal digits.
unfoldable pub octal_value : ℕ → Text → Option ℕ
octal_value acc [] = some acc
octal_value acc (c ∷ cs) =
    let rest = octal_value (acc * 8 + (c - 48)) cs in if leb 48 c && leb c 55 then rest else none

abbrev fits_uint32 : Option ℕ → Option ℕ
fits_uint32 none = none
fits_uint32 (some n) = if ltb n 4294967296 then some n else none

-- `strconv.ParseUint(s, 8, 32)`
unfoldable pub parse_octal : Text → Option ℕ
parse_octal [] = none
parse_octal (c ∷ cs) = fits_uint32 (octal_value 0 (c ∷ cs))

-- `parseMode`; `none` is an error.
unfoldable pub parse_mode : Text → Option ℕ
parse_mode value =
    let trimmed = trim_space value in
    if is_nil trimmed then none else parse_octal (trim_prefix trimmed (codes "0o"))
