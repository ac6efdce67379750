-- ===== src/Server/Tasks.antt =====
-- server/task.go and server/mining.go: the commands that the server has the agent run, and what the
-- agent reports of them.
use mango_agent.Base.{
  ℕ, zero, suc, ◌+◌, ◌-◌, ℤ, pos, negsuc, Bool, true, false, not, ◌&&◌, ◌||◌, Option, none, some,
  List, [], ◌∷◌, ◌++◌, Text, codes, text_eq, if◌then◌else◌, ltb, ◌⊎◌, inl, inr,
}
use mango_agent.Strings.{is_nil, trim_space, contains, replace_all}

-- `flags.DisableWebSsh` and `flags.MinerControlCmd`.
pub record TaskFlags : Type 0 where
  pub disable_web_ssh : Bool
  pub miner_control_cmd : Text

-- How a command ends: `exit_error` is an `*exec.ExitError` with its code.
pub data RunError : Type 0 where
  no_error : RunError
  exit_error : ℤ → RunError
  other_error : Text → RunError

-- One run of the shell: its output, whether the deadline passed, and its error.
pub record Run : Type 0 where
  pub out : Text
  pub errors : Text
  pub deadline_exceeded : Bool
  pub error : RunError

-- The shell under a timeout in seconds, 0 for none; `inl` is an error of `buildTaskCommandWithContext`.
abbrev pub Shell : Type 0
Shell = ℕ → Text → Text ⊎ Run

unfoldable pub append_error_result : Text → Text → Text
append_error_result [] e = e
append_error_result (c ∷ result) e = (c ∷ result) ++ 10 ∷ e

-- What a run leaves, before and after its error is looked at.
abbrev pub collected : Run → Text
collected r =
    replace_all (if is_nil r.errors then r.out else append_error_result r.out r.errors)
      (13 ∷ 10 ∷ []) (10 ∷ [])

abbrev pub with_error : Text → RunError → Text × ℤ
with_error result no_error = (result, pos 0)
with_error result (exit_error code) = (result, code)
with_error result (other_error e) = (append_error_result result e, negsuc 0)

-- `runTaskCommandWithTimeout`, after `timed_out`, the text of its timeout error.
unfoldable pub run_task_command_with_timeout : Text → Shell → Text → ℕ → Text × ℤ
run_task_command_with_timeout timed_out shell command timeout = elim (shell timeout command) [
  | inl e ↦ (e, negsuc 0)
  | inr r ↦
      if ltb 0 timeout && r.deadline_exceeded
      then (append_error_result (collected r) timed_out, negsuc 0)
      else with_error (collected r) r.error
]

unfoldable pub run_task_command : Text → Shell → Text → Text × ℤ
run_task_command timed_out shell command = run_task_command_with_timeout timed_out shell command 0

-- What `uploadTaskResult` is given.
pub record TaskResult : Type 0 where
  pub task_id : Text
  pub result : Text
  pub exit_code : ℤ

-- The command that a task ran, if it ran one, and the result it uploads, if it uploads one.
abbrev pub Done : Type 0
Done = Option Text × Option TaskResult

abbrev pub report : Text → Text × ℤ → TaskResult
report task_id r = record { task_id = task_id; result = r.0; exit_code = r.1 }

abbrev pub placeholder : Text
placeholder = codes "{action}"

-- `miningControlTimeout`, in seconds.
abbrev pub mining_control_timeout : ℕ
mining_control_timeout = 60

abbrev pub is_zero_code : ℤ → Bool
is_zero_code (pos zero) = true
is_zero_code _ = false

module _ (flags : TaskFlags) (shell : Shell) (timed_out : Text) where
  -- `NewTask`
  unfoldable pub new_task : Text → Text → Done
  new_task task_id command =
      if is_nil task_id
      then (none, none)
      else if is_nil (trim_space command)
      then (none, some (report task_id (codes "No command provided", pos 0)))
      else if flags.disable_web_ssh
      then (none, some (report task_id (codes "Remote control is disabled.", negsuc 0)))
      else (some command, some (report task_id (run_task_command timed_out shell command)))

  unfoldable pub render_mining_control_command : Text → Text × ℤ
  render_mining_control_command action =
      let tpl = trim_space flags.miner_control_cmd in
      if not (text_eq action (codes "start")) && not (text_eq action (codes "stop"))
      then (codes "Invalid mining control action: " ++ action, negsuc 0)
      else if flags.disable_web_ssh
      then (codes "Remote control is disabled.", negsuc 0)
      else if is_nil tpl || not (contains tpl placeholder)
      then (
        codes
            "Mining control is not configured on this agent (set AGENT_MINER_CONTROL_CMD with an {action} placeholder).",
        negsuc 0,
      )
      else (replace_all tpl placeholder action, pos 0)

  unfoldable pub miner_controllable : Bool
  miner_controllable =
      let tpl = trim_space flags.miner_control_cmd in
      not (is_nil tpl) && contains tpl placeholder && not flags.disable_web_ssh

  unfoldable pub mining_command : Text → Text × ℤ → Done
  mining_command task_id r = if not (is_zero_code r.1) then (none, some (report task_id r)) else (
    some r.0,
    some
        (report task_id (run_task_command_with_timeout timed_out shell r.0 mining_control_timeout)),
  )

  -- `NewMiningControlTask`
  unfoldable pub new_mining_control_task : Text → Text → Done
  new_mining_control_task task_id action =
      if is_nil task_id
      then (none, none)
      else mining_command task_id (render_mining_control_command action)

-- How a result was uploaded: whether an attempt succeeded, how many there were, and the pauses in
-- seconds between them.
pub record Uploaded : Type 0 where
  pub delivered : Bool
  pub attempts : ℕ
  pub pauses : List ℕ

-- `maxRetries`
abbrev pub max_retries : ℕ
max_retries = 3

-- The loop of `uploadTaskResult` from attempt `attempt` on; `left` are those that may follow it.
unfoldable pub upload_from : (ℕ → Bool) → ℕ → ℕ → Uploaded
upload_from post zero attempt = record { delivered = post attempt; attempts = attempt; pauses = [] }
upload_from post (suc left) attempt =
    let rest = upload_from post left (attempt + 1) in
    if post attempt
    then record { delivered = true; attempts = attempt; pauses = [] }
    else record rest { pauses = attempt ∷ rest.pauses }

-- `uploadTaskResult`, where `post i` tells if the attempt `i` of `postV2RPC` succeeds.
unfoldable pub upload_task_result : (ℕ → Bool) → Uploaded
unfolding upload_from
upload_task_result post = upload_from post (max_retries - 1) 1
