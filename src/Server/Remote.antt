-- ===== src/Server/Remote.antt =====
-- server/task.go and server/mining.go: when a task of the server runs a command.
use mango_agent.Base.{
  ℕ, ◌≤◌, ◌<◌, ℤ, pos, negsuc, Bool, true, false, not, ◌&&◌, ◌||◌, Option, none, some, Text, codes,
  text_eq, if◌then◌else◌, ◌≡◌, refl, ◌∙◌, zero, suc, ◌==◌, ==_iff, inl, inr, Bool-cases, arith, ◌+◌,
}
use mango_agent.Strings.{is_nil, trim_space, contains}
use mango_agent.Server.Tasks.{
  TaskFlags, Shell, new_task, render_mining_control_command, miner_controllable, mining_command,
  new_mining_control_task, upload_from, upload_task_result, placeholder,
}

abbrev pub is_some {ℓ} : {A : Type ℓ} → Option A → Bool
is_some none = false
is_some (some a) = true

abbrev code_of : Text × ℤ → ℤ
code_of r = r.1

-- The exit code of a chain of refusals with a success at its end.
refusals :
    (a b c d e : Bool) (t u v w : Text)
    → code_of (
        if not a && not b
        then (t, negsuc 0)
        else if c
        then (u, negsuc 0)
        else if d || not e
        then (v, negsuc 0)
        else (w, pos 0))
      ≡ (if (a || b) && (not d && e && not c) then pos 0 else negsuc 0)
refusals true b true d e t u v w = ground arith
refusals true b false d e t u v w = ground arith
refusals false b c d e t u v w = ground arith

module _ (flags : TaskFlags) (shell : Shell) (timed_out : Text) where
  -- Whether an action is one that the agent knows.
  abbrev pub known_action : Text → Bool
  known_action action = text_eq action (codes "start") || text_eq action (codes "stop")

  render_lem :
      (action : Text)
      → (render_mining_control_command flags shell timed_out action).1 ≡ (
          if known_action action && miner_controllable flags shell timed_out
          then pos 0
          else negsuc 0)
  unfolding render_mining_control_command miner_controllable
  render_lem action =
      let tpl = trim_space flags.miner_control_cmd in
      refusals (text_eq action (codes "start")) (text_eq action (codes "stop"))
        flags.disable_web_ssh (is_nil tpl) (contains tpl placeholder) _ _ _ _

  mining_command_lem :
      (task_id : Text) (ready : Bool) (r : Text × ℤ)
      → r.1 ≡ (if ready then pos 0 else negsuc 0)
      → (is_some (mining_command flags shell timed_out task_id r).0 ≡ ready)
        × (is_some (mining_command flags shell timed_out task_id r).1 ≡ true)
  unfolding mining_command
  mining_command_lem task_id true r h = rw h (refl, refl)
  mining_command_lem task_id false r h = rw h (refl, refl)

  -- A mining control task with an id runs a command exactly if its action is start or stop and the
  -- agent reports itself as controllable; either way it reports a result.
  pub new_mining_control_task-controllable :
      (task_id action : Text)
      → is_nil task_id ≡ false
      → let done = new_mining_control_task flags shell timed_out task_id action in
        (is_some done.0 ≡ (known_action action && miner_controllable flags shell timed_out))
        × (is_some done.1 ≡ true)
  unfolding new_mining_control_task
  new_mining_control_task-controllable task_id action h = rw h (
      mining_command_lem task_id (known_action action && miner_controllable flags shell timed_out)
        (render_mining_control_command flags shell timed_out action) (render_lem action))

  uncontrollable : flags.disable_web_ssh ≡ true → miner_controllable flags shell timed_out ≡ false
  unfolding miner_controllable
  uncontrollable h = ground (arith, h)

  is_some-none {ℓ} : {A : Type ℓ} (o : Option A) → is_some o ≡ false → o ≡ none
  is_some-none none h = refl
  is_some-none (some a) h = cc

  new_task-none :
      (task_id command : Text)
      → flags.disable_web_ssh ≡ true
      → (new_task flags shell timed_out task_id command).0 ≡ none
  unfolding new_task
  new_task-none task_id command h = elim (Bool-cases (is_nil task_id)) [
    | inl n ↦ simp n
    | inr n ↦ elim (Bool-cases (is_nil (trim_space command))) [
      | inl e ↦ simp (n, e)
      | inr e ↦ simp (n, e, h)
    ]
  ]

  mining_none :
      (task_id action : Text)
      → flags.disable_web_ssh ≡ true
      → (new_mining_control_task flags shell timed_out task_id action).0 ≡ none
  unfolding new_mining_control_task
  mining_none task_id action h = elim (Bool-cases (is_nil task_id)) [
    | inl n ↦ simp n
    | inr n ↦
        let e = (new_mining_control_task-controllable task_id action n).0 in
        is_some-none _ (e ∙ ground (arith, uncontrollable h))
  ]

  -- While remote control is disabled, no task makes the agent run a command.
  pub new_task-Disabled :
      (task_id command action : Text)
      → flags.disable_web_ssh ≡ true
      → ((new_task flags shell timed_out task_id command).0 ≡ none)
        × ((new_mining_control_task flags shell timed_out task_id action).0 ≡ none)
  new_task-Disabled task_id command action h =
      (new_task-none task_id command h, mining_none task_id action h)

-- The attempts from `attempt` on, of which `left` follow the first.
upload_from-lem :
    (post : ℕ → Bool) (left attempt : ℕ)
    → let done = upload_from post left attempt in
      (post done.attempts ≡ done.delivered)
      × ((i : ℕ) → attempt ≤ i → i < done.attempts → post i ≡ false)
      × (done.delivered ≡ false → done.attempts ≡ attempt + left)
      × (done.attempts ≤ attempt + left)
unfolding upload_from
upload_from-lem post zero attempt =
    (refl, λ i lo hi. absurd (omega (arith, lo, hi)), λ e. omega arith, omega arith)
upload_from-lem post (suc left) attempt =
    let rest = upload_from-lem post left (attempt + 1) in
    elim (Bool-cases (post attempt)) [
      | inl sent ↦ rw sent (sent, λ i lo hi. absurd (omega (arith, lo, hi)), λ e. cc, omega arith)
      | inr failed ↦ rw failed (
        rest.0,
        λ i lo hi. elim (Bool-cases (i == attempt)) [
          | inl same ↦ let e = (==_iff i attempt).0 same in rw e failed
          | inr other ↦ rest.1 i (ground (arith, other, lo)) hi
        ],
        λ e. omega (arith, rest.2 e),
        omega (arith, rest.3),
      )
    ]

-- A task result is sent at most three times, never again after an attempt that succeeded, and it
-- counts as undelivered only after three attempts failed.
pub upload_task_result-attempts :
    (post : ℕ → Bool)
    → let done = upload_task_result post in
      (post done.attempts ≡ done.delivered)
      × ((i : ℕ) → 1 ≤ i → i < done.attempts → post i ≡ false)
      × (done.delivered ≡ false → done.attempts ≡ 3)
      × (done.attempts ≤ 3)
unfolding upload_task_result
upload_task_result-attempts post = upload_from-lem post 2 1
