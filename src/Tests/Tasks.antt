-- ===== src/Tests/Tasks.antt =====
-- server/task.go and server/mining.go on small inputs.
use mango_agent.Base.{
  ℕ, ℤ, pos, Bool, true, false, ◌&&◌, Option, none, some, [], codes, if◌then◌else◌, ◌≡◌, refl, inr,
  ◌↔◌, ◌==◌, ◌≤◌, ◌<◌,
}
use mango_agent.Server.Tasks.{
  TaskFlags, Shell, no_error, upload_task_result, new_mining_control_task, miner_controllable,
}
use mango_agent.Server.Remote.{
  is_some, known_action, new_mining_control_task-controllable, upload_task_result-attempts,
}
use mango_agent.Server.Ping.{find_latency}
use mango_agent.Server.Latency.{FirstOrRetry, find_latency_iff}

abbrev shell : Shell
shell timeout command =
    inr (record { out = command; errors = []; deadline_exceeded = false; error = no_error })

abbrev flags_with : Bool → TaskFlags
flags_with disabled = record {
  disable_web_ssh = disabled;
  miner_control_cmd = codes "systemctl {action} miner";
}

new_mining_control_task-controllable_example :
    let done = new_mining_control_task (flags_with false) shell [] (codes "t1") (codes "stop") in
    (is_some done.0 ≡ (
      known_action (flags_with false) shell [] (codes "stop")
      && miner_controllable (flags_with false) shell []))
    × (is_some done.1 ≡ true)
new_mining_control_task-controllable_example =
    new_mining_control_task-controllable (flags_with false) shell [] (codes "t1") (codes "stop")
      refl

-- A first measurement of 1500 ms, a second of 1200 ms and a third of 900 ms.
abbrev measured : ℕ → Option ℤ
measured i =
    if i == 0
    then some (pos 1500)
    else if i == 1
    then some (pos 1200)
    else if i == 2
    then some (pos 900)
    else none

find_latency_iff_example :
    (find_latency true measured ≡ some (pos 900))
    ↔ ((first : ℤ) × (measured 0 ≡ some first) × FirstOrRetry true measured (pos 900) first)
find_latency_iff_example = find_latency_iff true measured (pos 900)

-- The second attempt succeeds.
abbrev second_attempt : ℕ → Bool
second_attempt i = i == 2

upload_task_result-attempts_example :
    let done = upload_task_result second_attempt in
    (second_attempt done.attempts ≡ done.delivered)
    × ((i : ℕ) → 1 ≤ i → i < done.attempts → second_attempt i ≡ false)
    × (done.delivered ≡ false → done.attempts ≡ 3)
    × (done.attempts ≤ 3)
upload_task_result-attempts_example = upload_task_result-attempts second_attempt
