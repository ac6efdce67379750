-- ===== src/Sshauth/Timers.antt =====
-- sshauth/sshauth.go: the timers that a reconciliation sets.
use mango_agent.Base.{
  ℤ, none, Option-cases, Bool-cases, [], ◌∷◌, Text, text_eq, text_eq_iff, Dict, lookup,
  lookup-insert, text_eq_refl, ◌≡◌, ◌≢◌, refl, inl, inr, arith,
}
use mango_agent.Sshauth.World.{Env, Timer}
use mango_agent.Sshauth.Reconcile.{rearm, arm_missing}

-- The timers: each active lease has one after `rearm`, and none is taken away.
abbrev pub IsArmed : Dict Timer → Text → Type 0
IsArmed timers ticket = lookup ticket timers ≢ none

arm_missing-keeps :
    (k j : Text) (t : Timer) (timers : Dict Timer)
    → IsArmed timers j
    → IsArmed (arm_missing k t (lookup k timers) timers) j
arm_missing-keeps k j t timers h = elim (Option-cases (lookup k timers)) [
  | inl out ↦ rw out (ground (arith, lookup-insert k j t timers))
  | inr (old, found) ↦ rw found h
]

arm_missing-arms :
    (k : Text) (t : Timer) (timers : Dict Timer)
    → IsArmed (arm_missing k t (lookup k timers) timers) k
arm_missing-arms k t timers = elim (Option-cases (lookup k timers)) [
  | inl out ↦ rw out (ground (arith, lookup-insert k k t timers, text_eq_refl k))
  | inr (old, found) ↦ rw found (ground arith)
]

rearm-keeps :
    (env : Env) (user : Text) (leases : Dict ℤ) (timers : Dict Timer) (j : Text)
    → IsArmed timers j
    → IsArmed (rearm env user leases timers) j
unfolding rearm
rearm-keeps env user [] timers j h = h
rearm-keeps env user ((k, e) ∷ leases) timers j h =
    rearm-keeps env user leases _ j (arm_missing-keeps k j _ timers h)

pub rearm-IsArmed :
    (env : Env) (user : Text) (leases : Dict ℤ) (timers : Dict Timer) (j : Text)
    → lookup j leases ≢ none
    → lookup j (rearm env user leases timers) ≢ none
unfolding rearm lookup
rearm-IsArmed env user [] timers j h = absurd (h refl)
rearm-IsArmed env user ((k, e) ∷ leases) timers j h = elim (Bool-cases (text_eq k j)) [
  | inl same ↦
      let k' : k ≡ j = (text_eq_iff k j).0 same in
      rw⁻¹ k' (rearm-keeps env user leases _ k (arm_missing-arms k _ timers))
  | inr other ↦ rearm-IsArmed env user leases _ j (simp other at h)
]
