-- ===== src/Sshauth/Expiry.antt =====
-- sshauth/sshauth.go: what a reconciliation leaves in a file, and the timers that it sets.
use mango_agent.Base.{
  ℕ, ◌/◌, ◌++◌, ◌⊎◌, List, true, none, some, [], ◌∷◌, Text, lookup, ◌≡◌, ◌≢◌, All, keep_if,
}
use mango_agent.Strings.{split}
use mango_agent.Sshauth.World.{second, Env, World}
use mango_agent.Sshauth.Reconcile.{Scan, reconcile_lines, start_scan}
use mango_agent.Sshauth.Scans.{active_line, Unexpired, ticket_in}
use mango_agent.Sshauth.Survivors.{stay}

abbrev pub scan_of : Env → Text → Scan
scan_of env old = reconcile_lines (env.now / second) (split 10 old) start_scan

-- The lines of the file: as they were, where none bears a tag of an expired lease, or those that stay.
abbrev pub IsKept : ℕ → Text → Text → Type 0
IsKept now old content =
    ((content ≡ old) × Unexpired now (split 10 old))
    ⊎ (split 10 content ≡ stay now (split 10 old) ++ [] ∷ [])

-- What a reconciliation promises of a file that it went through.
pub record Reconciled (env : Env) (path old : Text) (w : World) : Type 0 where
  pub content : Text
  pub holds : lookup path w.disk ≡ some content
  pub unexpired : Unexpired (env.now / second) (split 10 content)
  pub active :
      keep_if (active_line (env.now / second)) (split 10 content)
      ≡ keep_if (active_line (env.now / second)) (split 10 old)
  pub kept : IsKept (env.now / second) old content

module _ (env : Env) (path user old : Text) (w : World) where
  abbrev Promised : World → Type 0
  Promised w' =
      Reconciled env path old w'
      × All (λ l. active_line (env.now / second) l ≡ true → lookup (ticket_in l) w'.timers ≢ none)
          (split 10 old)
