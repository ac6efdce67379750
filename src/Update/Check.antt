-- ===== src/Update/Check.antt =====
-- update/update.go: the check for an update, by either track, and the schedule of checks.
use mango_agent.Base.{
  ℕ, suc, Bool, true, false, not, ◌&&◌, Option, none, some, List, [], ◌∷◌, ◌++◌, Text, codes,
  text_eq, length, if◌then◌else◌, leb, ◌>>=◌, drop, ◌-◌,
}
use mango_agent.Strings.{trim_prefix}
use mango_agent.Update.Releases.{
  BuildTrack, stable_track, snapshot_track, detect_build_track, Release, Candidate,
  expected_asset_name, select_latest_snapshot_release, snapshot_needs_update, split_repo_slug,
}

-- The machine and the package `selfupdate`: `has_updater` tells if `NewUpdater` returns no error,
-- `update_to` installs an asset at a path, and
-- `update_self` looks for a stable version and installs it, for which it returns the version.
-- `V` is the type of versions, with `semver`'s parser and equality.
pub record Host : Type 1 where
  pub V : Type 0
  pub is_container : Bool
  pub goos : Text
  pub goarch : Text
  pub executable : Option Text
  pub lstat : Text → Option Bool
  pub eval_symlinks : Text → Option Text
  pub list_releases : Text → Text → Option (List Release)
  pub has_updater : Bool
  pub update_to : Candidate → Text → Bool
  pub parse_tolerant : Text → Option V
  pub equals : V → V → Bool
  pub update_self : V → Option V

-- The result of a check: nil, an error, or `ErrRestartRequired`.
pub data Checked : Type 0 where
  nothing_to_do : Checked
  failed : Checked
  restart_required : Checked

-- The call of `UpdateTo` that a check made, if it made one, and its result.
abbrev pub CheckOutcome : Type 0
CheckOutcome = Option (Candidate × Text) × Checked

abbrev with_exe : Text → Text → Text
with_exe goos path =
    let n = length path - 4 in
    if text_eq goos (codes "windows")
      && not (leb 4 (length path) && text_eq (drop n path) (codes ".exe"))
    then path ++ codes ".exe"
    else path

module _ (host : Host) where
  -- `currentExecutablePath`
  unfoldable pub current_executable_path : Option Text
  current_executable_path = do
    path ← host.executable
    link ← host.lstat (with_exe host.goos path)
    if link then host.eval_symlinks (with_exe host.goos path) else some (with_exe host.goos path)

  unfoldable pub install : Candidate → Option Text → CheckOutcome
  install c none = (none, failed)
  install c (some path) =
      (some (c, path), (if host.update_to c path then restart_required else failed))

  unfoldable pub update_from : Text → Option Candidate → CheckOutcome
  update_from current none = (none, nothing_to_do)
  update_from current (some latest) =
      if not (snapshot_needs_update current latest)
      then (none, nothing_to_do)
      else install latest current_executable_path

  unfoldable pub check_list : Text → Option (List Release) → CheckOutcome
  check_list current none = (none, failed)
  check_list current (some releases) =
      update_from current
        (select_latest_snapshot_release releases (expected_asset_name host.goos host.goarch))

  abbrev pub check_slug : Text → Option (Text × Text) → CheckOutcome
  check_slug current none = (none, failed)
  check_slug current (some r) = check_list current (host.list_releases r.0 r.1)

  unfoldable pub check_and_update_snapshot : Text → Text → CheckOutcome
  check_and_update_snapshot repo current =
      if host.is_container then (none, nothing_to_do) else check_slug current (split_repo_slug repo)

  unfoldable pub parse_version : Text → Option host.V
  parse_version ver = host.parse_tolerant (trim_prefix (trim_prefix ver (codes "v")) (codes "V"))

  abbrev pub stable_result : host.V → Option host.V → Checked
  stable_result current none = failed
  stable_result current (some latest) =
      if host.equals latest current then nothing_to_do else restart_required

  unfoldable pub check_and_update_stable : host.V → Checked
  check_and_update_stable current = stable_result current (host.update_self current)

  abbrev stable_checked : Option host.V → Checked
  stable_checked none = failed
  stable_checked (some v) = check_and_update_stable v

  abbrev by_track : BuildTrack → Text → Text → CheckOutcome
  by_track snapshot_track repo current = check_and_update_snapshot repo current
  by_track stable_track repo current = (none, stable_checked (parse_version current))

  -- `CheckAndUpdate`
  unfoldable pub check_and_update : Text → Text → CheckOutcome
  check_and_update repo current =
      if host.has_updater
      then by_track (detect_build_track current) repo current
      else (none, failed)

-- `runScheduledUpdates` over the results of the checks at the ticks: how many checks it made, and
-- whether it asked for a restart.
unfoldable pub run_scheduled_updates : List Checked → ℕ × Bool
run_scheduled_updates [] = (0, false)
run_scheduled_updates (restart_required ∷ checks) = (1, true)
run_scheduled_updates (c ∷ checks) = let rest = run_scheduled_updates checks in (suc rest.0, rest.1)
