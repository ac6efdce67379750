-- ===== src/Tests/Updates.antt =====
-- update/update.go on small inputs.
use mango_agent.Base.{ℕ, true, false, none, some, List, [], ◌∷◌, Text, codes, ◌≡◌, refl, All}
use mango_agent.Strings.{has_prefix, split}
use mango_agent.Update.Releases.{
  Release, Candidate, detect_build_track, expected_asset_name, find_asset, find_release_asset,
  candidate_of, candidate, is_newer, text_lt, select_from, select_latest_snapshot_release,
  snapshot_needs_update, split_repo_slug,
}
use mango_agent.Update.Check.{
  Host, nothing_to_do, current_executable_path, install, update_from, check_list,
  check_and_update_snapshot, check_and_update,
}
use mango_agent.Update.Latest.{
  IsCandidate, IsFrom, IsLatest, select_latest_snapshot_release-IsLatest,
}
use mango_agent.Update.Again.{check_and_update-again}

abbrev asset_name : Text
asset_name = codes "komari-agent-linux-amd64"

abbrev release : Text → ℕ → Release
release tag at = record {
  tag_name = tag;
  name = tag;
  body = [];
  draft = false;
  prerelease = true;
  html_url = [];
  published_at = at;
  assets = record { id = 1; name = asset_name; size = 9; browser_download_url = [] } ∷ [];
}

abbrev releases : List Release
releases =
    release (codes "Snapshot-1") 10
    ∷ release (codes "Snapshot-2") 20
    ∷ release (codes "1.0") 30
    ∷ []

select_latest_snapshot_release-IsLatest_example :
    ((c : Candidate)
      → select_latest_snapshot_release releases asset_name ≡ some c
      → IsFrom asset_name releases c × IsLatest asset_name releases c)
    × (select_latest_snapshot_release releases asset_name ≡ none
        → All (λ r. (c : Candidate) → ¬ IsCandidate asset_name r c) releases)
select_latest_snapshot_release-IsLatest_example =
    select_latest_snapshot_release-IsLatest releases asset_name

abbrev newest : Candidate
newest = record {
  tag_name = codes "Snapshot-2";
  name = codes "Snapshot-2";
  body = [];
  html_url = [];
  published_at = 20;
  asset = record { id = 1; name = asset_name; size = 9; browser_download_url = [] };
}

abbrev path : Text
path = codes "/opt/agent"

abbrev host : Host
host = record {
  V = Unit;
  is_container = false;
  goos = codes "linux";
  goarch = codes "amd64";
  executable = some path;
  lstat = λ p. some false;
  eval_symlinks = λ p. none;
  list_releases = λ owner repo. some releases;
  has_updater = true;
  update_to = λ c p. true;
  parse_tolerant = λ v. none;
  equals = λ a b. true;
  update_self = λ v. none;
}

installed : (check_and_update host (codes "a/b") (codes "Snapshot-1")).0 ≡ some (newest, path)
unfolding check_and_update detect_build_track has_prefix check_and_update_snapshot split_repo_slug
    split check_list select_latest_snapshot_release select_from candidate candidate_of
    find_release_asset find_asset is_newer text_lt expected_asset_name update_from
    snapshot_needs_update install current_executable_path
installed = refl

check_and_update-again_example :
    check_and_update host (codes "a/b") (codes "Snapshot-2") ≡ (none, nothing_to_do)
check_and_update-again_example =
    check_and_update-again host (codes "a/b") (codes "Snapshot-1") newest path installed
