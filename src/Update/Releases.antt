-- ===== src/Update/Releases.antt =====
-- update/update.go: the releases of the repository and the choice of one. Times are instants.
use mango_agent.Base.{
  ℕ, zero, suc, ◌+◌, Bool, true, false, not, ◌&&◌, ◌||◌, Option, none, some, List, [], ◌∷◌, ◌++◌,
  Text, codes, text_eq, length, if◌then◌else◌, ◌==◌, ltb, ◌>>=◌,
}
use mango_agent.Strings.{is_nil, has_prefix, split}

pub data BuildTrack : Type 0 where
  stable_track : BuildTrack
  snapshot_track : BuildTrack

-- `snapshotVersionPrefix`
abbrev pub snapshot_version_prefix : Text
snapshot_version_prefix = codes "Snapshot-"

unfoldable pub detect_build_track : Text → BuildTrack
detect_build_track version =
    if has_prefix version snapshot_version_prefix then snapshot_track else stable_track

-- `githubReleaseAsset`
pub record Asset : Type 0 where
  pub id : ℕ
  pub name : Text
  pub size : ℕ
  pub browser_download_url : Text

-- `githubRelease`
pub record Release : Type 0 where
  pub tag_name : Text
  pub name : Text
  pub body : Text
  pub draft : Bool
  pub prerelease : Bool
  pub html_url : Text
  pub published_at : ℕ
  pub assets : List Asset

-- `snapshotReleaseCandidate`
pub record Candidate : Type 0 where
  pub tag_name : Text
  pub name : Text
  pub body : Text
  pub html_url : Text
  pub published_at : ℕ
  pub asset : Asset

unfoldable pub expected_asset_name : Text → Text → Text
expected_asset_name goos goarch =
    codes "komari-agent-"
    ++ goos
    ++ codes "-"
    ++ goarch
    ++ (if text_eq goos (codes "windows") then codes ".exe" else [])

unfoldable pub find_asset : List Asset → Text → Option Asset
find_asset [] asset_name = none
find_asset (a ∷ assets) asset_name =
    if text_eq a.name asset_name then some a else find_asset assets asset_name

-- `findReleaseAsset`
unfoldable pub find_release_asset : Release → Text → Option Asset
find_release_asset release asset_name = find_asset release.assets asset_name

-- Go's `<` on strings.
unfoldable pub text_lt : Text → Text → Bool
text_lt a [] = false
text_lt [] (d ∷ ds) = true
text_lt (c ∷ cs) (d ∷ ds) = ltb c d || (c == d && text_lt cs ds)

unfoldable pub candidate_of : Release → Asset → Candidate
candidate_of r asset = record {
  tag_name = r.tag_name;
  name = r.name;
  body = r.body;
  html_url = r.html_url;
  published_at = r.published_at;
  asset = asset;
}

-- The candidate that the loop of `selectLatestSnapshotRelease` makes of a release that it does not
-- skip.
unfoldable pub candidate : Text → Release → Option Candidate
candidate asset_name r =
    if r.draft || not r.prerelease || not (has_prefix r.tag_name snapshot_version_prefix)
    then none
    else (do asset ← find_release_asset r asset_name; some (candidate_of r asset))

unfoldable pub is_newer : Candidate → Candidate → Bool
is_newer c latest =
    ltb latest.published_at c.published_at
    || (c.published_at == latest.published_at && text_lt latest.tag_name c.tag_name)

-- The variables `latest` and `found` after one more candidate.
abbrev pub take_newer : Option Candidate → Option Candidate → Option Candidate
take_newer latest none = latest
take_newer none (some c) = some c
take_newer (some latest) (some c) = if is_newer c latest then some c else some latest

unfoldable pub select_from : Text → Option Candidate → List Release → Option Candidate
select_from asset_name latest [] = latest
select_from asset_name latest (r ∷ rs) =
    select_from asset_name (take_newer latest (candidate asset_name r)) rs

unfoldable pub select_latest_snapshot_release : List Release → Text → Option Candidate
select_latest_snapshot_release releases asset_name = select_from asset_name none releases

unfoldable pub snapshot_needs_update : Text → Candidate → Bool
snapshot_needs_update current latest = not (text_eq current latest.tag_name)

abbrev slug_of : List Text → Option (Text × Text)
slug_of (owner ∷ name ∷ []) = if is_nil owner || is_nil name then none else some (owner, name)
slug_of _ = none

unfoldable pub split_repo_slug : Text → Option (Text × Text)
unfolding split
split_repo_slug slug = slug_of (split b'/' slug)

-- How a loop over the pages of the list ends; `unfinished` is one that asks for ever.
pub data Listing : Type 0 where
  failed : Listing
  all_listed : List Release → Listing
  unfinished : Listing

abbrev pub page_size : ℕ
page_size = 100

abbrev pub next_page : List Release → Option (List Release) → (List Release → Listing) → Listing
next_page acc none rest = failed
next_page acc (some rs) rest =
    if ltb (length rs) page_size then all_listed (acc ++ rs) else rest (acc ++ rs)

-- The loop of `listGitHubReleases` from page `page` on, where `pages` is what the server has; `none`
-- is an error. `fuel` bounds the requests.
unfoldable pub list_from : ℕ → (ℕ → Option (List Release)) → List Release → ℕ → Listing
list_from zero pages acc page = unfinished
list_from (suc fuel) pages acc page =
    next_page acc (pages page) (λ acc'. list_from fuel pages acc' (page + 1))

unfoldable pub list_github_releases : ℕ → (ℕ → Option (List Release)) → Listing
list_github_releases fuel pages = list_from fuel pages [] 1
