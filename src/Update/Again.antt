-- ===== src/Update/Again.antt =====
-- update/update.go: the check that follows an update.
use mango_agent.Base.{
  true, Bool-cases, Option, none, some, List, [], ◌∷◌, Text, text_eq_refl, ◌≡◌, ◌⊎◌, refl, ap, inl,
  inr,
}
use mango_agent.Strings.{has_prefix}
use mango_agent.Update.Releases.{
  Release, Candidate, BuildTrack, snapshot_track, stable_track, detect_build_track, candidate_of,
  snapshot_version_prefix, select_latest_snapshot_release, snapshot_needs_update,
  expected_asset_name, split_repo_slug,
}
use mango_agent.Update.Check.{
  Host, nothing_to_do, CheckOutcome, install, update_from, check_list, check_slug,
  check_and_update_snapshot, current_executable_path, check_and_update,
}
use mango_agent.Update.Latest.{IsCandidate, IsFrom, select_latest_snapshot_release-IsLatest}

-- A candidate has a tag of the snapshot track.
candidate-prefix :
    (asset_name : Text) (r : Release) (c : Candidate)
    → IsCandidate asset_name r c
    → has_prefix c.tag_name snapshot_version_prefix ≡ true
unfolding candidate_of
candidate-prefix asset_name r c h = let e = h.is_candidate in rw⁻¹ e h.prefixed

IsFrom-prefix :
    (asset_name : Text) (rs : List Release) (c : Candidate)
    → IsFrom asset_name rs c
    → has_prefix c.tag_name snapshot_version_prefix ≡ true
IsFrom-prefix asset_name [] c h = absurd h
IsFrom-prefix asset_name (r ∷ rs) c (inl e) = candidate-prefix asset_name r c e
IsFrom-prefix asset_name (r ∷ rs) c (inr f) = IsFrom-prefix asset_name rs c f

module _ (host : Host) (current : Text) (c : Candidate) (path : Text) where
  abbrev Stopped : CheckOutcome → Type 0
  Stopped o = (o ≡ (none, nothing_to_do)) × (has_prefix c.tag_name snapshot_version_prefix ≡ true)

  abbrev Stops : (Text → CheckOutcome) → Type 0
  Stops check = (check current).0 ≡ some (c, path) → Stopped (check c.tag_name)

  install_lem : (l : Candidate) (p : Option Text) → (install host l p).0 ≡ some (c, path) → l ≡ c
  unfolding install
  install_lem l none h = cc
  install_lem l (some p) h = cc

  update_from_lem :
      (o : Option Candidate) → (update_from host current o).0 ≡ some (c, path) → o ≡ some c
  unfolding update_from
  update_from_lem none h = cc
  update_from_lem (some l) h = elim (Bool-cases (snapshot_needs_update current l)) [
    | inl needs ↦ ap some (install_lem l (current_executable_path host) (simp needs at h))
    | inr same ↦ cc (simp same at h)
  ]

  update_from_again : update_from host c.tag_name (some c) ≡ (none, nothing_to_do)
  unfolding update_from snapshot_needs_update
  update_from_again = rw text_eq_refl refl

  check_list-Stops : (o : Option (List Release)) → Stops (λ t. check_list host t o)
  unfolding check_list
  check_list-Stops none h = cc
  check_list-Stops (some rs) h =
      let asset_name = expected_asset_name host.goos host.goarch in
      let e = update_from_lem (select_latest_snapshot_release rs asset_name) h in
      let latest = (select_latest_snapshot_release-IsLatest rs asset_name).0 c e in
      (rw e update_from_again, IsFrom-prefix asset_name rs c latest.0)

  check_slug-Stops : (o : Option (Text × Text)) → Stops (λ t. check_slug host t o)
  check_slug-Stops none h = cc
  check_slug-Stops (some r) h = check_list-Stops _ h

  snapshot-Stops : (repo : Text) → Stops (check_and_update_snapshot host repo)
  unfolding check_and_update_snapshot
  snapshot-Stops repo h = elim (Bool-cases host.is_container) [
    | inl container ↦ cc (simp container at h)
    | inr bare ↦ simp bare (check_slug-Stops (split_repo_slug repo) (simp bare at h))
  ]

track-cases : (t : BuildTrack) → (t ≡ snapshot_track) ⊎ (t ≡ stable_track)
track-cases snapshot_track = inl refl
track-cases stable_track = inr refl

snapshot_named :
    (t : Text) → has_prefix t snapshot_version_prefix ≡ true → detect_build_track t ≡ snapshot_track
unfolding detect_build_track
snapshot_named t h = simp h

-- After a check that installed a snapshot release, the agent that runs under that release's tag
-- finds nothing to do in a check on the same machine against the same list of releases.
pub check_and_update-again :
    (host : Host) (repo current : Text) (c : Candidate) (path : Text)
    → (check_and_update host repo current).0 ≡ some (c, path)
    → check_and_update host repo c.tag_name ≡ (none, nothing_to_do)
unfolding check_and_update
check_and_update-again host repo current c path h = elim (Bool-cases host.has_updater) [
  | inl made ↦ elim (track-cases (detect_build_track current)) [
    | inl snapshot ↦
        let (e, prefixed) = snapshot-Stops host current c path repo (simp (made, snapshot) at h) in
        simp (made, snapshot_named c.tag_name prefixed) e
    | inr stable ↦ cc (simp (made, stable) at h)
  ]
  | inr missing ↦ cc (simp missing at h)
]
